-- ===== src/TraceRegion/Collect/History.antt =====
-- The events of one object among those of the sweep of two rings.
use mathlib.Core.List.{reverse, reverse-cons, append-nil}
use verona_rt_gc_bench.Base.{
  ℕ, ◌≡◌, inl, inr, refl, Bool, true, false, ◌&&◌, List, [], ◌∷◌, ◌++◌, arith, ◌==◌, elem, ◌∈◌, ◌∉◌,
  Bool-cases, subst, eq_of_test, ◌∙◌, ap, Distinct, elem-append, if◌then◌else◌, ==_self,
}
use verona_rt_gc_bench.Object.{Mem, is_unmarked, is_trivial, Event, finalise, destructor, dealloc}
use verona_rt_gc_bench.TraceRegion.Collect.{finalise_events, destructor_events}
use verona_rt_gc_bench.TraceRegion.Collect.Sweep.{dead, each}
use verona_rt_gc_bench.TraceRegion.Collect.Rings.{death, ring_events, Distinct-parts, Distinct-join}
use verona_rt_gc_bench.TraceRegion.Collect.Live.{elem-select, Distinct-select}

abbrev pub object_of : Event → ℕ
object_of (finalise a) = a
object_of (destructor a) = a
object_of (dealloc a) = a

-- The events of one object.
abbrev pub history : ℕ → List Event → List Event
history a [] = []
history a (e ∷ es) = if object_of e == a then e ∷ history a es else history a es

-- The whole end of an object.
abbrev pub end_of : Mem → ℕ → List Event
end_of m a = finalise_events m a ++ (destructor_events m a ++ dealloc a ∷ [])

history-append : (a : ℕ) (xs ys : List Event) → history a (xs ++ ys) ≡ history a xs ++ history a ys
history-append a [] ys = refl
history-append a (e ∷ xs) ys = elim (Bool-cases (object_of e == a)) [
  | inl h ↦ rw (h, history-append a xs ys) refl
  | inr h ↦ rw (h, history-append a xs ys) refl
]

elem-reverse : (a : ℕ) (xs : List ℕ) → elem a (reverse xs) ≡ elem a xs
elem-reverse a [] = refl
elem-reverse a (x ∷ xs) =
    rw (reverse-cons x xs) (ground (arith, elem-append a (reverse xs) (x ∷ []), elem-reverse a xs))

Distinct-reverse : (xs : List ℕ) → Distinct xs → Distinct (reverse xs)
Distinct-reverse [] d = tt
Distinct-reverse (x ∷ xs) d = rw (reverse-cons x xs) (
    Distinct-join (reverse xs) (x ∷ []) (Distinct-reverse xs d.1) (refl, tt)
      (λ a i. elim (Bool-cases (a == x)) [
        | inl e ↦ absurd (
            ground
              (arith, i, d.0, elem-reverse x xs, ap (λ z. elem z (reverse xs)) (eq_of_test a x e)))
        | inr n ↦ ground (arith, n)
      ]))

-- Events that each object has for itself.
module _ (a : ℕ) (f : ℕ → List Event) (own : history a (f a) ≡ f a)
    (apart : (b : ℕ) → (b == a) ≡ false → history a (f b) ≡ []) where
  history-out : (xs : List ℕ) → a ∉ xs → history a (each f xs) ≡ []
  history-out [] h = refl
  history-out (x ∷ xs) h =
      rw
        (
          history-append a (f x) (each f xs),
          apart x (ground (arith, h)),
          history-out xs (ground (arith, h)),
        )
        refl

  history-each :
      (xs : List ℕ) → Distinct xs → history a (each f xs) ≡ (if elem a xs then f a else [])
  history-each [] d = refl
  history-each (x ∷ xs) d = elim (Bool-cases (x == a)) [
    | inl e ↦
        let same : x ≡ a = eq_of_test x a e in
        rw
          (
            history-append a (f x) (each f xs),
            history-out xs (subst (λ z. z ∉ xs) same d.0),
            same,
            own,
            ==_self a,
          )
          (append-nil (f a))
    | inr n ↦
        rw (history-append a (f x) (each f xs), apart x n, history-each xs d.1) (ground (arith, n))
  ]

history-finalise :
    (m : Mem) (a b : ℕ)
    → history a (finalise_events m b) ≡ (if b == a then finalise_events m b else [])
history-finalise m a b = elim (Bool-cases (b == a)) [
  | inl e ↦ ground (arith, e)
  | inr n ↦ ground (arith, n)
]

history-death : (m : Mem) (a b : ℕ) → history a (death m b) ≡ (if b == a then death m b else [])
history-death m a b = elim (Bool-cases (b == a)) [
  | inl e ↦ ground (arith, e)
  | inr n ↦ ground (arith, n)
]

history-dealloc : (a b : ℕ) → history a (dealloc b ∷ []) ≡ (if b == a then dealloc b ∷ [] else [])
history-dealloc a b = refl

both_parts :
    (b : Bool) (xs ys : List Event)
    → (if b then xs else []) ++ ((if b then ys else []) ++ []) ≡ (if b then xs ++ ys else [])
both_parts true xs ys = ap (λ z. xs ++ z) (append-nil ys)
both_parts false xs ys = refl

-- The trivial objects have neither a finaliser nor a destructor.
trivial_end : (m : Mem) (a : ℕ) → is_trivial (m a) ≡ true → dealloc a ∷ [] ≡ end_of m a
trivial_end m a h = ground (arith, h)

module _ (m : Mem) (first second : List ℕ) (d : Distinct (first ++ second))
    (plain : (a : ℕ) → a ∈ second → is_trivial (m a) ≡ true) where
  dead_first : Distinct (dead m first)
  dead_first = Distinct-select _ first (Distinct-parts first second d).0

  dead_other : Distinct (dead m second)
  dead_other = Distinct-select _ second (Distinct-parts first second d).1

  history_events :
      (a : ℕ)
      → history a (ring_events m first second)
        ≡ (if elem a (dead m first) then finalise_events m a else [])
          ++ ((if elem a (dead m first) then death m a else [])
              ++ (if elem a (dead m second) then dealloc a ∷ [] else []))
  history_events a =
      rw
        (
          history-append a (each (finalise_events m) (dead m first)) (
              each (death m) (reverse (dead m first))
              ++ each (λ b. dealloc b ∷ []) (dead m second)),
          history-append a (each (death m) (reverse (dead m first)))
              (each (λ b. dealloc b ∷ []) (dead m second)),
          history-each a (finalise_events m) (ground (arith, history-finalise m a a))
              (λ b n. ground (arith, history-finalise m a b, n)) (dead m first) dead_first,
          history-each a (death m) (ground (arith, history-death m a a))
              (λ b n. ground (arith, history-death m a b, n)) (reverse (dead m first))
              (Distinct-reverse (dead m first) dead_first),
          history-each a (λ b. dealloc b ∷ []) (ground arith) (λ b n. ground (arith, n))
              (dead m second) dead_other,
          elem-reverse a (dead m first),
        )
        refl

  pub history-ring_events :
      (a : ℕ)
      → history a (ring_events m first second)
        ≡ (if elem a (first ++ second) && is_unmarked (m a).cls then end_of m a else [])
  history-ring_events a = history_events a ∙ (elim (Bool-cases (elem a first)) [
    | inl i ↦
        let out : a ∉ second = (Distinct-parts first second d).2 a i in
        rw
          (
            elem-select (λ b. is_unmarked (m b).cls) first a,
            elem-select (λ b. is_unmarked (m b).cls) second a,
            elem-append a first second,
            i,
            out,
          )
          (both_parts (is_unmarked (m a).cls) (finalise_events m a) (death m a))
    | inr n ↦ elim (Bool-cases (elem a second)) [
      | inl i ↦
          rw
            (
              elem-select (λ b. is_unmarked (m b).cls) first a,
              elem-select (λ b. is_unmarked (m b).cls) second a,
              elem-append a first second,
              n,
              i,
            )
            (ap (λ z. if is_unmarked (m a).cls then z else []) (trivial_end m a (plain a i)))
      | inr k ↦
          rw
            (
              elem-select (λ b. is_unmarked (m b).cls) first a,
              elem-select (λ b. is_unmarked (m b).cls) second a,
              elem-append a first second,
              n,
              k,
            )
            refl
    ]
  ])
