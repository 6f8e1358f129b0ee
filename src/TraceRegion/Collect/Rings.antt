-- ===== src/TraceRegion/Collect/Rings.antt =====
-- The sweep of both rings, the one that is not trivial first.
use mathlib.Core.List.{reverse, reverse-cons, append_assoc, append-nil}
use mathlib.Core.Path.{fun_ext}
use verona_rt_gc_bench.Base.{
  ℕ, ◌+◌, ◌≡◌, inl, inr, refl, Bool, true, false, not, ◌&&◌, List, [], ◌∷◌, ◌++◌, some, arith, ◌==◌,
  elem, ◌∈◌, ◌∉◌, select, Returns, returns, Returns-bind, Bool-cases, subst, eq_of_test, ◌∙◌, ap,
  Distinct, sym, elem-append, ◌>>=◌,
}
use verona_rt_gc_bench.Object.{Obj, Mem, is_marked, is_unmarked, Event, dealloc}
use verona_rt_gc_bench.TraceRegion.{size_t, drop_memory}
use verona_rt_gc_bench.TraceRegion.Collect.{
  Sweeping, finalise_events, destructor_events, destroy, sweep_ring,
}
use verona_rt_gc_bench.TraceRegion.Collect.Sweep.{
  bytes, HasSizes, live, dead, each, swept, IsRing, Walked, sweep_walk-Walked,
}

-- The end of an object that has waited for the finalisers of its ring.
abbrev pub death : Mem → ℕ → List Event
death m a = destructor_events m a ++ dealloc a ∷ []

-- What the sweep of two rings does, the first one not trivial.
abbrev pub ring_events : Mem → List ℕ → List ℕ → List Event
ring_events m first second =
    each (finalise_events m) (dead m first)
    ++ (each (death m) (reverse (dead m first)) ++ each (λ a. dealloc a ∷ []) (dead m second))

destroy-mem : (gc : List ℕ) (s : Sweeping) → (destroy gc s).mem ≡ s.mem
unfolding destroy
destroy-mem [] s = refl
destroy-mem (q ∷ gc) s = destroy-mem gc _

destroy-events :
    (gc : List ℕ) (s : Sweeping) → (destroy gc s).events ≡ s.events ++ each (death s.mem) gc
unfolding destroy
destroy-events [] s = sym (append-nil s.events)
destroy-events (q ∷ gc) s = destroy-events gc _ ∙ append_assoc s.events (death s.mem q) _

destroy-gc : (gc : List ℕ) (s : Sweeping) → (destroy gc s).gc ≡ []
unfolding destroy
destroy-gc [] s = refl
destroy-gc (q ∷ gc) s = destroy-gc gc _

pub bytes-append : (w : ℕ → ℕ) (xs ys : List ℕ) → bytes w (xs ++ ys) ≡ bytes w xs + bytes w ys
bytes-append w [] ys = omega arith
bytes-append w (x ∷ xs) ys = omega (arith, bytes-append w xs ys)

bytes-reverse : (w : ℕ → ℕ) (xs : List ℕ) → bytes w (reverse xs) ≡ bytes w xs
bytes-reverse w [] = refl
bytes-reverse w (x ∷ xs) =
    rw (reverse-cons x xs) (omega (arith, bytes-append w (reverse xs) (x ∷ []), bytes-reverse w xs))

destroy-used :
    (gc : List ℕ) (s : Sweeping) (w : ℕ → ℕ)
    → HasSizes s.mem w
    → size_t ((destroy gc s).used + bytes w gc) ≡ size_t s.used
unfolding destroy
destroy-used [] s w z = omega arith
destroy-used (q ∷ gc) s w z =
    let rest : size_t ((destroy (q ∷ gc) s).used + bytes w gc)
        ≡ size_t (drop_memory s.used (s.mem q).size) =
      destroy-used gc _ w z in
    omega (arith, rest, z q)

pub Distinct-parts :
    (xs ys : List ℕ) → Distinct (xs ++ ys) → Distinct xs × Distinct ys × ((a : ℕ) → a ∈ xs → a ∉ ys)
Distinct-parts [] ys d = (tt, d, λ a h. cc h)
Distinct-parts (x ∷ xs) ys d =
    let (dx, dy, apart) = Distinct-parts xs ys d.1 in
    (
      (ground (arith, d.0, elem-append x xs ys), dx),
      dy,
      λ a h. elim (Bool-cases (a == x)) [
        | inl e ↦
            subst (λ z. z ∉ ys) (sym (eq_of_test a x e)) (ground (arith, d.0, elem-append x xs ys))
        | inr n ↦ apart a (ground (arith, h, n))
      ],
    )

pub Distinct-join :
    (xs ys : List ℕ) → Distinct xs → Distinct ys → ((a : ℕ) → a ∈ xs → a ∉ ys) → Distinct (xs ++ ys)
Distinct-join [] ys dx dy apart = dy
Distinct-join (x ∷ xs) ys dx dy apart = (
  ground (arith, dx.0, apart x, elem-append x xs ys),
  Distinct-join xs ys dx.1 dy (λ a h. apart a (ground (arith, h))),
)

pub Distinct-swap : (xs ys : List ℕ) → Distinct (xs ++ ys) → Distinct (ys ++ xs)
Distinct-swap xs ys d =
    let (dx, dy, apart) = Distinct-parts xs ys d in
    Distinct-join ys xs dy dx (λ a h. ground (arith, h, apart a))

-- Memories that agree on a ring.
module _ (m m' : Mem) where
  abbrev pub Same : List ℕ → Type 0
  Same ring = (a : ℕ) → a ∈ ring → m' a ≡ m a

  pub IsRing-Same : (ring : List ℕ) → Same ring → IsRing m ring → IsRing m' ring
  IsRing-Same [] same h = tt
  IsRing-Same (x ∷ ring) same h = rw (same x (ground arith)) (elim h [
    | inl (c, rest) ↦ inl (c, IsRing-Same ring (λ a i. same a (ground (arith, i))) rest)
    | inr last ↦ inr last
  ])

  pub select-Same :
      (q : Obj → Bool) (ring : List ℕ)
      → Same ring
      → select (λ a. q (m' a)) ring ≡ select (λ a. q (m a)) ring
  select-Same q [] same = refl
  select-Same q (x ∷ ring) same =
      rw (same x (ground arith), select-Same q ring (λ a i. same a (ground (arith, i)))) refl

pub record Swept (first second : List ℕ) (m : Mem) (used₀ : ℕ) (kept : List ℕ × List ℕ)
    (s : Sweeping) : Type 0 where
  pub first_kept : kept.0 ≡ live m first
  pub second_kept : kept.1 ≡ live m second
  pub mem : (a : ℕ) → s.mem a ≡ swept (first ++ second) m a
  pub events : s.events ≡ ring_events m first second
  pub used :
      (w : ℕ → ℕ)
      → HasSizes m w
      → size_t (s.used + (bytes w (dead m first) + bytes w (dead m second)))
        ≡ size_t (used₀ + (bytes w (live m first) + bytes w (live m second)))

-- What the sweep of one ring adds to the events.
abbrev swept_ring : Bool → Mem → List ℕ → List Event
swept_ring true m ring = each (λ a. dealloc a ∷ []) (dead m ring)
swept_ring false m ring =
    each (finalise_events m) (dead m ring) ++ each (death m) (reverse (dead m ring))

record Ring (trivial : Bool) (ring : List ℕ) (s : Sweeping) (result : List ℕ × Sweeping)
    : Type 0 where
  pub kept : result.0 ≡ live s.mem ring
  pub mem : (a : ℕ) → result.1.mem a ≡ swept ring s.mem a
  pub gc : result.1.gc ≡ []
  pub events : result.1.events ≡ s.events ++ swept_ring trivial s.mem ring
  pub used :
      (w : ℕ → ℕ)
      → HasSizes s.mem w
      → size_t (result.1.used + bytes w (dead s.mem ring))
        ≡ size_t (s.used + bytes w (live s.mem ring))

-- Flags aside, an object is as before.
death-swept : (m : Mem) (ring : List ℕ) (a : ℕ) → death (swept ring m) a ≡ death m a
death-swept m ring a = elim (Bool-cases (elem a ring && is_marked (m a).cls)) [
  | inl e ↦ rw e refl
  | inr n ↦ rw n refl
]

finalise-swept :
    (m : Mem) (ring : List ℕ) (a : ℕ) → finalise_events (swept ring m) a ≡ finalise_events m a
finalise-swept m ring a = elim (Bool-cases (elem a ring && is_marked (m a).cls)) [
  | inl e ↦ rw e refl
  | inr n ↦ rw n refl
]

swept-HasSizes :
    (m : Mem) (ring : List ℕ) (w : ℕ → ℕ)
    → HasSizes m w
    → (m' : Mem) → ((a : ℕ) → m' a ≡ swept ring m a)
    → HasSizes m' w
swept-HasSizes m ring w z m' same a = (
  ap (λ (o : Obj). o.size) (same a) ∙ elim (Bool-cases (elem a ring && is_marked (m a).cls)) [
    | inl e ↦ rw e (z a).0
    | inr n ↦ rw n (z a).0
  ],
  (z a).1,
)

swept_out : (m : Mem) (ring : List ℕ) (a : ℕ) → a ∉ ring → swept ring m a ≡ m a
swept_out m ring a out = rw out refl

swept-swept :
    (m : Mem) (first second : List ℕ) (a : ℕ)
    → swept second (swept first m) a ≡ swept (first ++ second) m a
swept-swept m first second a = ground (arith, elem-append a first second)

module _ (reports : ℕ → List ℕ) (to_class : ℕ → ℕ) where
  Walked-Ring :
      (trivial : Bool) (ring : List ℕ) (s : Sweeping) (result : List ℕ × Sweeping)
      → s.gc ≡ []
      → Walked trivial ring s result
      → Ring trivial ring s (result.0, destroy result.1.gc result.1)
  Walked-Ring true ring s result empty w = record {
    kept = w.kept;
    mem = λ a. ap (λ (m : Mem). m a) (destroy-mem result.1.gc result.1) ∙ w.mem a;
    gc = destroy-gc result.1.gc result.1;
    events =
        destroy-events result.1.gc result.1
        ∙ ap (λ gc. result.1.events ++ each (death result.1.mem) gc) (w.gc ∙ empty)
        ∙ append-nil result.1.events
        ∙ w.events;
    used = λ v z.
        let after_walk = swept-HasSizes s.mem ring v z result.1.mem w.mem in
        omega (
          arith,
          destroy-used result.1.gc result.1 v after_walk,
          ap (bytes v) (w.gc ∙ empty),
          w.used v z,
        );
  }
  Walked-Ring false ring s result empty w =
      let waited : result.1.gc ≡ reverse (dead s.mem ring) =
        w.gc
        ∙ ap (λ gc. reverse (dead s.mem ring) ++ gc) empty
        ∙ append-nil (reverse (dead s.mem ring)) in
      let same : death result.1.mem ≡ death s.mem =
        ap death (fun_ext w.mem) ∙ fun_ext (death-swept s.mem ring) in
      record {
        kept = w.kept;
        mem = λ a. ap (λ (m : Mem). m a) (destroy-mem result.1.gc result.1) ∙ w.mem a;
        gc = destroy-gc result.1.gc result.1;
        events =
            destroy-events result.1.gc result.1
            ∙ ap (λ gc. result.1.events ++ each (death result.1.mem) gc) waited
            ∙ ap (λ f. result.1.events ++ each f (reverse (dead s.mem ring))) same
            ∙ ap (λ es. es ++ each (death s.mem) (reverse (dead s.mem ring))) w.events
            ∙ append_assoc s.events (each (finalise_events s.mem) (dead s.mem ring)) _;
        used = λ v z.
            let after_walk = swept-HasSizes s.mem ring v z result.1.mem w.mem in
            omega (
              arith,
              destroy-used result.1.gc result.1 v after_walk,
              ap (bytes v) waited,
              bytes-reverse v (dead s.mem ring),
              w.used v z,
            );
      }

  sweep_ring-Ring :
      (trivial : Bool) (ring : List ℕ) (s : Sweeping)
      → IsRing s.mem ring
      → Distinct ring
      → s.gc ≡ []
      → Returns (Ring trivial ring s) (sweep_ring reports to_class trivial false ring s)
  unfolding sweep_ring
  sweep_ring-Ring trivial ring s shape d empty =
      Returns-bind (sweep_walk-Walked reports trivial ring s shape d)
        (λ result w. returns (Walked-Ring trivial ring s result empty w))

  module _ (first second : List ℕ) (s : Sweeping) (shape₁ : IsRing s.mem first)
      (shape₂ : IsRing s.mem second) (d : Distinct (first ++ second)) (empty : s.gc ≡ [])
      (none_yet : s.events ≡ []) where
    out : (a : ℕ) → a ∈ second → a ∉ first
    out a i = let apart = (Distinct-parts first second d).2 in ground (arith, i, apart a)

    rings-Swept :
        (k₁ : List ℕ) (s₁ : Sweeping) (k₂ : List ℕ) (s₂ : Sweeping)
        → Ring false first s (k₁, s₁)
        → Ring true second s₁ (k₂, s₂)
        → Swept first second s.mem s.used (k₁, k₂) s₂
    rings-Swept k₁ s₁ k₂ s₂ w₁ w₂ =
        let same : Same s.mem s₁.mem second = λ a i. w₁.mem a ∙ swept_out s.mem first a (out a i) in
        record {
          first_kept = w₁.kept;
          second_kept =
              w₂.kept ∙ select-Same s.mem s₁.mem (λ o. not (is_unmarked o.cls)) second same;
          mem = λ a.
              w₂.mem a
              ∙ ap (λ (m : Mem). swept second m a) (fun_ext w₁.mem)
              ∙ swept-swept s.mem first second a;
          events =
              w₂.events
              ∙ ap (λ xs. s₁.events ++ each (λ a. dealloc a ∷ []) xs)
                  (select-Same s.mem s₁.mem (λ o. is_unmarked o.cls) second same)
              ∙ ap (λ es. es ++ each (λ a. dealloc a ∷ []) (dead s.mem second))
                  (w₁.events ∙ ap (λ es. es ++ swept_ring false s.mem first) none_yet)
              ∙ append_assoc (each (finalise_events s.mem) (dead s.mem first)) _ _;
          used = λ v z.
              let between = swept-HasSizes s.mem first v z s₁.mem w₁.mem in
              omega (
                arith,
                w₁.used v z,
                w₂.used v between,
                ap (bytes v) (select-Same s.mem s₁.mem (λ o. is_unmarked o.cls) second same),
                ap (bytes v) (select-Same s.mem s₁.mem (λ o. not (is_unmarked o.cls)) second same),
              );
        }

    pub sweep_rings :
        {B : Type 0} (Q : B → Type 0) (result : List ℕ → List ℕ → Sweeping → B)
        → ((k₁ k₂ : List ℕ) (t : Sweeping)
            → Swept first second s.mem s.used (k₁, k₂) t
            → Q (result k₁ k₂ t))
        → Returns Q (
            sweep_ring reports to_class false false first s >>= λ (k₁, s₁).
            sweep_ring reports to_class true false second s₁ >>= λ (k₂, s₂). some (result k₁ k₂ s₂))
    sweep_rings Q result f =
        let parts = Distinct-parts first second d in
        Returns-bind (sweep_ring-Ring false first s shape₁ parts.0 empty) λ r₁ w₁.
          Returns-bind
            (sweep_ring-Ring true second r₁.1
              (IsRing-Same s.mem r₁.1.mem second
                (λ a i. w₁.mem a ∙ swept_out s.mem first a (out a i)) shape₂)
              parts.1 w₁.gc)
            λ r₂ w₂. returns (f r₁.0 r₂.0 r₂.1 (rings-Swept r₁.0 r₁.1 r₂.0 r₂.1 w₁ w₂))
