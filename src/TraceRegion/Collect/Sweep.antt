-- ===== src/TraceRegion/Collect/Sweep.antt =====
-- The walk of a ring by the sweep, against the lists of its live and its dead objects.
use mathlib.Core.List.{reverse, reverse-cons, append_assoc, append-nil}
use mathlib.Core.Path.{fun_ext}
use verona_rt_gc_bench.Base.{
  ℕ, ◌+◌, ◌<◌, ◌≡◌, ◌⊎◌, inl, inr, refl, Bool, true, false, not, ◌&&◌, ◌||◌, List, [], ◌∷◌, ◌++◌,
  arith, ◌==◌, elem, ◌∉◌, select, Returns, returns, Returns-bind, Bool-cases, subst, eq_of_test,
  ==_self, ◌∙◌, ap, Distinct, if◌then◌else◌, sym,
}
use verona_rt_gc_bench.Object.{
  unmarked, marked, scc_ptr, rc, iso, shared, pending, nonatomic_rc, open_iso, RegionMd, Obj, Mem,
  write, unmark, is_marked, is_unmarked, Event, dealloc,
}
use verona_rt_gc_bench.TraceRegion.Collect.{Sweeping, finalise_events, sweep_object, sweep_walk}
use verona_rt_gc_bench.TraceRegion.{use_memory, size_t}
use verona_rt_gc_bench.TraceRegion.Collect.Mark.{unmarked_of_test}

abbrev pub live : Mem → List ℕ → List ℕ
live m ring = select (λ a. not (is_unmarked (m a).cls)) ring

abbrev pub dead : Mem → List ℕ → List ℕ
dead m ring = select (λ a. is_unmarked (m a).cls) ring

abbrev pub each : (ℕ → List Event) → List ℕ → List Event
each f [] = []
each f (a ∷ objs) = f a ++ each f objs

-- What a sweep of a dead object adds to the events at once.
abbrev pub swept_events : Bool → Mem → ℕ → List Event
swept_events true m a = dealloc a ∷ []
swept_events false m a = finalise_events m a

-- What has become of an object when the ring has been walked.
abbrev pub swept : List ℕ → Mem → ℕ → Obj
swept ring m a = if elem a ring && is_marked (m a).cls then unmark (m a) else m a

-- The sum of the sizes of the objects.
abbrev pub bytes : (ℕ → ℕ) → List ℕ → ℕ
bytes w [] = 0
bytes w (a ∷ objs) = w a + bytes w objs

-- The sizes that a memory has, each of them 64 bits wide.
abbrev pub HasSizes : Mem → (ℕ → ℕ) → Type 0
HasSizes m w = (a : ℕ) → ((m a).size ≡ w a) × (w a < 18446744073709551616)

-- Marked and unmarked objects, and an iso object at the end at most.
abbrev pub IsRing : Mem → List ℕ → Type 0
IsRing m [] = Unit
IsRing m (p ∷ ring) =
    (((is_marked (m p).cls || is_unmarked (m p).cls) ≡ true) × IsRing m ring)
    ⊎ (((m p).cls ≡ iso) × (ring ≡ []))

pub record Walked (trivial : Bool) (ring : List ℕ) (s : Sweeping) (result : List ℕ × Sweeping)
    : Type 0 where
  pub kept : result.0 ≡ live s.mem ring
  pub mem : (a : ℕ) → result.1.mem a ≡ swept ring s.mem a
  pub gc : result.1.gc ≡ (if trivial then s.gc else reverse (dead s.mem ring) ++ s.gc)
  pub events : result.1.events ≡ s.events ++ each (swept_events trivial s.mem) (dead s.mem ring)
  pub used :
      (w : ℕ → ℕ)
      → HasSizes s.mem w
      → size_t (result.1.used + (if trivial then bytes w (dead s.mem ring) else 0))
        ≡ size_t (s.used + bytes w (live s.mem ring))

select-out :
    (q : Obj → Bool) (m : Mem) (p : ℕ) (o : Obj) (xs : List ℕ)
    → p ∉ xs
    → select (λ a. q (write m p o a)) xs ≡ select (λ a. q (m a)) xs
select-out q m p o [] h = refl
select-out q m p o (x ∷ xs) h = ground (arith, select-out q m p o xs)

IsRing-out :
    (m : Mem) (p : ℕ) (o : Obj) (ring : List ℕ)
    → p ∉ ring
    → IsRing m ring
    → IsRing (write m p o) ring
IsRing-out m p o [] out h = tt
IsRing-out m p o (x ∷ ring) out h =
    let n : (p == x) ≡ false = ground (arith, out) in
    rw n (elim h [
      | inl (c, rest) ↦ inl (c, IsRing-out m p o ring (ground (arith, out)) rest)
      | inr last ↦ inr last
    ])

pub marked_of_test : (c : RegionMd) → is_marked c ≡ true → c ≡ marked
marked_of_test unmarked h = cc h
marked_of_test marked h = refl
marked_of_test scc_ptr h = cc h
marked_of_test rc h = cc h
marked_of_test iso h = cc h
marked_of_test pending h = cc h
marked_of_test nonatomic_rc h = cc h
marked_of_test shared h = cc h
marked_of_test open_iso h = cc h

if_same {ℓ} : {A : Type ℓ} (b : Bool) (x : A) → x ≡ (if b then x else x)
if_same true x = refl
if_same false x = refl

swept_events-unmark :
    (trivial : Bool) (m : Mem) (p a : ℕ)
    → swept_events trivial (write m p (unmark (m p))) a ≡ swept_events trivial m a
swept_events-unmark true m p a = refl
swept_events-unmark false m p a = elim (Bool-cases (p == a)) [
  | inl e ↦ rw (e, eq_of_test p a e) refl
  | inr n ↦ rw n refl
]

swept-marked :
    (m : Mem) (p : ℕ) (ring : List ℕ) (a : ℕ)
    → (m p).cls ≡ marked
    → p ∉ ring
    → swept ring (write m p (unmark (m p))) a ≡ swept (p ∷ ring) m a
swept-marked m p ring a e out = elim (Bool-cases (p == a)) [
  | inl i ↦
      subst (λ x. swept ring (write m p (unmark (m p))) x ≡ swept (p ∷ ring) m x) (eq_of_test p a i)
        (rw (out, ==_self p, e) refl)
  | inr n ↦ let n' : (a == p) ≡ false = ground (arith, n) in rw (n, n') refl
]

swept-unmarked :
    (m : Mem) (p : ℕ) (ring : List ℕ) (a : ℕ)
    → (m p).cls ≡ unmarked
    → p ∉ ring
    → swept ring m a ≡ swept (p ∷ ring) m a
swept-unmarked m p ring a e out = elim (Bool-cases (p == a)) [
  | inl i ↦
      subst (λ x. swept ring m x ≡ swept (p ∷ ring) m x) (eq_of_test p a i)
        (rw (out, ==_self p, e) refl)
  | inr n ↦ let n' : (a == p) ≡ false = ground (arith, n) in rw n' refl
]

unmark-HasSizes :
    (m : Mem) (p : ℕ) (w : ℕ → ℕ) → HasSizes m w → HasSizes (write m p (unmark (m p))) w
unmark-HasSizes m p w z a = elim (Bool-cases (p == a)) [
  | inl e ↦ rw (e, eq_of_test p a e) (z a)
  | inr n ↦ rw n (z a)
]

module _ (reports : ℕ → List ℕ) where
  sweep_object-mem :
      (trivial : Bool) (p : ℕ) (s : Sweeping) → (sweep_object reports trivial p s).mem ≡ s.mem
  sweep_object-mem true p s = refl
  sweep_object-mem false p s = refl

  sweep_object-events :
      (trivial : Bool) (p : ℕ) (s : Sweeping)
      → (sweep_object reports trivial p s).events ≡ s.events ++ swept_events trivial s.mem p
  sweep_object-events true p s = refl
  sweep_object-events false p s = refl

  sweep_object-gc :
      (trivial : Bool) (p : ℕ) (s : Sweeping)
      → (sweep_object reports trivial p s).gc ≡ (if trivial then s.gc else p ∷ s.gc)
  sweep_object-gc true p s = refl
  sweep_object-gc false p s = refl

  root-Walked :
      (trivial : Bool) (p : ℕ) (s : Sweeping)
      → (s.mem p).cls ≡ iso
      → Returns (Walked trivial (p ∷ []) s) (sweep_walk reports trivial false (p ∷ []) s)
  unfolding sweep_walk
  root-Walked trivial p s e = rw e (
      returns (record {
        kept = rw e refl;
        mem = λ a. elim (Bool-cases (a == p)) [
          | inl i ↦
              let c : (s.mem a).cls ≡ iso = ap (λ x. (s.mem x).cls) (eq_of_test a p i) ∙ e in
              rw (i, c) refl
          | inr n ↦ rw n refl
        ];
        gc = rw e (if_same trivial s.gc);
        events = rw (e, append-nil) refl;
        used = λ w z. rw e (ground (arith, (z p).0));
      }))

  marked-Walked :
      (trivial : Bool) (p : ℕ) (ring : List ℕ) (s : Sweeping) (used : ℕ)
      (result : List ℕ × Sweeping)
      → used ≡ use_memory s.used (s.mem p).size
      → (s.mem p).cls ≡ marked
      → p ∉ ring
      → Walked trivial ring
          (record s { used = used; mem = write s.mem p (unmark (s.mem p)) })
          result
      → Walked trivial (p ∷ ring) s (p ∷ result.0, result.1)
  marked-Walked trivial p ring s used result u e out w =
      let m' = write s.mem p (unmark (s.mem p)) in
      let alive = select-out (λ o. not (is_unmarked o.cls)) s.mem p (unmark (s.mem p)) ring out in
      let lost = select-out (λ o. is_unmarked o.cls) s.mem p (unmark (s.mem p)) ring out in
      record {
        kept = rw e (ap (λ xs. p ∷ xs) (w.kept ∙ alive));
        mem = λ a. w.mem a ∙ swept-marked s.mem p ring a e out;
        gc = rw e (w.gc ∙ ap (λ xs. if trivial then s.gc else reverse xs ++ s.gc) lost);
        events = rw e (
            w.events
            ∙ ap (λ xs. s.events ++ each (swept_events trivial m') xs) lost
            ∙ ap (λ f. s.events ++ each f (dead s.mem ring))
                (fun_ext (swept_events-unmark trivial s.mem p)));
        used = λ v z. rw e (
            ground (
              arith,
              w.used v (unmark-HasSizes s.mem p v z),
              u,
              (z p).0,
              ap (bytes v) alive,
              ap (bytes v) lost,
            ));
      }

  unmarked-Walked :
      (trivial : Bool) (p : ℕ) (ring : List ℕ) (s : Sweeping) (result : List ℕ × Sweeping)
      → (s.mem p).cls ≡ unmarked
      → p ∉ ring
      → Walked trivial ring (sweep_object reports trivial p s) result
      → Walked trivial (p ∷ ring) s result
  unmarked-Walked true p ring s result e out w = record {
    kept = rw e w.kept;
    mem = λ a. w.mem a ∙ swept-unmarked s.mem p ring a e out;
    gc = w.gc;
    events = rw e (w.events ∙ append_assoc s.events (dealloc p ∷ []) _);
    used = λ v z. rw e (ground (arith, w.used v z, z p));
  }
  unmarked-Walked false p ring s result e out w = record {
    kept = rw e w.kept;
    mem = λ a. w.mem a ∙ swept-unmarked s.mem p ring a e out;
    gc = rw (e, reverse-cons) (w.gc ∙ sym (append_assoc (reverse (dead s.mem ring)) (p ∷ []) s.gc));
    events = rw e (w.events ∙ append_assoc s.events (finalise_events s.mem p) _);
    used = λ v z. rw e (w.used v z);
  }

  -- The walk of a ring, without the release of its root, fails no assertion and takes out exactly the
  -- objects without a mark.
  pub sweep_walk-Walked :
      (trivial : Bool) (ring : List ℕ) (s : Sweeping)
      → IsRing s.mem ring
      → Distinct ring
      → Returns (Walked trivial ring s) (sweep_walk reports trivial false ring s)
  unfolding sweep_walk
  sweep_walk-Walked trivial [] s shape d = returns (record {
    kept = refl;
    mem = λ a. refl;
    gc = if_same trivial s.gc;
    events = sym (append-nil s.events);
    used = λ w z. ground arith;
  })
  sweep_walk-Walked trivial (p ∷ ring) s (inr (e, last)) d =
      subst
        (λ xs. Returns (Walked trivial (p ∷ xs) s) (sweep_walk reports trivial false (p ∷ xs) s))
        (sym last) (root-Walked trivial p s e)
  sweep_walk-Walked trivial (p ∷ ring) s (inl (c, shape)) d =
      elim (Bool-cases (is_marked (s.mem p).cls)) [
        | inl k ↦
            let e = marked_of_test (s.mem p).cls k in
            let used = use_memory s.used (s.mem p).size in
            let s₁ : Sweeping = record s { used = used; mem = write s.mem p (unmark (s.mem p)) } in
            rw e (
              Returns-bind
                (sweep_walk-Walked trivial ring s₁
                  (IsRing-out s.mem p (unmark (s.mem p)) ring d.0 shape) d.1)
                (λ result w. returns (marked-Walked trivial p ring s used result refl e d.0 w)))
        | inr n ↦
            let e : (s.mem p).cls ≡ unmarked =
              unmarked_of_test (s.mem p).cls (ground (arith, c, n)) in
            let s₁ = sweep_object reports trivial p s in
            rw e (
              Returns-bind
                (sweep_walk-Walked trivial ring s₁
                  (subst (λ m. IsRing m ring) (sym (sweep_object-mem trivial p s)) shape) d.1)
                (λ result w. returns (unmarked-Walked trivial p ring s result e d.0 w)))
      ]
