-- ===== src/SemiSpace/Collect/Destroyed.antt =====
-- Which objects of from-space a collection destroys, and how often.
use mathlib.Core.Option
use native.Mathlib.Nat.{zero-add}
use mathlib.Core.Path.{ap₂}
use verona_rt_gc_bench.Base.{
  Option, ℕ, ◌+◌, ◌-◌, ◌≤◌, ◌≡◌, refl, Bool, true, false, not, List, [], ◌∷◌, ◌++◌, arith, ◌==◌,
  elem, ◌∈◌, ◌∉◌, Bool-cases, if◌then◌else◌, ◌∙◌, ap, inl, inr, Returns, returns, Distinct, select,
  subst, eq_of_test,
}
use verona_rt_gc_bench.Object.{Mem, is_marked, is_trivial}
use verona_rt_gc_bench.SemiSpace.{
  Region, Event, finalise, destructor, dealloc, is_in_space, is_forwarded, from_objects,
}
use verona_rt_gc_bench.SemiSpace.Layout.{Tiled-sizes, objects-Tiled}
use verona_rt_gc_bench.SemiSpace.Collect.{
  Gc, Sweep, finalise_events, destructor_events, death_events, sweep_large_object, sweep_large,
  each, sweep_from_space, finish, gc,
}
use verona_rt_gc_bench.SemiSpace.Collect.Heap.{IsHeap, Reach}
use verona_rt_gc_bench.SemiSpace.Collect.Targets.{Copied-target}
use verona_rt_gc_bench.SemiSpace.Collect.Trace.Copy.{object_place, objects-Distinct}
use verona_rt_gc_bench.SemiSpace.Collect.Trace.Loop.{Exact, trace_all-Exact}
use verona_rt_gc_bench.SemiSpace.Collect.Moved.{final_from}

-- How often the destructor of `a` runs.
abbrev pub destructions : ℕ → List Event → ℕ
destructions a [] = 0
destructions a (destructor b ∷ es) = (if b == a then 1 else 0) + destructions a es
destructions a (_ ∷ es) = destructions a es

destructions-append :
    (a : ℕ) (xs ys : List Event) → destructions a (xs ++ ys) ≡ destructions a xs + destructions a ys
destructions-append a [] ys = omega arith
destructions-append a (destructor b ∷ xs) ys = omega (arith, destructions-append a xs ys)
destructions-append a (finalise b ∷ xs) ys = destructions-append a xs ys
destructions-append a (dealloc b ∷ xs) ys = destructions-append a xs ys

destructions-sweep_large :
    (r : Region) (los : List ℕ) (s : Sweep) (a : ℕ)
    → a ∉ los
    → destructions a (sweep_large r los s).events ≡ destructions a s.events
unfolding sweep_large sweep_large_object
destructions-sweep_large r [] s a h = refl
destructions-sweep_large r (lo ∷ los) s a h = ground (
  arith,
  destructions-sweep_large r los (sweep_large_object r lo s) a,
  destructions-append a s.events (death_events s.mem lo),
)

module _ (m : Mem) (a : ℕ) where
  abbrev finalised : ℕ → List Event
  finalised b = if is_trivial (m b) then [] else finalise_events m b

  abbrev destructed : ℕ → List Event
  destructed b = if is_trivial (m b) then [] else destructor_events m b

  destructions-finalised : (xs : List ℕ) → destructions a (each finalised xs) ≡ 0
  unfolding each
  destructions-finalised [] = refl
  destructions-finalised (b ∷ xs) =
      ground
        (arith, destructions-append a (finalised b) (each finalised xs), destructions-finalised xs)

  destructions-destructed_out :
      (p : ℕ → Bool) (xs : List ℕ) → a ∉ xs → destructions a (each destructed (select p xs)) ≡ 0
  unfolding each
  destructions-destructed_out p [] h = refl
  destructions-destructed_out p (b ∷ xs) h = ground (
    arith,
    destructions-append a (destructed b) (each destructed (select p xs)),
    destructions-destructed_out p xs,
  )

  destructions-destructed :
      (p : ℕ → Bool) (xs : List ℕ)
      → Distinct xs
      → a ∈ xs
      → destructions a (each destructed (select p xs))
        ≡ (if p a then (if (m a).has_destructor then 1 else 0) else 0)
  unfolding each
  destructions-destructed p [] d h = ground arith
  destructions-destructed p (b ∷ xs) d h = elim (Bool-cases (b == a)) [
    | inl e ↦
        let out : a ∉ xs = subst (λ x. x ∉ xs) (eq_of_test b a e) d.0 in
        ground (
          arith,
          destructions-append a (destructed b) (each destructed (select p xs)),
          destructions-destructed_out p xs out,
        )
    | inr n ↦ ground (
      arith,
      destructions-append a (destructed b) (each destructed (select p xs)),
      destructions-destructed p xs d.1,
    )
  ]

destructions-sweep_from_space :
    (m : Mem) (a : ℕ) (xs : List ℕ)
    → Distinct xs
    → a ∈ xs
    → destructions a (sweep_from_space m xs)
      ≡ (if not (is_forwarded m a) then (if (m a).has_destructor then 1 else 0) else 0)
unfolding sweep_from_space
destructions-sweep_from_space m a xs d h =
    let dead = select (λ b. not (is_forwarded m b)) xs in
    destructions-append a (each (finalised m a) dead) (each (destructed m a) dead)
    ∙ rw (destructions-finalised m a dead, zero-add)
        (destructions-destructed m a (λ b. not (is_forwarded m b)) xs d h)

module _ (up : ℕ → ℕ) (grows : (n : ℕ) → n ≤ up n) (r : Region) (m₀ : Mem) (root : ℕ)
    (objs : List ℕ) (heap : IsHeap up r m₀ root objs)
    (large_out : (a : ℕ)
      → a ∈ r.large_objects
      → (is_in_space a r.from_space r.semispace_size ≡ false)
        × (is_in_space a r.to_space r.semispace_size ≡ false)
        × ((a == root) ≡ false)) where
  inside : (a : ℕ) → a ∈ objs → is_in_space a r.from_space r.semispace_size ≡ true
  inside a h = (object_place up grows r m₀ root objs heap a h).1

  module _ (g : Gc) (e : Exact up grows r m₀ root objs heap g) where
    abbrev m : Mem
    m = (finish up r root g).mem

    -- Headers of from-space aside, its objects are as before the collection.
    as_before :
        (a : ℕ)
        → a ∈ objs
        → ((m a).size ≡ (m₀ a).size)
          × ((m a).has_destructor ≡ (m₀ a).has_destructor)
          × (is_forwarded m a ≡ is_marked (g.mem a).cls)
    as_before a h =
        let same = final_from up grows r m₀ root objs heap large_out g e a (inside a h) in
        elim (Bool-cases (is_marked (g.mem a).cls)) [
          | inl y ↦
              let old : a ∈ e.olds = ground (arith, e.inv.known a h y) in
              let copy =
                Copied-target up grows r m₀ root objs heap g.mem e.olds r.to_space g.free a
                  e.inv.scanned old in
              rw (same, copy.2) (refl, refl, refl)
          | inr n ↦ rw (same, e.inv.kept a h n) (refl, refl, refl)
        ]

    walk : from_objects up r m ≡ objs
    walk =
        objects-Tiled up grows m (r.alloc_ptr - r.from_space) objs r.from_space r.alloc_ptr
          (Tiled-sizes up m₀ m objs r.from_space r.alloc_ptr (λ a h. (as_before a h).0) heap.tiled)
          (omega arith)

    not_large : (a : ℕ) → a ∈ objs → a ∉ r.large_objects
    not_large a h = elim (Bool-cases (elem a r.large_objects)) [
      | inl i ↦ cc (inside a h, (large_out a i).0)
      | inr o ↦ o
    ]

    destructions-finish :
        (a : ℕ)
        → a ∈ objs
        → destructions a (finish up r root g).events
          ≡ (if is_marked (g.mem a).cls then 0 else if (m₀ a).has_destructor then 1 else 0)
    unfolding finish
    destructions-finish a h =
        let (_, destructor_same, mark_same) = as_before a h in
        destructions-append a (sweep_large r r.large_objects _).events _
        ∙ ap₂ ◌+◌ (destructions-sweep_large r r.large_objects _ a (not_large a h)) (
            ap (λ xs. destructions a (sweep_from_space m xs)) walk
            ∙ destructions-sweep_from_space m a objs (objects-Distinct up grows r m₀ root objs heap)
                h)
        ∙ rw (destructor_same, mark_same) (ground arith)

  -- On a well-formed heap, with the large objects outside both spaces, an object of from-space that
  -- the root does not reach through from-space is destructed once, if it has a destructor, and one
  -- that the root so reaches is not destructed.
  pub gc-destructions :
      root ≡ r.pinned_iso
      → Returns
          (λ c.
            (a : ℕ)
            → a ∈ objs
            → (Reach m₀ root objs a → destructions a c.events ≡ 0)
              × (¬ Reach m₀ root objs a
                  → destructions a c.events ≡ (if (m₀ a).has_destructor then 1 else 0)))
          (gc up r m₀ root)
  unfolding gc
  gc-destructions pinned =
      let same : (root == r.pinned_iso) ≡ true = ground arith in
      rw same (map_Returns (trace_all-Exact up grows r m₀ root objs heap))
    where
      split :
          (g : Gc) (e : Exact up grows r m₀ root objs heap g) (a : ℕ)
          → a ∈ objs
          → (Reach m₀ root objs a → destructions a (finish up r root g).events ≡ 0)
            × (¬ Reach m₀ root objs a
                → destructions a (finish up r root g).events
                  ≡ (if (m₀ a).has_destructor then 1 else 0))
      split g e a h = (
        λ reached. destructions-finish g e a h ∙ rw ((e.marked_iff a h).1 reached),
        λ lost. elim (Bool-cases (is_marked (g.mem a).cls)) [
          | inl y ↦ absurd (lost ((e.marked_iff a h).0 y))
          | inr n ↦ destructions-finish g e a h ∙ rw n
        ],
      )

      map_Returns :
          {t : Option Gc}
          → Returns (Exact up grows r m₀ root objs heap) t
          → Returns
              (λ c.
                (a : ℕ)
                → a ∈ objs
                → (Reach m₀ root objs a → destructions a c.events ≡ 0)
                  × (¬ Reach m₀ root objs a
                      → destructions a c.events ≡ (if (m₀ a).has_destructor then 1 else 0)))
              (Option.map (finish up r root) t)
      map_Returns (returns e) = returns (split _ e)
