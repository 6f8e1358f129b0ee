-- ===== src/ArenaRegion/Iterator/Order.antt =====
-- What the iterator of an arena region visits.
use verona_rt_gc_bench.Base.{
  ℕ, ◌+◌, ◌≡◌, ◌≤◌, sym, ap, ◌∙◌, Bool, if◌then◌else◌, List, [], ◌∷◌, ◌++◌, arith, All, length,
  length-append, select,
}
use mathlib.Core.List.{append_assoc}
use verona_rt_gc_bench.Object.{Mem}
use verona_rt_gc_bench.SemiSpace.Iterator.{
  IteratorType, trivial, non_trivial, all_objects, matches_filter,
}
use verona_rt_gc_bench.ArenaRegion.{Arena, Region}
use verona_rt_gc_bench.ArenaRegion.Layout.{Tiles-le, Content, IsArenas}
use verona_rt_gc_bench.ArenaRegion.Iterator.{
  wants_trivial, wants_non_trivial, forward, init_for_arena_or_ring, begin, visited,
}
use verona_rt_gc_bench.ArenaRegion.Iterator.Walk.{Yields, ring_visits}
use verona_rt_gc_bench.ArenaRegion.Iterator.Whole.{trivial_visits, non_trivial_visits, all_visits}

abbrev pub wanted : Bool → List ℕ → List ℕ
wanted b ps = if b then ps else []

-- The objects of the arenas that the kind selects.
abbrev pub in_arenas : IteratorType → List Content → List ℕ
in_arenas type [] = []
in_arenas type (c ∷ cs) =
    wanted (wants_trivial type) c.trivials
    ++ (wanted (wants_non_trivial type) c.non_trivials ++ in_arenas type cs)

-- Arenas with the contents cs, at places that are not 0, with objects of aligned sizes.
abbrev pub Walkable : (ℕ → ℕ) → Mem → List Arena → List Content → Type 0
Walkable align_up m arenas cs =
    IsArenas m arenas cs
    × All (λ a. 1 ≤ a.objects_begin) arenas
    × All
        (λ c.
          All (λ p. align_up (m p).size ≡ (m p).size) c.trivials
          × All (λ p. align_up (m p).size ≡ (m p).size) c.non_trivials)
        cs

module _ (align_up : ℕ → ℕ) (m : Mem) (ring : List ℕ) (nonzero : All (λ p. 1 ≤ p) ring) where
  walk_all :
      (type : IteratorType) (arenas : List Arena) (cs : List Content)
      → Walkable align_up m arenas cs
      → Yields type align_up m
          (length (in_arenas type cs) + length ring)
          (init_for_arena_or_ring type align_up m arenas ring)
          (in_arenas type cs ++ select (λ p. matches_filter type (m p)) ring)
  walk_all type [] [] w = λ k b. ring_visits type align_up m ring nonzero k (omega (arith, b))
  walk_all type [] (c ∷ cs) w = absurd w.0
  walk_all type (a ∷ rest) [] w = absurd w.0
  walk_all trivial (a ∷ rest) (c ∷ cs) w =
      let later = walk_all trivial rest cs (w.0.1, w.1.1, w.2.1) in
      let here =
        trivial_visits align_up m a rest ring _ _ w.1.0 c.trivials w.0.0.trivial_tiles w.2.0.0
          later in
      λ k b.
        here k (omega (arith, b, length-append c.trivials (in_arenas trivial cs)))
        ∙ sym (append_assoc c.trivials (in_arenas trivial cs) _)
  walk_all non_trivial (a ∷ rest) (c ∷ cs) w =
      let later = walk_all non_trivial rest cs (w.0.1, w.1.1, w.2.1) in
      let low = Tiles-le m c.trivials _ _ w.0.0.trivial_tiles in
      let here =
        non_trivial_visits align_up m a rest ring _ _ w.1.0 c.non_trivials
          (omega (arith, low, w.0.0.gap)) w.0.0.non_trivial_tiles w.2.0.1 later in
      λ k b.
        here k (omega (arith, b, length-append c.non_trivials (in_arenas non_trivial cs)))
        ∙ sym (append_assoc c.non_trivials (in_arenas non_trivial cs) _)
  walk_all all_objects (a ∷ rest) (c ∷ cs) w =
      let later = walk_all all_objects rest cs (w.0.1, w.1.1, w.2.1) in
      let here = all_visits align_up m a rest ring _ _ w.1.0 c w.0.0 w.2.0.0 w.2.0.1 later in
      λ k b.
        here k (
          omega (
            arith,
            b,
            length-append c.trivials (c.non_trivials ++ in_arenas all_objects cs),
            length-append c.non_trivials (in_arenas all_objects cs),
          ))
        ∙ sym (
            append_assoc c.trivials (c.non_trivials ++ in_arenas all_objects cs) _
            ∙ ap (λ x. c.trivials ++ x) (append_assoc c.non_trivials (in_arenas all_objects cs) _))

-- From begin to the end the iterator of an arena region visits the objects that its kind selects,
-- arena by arena from the first one, in each the trivial objects and then the others, and then
-- those large objects in the order of the ring; with fuel for their number and that of the large
-- objects it stops. No object is at address 0, and the sizes of those in arenas are aligned.
pub iterator-in_arenas :
    (type : IteratorType) (align_up : ℕ → ℕ) (m : Mem) (r : Region) (cs : List Content)
    → All (λ p. 1 ≤ p) r.large
    → Walkable align_up m (forward r.arenas) cs
    → (k : ℕ) → length (in_arenas type cs) + length r.large ≤ k
    → visited type align_up m k (begin type align_up m r)
      ≡ in_arenas type cs ++ select (λ p. matches_filter type (m p)) r.large
iterator-in_arenas type align_up m r cs nonzero w k b =
    walk_all align_up m r.large nonzero type (forward r.arenas) cs w k b
