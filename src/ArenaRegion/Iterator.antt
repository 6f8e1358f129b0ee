-- ===== src/ArenaRegion/Iterator.antt =====
-- The iterator of an arena region: src/rt/region/region_arena.h. A position has the arenas from the
-- current one on and the ring behind the position; 0 is the null pointer.
pub mod Walk
pub mod Whole
pub mod Order
use verona_rt_gc_bench.Base.{
  ℕ, zero, suc, ◌+◌, Bool, true, false, not, ◌&&◌, ◌==◌, if◌then◌else◌, List, [], ◌∷◌, ◌++◌,
}
use verona_rt_gc_bench.Object.{Mem}
use verona_rt_gc_bench.SemiSpace.Iterator.{
  IteratorType, trivial, non_trivial, all_objects, matches_filter,
}
use verona_rt_gc_bench.ArenaRegion.{Arena, Region, non_trivial_end}

pub record Position : Type 0 where
  pub arenas : List Arena
  pub ring : List ℕ
  pub ptr : ℕ

abbrev pub wants_trivial : IteratorType → Bool
wants_trivial non_trivial = false
wants_trivial _ = true

abbrev pub wants_non_trivial : IteratorType → Bool
wants_non_trivial trivial = false
wants_non_trivial _ = true

-- From first_arena to last_arena.
abbrev pub forward : List Arena → List Arena
forward [] = []
forward (a ∷ rest) = forward rest ++ a ∷ []

module _ (type : IteratorType) (align_up : ℕ → ℕ) (m : Mem) where
  -- What follows an object of the arena that ends at q; 0 at the end.
  abbrev pub after_object : Arena → ℕ → ℕ
  after_object a q = elim type [
    | trivial ↦ if q == a.objects_end then 0 else q
    | non_trivial ↦ if q == non_trivial_end a then 0 else q
    | all_objects ↦
        if not (q == a.objects_end) && not (q == non_trivial_end a)
        then q
        else if (q == a.objects_end) && not (a.non_trivial_begin == non_trivial_end a)
        then a.non_trivial_begin
        else 0
  ]

  abbrev pub next_in_arena : Arena → ℕ → ℕ
  next_in_arena a p = after_object a (p + align_up (m p).size)

  -- The first object of the arenas, and the arenas from its own on.
  abbrev pub first_in_arena_list : List Arena → ℕ × List Arena
  first_in_arena_list [] = (0, [])
  first_in_arena_list (a ∷ rest) =
      let later = first_in_arena_list rest in
      if wants_trivial type && not (a.objects_begin == a.objects_end)
      then (a.objects_begin, a ∷ rest)
      else if wants_non_trivial type && not (a.non_trivial_begin == non_trivial_end a)
      then (a.non_trivial_begin, a ∷ rest)
      else later

  -- The first object of the ring that the kind selects, and the ring behind it.
  abbrev pub next_in_ring : List ℕ → ℕ × List ℕ
  next_in_ring [] = (0, [])
  next_in_ring (q ∷ ring) =
      let later = next_in_ring ring in if matches_filter type (m q) then (q, ring) else later

  abbrev pub in_ring : List ℕ → Position
  in_ring ring = let (q, rest) = next_in_ring ring in record { arenas = []; ring = rest; ptr = q }

  abbrev pub init_for_arena_or_ring : List Arena → List ℕ → Position
  init_for_arena_or_ring arenas ring =
      let (p, found) = first_in_arena_list arenas in
      if p == 0 then in_ring ring else record { arenas = found; ring = ring; ptr = p }

  -- `begin()`
  abbrev pub begin : Region → Position
  begin r = init_for_arena_or_ring (forward r.arenas) r.large

  -- `operator++`, for a position in the arenas or in the ring
  abbrev pub advance : List Arena → List ℕ → ℕ → Position
  advance [] ring p = in_ring ring
  advance (a ∷ rest) ring p =
      let q = next_in_arena a p in
      if q == 0
      then init_for_arena_or_ring rest ring
      else record { arenas = a ∷ rest; ring = ring; ptr = q }

  unfoldable pub next : Position → Position
  next it = advance it.arenas it.ring it.ptr

  -- The objects from a position to the end, on fuel.
  unfoldable pub visited : ℕ → Position → List ℕ
  visited zero it = []
  visited (suc k) it = let rest = visited k (next it) in if it.ptr == 0 then [] else it.ptr ∷ rest
