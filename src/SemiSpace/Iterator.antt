-- ===== src/SemiSpace/Iterator.antt =====
-- `RegionSemiSpace::iterator`: the pinned root, then from-space, then the large objects.
pub mod Order
use verona_rt_gc_bench.Base.{
  ℕ, zero, suc, ◌+◌, Bool, true, false, not, List, [], ◌∷◌, ltb, ◌==◌, ◌&&◌, if◌then◌else◌,
}
use verona_rt_gc_bench.Object.{Obj, Mem, is_trivial}
use verona_rt_gc_bench.SemiSpace.{Region}

pub data IteratorType : Type 0 where
  trivial non_trivial all_objects : IteratorType

-- The phase with the position in it: the address in from-space, or a large object with those behind.
pub data Iter : Type 0 where
  pinned_root : Iter
  from_space : ℕ → Iter
  large_objects : ℕ → List ℕ → Iter
  done : Iter

abbrev pub matches_filter : IteratorType → Obj → Bool
matches_filter trivial o = is_trivial o
matches_filter non_trivial o = not (is_trivial o)
matches_filter all_objects o = true

module _ (up : ℕ → ℕ) (type : IteratorType) (r : Region) (m : Mem) where
  pub skip_to_valid_large : List ℕ → Iter
  skip_to_valid_large [] = done
  skip_to_valid_large (lo ∷ los) =
      if matches_filter type (m lo) then large_objects lo los else skip_to_valid_large los

  -- From the address `p` on, on fuel.
  pub advance_from_space : ℕ → (p : ℕ) → Iter
  advance_from_space zero p = skip_to_valid_large r.large_objects
  advance_from_space (suc k) p =
      let rest = advance_from_space k (p + up (m p).size) in
      if ltb p r.alloc_ptr
      then (if matches_filter type (m p) then from_space p else rest)
      else skip_to_valid_large r.large_objects

  -- Enough fuel from any address of the space.
  abbrev pub advance : ℕ → Iter
  advance p = advance_from_space (suc r.alloc_ptr) p

  pub begin : Iter
  begin =
      if not (r.pinned_iso == 0) && matches_filter type (m r.pinned_iso)
      then pinned_root
      else advance r.from_space

  -- `operator++`
  pub next : Iter → Iter
  next pinned_root = advance r.from_space
  next (from_space a) = advance (a + up (m a).size)
  next (large_objects lo los) = skip_to_valid_large los
  next done = done

  -- The objects from a position to the end, on fuel: `*it`, then `++it`.
  pub visited : ℕ → Iter → List ℕ
  visited zero it = []
  visited (suc k) pinned_root = r.pinned_iso ∷ visited k (next pinned_root)
  visited (suc k) (from_space a) = a ∷ visited k (next (from_space a))
  visited (suc k) (large_objects lo los) = lo ∷ visited k (next (large_objects lo los))
  visited (suc k) done = []
