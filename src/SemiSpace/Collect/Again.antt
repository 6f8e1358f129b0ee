-- ===== src/SemiSpace/Collect/Again.antt =====
-- The heap after a collection, as the next one finds it.
use mathlib.Core.Option
use verona_rt_gc_bench.Base.{Option, ℕ, ◌+◌, ◌≤◌, ◌≡◌, length, false, List, ◌==◌, ◌∈◌}
use verona_rt_gc_bench.Object.{Mem}
use verona_rt_gc_bench.SemiSpace.{Region, is_in_space}
use verona_rt_gc_bench.SemiSpace.Collect.{Gc, Collected}
use verona_rt_gc_bench.SemiSpace.Collect.Heap.{IsHeap, Reach}
use verona_rt_gc_bench.SemiSpace.Collect.Trace.Loop.{Exact}
use verona_rt_gc_bench.SemiSpace.Collect.Moved.{qs, forward, result}

-- A list of objects with which the heap after the collection is well-formed, each of them the copy
-- of an object that the root reached, and as many as the region counts besides the large objects.
pub record IsAgain (up : ℕ → ℕ) (m₀ : Mem) (root : ℕ) (objs : List ℕ) (c : Collected) : Type 0 where
  pub live : List ℕ
  pub heap : IsHeap up c.region c.mem root live
  pub only : (q : ℕ) → q ∈ live → (a : ℕ) × Reach m₀ root objs a × ((c.mem q).size ≡ (m₀ a).size)
  pub counted : c.region.region_size ≡ 1 + length live + length c.region.large_objects

module _ (up : ℕ → ℕ) (grows : (n : ℕ) → n ≤ up n) (r : Region) (m₀ : Mem) (root : ℕ)
    (objs : List ℕ) (heap : IsHeap up r m₀ root objs)
    (large_out : (a : ℕ)
      → a ∈ r.large_objects
      → (is_in_space a r.from_space r.semispace_size ≡ false)
        × (is_in_space a r.to_space r.semispace_size ≡ false)
        × ((a == root) ≡ false)) where
  module _ (g : Gc) (e : Exact up grows r m₀ root objs heap g) where
    abbrev live : List ℕ
    live = qs up grows r m₀ root objs heap large_out g e

    abbrev moved : ℕ → ℕ
    moved = forward up grows r m₀ root objs heap large_out g e

    abbrev after : Collected
    after = result up grows r m₀ root objs heap large_out g e
