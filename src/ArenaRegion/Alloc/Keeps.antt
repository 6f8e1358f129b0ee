-- ===== src/ArenaRegion/Alloc/Keeps.antt =====
-- Allocations in an arena region.
use verona_rt_gc_bench.Base.{ℕ, ◌+◌, List, [], All}
use verona_rt_gc_bench.Object.{Obj}
use verona_rt_gc_bench.ArenaRegion.{Region, new_arena}
use verona_rt_gc_bench.ArenaRegion.Layout.{Content, Outside, Apart}
use verona_rt_gc_bench.ArenaRegion.Alloc.Last.{region_of}

-- heap::alloc returns a block that no arena and no large object of the region is in.
pub record FreshBlock (place : ℕ) (r : Region) : Type 0 where
  pub arenas : All (Apart (new_arena place)) r.arenas
  pub large : All (λ p. Outside p (new_arena place)) r.large

abbrev counted : Region → Obj → List ℕ → Region
counted r o large = region_of r.arenas large (r.current_memory_used + o.size) (r.region_size + 1)

abbrev no_objects : Content
no_objects = record { trivials = []; non_trivials = [] }
