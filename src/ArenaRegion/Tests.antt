-- ===== src/ArenaRegion/Tests.antt =====
-- Arena regions on concrete inputs.
use verona_rt_gc_bench.Base.{
  ℕ, ◌≡◌, ◌||◌, ◌==◌, ◌++◌, inr, refl, arith, false, if◌then◌else◌, List, [], ◌∷◌, elem, select,
}
use verona_rt_gc_bench.Object.{Obj, Mem, unmarked}
use verona_rt_gc_bench.ArenaRegion.{Region, merge}
use verona_rt_gc_bench.ArenaRegion.Layout.{Content, IsRegion, objects}
use verona_rt_gc_bench.ArenaRegion.Iterator.{begin, visited}
use verona_rt_gc_bench.ArenaRegion.Iterator.Order.{in_arenas, iterator-in_arenas}
use verona_rt_gc_bench.SemiSpace.Iterator.{all_objects, matches_filter}
use verona_rt_gc_bench.ArenaRegion.Merge.{merge-IsRegion}

abbrev object : ℕ → Obj
object n = record {
  cls = unmarked;
  payload = 0;
  size = n;
  has_finaliser = false;
  has_destructor = false;
  has_relocate = false;
  fields = [];
  words = [];
}

-- A small object at 4096, and a large one at 8388608.
abbrev mem : Mem
mem a = if a == 4096 then object 32 else object 2097152

abbrev small : Region
small = record {
  arenas = record { objects_begin = 4096; objects_end = 4128; non_trivial_begin = 1052640 } ∷ [];
  large = [];
  current_memory_used = 32;
  region_size = 1;
}

abbrev small_contents : List Content
small_contents = record { trivials = 4096 ∷ []; non_trivials = [] } ∷ []

small-IsRegion : IsRegion mem small small_contents
small-IsRegion = record {
  arenas = (
    record {
      trivial_tiles = (refl, omega arith, refl);
      gap = omega arith;
      non_trivial_tiles = refl;
      trivial_kind = (refl, tt);
      non_trivial_kind = tt;
    },
    tt,
  );
  apart = (tt, tt);
  large_outside = tt;
  large_size = tt;
  memory = refl;
  number = refl;
}

abbrev large_only : Region
large_only = record {
  arenas = [];
  large = 8388608 ∷ [];
  current_memory_used = 2097152;
  region_size = 1;
}

large_only-IsRegion : IsRegion mem large_only []
large_only-IsRegion = record {
  arenas = tt;
  apart = tt;
  large_outside = (tt, tt);
  large_size = (omega arith, tt);
  memory = refl;
  number = refl;
}

merge-IsRegion_example :
    (let (t, s) = merge (λ n. n) 8388608 large_only mem small in
      IsRegion t s ([] ++ small_contents)
      × ((q : ℕ)
          → elem q (objects ([] ++ small_contents) s)
            ≡ (elem q (objects [] large_only) || elem q (objects small_contents small))))
merge-IsRegion_example =
    merge-IsRegion (λ n. n) 8388608 large_only [] mem small small_contents small-IsRegion
      large_only-IsRegion
      (record { arenas = tt; other_large = ((inr (omega arith), tt), tt); large = tt })

-- The small region with the large object.
abbrev mixed : Region
mixed = record small { large = 8388608 ∷ [] }

iterator-in_arenas_example :
    visited all_objects (λ n. n) mem 2 (begin all_objects (λ n. n) mem mixed)
    ≡ in_arenas all_objects small_contents
      ++ select (λ p. matches_filter all_objects (mem p)) mixed.large
iterator-in_arenas_example =
    iterator-in_arenas all_objects (λ n. n) mem mixed small_contents (omega arith, tt)
      (small-IsRegion.arenas, (omega arith, tt), (((refl, tt), tt), tt)) 2 (omega arith)

-- The small region with two large objects.
abbrev two_large : Region
two_large = record {
  arenas = small.arenas;
  large = 8388608 ∷ 16777216 ∷ [];
  current_memory_used = 4194336;
  region_size = 3;
}
