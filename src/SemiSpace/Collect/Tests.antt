-- ===== src/SemiSpace/Collect/Tests.antt =====
-- A heap with a cycle, a dead object, and an object that only a large object refers to.
use verona_rt_gc_bench.Base.{
  ℕ, ◌≤◌, ◌≡◌, refl, true, false, List, [], ◌∷◌, arith, ◌==◌, if◌then◌else◌, Returns, ◌∈◌, Option,
  some,
}
use mathlib.Core.Option
use verona_rt_gc_bench.Object.{RegionMd, unmarked, iso, Obj, Mem, RegionMd}
use verona_rt_gc_bench.SemiSpace.{Region, Event, finalise, destructor, dealloc, is_in_space}
use verona_rt_gc_bench.SemiSpace.Collect.{
  gc, trace_all, trace_object, visit_all, visit, visit_class, copy_object, scan_loop, finish,
  sweep_large, sweep_large_object, update_all_pointers, sweep_from_space, each,
}
use verona_rt_gc_bench.SemiSpace.Collect.Heap.{IsHeap, Reach}
use verona_rt_gc_bench.SemiSpace.Collect.Moved.{Moved}
use verona_rt_gc_bench.SemiSpace.Collect.Destroyed.{destructions, gc-destructions}
use verona_rt_gc_bench.SemiSpace

abbrev up : ℕ → ℕ
up n = n

up_grows : (n : ℕ) → n ≤ up n
up_grows n = omega arith

abbrev object : RegionMd → ℕ → List ℕ → Obj
object c n fs = record {
  cls = c;
  payload = 0;
  size = n;
  has_finaliser = false;
  has_destructor = true;
  has_relocate = true;
  fields = fs;
  words = [];
}

-- The root at 500 leads to 1000 and to the large object at 3000; 1000 and 1016 lead to one another;
-- the large object leads to 1032; nothing leads to 1048.
abbrev mem : Mem
mem a =
    if a == 500
    then object iso 16 (1000 ∷ 3000 ∷ [])
    else if a == 1000
    then object unmarked 16 (1016 ∷ [])
    else if a == 1016
    then object unmarked 16 (1000 ∷ 500 ∷ [])
    else if a == 3000
    then object unmarked 600000 (1032 ∷ [])
    else object unmarked 16 []

abbrev region : Region
region = record {
  semispace_size = 128;
  from_space = 1000;
  to_space = 2000;
  alloc_ptr = 1064;
  alloc_end = 1128;
  current_memory_used = 600080;
  region_size = 6;
  large_objects = 3000 ∷ [];
  pinned_iso = 500;
  rset = record { entries = []; count = λ a. 0 };
}

abbrev objs : List ℕ
objs = 1000 ∷ 1016 ∷ 1032 ∷ 1048 ∷ []

is_heap : IsHeap up region mem 500 objs
is_heap = record {
  tiled = omega arith;
  within = omega arith;
  fresh = λ a h. ground arith;
  apart = λ a h. ground arith;
  fields = λ a h. ground arith;
  root_fields = ground arith;
  root_from = refl;
  root_to = refl;
  root_iso = refl;
}

large_out :
    (a : ℕ)
    → a ∈ (3000 ∷ [])
    → (is_in_space a 1000 128 ≡ false) × (is_in_space a 2000 128 ≡ false) × ((a == 500) ≡ false)
large_out a h = ground arith

-- The cycle moves; 1032 is destructed with 1048, and the large object still leads to 1032.
abbrev outcome : Option (List Event × List ℕ × List ℕ × List ℕ × ℕ)
outcome =
    Option.map
      (λ c. (
        c.events,
        (c.mem 500).fields,
        (c.mem 2000).fields,
        (c.mem 3000).fields,
        c.region.alloc_ptr,
      ))
      (gc up region mem 500)

large_child_lost :
    outcome
    ≡ some (destructor 1032 ∷ destructor 1048 ∷ [], 2000 ∷ 3000 ∷ [], 2016 ∷ [], 1032 ∷ [], 2032)
unfolding gc trace_all trace_object visit_all visit visit_class copy_object scan_loop
    SemiSpace.objects finish sweep_large sweep_large_object update_all_pointers sweep_from_space
    each
large_child_lost = refl

gc-destructions_example :
    Returns
      (λ c.
        (a : ℕ)
        → a ∈ objs
        → (Reach mem 500 objs a → destructions a c.events ≡ 0)
          × (¬ Reach mem 500 objs a
              → destructions a c.events ≡ (if (mem a).has_destructor then 1 else 0)))
      (gc up region mem 500)
gc-destructions_example = gc-destructions up up_grows region mem 500 objs is_heap large_out refl
