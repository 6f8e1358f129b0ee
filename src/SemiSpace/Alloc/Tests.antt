-- ===== src/SemiSpace/Alloc/Tests.antt =====
-- Allocation, growth, release and iteration at concrete regions.
use verona_rt_gc_bench.Base.{
  subst, sym, Distinct, ◌++◌, ℕ, ◌||◌, ◌≤◌, ◌≡◌, refl, true, false, List, [], ◌∷◌, arith, ◌==◌,
  if◌then◌else◌, ◌∈◌, elem,
}
use verona_rt_gc_bench.Object.{unmarked, iso, RegionMd, Obj, Mem}
use verona_rt_gc_bench.SemiSpace.{is_in_space, objects, from_objects}
use verona_rt_gc_bench.SemiSpace.Layout.{objects-Tiled}
use verona_rt_gc_bench.SemiSpace.Alloc.{
  State, double_until, grown_size, memcpy, adjust_all, grow, alloc_internal,
}
use verona_rt_gc_bench.SemiSpace.Alloc.Adjust.{Apart}
use verona_rt_gc_bench.SemiSpace.Alloc.Keeps.{IsRegion, Fresh, alloc_internal-IsRegion}
use verona_rt_gc_bench.SemiSpace.Release.{release_internal}
use verona_rt_gc_bench.SemiSpace.Release.Once.{times, is_destructor, is_finaliser, release-once}

abbrev up : ℕ → ℕ
up n = n

up_grows : (n : ℕ) → n ≤ up n
up_grows n = omega arith

abbrev object : RegionMd → ℕ → List ℕ → Obj
object c n fs = record {
  cls = c;
  payload = 0;
  size = n;
  has_finaliser = false;
  has_destructor = n == 32;
  has_relocate = true;
  fields = fs;
  words = [];
}

abbrev mem : Mem
mem a =
    if a == 500
    then object iso 16 (1000 ∷ [])
    else if a == 1000
    then object unmarked 32 (1032 ∷ 500 ∷ [])
    else object unmarked 16 (1000 ∷ [])

-- Two objects in a space of 64 bytes, and a large object.
abbrev full : State
full = record {
  region = record {
    semispace_size = 64;
    from_space = 1000;
    to_space = 2000;
    alloc_ptr = 1048;
    alloc_end = 1064;
    current_memory_used = 80;
    region_size = 4;
    large_objects = 3000 ∷ [];
    pinned_iso = 500;
    rset = record { entries = []; count = λ a. 0 };
  };
  mem = mem;
}

abbrev objs : List ℕ
objs = 1000 ∷ 1032 ∷ []

full-IsRegion : IsRegion up full objs 0 0
full-IsRegion = record {
  tiled = omega arith;
  bump = omega arith;
  ends = refl;
  room = omega arith;
  objects = refl;
  bytes = refl;
  root_out = refl;
  large_out = λ a h. ground arith;
}

full-Apart : Apart full 5000
full-Apart = record {
  elsewhere = refl;
  root_there = refl;
  root_apart = refl;
  root_large = refl;
  large_apart = λ a h. ground arith;
  large_distinct = ground arith;
}

-- 48 bytes are in use and 32 more are wanted: the space doubles and the objects move by 4000.
grown_fields :
    let m = (grow up 5000 6000 32 full).mem in
    ((m 500).fields ≡ 5000 ∷ [])
    × ((m 5000).fields ≡ 5032 ∷ 500 ∷ [])
    × ((m 5032).fields ≡ 5000 ∷ [])
    × ((m 3000).fields ≡ 5000 ∷ [])
unfolding grow grown_size double_until memcpy adjust_all objects
grown_fields = (refl, refl, refl, refl)

grown_out :
    let size = (grow up 5000 6000 32 full).region.semispace_size in
    (is_in_space 500 5000 size ≡ false)
    × ((a : ℕ) → a ∈ (3000 ∷ []) → is_in_space a 5000 size ≡ false)
unfolding grow grown_size double_until
grown_out = (refl, λ a h. ground arith)

abbrev wanted : Obj
wanted = object unmarked 32 []

full-Fresh : Fresh up 4000 5000 wanted full
unfolding grown_size double_until
full-Fresh = record {
  apart = full-Apart;
  root_new = refl;
  large_new = λ a h. ground arith;
  large_out = refl;
  large_root = refl;
  large_distinct = refl;
}

alloc_internal-IsRegion_example :
    let (o, s') = alloc_internal up 4000 5000 6000 wanted full in
    (objs' : List ℕ) × IsRegion up s' objs' 0 0
    × ((elem o objs' || elem o s'.region.large_objects) ≡ true)
alloc_internal-IsRegion_example =
    alloc_internal-IsRegion up up_grows 4000 5000 6000 wanted full objs full-IsRegion (omega arith)
      full-Fresh

walk : from_objects up full.region mem ≡ objs
walk = objects-Tiled up up_grows mem 48 objs 1000 1048 full-IsRegion.tiled (omega arith)

release-once_example :
    let events = (release_internal up full.region mem).0 in
    (times (is_destructor 1000) events ≡ 1) × (times (is_finaliser 1000) events ≡ 0)
release-once_example =
    release-once up full.region mem 1000
      (subst (λ xs. Distinct (xs ++ (3000 ∷ 500 ∷ []))) (sym walk)
        (refl, (refl, (refl, (refl, tt)))))
      (subst (λ xs. 1000 ∈ (xs ++ (3000 ∷ 500 ∷ []))) (sym walk) refl)
