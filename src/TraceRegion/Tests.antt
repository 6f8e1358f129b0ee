-- ===== src/TraceRegion/Tests.antt =====
-- The trace region on concrete regions.
use verona_rt_gc_bench.Base.{
  ℕ, ◌*◌, arith, ◌≡◌, refl, Bool, true, false, List, [], ◌∷◌, ◌==◌, Returns, All, All-∈_elim,
  if◌then◌else◌,
}
use verona_rt_gc_bench.Object.{unmarked, iso, shared, RegionMd, Obj, Mem}
use verona_rt_gc_bench.TraceRegion.{Region, State, merge, swap_root_internal, size_t}
use verona_rt_gc_bench.TraceRegion.Collect.{gc}
use verona_rt_gc_bench.TraceRegion.Collect.Heap.{members, IsField, IsRegion, IsClosed}
use verona_rt_gc_bench.TraceRegion.Collect.Sweep.{bytes}
use verona_rt_gc_bench.TraceRegion.Collect.Memory.{sizes, gc-counts_twice}
use verona_rt_gc_bench.TraceRegion.Rings.Adding.{IsMerged, merge-IsMerged}
use verona_rt_gc_bench.TraceRegion.Rings.Swap.{IsRerooted, swap_root-IsRerooted}

abbrev object : RegionMd → Bool → List ℕ → Obj
object c ends fields = record {
  cls = c;
  payload = 0;
  size = 32;
  has_finaliser = ends;
  has_destructor = ends;
  has_relocate = false;
  fields = fields;
  words = [];
}

-- The root 1 reaches 3 and the cown 9; 2 and 4 are unreached.
abbrev heap : Mem
heap a =
    if a == 1
    then object iso true (3 ∷ 9 ∷ [])
    else if a == 2
    then object unmarked true (4 ∷ [])
    else if a == 3
    then object unmarked false (3 ∷ [])
    else if a == 4
    then object unmarked false []
    else object shared false []

abbrev region : Region
region = record {
  primary = 2 ∷ 1 ∷ [];
  secondary = 4 ∷ 3 ∷ [];
  current_memory_used = 128;
  memory_at_last_gc = 0;
  closes_since_gc = 0;
  region_size = 4;
  previous_memory_used = 0;
  additional_entry_points = [];
  rset = record { entries = (9, false) ∷ []; count = λ a. 1 };
}

abbrev no_reports : ℕ → List ℕ
no_reports a = []

abbrev same_class : ℕ → ℕ
same_class n = n

region-IsRegion : IsRegion region heap 1
region-IsRegion = record {
  inner = 2 ∷ [];
  ring = refl;
  distinct = (refl, (refl, (refl, (refl, tt))));
  root_iso = refl;
  fresh_inner = (refl, tt);
  fresh_secondary = (refl, (refl, tt));
  alike = (refl, (refl, tt));
  unlike = (refl, (refl, tt));
}

region-IsClosed : IsClosed region heap 1
region-IsClosed = record {
  root_fields = ((refl, λ u. refl), ((refl, λ u. cc u), tt));
  entries = tt;
  fields = λ a h.
      All-∈_elim (λ b. All (IsField region heap) (heap b).fields) (members region) a
        (
          ((refl, λ u. refl), tt),
          (((refl, λ u. refl), ((refl, λ u. cc u), tt)), (tt, (((refl, λ u. refl), tt), tt))),
        )
        h;
}

abbrev before_alloc : State
before_alloc = record { region = region; mem = heap }

swap_root-IsRerooted_example : IsRerooted before_alloc 3 (swap_root_internal 1 3 before_alloc)
swap_root-IsRerooted_example = swap_root-IsRerooted 1 3 before_alloc region-IsRegion refl

abbrev two_roots : State
two_roots = record before_alloc {
  mem = λ a.
      if a == 7 then object iso true [] else if a == 6 then object unmarked false [] else heap a;
}

abbrev second : Region
second = record region { primary = 7 ∷ []; secondary = 6 ∷ []; region_size = 2 }

second-IsRegion : IsRegion second two_roots.mem 7
second-IsRegion = record {
  inner = [];
  ring = refl;
  distinct = (refl, (refl, tt));
  root_iso = refl;
  fresh_inner = tt;
  fresh_secondary = (refl, tt);
  alike = (refl, tt);
  unlike = (refl, tt);
}

first-IsRegion : IsRegion region two_roots.mem 1
first-IsRegion = record {
  inner = 2 ∷ [];
  ring = refl;
  distinct = (refl, (refl, (refl, (refl, tt))));
  root_iso = refl;
  fresh_inner = (refl, tt);
  fresh_secondary = (refl, (refl, tt));
  alike = (refl, (refl, tt));
  unlike = (refl, (refl, tt));
}

merge-IsMerged_example :
    Returns (IsMerged two_roots second 1) (merge same_class same_class 7 second two_roots)
merge-IsMerged_example =
    merge-IsMerged same_class same_class 7 second two_roots 1 first-IsRegion second-IsRegion
      (refl, (refl, (refl, (refl, (refl, (refl, tt)))))) refl

gc-counts_twice_example :
    Returns
      (λ c.
        size_t c.0.current_memory_used
        ≡ size_t (2 * bytes (sizes region heap 1 region-IsRegion region-IsClosed) (members c.0)))
      (gc no_reports same_class region heap 1)
gc-counts_twice_example =
    gc-counts_twice region heap 1 region-IsRegion region-IsClosed no_reports same_class
      (λ a. ground arith) refl
