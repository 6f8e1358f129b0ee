-- ===== src/TraceRegion/Collect.antt =====
-- The collection of a trace region: gc, mark and sweep of src/rt/region/region_trace.h.
-- The finalisers and destructors are not under the region's control; `reports` are the sub-regions
-- that an object's finaliser pushes. The external references of a dead object are not modelled.
pub mod Heap
pub mod Mark
pub mod Sweep
pub mod Rings
pub mod Outcome
pub mod Live
pub mod History
pub mod Fates
pub mod Memory
use mathlib.Core.List.{reverse}
use verona_rt_gc_bench.Base.{
  ℕ, zero, suc, ◌+◌, ◌-◌, Bool, true, false, List, [], ◌∷◌, ◌++◌, Option, none, some, ◌>>=◌,
  if◌then◌else◌, length,
}
use verona_rt_gc_bench.Object.{
  unmarked, marked, scc_ptr, rc, iso, shared, RegionMd, Mem, write, mark, unmark, is_trivial,
  root_of, Event, finalise, destructor, dealloc,
}
use verona_rt_gc_bench.RememberedSet
use verona_rt_gc_bench.RememberedSet.{RSet}
use verona_rt_gc_bench.TraceRegion.{Region, use_memory, drop_memory, size_t, max_rank}

pub record Marking : Type 0 where
  pub mem : Mem
  pub rset : RSet

-- The `switch` on the class of what has been popped: what is pushed, in the order of the stack, and
-- the state after it. `none` is a failed assertion.
abbrev pub mark_class : RegionMd → ℕ → Marking → Option (List ℕ × Marking)
mark_class iso p g = some ([], g)
mark_class marked p g = some ([], g)
mark_class unmarked p g =
    some (reverse (g.mem p).fields, record g { mem = write g.mem p (mark (g.mem p)) })
mark_class scc_ptr p g =
    some ([], record g { rset = RememberedSet.mark (root_of max_rank g.mem p) g.rset })
mark_class rc p g = some ([], record g { rset = RememberedSet.mark p g.rset })
mark_class shared p g = some ([], record g { rset = RememberedSet.mark p g.rset })
mark_class _ p g = none

-- `while (!dfs.empty())`, on fuel
unfoldable pub mark_loop : ℕ → List ℕ → Marking → Option Marking
mark_loop k [] g = some g
mark_loop zero (p ∷ dfs) g = none
mark_loop (suc k) (p ∷ dfs) g =
    mark_class (g.mem p).cls p g >>= λ next. mark_loop k (next.0 ++ dfs) next.1

-- The fields of the objects: how often `trace` pushes, at most.
abbrev pub pushes : Mem → List ℕ → ℕ
pushes m [] = 0
pushes m (a ∷ objs) = length (m a).fields + pushes m objs

-- `mark(o, f)` after gc has copied the additional roots into `f`. There is fuel for every push.
unfoldable pub mark_all : Region → Mem → ℕ → Option Marking
mark_all r m o =
    let dfs = reverse (m o).fields ++ reverse r.additional_entry_points in
    mark_loop (length dfs + pushes m (r.primary ++ r.secondary)) dfs
      (record { mem = m; rset = r.rset })

-- What a sweep changes. `gc` is the stack of the objects that wait for their destructor, and
-- `collect` that of the sub-regions.
pub record Sweeping : Type 0 where
  pub mem : Mem
  pub used : ℕ
  pub size : ℕ
  pub gc : List ℕ
  pub collect : List ℕ
  pub events : List Event

abbrev pub finalise_events : Mem → ℕ → List Event
finalise_events m a = if (m a).has_finaliser then finalise a ∷ [] else []

abbrev pub destructor_events : Mem → ℕ → List Event
destructor_events m a = if (m a).has_destructor then destructor a ∷ [] else []

-- `region_size -= 1`
abbrev pub drop_one : ℕ → ℕ
drop_one n = size_t (n + 18446744073709551616 - 1)

module _ (reports : ℕ → List ℕ) where
  -- `trivial` is the ring's kind.
  abbrev pub sweep_object : (trivial : Bool) → ℕ → Sweeping → Sweeping
  sweep_object true p s = record s {
    used = drop_memory s.used (s.mem p).size;
    size = drop_one s.size;
    events = s.events ++ dealloc p ∷ [];
  }
  sweep_object false p s = record s {
    gc = p ∷ s.gc;
    collect = if (s.mem p).has_finaliser then reverse (reports p) ++ s.collect else s.collect;
    events = s.events ++ finalise_events s.mem p;
  }

  -- One object of a ring: whether it stays, and whether the walk goes on. `none` is a failed
  -- assertion.
  abbrev pub sweep_class :
      RegionMd → (trivial sweep_all : Bool) → ℕ → Sweeping → Option ((Bool × Bool) × Sweeping)
  sweep_class iso trivial true p s = some ((true, false), sweep_object trivial p s)
  sweep_class iso trivial false p s =
      some ((true, false), record s { used = use_memory s.used (s.mem p).size })
  sweep_class marked trivial true p s = none
  sweep_class marked trivial false p s = some (
    (true, true),
    record s { used = use_memory s.used (s.mem p).size; mem = write s.mem p (unmark (s.mem p)) },
  )
  sweep_class unmarked trivial all p s = some ((false, true), sweep_object trivial p s)
  sweep_class _ trivial all p s = none

  -- The walk of a ring: what stays in it, and the state after it.
  unfoldable pub sweep_walk :
      (trivial sweep_all : Bool) → List ℕ → Sweeping → Option (List ℕ × Sweeping)
  sweep_walk trivial all [] s = some ([], s)
  sweep_walk trivial all (p ∷ ring) s =
      sweep_class (s.mem p).cls trivial all p s >>= λ ((stays, more), s').
      let rest = sweep_walk trivial all ring s' in
      let kept = if more then rest else some ([], s') in
      kept >>= λ (ring', t). some (if stays then p ∷ ring' else ring', t)

-- The objects that wait, the last one first.
unfoldable pub destroy : List ℕ → Sweeping → Sweeping
destroy [] s = record s { gc = [] }
destroy (q ∷ gc) s = destroy gc (record s {
  used = drop_memory s.used (s.mem q).size;
  size = drop_one s.size;
  events = s.events ++ (destructor_events s.mem q ++ dealloc q ∷ []);
})

module _ (reports : ℕ → List ℕ) (to_class : ℕ → ℕ) where
  -- `sweep_ring`
  unfoldable pub sweep_ring :
      (trivial sweep_all : Bool) → List ℕ → Sweeping → Option (List ℕ × Sweeping)
  sweep_ring trivial all ring s =
      sweep_walk reports trivial all ring s >>= λ (ring', t). some (ring', destroy t.gc t)

  -- `sweep`: the ring that is not trivial first.
  unfoldable pub sweep : (sweep_all : Bool) → ℕ → Region → Sweeping → Option (Region × Sweeping)
  sweep all o r s =
      let primary = is_trivial (s.mem o) in
      sweep_ring false all (if primary then r.secondary else r.primary) s >>= λ (first, s₁).
      sweep_ring true all (if primary then r.primary else r.secondary) s₁ >>= λ (second, s₂). some (
        record r {
          primary = if primary then second else first;
          secondary = if primary then first else second;
          rset = RememberedSet.sweep r.rset;
          previous_memory_used = to_class s₂.used;
          current_memory_used = s₂.used;
          region_size = s₂.size;
        },
        s₂,
      )

  abbrev pub start : Region → Mem → Sweeping
  start r m = record {
    mem = m;
    used = r.current_memory_used;
    size = r.region_size;
    gc = [];
    collect = [];
    events = [];
  }

  -- `gc(o)` up to the release of the unreachable sub-regions, which are `collect`.
  unfoldable pub gc : Region → Mem → ℕ → Option (Region × Sweeping)
  gc r m o = mark_all r m o >>= λ g.
      sweep false o (record r { rset = g.rset }) (start r g.mem) >>= λ (r', s).
      some (record r' { memory_at_last_gc = s.used }, s)

  -- `release_internal(o, collect)`; `none` also where there are additional roots.
  unfoldable pub release_internal : Region → Mem → ℕ → Option (Region × Sweeping)
  release_internal r m o = elim r.additional_entry_points [
    | [] ↦ sweep true o r (start r m)
    | _ ∷ _ ↦ none
  ]
