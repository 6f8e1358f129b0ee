-- ===== src/SemiSpace/Collect.antt =====
-- `RegionSemiSpace::gc`: Cheney's copying collection, phase by phase.
pub mod Heap
pub mod Trace
pub mod Targets
pub mod Update
pub mod Moved
pub mod Again
pub mod Destroyed
mod Tests
use mathlib.Core.Option
use mathlib.Core.List.{reverse}
use verona_rt_gc_bench.Base.{
  ℕ, zero, suc, ◌+◌, ◌-◌, ◌%◌, ◌^◌, Bool, true, false, not, ◌&&◌, Option, none, some, List, [], ◌∷◌,
  ◌++◌, map, ltb, ◌==◌, if◌then◌else◌, length, select, ◌>>=◌,
}
use verona_rt_gc_bench.Object.{
  RegionMd, unmarked, marked, scc_ptr, rc, iso, shared, Obj, Mem, write, is_marked, is_trivial,
  init_next, mark, unmark, set_forwarding_pointer, root_of,
}
use verona_rt_gc_bench.RememberedSet
use verona_rt_gc_bench.RememberedSet.{RSet}
use verona_rt_gc_bench.SemiSpace.{
  Region, Event, finalise, destructor, dealloc, is_in_space, is_large_object, is_forwarded, objects,
  from_objects, forward_if_moved, relocate,
}

-- What phases 1 and 2 change: memory, the end of what is copied, the remembered set.
pub record Gc : Type 0 where
  pub mem : Mem
  pub free : ℕ
  pub rset : RSet

-- No SCC pointer chain is longer: the ranks that `set_pending_rank` allows are below 128.
abbrev max_rank : ℕ
max_rank = 128

module _ (up : ℕ → ℕ) where
  -- `none`: not enough space, which the callers assert never to be so.
  pub copy_object : Gc → (old to_end : ℕ) → Option Gc
  copy_object g old to_end =
      let o = g.mem old in
      let copied = write g.mem g.free (init_next o 0) in
      if ltb to_end (g.free + up o.size)
      then none
      else some (record g {
        mem = write copied old (set_forwarding_pointer (copied old) g.free);
        free = g.free + up o.size;
      })

module _ (up : ℕ → ℕ) (r : Region) where
  -- The `switch` on the class of a field.
  pub visit_class : RegionMd → Gc → ℕ → Option Gc
  visit_class unmarked g f =
      if is_in_space f r.from_space r.semispace_size
      then copy_object up g f (r.to_space + r.semispace_size)
      else if is_large_object f r
      then some (record g { mem = write g.mem f (mark (g.mem f)) })
      else some g
  visit_class scc_ptr g f =
      let root = root_of max_rank g.mem f in
      some (record g { rset = RememberedSet.mark root g.rset })
  visit_class rc g f = some (record g { rset = RememberedSet.mark f g.rset })
  visit_class shared g f = some (record g { rset = RememberedSet.mark f g.rset })
  visit_class _ g f = some g

  pub visit : Gc → ℕ → Option Gc
  visit g f = visit_class (g.mem f).cls g f

  -- The loop that pops the traced fields off the stack.
  pub visit_all : List ℕ → Gc → Option Gc
  visit_all [] g = some g
  visit_all (f ∷ fs) g = visit g f >>= visit_all fs

  -- `trace` pushes the fields in order, so the last one is popped first.
  pub trace_object : Obj → Gc → Option Gc
  trace_object o g = visit_all (reverse o.fields) g

  -- Phase 2, on fuel.
  pub scan_loop : ℕ → (scan : ℕ) → Gc → Option Gc
  scan_loop zero scan g = none
  scan_loop (suc k) scan g =
      let rest = trace_object (g.mem scan) g >>= scan_loop k (scan + up (g.mem scan).size) in
      if ltb scan g.free then rest else some g

module _ (r : Region) where
  abbrev pub update_object : Mem → Obj → Obj
  update_object m o = relocate (forward_if_moved r.from_space r.semispace_size m) o

  abbrev pub update_object_pointers : Mem → ℕ → Mem
  update_object_pointers m a = write m a (update_object m (m a))

  pub update_all_pointers : List ℕ → Mem → Mem
  update_all_pointers [] m = m
  update_all_pointers (a ∷ rest) m = update_all_pointers rest (update_object_pointers m a)

-- Phase 4: what the sweep of the large objects changes.
pub record Sweep : Type 0 where
  pub mem : Mem
  pub live : List ℕ
  pub used : ℕ
  pub events : List Event

abbrev pub finalise_events : Mem → ℕ → List Event
finalise_events m a = if (m a).has_finaliser then finalise a ∷ [] else []

abbrev pub destructor_events : Mem → ℕ → List Event
destructor_events m a = if (m a).has_destructor then destructor a ∷ [] else []

-- The finaliser and the destructor of an object that is not trivial, and its deallocation.
abbrev pub death_events : Mem → ℕ → List Event
death_events m a =
    (if is_trivial (m a) then [] else finalise_events m a ++ destructor_events m a)
    ++ (dealloc a ∷ [])

abbrev pub size_mod : ℕ
size_mod = 2 ^ 64

pub sweep_large_object : Region → ℕ → Sweep → Sweep
sweep_large_object r lo s =
    if is_forwarded s.mem lo
    then record s {
      mem = update_object_pointers r (write s.mem lo (unmark (s.mem lo))) lo;
      live = lo ∷ s.live;
    }
    else record s {
      used = (s.used + size_mod - (s.mem lo).size) % size_mod;
      events = s.events ++ death_events s.mem lo;
    }

pub sweep_large : Region → List ℕ → Sweep → Sweep
sweep_large r [] s = s
sweep_large r (lo ∷ los) s = sweep_large r los (sweep_large_object r lo s)

-- Phase 5: the finalisers of all dead objects of from-space, then their destructors.
pub each : (ℕ → List Event) → List ℕ → List Event
each f [] = []
each f (a ∷ rest) = f a ++ each f rest

pub sweep_from_space : Mem → List ℕ → List Event
sweep_from_space m objs =
    let dead = select (λ a. not (is_forwarded m a)) objs in
    each (λ a. if is_trivial (m a) then [] else finalise_events m a) dead
    ++ each (λ a. if is_trivial (m a) then [] else destructor_events m a) dead

pub total_size : Mem → List ℕ → ℕ
total_size m [] = 0
total_size m (a ∷ rest) = (m a).size + total_size m rest

pub record Collected : Type 0 where
  pub region : Region
  pub mem : Mem
  pub events : List Event

module _ (up : ℕ → ℕ) where
  -- Phases 1 and 2. There is fuel for as many objects as from-space has.
  pub trace_all : Region → Mem → ℕ → Option Gc
  trace_all r m o = do
    let g : Gc = record { mem = m; free = r.to_space; rset = r.rset }
    g' ← trace_object up r (m o) g
    scan_loop up r (suc (length (from_objects up r m))) r.to_space g'

  -- Phases 3 to 6.
  pub finish : Region → ℕ → Gc → Collected
  finish r o g =
      let copied = objects up (g.free - r.to_space) g.mem r.to_space g.free in
      let updated = update_object_pointers r (update_all_pointers r copied g.mem) o in
      let swept =
        sweep_large r r.large_objects
          (record { mem = updated; live = []; used = r.current_memory_used; events = [] }) in
      record {
        region = record r {
          from_space = r.to_space;
          to_space = r.from_space;
          alloc_ptr = g.free;
          alloc_end = r.to_space + r.semispace_size;
          current_memory_used =
              (swept.mem o).size + total_size swept.mem copied + total_size swept.mem swept.live;
          region_size = 1 + length copied + length swept.live;
          large_objects = swept.live;
          rset = RememberedSet.sweep g.rset;
        };
        mem = swept.mem;
        events = swept.events ++ sweep_from_space swept.mem (from_objects up r swept.mem);
      }

  -- `gc(o, reg)`; `none` is a failed assertion.
  pub gc : Region → Mem → ℕ → Option Collected
  gc r m o = if o == r.pinned_iso then Option.map (finish r o) (trace_all r m o) else none
