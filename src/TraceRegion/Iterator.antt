-- ===== src/TraceRegion/Iterator.antt =====
-- The iterator of a trace region: src/rt/region/region_trace.h. A position is an object, and 0 is
-- the null pointer; 0 also stands for the region where a ring's links lead back to it.
pub mod Order
use mathlib.Core.List.{append_assoc, append-nil}
use verona_rt_gc_bench.Base.{
  ℕ, zero, suc, ◌+◌, ◌≡◌, inl, inr, refl, Bool, true, false, not, ◌&&◌, List, [], ◌∷◌, ◌++◌, arith,
  ◌==◌, elem, ◌∈◌, ◌∉◌, select, length, Bool-cases, subst, eq_of_test, ◌∙◌, ap, Distinct,
  if◌then◌else◌, sym, elem-append, All, All-∈, All-∈_elim, ==_self,
}
use verona_rt_gc_bench.Object.{Mem, is_trivial}
use verona_rt_gc_bench.SemiSpace.Iterator.{
  IteratorType, trivial, non_trivial, all_objects, matches_filter,
}
use verona_rt_gc_bench.TraceRegion.{Region, next_is_trivial, last_or}
use verona_rt_gc_bench.TraceRegion.Collect.Heap.{members, IsRegion}
use verona_rt_gc_bench.TraceRegion.Collect.Rings.{Distinct-parts}
use verona_rt_gc_bench.TraceRegion.Collect.Live.{select-append}
use verona_rt_gc_bench.TraceRegion.Rings.{Kind, next_of_ring}

-- Where a ring's first link leads.
abbrev pub first_of : List ℕ → ℕ
first_of [] = 0
first_of (p ∷ ring) = p

abbrev pub next_in : ℕ → List ℕ → ℕ
next_in p [] = 0
next_in p (q ∷ ring) = if q == p then first_of ring else next_in p ring

-- `get_next_any_mark`
abbrev pub get_next : Region → ℕ → ℕ
get_next r p = if elem p r.primary then next_in p r.primary else next_in p r.secondary

module _ (type : IteratorType) (r : Region) where
  -- `iterator(r)`
  abbrev pub begin : Mem → ℕ
  begin m = elim type [
    | trivial ↦ if next_is_trivial m r.primary then first_of r.primary else first_of r.secondary
    | non_trivial ↦ if next_is_trivial m r.primary then first_of r.secondary else first_of r.primary
    | all_objects ↦ first_of r.primary
  ]

  -- `operator++` at the end of a ring
  abbrev pub at_end : ℕ → ℕ
  at_end p = elim type [
    | all_objects ↦
        if not (p == last_or 0 r.secondary) && not (first_of r.secondary == 0)
        then first_of r.secondary
        else 0
    | _ ↦ 0
  ]

  abbrev pub next : ℕ → ℕ
  next p = let q = get_next r p in if q == 0 then at_end p else q

  -- The objects from a position on, on fuel.
  unfoldable pub visited : ℕ → ℕ → List ℕ
  visited zero p = []
  visited (suc k) p = let rest = visited k (next p) in if p == 0 then [] else p ∷ rest
