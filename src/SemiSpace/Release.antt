-- ===== src/SemiSpace/Release.antt =====
-- `RegionSemiSpace::release_internal`: what it runs and frees, in order.
pub mod Once
use verona_rt_gc_bench.Base.{ℕ, Bool, true, false, List, [], ◌∷◌, ◌++◌, ◌==◌, if◌then◌else◌}
use verona_rt_gc_bench.Object.{Obj, Mem, is_trivial}
use verona_rt_gc_bench.RememberedSet
use verona_rt_gc_bench.RememberedSet.{RSet}
use verona_rt_gc_bench.SemiSpace.{Region, Event, finalise, destructor, dealloc, from_objects}

-- `if (!is_trivial()) finalise(…)`, and so for the destructor
abbrev pub finaliser_of : Mem → ℕ → List Event
finaliser_of m a =
    if is_trivial (m a) then [] else if (m a).has_finaliser then finalise a ∷ [] else []

abbrev pub destructor_of : Mem → ℕ → List Event
destructor_of m a =
    if is_trivial (m a) then [] else if (m a).has_destructor then destructor a ∷ [] else []

pub for_each : (ℕ → List Event) → List ℕ → List Event
for_each f [] = []
for_each f (a ∷ rest) = f a ++ for_each f rest

abbrev pub root_or_none : Region → List ℕ
root_or_none r = if r.pinned_iso == 0 then [] else r.pinned_iso ∷ []

-- A loop over from-space, one over the large objects, and the root.
pub for_all : (ℕ → List Event) → Region → List ℕ → List Event
for_all f r objs = for_each f objs ++ (for_each f r.large_objects ++ for_each f (root_or_none r))

pub release_internal : (ℕ → ℕ) → Region → Mem → List Event × RSet
release_internal up r m =
    let objs = from_objects up r m in
    let freed =
      for_each (λ a. dealloc a ∷ []) r.large_objects
      ++ (for_each (λ a. dealloc a ∷ []) (root_or_none r)
          ++ dealloc r.from_space ∷ dealloc r.to_space ∷ []) in
    (
      for_all (finaliser_of m) r objs ++ (for_all (destructor_of m) r objs ++ freed),
      RememberedSet.sweep r.rset,
    )
