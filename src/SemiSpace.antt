-- ===== src/SemiSpace.antt =====
-- The semi-space region: src/rt/region/region_semispace.h.
-- `Region` holds the fields of `RegionSemiSpace` and the remembered set of its base class. The large
-- objects, which the source links through their headers, are the list of their addresses. A walk
-- `while (p < end) p += align_up(size)` visits the list of addresses that `objects` computes.
-- What the allocator returns is an argument, and `up` is snmalloc's `align_up` to the alignment.
pub mod Alloc
pub mod Release
pub mod Iterator
pub mod Layout
pub mod Collect
use verona_rt_gc_bench.Base.{
  ℕ, zero, suc, ◌+◌, ◌-◌, ◌*◌, Bool, true, false, not, ◌&&◌, List, [], ◌∷◌, map, ltb, leb, ◌==◌,
  if◌then◌else◌,
}
pub use verona_rt_gc_bench.Object.{Event, finalise, destructor, dealloc}
use verona_rt_gc_bench.Object.{RegionMd, Obj, Mem, write, marked, is_marked}
use verona_rt_gc_bench.RememberedSet.{RSet}

pub record Region : Type 0 where
  pub semispace_size : ℕ
  pub from_space : ℕ
  pub to_space : ℕ
  pub alloc_ptr : ℕ
  pub alloc_end : ℕ
  pub current_memory_used : ℕ
  pub region_size : ℕ
  pub large_objects : List ℕ
  pub pinned_iso : ℕ
  pub rset : RSet

abbrev pub initial_semispace_size : ℕ
initial_semispace_size = 1024 * 1024

abbrev pub large_object_threshold : ℕ
large_object_threshold = 524288

abbrev pub is_in_space : ℕ → ℕ → ℕ → Bool
is_in_space a start sz = leb start a && ltb a (start + sz)

abbrev pub is_large_object : ℕ → Region → Bool
is_large_object a r =
    not (is_in_space a r.from_space r.semispace_size)
    && not (is_in_space a r.to_space r.semispace_size)

abbrev pub is_forwarded : Mem → ℕ → Bool
is_forwarded m a = is_marked (m a).cls

module _ (up : ℕ → ℕ) where
  -- The objects of a walk from `p` to `stop`, on fuel.
  unfoldable pub objects : ℕ → Mem → (p stop : ℕ) → List ℕ
  objects zero m p stop = []
  objects (suc k) m p stop =
      let rest = objects k m (p + up (m p).size) stop in if ltb p stop then p ∷ rest else []

  -- The objects between the start of from-space and the bump pointer.
  abbrev pub from_objects : Region → Mem → List ℕ
  from_objects r m = objects (r.alloc_ptr - r.from_space) m r.from_space r.alloc_ptr

-- A pointer of from-space that was forwarded becomes its target.
abbrev pub forward_if_moved : (from size : ℕ) → Mem → ℕ → ℕ
forward_if_moved from size m a =
    if is_in_space a from size && is_forwarded m a then (m a).payload else a

-- The pointers of an object through `forward`: by the descriptor's `relocate`, or, where it has none,
-- with every word of the body that is not null.
abbrev pub relocate : (ℕ → ℕ) → Obj → Obj
relocate forward o = record o {
  fields = map forward o.fields;
  words = if o.has_relocate then o.words else map (λ w. if w == 0 then w else forward w) o.words;
}
