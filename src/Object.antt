-- ===== src/Object.antt =====
-- Objects and the memory that holds them: src/rt/object/object.h.
-- A pointer is the address at which the object's header starts, so `real_start` and `object_start`
-- are the identity, and 0 is null. A header's `bits` are the tag `cls` and what stands above it,
-- `payload`. The descriptor's constants and the body stand in the object's record: the pointers that
-- `trace` pushes, in the order of the pushes, and the body's words that are no pointers.
use verona_rt_gc_bench.Base.{ℕ, zero, suc, Bool, true, false, not, ◌&&◌, List, ◌==◌, if◌then◌else◌}

pub data RegionMd : Type 0 where
  unmarked marked scc_ptr rc iso pending nonatomic_rc shared open_iso : RegionMd

pub record Obj : Type 0 where
  pub cls : RegionMd
  pub payload : ℕ
  pub size : ℕ
  pub has_finaliser : Bool
  pub has_destructor : Bool
  pub has_relocate : Bool
  pub fields : List ℕ
  pub words : List ℕ

abbrev pub Mem : Type 0
Mem = ℕ → Obj

abbrev pub write : Mem → ℕ → Obj → Mem
write m p o a = if p == a then o else m a

abbrev pub is_marked : RegionMd → Bool
is_marked marked = true
is_marked _ = false

abbrev pub is_unmarked : RegionMd → Bool
is_unmarked unmarked = true
is_unmarked _ = false

abbrev pub is_trivial : Obj → Bool
is_trivial o = not o.has_destructor && not o.has_finaliser

-- `init_next(nullptr)`
abbrev pub init_next : Obj → ℕ → Obj
init_next o n = record o { cls = unmarked; payload = n }

abbrev pub mark : Obj → Obj
mark o = record o { cls = marked }

abbrev pub unmark : Obj → Obj
unmark o = record o { cls = unmarked }

abbrev pub set_forwarding_pointer : Obj → ℕ → Obj
set_forwarding_pointer o q = record o { cls = marked; payload = q }

-- `root_and_class`: up the chain of SCC pointers to the representative. The compression of the
-- chain, which changes no representative, is left out. The fuel bounds the chain.
unfoldable pub root_of : ℕ → Mem → ℕ → ℕ
root_of zero m o = o
root_of (suc k) m o = let up = root_of k m (m o).payload in elim (m o).cls [ scc_ptr ↦ up | _ ↦ o ]

-- What a region has done to an object for good.
pub data Event : Type 0 where
  finalise destructor dealloc : ℕ → Event
