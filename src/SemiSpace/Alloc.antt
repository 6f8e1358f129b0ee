-- ===== src/SemiSpace/Alloc.antt =====
-- `RegionSemiSpace`: `create`, `alloc_internal`, `ensure_available`, `grow`, `swap_root`.
-- A new object is given by its descriptor's constants and its first body, an `Obj` whose header is
-- overwritten. The addresses that `heap::alloc` returns are arguments.
pub mod Size
pub mod Adjust
pub mod Keeps
mod Tests
use verona_rt_gc_bench.Base.{
  ℕ, zero, suc, ◌+◌, ◌-◌, ◌*◌, Bool, true, false, ◌&&◌, List, [], ◌∷◌, ltb, leb, ◌==◌,
  if◌then◌else◌,
}
use verona_rt_gc_bench.Object.{unmarked, iso, Obj, Mem, write, init_next}
use verona_rt_gc_bench.RememberedSet.{RSet}
use verona_rt_gc_bench.SemiSpace.{
  Region, initial_semispace_size, large_object_threshold, is_in_space, objects, relocate,
}

-- `semispace_size *= 2` until the request fits, on fuel.
pub double_until : (fuel request size : ℕ) → ℕ
double_until zero request size = size
double_until (suc k) request size =
    let rest = double_until k request (size * 2) in if ltb size request then rest else size

-- The size of the spaces after growth: at least twice the old one.
pub grown_size : (request size : ℕ) → ℕ
grown_size request size =
    let new_size = double_until request request size in
    if new_size == size then new_size * 2 else new_size

pub memcpy : (dst src len : ℕ) → Mem → Mem
memcpy dst src len m a = if is_in_space a dst len then m (a + src - dst) else m a

-- A pointer into the `used` bytes at `old_from` moves with them to `new_from`.
abbrev pub adjust_for_grow : (old_from used new_from : ℕ) → ℕ → ℕ
adjust_for_grow old_from used new_from a =
    if is_in_space a old_from used then a + new_from - old_from else a

pub adjust_all : (ℕ → ℕ) → List ℕ → Mem → Mem
adjust_all f [] m = m
adjust_all f (a ∷ rest) m = adjust_all f rest (write m a (relocate f (m a)))

-- The state of a region and of memory.
pub record State : Type 0 where
  pub region : Region
  pub mem : Mem

abbrev pub head_or_null : List ℕ → ℕ
head_or_null [] = 0
head_or_null (a ∷ _) = a

module _ (up : ℕ → ℕ) where
  -- `new_from` and `new_to` are the new spaces.
  pub grow : (new_from new_to needed : ℕ) → State → State
  grow new_from new_to needed s =
      let r = s.region in
      let used = r.alloc_ptr - r.from_space in
      let new_size = grown_size (used + needed) r.semispace_size in
      let copied = memcpy new_from r.from_space used s.mem in
      let f = adjust_for_grow r.from_space used new_from in
      let moved = objects up used copied new_from (new_from + used) in
      let adjusted =
        adjust_all f (if r.pinned_iso == 0 then [] else r.pinned_iso ∷ [])
          (adjust_all f r.large_objects (adjust_all f moved copied)) in
      record {
        region = record r {
          from_space = new_from;
          to_space = new_to;
          alloc_ptr = new_from + used;
          alloc_end = new_from + new_size;
          semispace_size = new_size;
        };
        mem = if new_from == r.from_space then copied else adjusted;
      }

  -- The object's address and the new state. `large` is where a large object goes.
  pub alloc_internal : (large new_from new_to : ℕ) → Obj → State → ℕ × State
  alloc_internal large new_from new_to d s =
      let sz = up d.size in
      let r = s.region in
      let counted : Region = record r {
        current_memory_used = r.current_memory_used + d.size;
        region_size = r.region_size + 1;
      } in
      let s₁ : State = record s { region = counted } in
      let s₂ = if ltb r.alloc_end (r.alloc_ptr + sz) then grow new_from new_to sz s₁ else s₁ in
      if ltb large_object_threshold sz
      then (
        large,
        record {
          region = record counted { large_objects = large ∷ r.large_objects };
          mem = write s.mem large (init_next d (head_or_null r.large_objects));
        },
      )
      else (
        s₂.region.alloc_ptr,
        record {
          region = record s₂.region { alloc_ptr = s₂.region.alloc_ptr + sz };
          mem = write s₂.mem s₂.region.alloc_ptr (init_next d 0);
        },
      )

  pub ensure_available : (new_from new_to bytes : ℕ) → State → State
  ensure_available new_from new_to bytes s =
      if ltb (s.region.alloc_end - s.region.alloc_ptr) bytes
      then grow new_from new_to bytes s
      else s

-- `reg` is the region's own address, which the header of its root holds.
pub create : (reg from_space to_space root : ℕ) → Obj → RSet → Mem → State
create reg from_space to_space root d rset m = record {
  region = record {
    semispace_size = initial_semispace_size;
    from_space = from_space;
    to_space = to_space;
    alloc_ptr = from_space;
    alloc_end = from_space + initial_semispace_size;
    current_memory_used = d.size;
    region_size = 1;
    large_objects = [];
    pinned_iso = root;
    rset = rset;
  };
  mem = write m root (record d { cls = iso; payload = reg });
}

-- The old root becomes an ordinary object, `next` the root. `pinned_iso` is as before.
pub swap_root : (prev next : ℕ) → State → State
swap_root prev next s =
    let reg = (s.mem prev).payload in
    let cleared = write s.mem prev (init_next (s.mem prev) 0) in
    record s { mem = write cleared next (record (cleared next) { cls = iso; payload = reg }) }
