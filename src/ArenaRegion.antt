-- ===== src/ArenaRegion.antt =====
-- The arena region: src/rt/region/region_arena.h. `arenas` are the arenas from last_arena to
-- first_arena, and `large` is the ring of large objects in the order of the links, last_large at the
-- end. A size is that of the descriptor; a place that heap::alloc returns is an argument.
pub mod Layout
pub mod Alloc
pub mod Merge
pub mod Swap
pub mod Iterator
mod Tests
use verona_rt_gc_bench.Base.{
  ℕ, ◌+◌, ◌-◌, Bool, true, false, not, ◌&&◌, ltb, leb, ◌==◌, if◌then◌else◌, List, [], ◌∷◌, ◌++◌,
}
use verona_rt_gc_bench.Object.{Obj, iso, Mem, write, is_trivial, init_next}
use verona_rt_gc_bench.TraceRegion.{rotate, last_or, relink}

-- `Arena::SIZE`
abbrev pub arena_size : ℕ
arena_size = 1048544

pub record Arena : Type 0 where
  pub objects_begin : ℕ
  pub objects_end : ℕ
  pub non_trivial_begin : ℕ

abbrev pub non_trivial_end : Arena → ℕ
non_trivial_end a = a.objects_begin + arena_size

-- `Arena()`
abbrev pub new_arena : ℕ → Arena
new_arena place = record {
  objects_begin = place;
  objects_end = place;
  non_trivial_begin = place + arena_size;
}

abbrev pub free_space : Arena → ℕ
free_space a = a.non_trivial_begin - a.objects_end

pub record Region : Type 0 where
  pub arenas : List Arena
  pub large : List ℕ
  pub current_memory_used : ℕ
  pub region_size : ℕ

abbrev pub new_region : Region
new_region = record { arenas = []; large = []; current_memory_used = 0; region_size = 0 }

-- Where the object goes, and the arena after that.
unfoldable pub alloc_obj : Obj → Arena → ℕ × Arena
alloc_obj o a =
    if is_trivial o then (a.objects_end, record a { objects_end = a.objects_end + o.size }) else (
      a.non_trivial_begin - o.size,
      record a { non_trivial_begin = a.non_trivial_begin - o.size },
    )

abbrev pub needs_arena : ℕ → List Arena → Bool
needs_arena size [] = true
needs_arena size (a ∷ rest) = ltb (free_space a) size

abbrev pub alloc_in : Obj → List Arena → ℕ × List Arena
alloc_in o [] = (0, [])
alloc_in o (a ∷ rest) = let (p, b) = alloc_obj o a in (p, b ∷ rest)

-- The place of the object and the region after the allocation; `place` is what heap::alloc returns.
unfoldable pub alloc_internal : (place : ℕ) → Obj → Region → ℕ × Region
alloc_internal place o r =
    let counted : Region = record r {
      current_memory_used = r.current_memory_used + o.size;
      region_size = r.region_size + 1;
    } in
    if ltb arena_size o.size
    then (place, record counted { large = place ∷ r.large })
    else (let arenas =
          if needs_arena o.size r.arenas then new_arena place ∷ r.arenas else r.arenas in
        let (p, used) = alloc_in o arenas in (p, record counted { arenas = used }))

-- The memory after the allocation of the object o at p.
abbrev pub register_object : ℕ → Obj → Mem → Mem
register_object p o m = write m p (init_next o 0)

unfoldable pub alloc : (place : ℕ) → Obj → Mem → Region → ℕ × Mem × Region
alloc place o m r = let (p, after) = alloc_internal place o r in (p, register_object p o m, after)

-- `init_iso` and `set_region`
abbrev pub make_root : Mem → (o region : ℕ) → Mem
make_root m o region = write m o (record (m o) { cls = iso; payload = region })

-- `region` is the address of the region's own object.
unfoldable pub create : (region place : ℕ) → Obj → Mem → ℕ × Mem × Region
create region place o m =
    let (p, after, r) = alloc place o m new_region in (p, make_root after p region, r)

unfoldable pub merge_internal : Region → Region → Region
merge_internal other r = record {
  arenas = other.arenas ++ r.arenas;
  large = other.large ++ r.large;
  current_memory_used = r.current_memory_used + other.current_memory_used;
  region_size = r.region_size + other.region_size;
}

abbrev pub relink_tail : List ℕ → Mem → Mem
relink_tail [] m = m
relink_tail (p ∷ ring) m = relink m (last_or p ring)

-- The memory after `merge`, for the root o of the other region.
unfoldable pub merge : (ℕ → ℕ) → (o : ℕ) → (other : Region) → Mem → Region → Mem × Region
merge align_up o other m r =
    let joined = relink_tail other.large m in
    (
      if leb (align_up (m o).size) arena_size
          then write joined o (init_next (joined o) 0)
          else joined,
      merge_internal other r,
    )

-- What becomes of the old root's header.
abbrev pub leave_root : (ℕ → ℕ) → (oroot nroot : ℕ) → Mem → Mem
leave_root align_up oroot nroot m =
    if leb (align_up (m oroot).size) arena_size
    then write m oroot (init_next (m oroot) 0)
    else if leb (align_up (m nroot).size) arena_size
    then relink m oroot
    else m

unfoldable pub swap_root_internal : (ℕ → ℕ) → (region oroot nroot : ℕ) → Mem → Region → Mem × Region
swap_root_internal align_up region oroot nroot m r =
    let left = leave_root align_up oroot nroot m in
    let moves = not (nroot == last_or 0 r.large) && ltb arena_size (align_up (m nroot).size) in
    if moves
    then (
      make_root (relink left (last_or 0 r.large)) nroot region,
      record r { large = rotate nroot r.large },
    )
    else (make_root left nroot region, r)
