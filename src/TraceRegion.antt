-- ===== src/TraceRegion.antt =====
-- The trace region: src/rt/region/region_trace.h.
-- A ring, which the source links from the region through the objects' headers and back to it, is the
-- list of its objects in that order: `primary` from `get_next()` on, the root last, and `secondary`
-- from `next_not_root` to `last_not_root`. Of the links that `init_next` writes only the class is
-- kept. What snmalloc returns, and its size classes, are arguments.
pub mod Collect
pub mod Rings
pub mod Iterator
mod Tests
use verona_rt_gc_bench.Base.{
  ℕ, suc, ◌+◌, ◌-◌, ◌%◌, Bool, true, false, List, [], ◌∷◌, ◌++◌, Option, none, some, ltb, ◌==◌,
  if◌then◌else◌, ◌>>=◌,
}
use verona_rt_gc_bench.Object.{unmarked, iso, Obj, Mem, write, is_trivial, root_of}
use verona_rt_gc_bench.RememberedSet
use verona_rt_gc_bench.RememberedSet.{RSet, Transfer}

pub record Region : Type 0 where
  pub primary : List ℕ
  pub secondary : List ℕ
  pub current_memory_used : ℕ
  pub memory_at_last_gc : ℕ
  pub closes_since_gc : ℕ
  pub region_size : ℕ
  pub previous_memory_used : ℕ
  pub additional_entry_points : List ℕ
  pub rset : RSet

pub record State : Type 0 where
  pub region : Region
  pub mem : Mem

-- Equality of two answers.
abbrev pub agree : Bool → Bool → Bool
agree true b = b
agree false true = false
agree false false = true

abbrev pub size_t : ℕ → ℕ
size_t n = n % 18446744073709551616

abbrev pub use_memory : ℕ → ℕ → ℕ
use_memory used size = size_t (used + size)

-- `current_memory_used -= size`
abbrev pub drop_memory : ℕ → ℕ → ℕ
drop_memory used size = size_t (used + 18446744073709551616 - size)

-- Of `init_next` the class.
abbrev pub relink : Mem → ℕ → Mem
relink m a = write m a (record (m a) { cls = unmarked })

-- `init_iso` and `set_region`
abbrev pub make_iso : Mem → ℕ → Mem
make_iso m a = write m a (record (m a) { cls = iso })

-- `get_next()->is_trivial()`; the region itself is trivial.
abbrev pub next_is_trivial : Mem → List ℕ → Bool
next_is_trivial m [] = true
next_is_trivial m (p ∷ ring) = is_trivial (m p)

-- The segment from `hd` to `tl`, which is `seg`, after the region in the ring that fits `hd`.
abbrev pub append : Mem → ℕ → List ℕ → Region → Region
append m hd seg r =
    if agree (is_trivial (m hd)) (next_is_trivial m r.primary)
    then record r { primary = seg ++ r.primary }
    else record r { secondary = seg ++ r.secondary }

-- A whole ring, if it has an object.
abbrev pub append_all : Mem → List ℕ → Region → Region
append_all m [] r = r
append_all m (hd ∷ seg) r = append m hd (hd ∷ seg) r

-- The new object is given by its descriptor's constants and its body; `o` is where it goes.
unfoldable pub create : (o : ℕ) → Obj → Mem → State
create o d m = record {
  region = record {
    primary = o ∷ [];
    secondary = [];
    current_memory_used = use_memory 0 d.size;
    memory_at_last_gc = 0;
    closes_since_gc = 0;
    region_size = 1;
    previous_memory_used = 0;
    additional_entry_points = [];
    rset = record { entries = []; count = λ a. 0 };
  };
  mem = write m o (record d { cls = iso });
}

unfoldable pub alloc : (o : ℕ) → Obj → State → State
alloc o d s =
    let m = write s.mem o (record d { cls = unmarked }) in
    let r = append m o (o ∷ []) s.region in
    record {
      region = record r {
        current_memory_used = use_memory r.current_memory_used d.size;
        region_size = size_t (r.region_size + 1);
      };
      mem = m;
    }

-- `merge_internal(o, other)`: `tail` is relinked, which is `o` for the primary ring.
unfoldable pub merge_internal : (to_class from_class : ℕ → ℕ) → ℕ → Region → State → State
merge_internal to_class from_class o other s =
    let m = relink s.mem o in
    let first = append_all s.mem other.primary s.region in
    let both = append_all m other.secondary first in
    record {
      region = record both {
        current_memory_used = size_t (both.current_memory_used + other.current_memory_used);
        region_size = size_t (both.region_size + other.region_size);
        previous_memory_used =
            to_class
              (from_class other.previous_memory_used + from_class other.previous_memory_used);
      };
      mem = m;
    }

-- `merge(into, o)` of two trace regions; `none` is the abort.
unfoldable pub merge : (to_class from_class : ℕ → ℕ) → ℕ → Region → State → Option State
merge to_class from_class o other s = elim other.additional_entry_points [
  | [] ↦
      let merged = merge_internal to_class from_class o other s in
      some (record merged {
        region = record merged.region {
          rset = RememberedSet.merge merged.region.rset other.rset.entries;
        };
      })
  | _ ∷ _ ↦ none
]

abbrev pub before : ℕ → List ℕ → List ℕ
before n [] = []
before n (p ∷ ring) = if p == n then [] else p ∷ before n ring

abbrev pub after : ℕ → List ℕ → List ℕ
after n [] = []
after n (p ∷ ring) = if p == n then ring else after n ring

abbrev pub last_or : ℕ → List ℕ → ℕ
last_or o [] = o
last_or o (p ∷ ring) = last_or p ring

-- The old root takes the ring's start after it, and the new root comes to be the last.
abbrev pub rotate : ℕ → List ℕ → List ℕ
rotate n ring = after n ring ++ before n ring ++ n ∷ []

unfoldable pub swap_root_internal : ℕ → ℕ → State → State
swap_root_internal oroot nroot s =
    let r = s.region in
    let swap = agree (is_trivial (s.mem oroot)) (is_trivial (s.mem nroot)) in
    let s₁ : State = if swap then s else record {
      region = record r { primary = r.secondary; secondary = r.primary };
      mem = relink s.mem oroot;
    } in
    let old = if swap then oroot else last_or oroot r.secondary in
    let s₂ : State = if old == nroot then s₁ else record {
      region = record s₁.region { primary = rotate nroot s₁.region.primary };
      mem = relink s₁.mem old;
    } in
    record s₂ { mem = make_iso s₂.mem nroot }

-- The bound on the chain of SCC pointers: a chain's ranks rise, and a rank is at most 127.
abbrev pub max_rank : ℕ
max_rank = 128

unfoldable pub insert : Transfer → ℕ → Mem → Region → Region
insert transfer o m r = record r {
  rset = RememberedSet.insert transfer (root_of max_rank m o) r.rset;
}

-- Whether a collection is due, with the region after the question.
unfoldable pub gc_condition : Region → Bool × Region
gc_condition r =
    if ltb 3 r.closes_since_gc
    then (true, r)
    else if ltb 1000 (size_t (r.current_memory_used + 18446744073709551616 - r.memory_at_last_gc))
    then (true, record r { closes_since_gc = 0 })
    else (false, record r { closes_since_gc = r.closes_since_gc + 1 })

abbrev pub push_additional_root : ℕ → Region → Region
push_additional_root o r = record r { additional_entry_points = o ∷ r.additional_entry_points }

-- `none`: the stack is empty, or its top is another object.
abbrev pub pop_additional_root : ℕ → Region → Option Region
pop_additional_root o r = elim r.additional_entry_points [
  | [] ↦ none
  | top ∷ rest ↦ if top == o then some (record r { additional_entry_points = rest }) else none
]
