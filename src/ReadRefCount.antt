-- ===== src/ReadRefCount.antt =====
-- The count of a cown's readers, with the flag of a writer that waits: ReadRefCount of
-- src/rt/boc/cown.h, cut where it touches the atomic.
-- `System` adds the threads: the readers, and the one writer, as `try_write` runs neither beside
-- itself nor beside `add_read`. What a cown's queue makes of the answers is not modelled here.
mod Tests
pub mod Exclusion
use verona_rt_gc_bench.Base.{
  ℕ, ◌+◌, ◌-◌, ◌*◌, ◌%◌, ◌≡◌, ◌≤◌, ◌<◌, Bool, true, false, Option, none, some, ltb, ◌==◌,
  if◌then◌else◌,
}

pub data Status : Type 0 where
  last_reader last_reader_waiting_writer not_last : Status

abbrev pub size_t : ℕ → ℕ
size_t n = n % 18446744073709551616

-- Whether the first reader has come, and the count.
unfoldable pub add_read : (readers : ℕ) → ℕ → Bool × ℕ
add_read readers count = (count == 0, size_t (count + readers * 2))

-- `release_read` up to the store: `none` if the thread is to do the store.
unfoldable pub release_read : ℕ → Option Status × ℕ
release_read count = (
  if ltb 3 count then some not_last else if count == 2 then some last_reader else none,
  size_t (count + 18446744073709551616 - 2),
)

-- The store in `release_read`.
abbrev pub hand_over : ℕ → Status × ℕ
hand_over count = (last_reader_waiting_writer, 0)

-- `try_write`: the load, and then the addition. `none` where the thread goes on.
abbrev pub try_load : ℕ → Option Bool
try_load count = if count == 0 then some true else none

unfoldable pub try_add : ℕ → Option Bool × ℕ
try_add count = (if count == 0 then none else some false, size_t (count + 1))

-- The store in `try_write`.
abbrev pub clear : ℕ → Bool × ℕ
clear count = (true, 0)

-- The writer: none, after the load, before the store of `try_write`, after its answer `false`, and
-- writing.
pub data Writer : Type 0 where
  absent loaded clearing waiting writing : Writer

-- `handing` are the threads before the store in `release_read`; `firsts` and `lasts` count the
-- answers that a reader is the first or the last one.
pub record System : Type 0 where
  pub count : ℕ
  pub readers : ℕ
  pub handing : ℕ
  pub writer : Writer
  pub firsts : ℕ
  pub lasts : ℕ

abbrev pub init : System
init = record { count = 0; readers = 0; handing = 0; writer = absent; firsts = 0; lasts = 0 }

-- Each reader takes up memory, so that there are never 2 ^ 56.
abbrev pub max_readers : ℕ
max_readers = 72057594037927936

unfoldable pub join : ℕ → System → System
join n s =
    let (first, c) = add_read n s.count in
    record s {
      count = c;
      readers = s.readers + n;
      firsts = if first then s.firsts + 1 else s.firsts;
    }

abbrev pub after_release : Option Status → System → System
after_release none s = record s { handing = s.handing + 1 }
after_release (some last_reader) s = record s { lasts = s.lasts + 1 }
after_release (some last_reader_waiting_writer) s = s
after_release (some not_last) s = s

unfoldable pub leave : System → System
leave s =
    let (status, c) = release_read s.count in
    after_release status (record s { count = c; readers = s.readers - 1 })

-- The last reader schedules the writer.
abbrev pub wake : System → System
wake s = record s {
  count = (hand_over s.count).1;
  handing = s.handing - 1;
  writer = writing;
  lasts = s.lasts + 1;
}

abbrev pub load : System → System
load s = record s { writer = elim (try_load s.count) [ some b ↦ writing | none ↦ loaded ] }

unfoldable pub announce : System → System
announce s =
    let (answer, c) = try_add s.count in
    record s { count = c; writer = elim answer [ some b ↦ waiting | none ↦ clearing ] }

abbrev pub go_on : System → System
go_on s = record s { count = (clear s.count).1; writer = writing }

-- A step of a reader.
pub data Leaving (s : System) : System → Type 0 where
  left : 1 ≤ s.readers → Leaving s (leave s)
  woke : 1 ≤ s.handing → Leaving s (wake s)

pub data Step (s : System) : System → Type 0 where
  joined : (n : ℕ) → 1 ≤ n → s.readers + n < max_readers → s.writer ≡ absent → Step s (join n s)
  reader : {t : System} → Leaving s t → Step s t
  asked : s.writer ≡ absent → Step s (load s)
  announced : s.writer ≡ loaded → Step s (announce s)
  cleared : s.writer ≡ clearing → Step s (go_on s)
  written : s.writer ≡ writing → Step s (record s { writer = absent })

pub data Reach : System → Type 0 where
  start : Reach init
  later : {s t : System} → Reach s → Step s t → Reach t
