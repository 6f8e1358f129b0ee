-- ===== src/Behaviour/Slot.antt =====
-- The slot of a behaviour: class Slot of src/rt/boc/behaviourcore.h. Its two words are numbers, with
-- the flags in the lowest bits; assertions are left out. An operation that loads and then exchanges
-- is one step here, and is taken apart in Slot/Race.
pub mod Flags
pub mod Race
use verona_rt_gc_bench.Base.{
  ℕ, ◌+◌, ◌-◌, ◌/◌, ◌%◌, Bool, true, false, not, ltb, ◌==◌, if◌then◌else◌,
}

pub record Slot : Type 0 where
  pub cown_bits : ℕ
  pub status : ℕ
  pub behaviour : ℕ

-- `n & k`, `n | k` and `n & ~k` for a power of two `k`
abbrev pub has_bit : ℕ → ℕ → Bool
has_bit k n = n / k % 2 == 1

abbrev pub set_bit : ℕ → ℕ → ℕ
set_bit k n = if has_bit k n then n else n + k

abbrev pub clear_bit : ℕ → ℕ → ℕ
clear_bit k n = if has_bit k n then n - k else n

abbrev pub status_wait : ℕ
status_wait = 0

abbrev pub status_ready : ℕ
status_ready = 1

abbrev pub status_read_available : ℕ
status_read_available = 2

abbrev pub status_chain_closed : ℕ
status_chain_closed = 3

-- `Slot(cown, ready)`
abbrev pub new_slot : ℕ → Bool → Slot
new_slot c ready = record {
  cown_bits = c;
  status = if ready then status_ready else status_wait;
  behaviour = 0;
}

-- `& COWN_POINTER_MASK`
abbrev pub cown : Slot → ℕ
cown s = s.cown_bits - s.cown_bits % 8

abbrev pub is_read_only : Slot → Bool
is_read_only s = has_bit 2 s.cown_bits

abbrev pub set_read_only : Slot → Slot
set_read_only s = record s { cown_bits = set_bit 2 s.cown_bits }

abbrev pub is_move : Slot → Bool
is_move s = has_bit 1 s.cown_bits

abbrev pub set_move : Slot → Slot
set_move s = record s { cown_bits = set_bit 1 s.cown_bits }

unfoldable pub take_move : Slot → ℕ × Slot
take_move s = (if is_move s then 1 else 0, record s { cown_bits = clear_bit 1 s.cown_bits })

abbrev pub is_cown_duplicate : Slot → Bool
is_cown_duplicate s = has_bit 4 s.cown_bits

abbrev pub set_cown_duplicate : Slot → Slot
set_cown_duplicate s = record s { cown_bits = set_bit 4 s.cown_bits }

-- `reset_status` and `reset`
abbrev pub reset_status : Slot → Slot
reset_status s = record s { status = status_wait }

abbrev pub set_ready : Slot → Slot
set_ready s = record s { status = status_ready }

abbrev pub is_wait_2pl : Slot → Bool
is_wait_2pl s = s.status == status_wait

abbrev pub no_successor_response : Slot → Bool
no_successor_response s = ltb s.status status_chain_closed

abbrev pub is_next_slot_read_only : Slot → Bool
is_next_slot_read_only s = has_bit 1 s.status

-- `& STATUS_NEXT_SLOT_MASK`
abbrev pub next_slot : Slot → ℕ
next_slot s = s.status - s.status % 4

abbrev pub next_behaviour : Slot → ℕ
next_behaviour s = s.status - s.status % 4

abbrev pub set_behaviour : ℕ → Slot → Slot
set_behaviour b s = record s { behaviour = b }

abbrev pub set_next_slot_reader_uncontended : ℕ → Slot → Slot
set_next_slot_reader_uncontended n s = record s { status = set_bit 1 n }

abbrev pub set_next_slot_writer_uncontended : ℕ → Slot → Slot
set_next_slot_writer_uncontended b s = record s { status = b }

abbrev pub set_read_available_uncontended : Slot → Slot
set_read_available_uncontended s = record s { status = status_read_available }

unfoldable pub set_read_available_contended : Slot → Bool × Slot
set_read_available_contended s =
    if s.status == status_ready
    then (true, record s { status = status_read_available })
    else (false, s)

unfoldable pub set_next_slot_reader_contended : ℕ → Slot → Bool × Slot
set_next_slot_reader_contended n s =
    if s.status == status_ready
    then (true, record s { status = set_bit 1 n })
    else (false, record s { status = status_chain_closed })

unfoldable pub set_next_slot_writer_contended : ℕ → Slot → Bool × Slot
set_next_slot_writer_contended b s =
    if not (is_read_only s)
    then (true, record s { status = b })
    else if s.status == status_ready
    then (true, record s { status = b })
    else (false, record s { status = status_chain_closed })
