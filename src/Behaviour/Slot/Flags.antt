-- ===== src/Behaviour/Slot/Flags.antt =====
-- What the flags in a slot's words do to each other and to the pointers above them.
use verona_rt_gc_bench.Base.{ℕ, ◌%◌, ◌≡◌, ◌≤◌, Bool, true, false, if◌then◌else◌, arith}
use verona_rt_gc_bench.Behaviour.Slot.{
  Slot, new_slot, cown, is_read_only, set_read_only, is_move, set_move, take_move,
  is_cown_duplicate, set_cown_duplicate, status_ready, no_successor_response,
  is_next_slot_read_only, next_slot, next_behaviour, set_next_slot_reader_contended,
  set_next_slot_writer_contended,
}

-- The cown and the three flags of a slot.
abbrev pub Has : ℕ → (move reader duplicate : Bool) → Slot → Type 0
Has c move reader duplicate s =
    (cown s ≡ c)
    × (is_move s ≡ move)
    × (is_read_only s ≡ reader)
    × (is_cown_duplicate s ≡ duplicate)

-- A new slot holds the cown, with no flag set; each operation on the flags then changes its own flag
-- only, and take_move tells whether the flag was set.
pub flags-roundtrip :
    (c : ℕ) (ready : Bool)
    → c % 8 ≡ 0
    → Has c false false false (new_slot c ready)
      × ((m r d : Bool) (s : Slot)
          → Has c m r d s
          → Has c true r d (set_move s)
            × Has c m true d (set_read_only s)
            × Has c m r true (set_cown_duplicate s)
            × Has c false r d (take_move s).1
            × ((take_move s).0 ≡ (if m then 1 else 0)))
unfolding take_move
flags-roundtrip c ready h = (ground arith, λ m r d s i. ground (arith, i))

-- A successor at an aligned address that finds the slot ready is attached to it as a reader or as
-- a writer: the slot then tells that it has answered, of which kind it is, and where it is.
pub successor-roundtrip :
    (n : ℕ) (s : Slot)
    → n % 4 ≡ 0
    → 4 ≤ n
    → s.status ≡ status_ready
    → (let (won, t) = set_next_slot_reader_contended n s in
        (won ≡ true)
        × (no_successor_response t ≡ false)
        × (is_next_slot_read_only t ≡ true)
        × (next_slot t ≡ n))
      × (let (won, t) = set_next_slot_writer_contended n s in
          (won ≡ true)
          × (no_successor_response t ≡ false)
          × (is_next_slot_read_only t ≡ false)
          × (next_behaviour t ≡ n))
unfolding set_next_slot_reader_contended set_next_slot_writer_contended
successor-roundtrip n s h k e = (ground arith, ground arith)
