-- ===== src/Behaviour/Release.antt =====
-- What a behaviour does when it has run, by a thread that nothing interrupts: `Slot::release`,
-- `drop_read`, `wakeup_next_writer` and `BehaviourCore::release_all` of src/rt/boc/behaviourcore.h.
-- `none` is a thread that waits for another one, or fuel that does not reach the end of the readers.
pub mod Wake
use verona_rt_gc_bench.Base.{
  ℕ, zero, suc, ◌+◌, Bool, true, false, not, ◌==◌, if◌then◌else◌, Option, none, some, List, [], ◌∷◌,
  ◌++◌, map,
}
use verona_rt_gc_bench.Behaviour.Slot.{
  Slot, cown, is_read_only, is_cown_duplicate, no_successor_response, is_next_slot_read_only,
  next_slot, next_behaviour, set_read_available_contended, reset_status,
}
use verona_rt_gc_bench.Behaviour.Schedule.{Slots, update}
use verona_rt_gc_bench.Behaviour.Cowns.{
  Cown, World, Resolve, resolve, set_cown, store_slot, acquire, decref, try_write,
}
use verona_rt_gc_bench.ReadRefCount.{
  Status, last_reader, last_reader_waiting_writer, not_last, add_read, release_read, hand_over,
}

abbrev pub push_resolve : Resolve → World → World
push_resolve r w = record w { resolved = w.resolved ++ (r ∷ []) }

-- `shared::release`, as far as the count goes
abbrev pub release_cown : ℕ → World → World
release_cown c w = let k = w.cowns c in set_cown c (record k { rc = decref k.rc }) w

unfoldable pub wakeup_next_writer : ℕ → World → Option World
wakeup_next_writer c w =
    let k = w.cowns c in
    if k.next_writer == 0
    then none
    else some
        (push_resolve (resolve k.next_writer 1 true) (set_cown c (record k { next_writer = 0 }) w))

abbrev pub then_release : ℕ → Option World → Option World
then_release c none = none
then_release c (some w) = some (release_cown c w)

abbrev pub after_read : ℕ → Option Status → World → Option World
after_read c none w =
    let k = w.cowns c in
    then_release c (
      wakeup_next_writer c
        (set_cown c (record k { read_ref_count = (hand_over k.read_ref_count).1 }) w))
after_read c (some last_reader) w = some (release_cown c w)
after_read c (some last_reader_waiting_writer) w = then_release c (wakeup_next_writer c w)
after_read c (some not_last) w = some w

unfoldable pub drop_read : ℕ → World → Option World
drop_read c w =
    let k = w.cowns c in
    let (status, count) = release_read k.read_ref_count in
    after_read c status (set_cown c (record k { read_ref_count = count }) w)

-- The readers that are woken: where the walk stopped, how far it went, and whether a writer stands there.
pub record Walk : Type 0 where
  pub slots : Slots
  pub writer_at_end : Bool
  pub last_slot : ℕ
  pub count : ℕ

unfoldable pub walk_readers : (fuel : ℕ) → Slots → (curr_slot count : ℕ) → Option Walk
walk_readers zero m a n = none
walk_readers (suc fuel) m a n =
    let (status, s) = set_read_available_contended (m a) in
    let rest = walk_readers fuel m (next_slot (m a)) (n + 1) in
    if status
    then some (record { slots = update m a s; writer_at_end = false; last_slot = a; count = n })
    else if not (is_next_slot_read_only (m a))
    then some (record { slots = m; writer_at_end = true; last_slot = a; count = n })
    else rest

-- The last loop: the behaviours of the slots from curr_slot on, in order.
unfoldable pub resolve_readers : (fuel : ℕ) → Slots → (curr_slot last_slot : ℕ) → List Resolve
resolve_readers zero m a last = []
resolve_readers (suc fuel) m a last =
    let rest = resolve_readers fuel m (next_slot (m a)) last in
    let first = resolve (m a).behaviour 1 false in if a == last then first ∷ [] else first ∷ rest

abbrev pub add_readers : ℕ → ℕ → ℕ
add_readers n count = (add_read n count).1

-- After the walk.
unfoldable pub finish_walk : (fuel c first : ℕ) → Walk → World → World
finish_walk fuel c first walk w =
    let k = w.cowns c in
    let count = add_readers walk.count k.read_ref_count in
    let last = walk.slots walk.last_slot in
    let after =
      if walk.writer_at_end
      then record k { read_ref_count = (try_write count).1; next_writer = next_behaviour last }
      else record k { read_ref_count = count } in
    record {
      slots = walk.slots;
      cowns = (set_cown c after w).cowns;
      resolved = w.resolved ++ resolve_readers fuel walk.slots first walk.last_slot;
    }

abbrev pub after_walk : (fuel c first : ℕ) → Option Walk → World → Option World
after_walk fuel c first none w = none
after_walk fuel c first (some walk) w = some (finish_walk fuel c first walk w)

-- The final case: a writer wakes the readers that follow it.
unfoldable pub wake_readers : (fuel a : ℕ) → World → Option World
wake_readers fuel a w =
    let s = w.slots a in
    let k = w.cowns (cown s) in
    let started =
      set_cown (cown s)
        (record k { read_ref_count = add_readers 1 k.read_ref_count; rc = acquire k.rc }) w in
    after_walk fuel (cown s) (next_slot s) (walk_readers fuel w.slots (next_slot s) 0) started

-- `compare_exchange_strong(slot_addr, nullptr)` of the cown's last slot has succeeded.
abbrev pub release_last : ℕ → World → Option World
release_last a w =
    let s = w.slots a in
    let k = w.cowns (cown s) in
    let emptied = set_cown (cown s) (record k { last_slot = 0 }) w in
    then_release (cown s) (if is_read_only s then drop_read (cown s) emptied else some emptied)

unfoldable pub release : (fuel a : ℕ) → World → Option World
release fuel a w =
    let s = w.slots a in
    if is_cown_duplicate s
    then some w
    else if no_successor_response s
    then if (w.cowns (cown s)).last_slot == a then release_last a w else none
    else if is_read_only s
    then drop_read (cown s) w
    else if not (is_next_slot_read_only s)
    then some (push_resolve (resolve (next_behaviour s) 1 true) w)
    else wake_readers fuel a w

abbrev pub release_all : (fuel : ℕ) → (slots : List ℕ) → World → Option World
release_all fuel [] w = some w
release_all fuel (a ∷ rest) w = elim (release fuel a w) [
  | none ↦ none
  | some after ↦ release_all fuel rest after
]

-- `BehaviourCore::reset`, but for the count
abbrev pub reset_slots : (slots : List ℕ) → World → World
reset_slots [] w = w
reset_slots (a ∷ rest) w = reset_slots rest (store_slot a (reset_status (w.slots a)) w)
