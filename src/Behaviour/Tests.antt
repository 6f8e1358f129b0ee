-- ===== src/Behaviour/Tests.antt =====
-- The behaviours on concrete inputs.
use verona_rt_gc_bench.Base.{
  ℕ, ◌+◌, ◌*◌, ◌↔◌, arith, not, Returns, ◌≡◌, refl, true, false, ◌==◌, if◌then◌else◌, Option, none,
  some, List, [], ◌∷◌, map,
}
use verona_rt_gc_bench.Behaviour.Slot.{
  Slot, new_slot, set_read_only, take_move, set_ready, set_next_slot_reader_contended,
  set_next_slot_writer_contended, no_successor_response, is_next_slot_read_only, next_slot,
  next_behaviour, status_chain_closed,
}
use verona_rt_gc_bench.Behaviour.Schedule.{
  Slots, Request, request, compare, prepare, close_chain, prepare_next, open_chain, extend,
  link_slot,
}
use verona_rt_gc_bench.Behaviour.Cowns.{
  Cown, World, Resolve, resolve, schedule_many, acquire_chain, handle_read_only_enqueue,
  process_chain, release_chain, raise_from,
}
use verona_rt_gc_bench.Behaviour.Release.{release}
use verona_rt_gc_bench.Behaviour.Release.Wake.{writer, Woken, followed, at_writer, release-Woken}
use verona_rt_gc_bench.Behaviour.Slot.Race.{
  Race, Reach, begin, reached, start, owner_load, owner_exchange, successor_load,
  successor_exchange, successor_close, owner_loads, owner_exchanges, successor_loads,
  successor_exchanges, successor_closes, one_wins,
}
use verona_rt_gc_bench.Behaviour.Slot.Flags.{successor-roundtrip}
use verona_rt_gc_bench.Behaviour.Schedule.Chains.{Group, chain_of, groups}
use verona_rt_gc_bench.Behaviour.Schedule.Prepare.{repeats, prepare-groups, prepare-ec}
use verona_rt_gc_bench.Behaviour.Schedule.Order.{Ascending, prepare-Ascending}
use verona_rt_gc_bench.Behaviour.Resolve.{
  Countdown, new_behaviour, resolve_load, resolve_fetch_sub, Run, stay, later, loads, subtracts,
  here, work, resolve-once,
}
use verona_rt_gc_bench.Behaviour.Cowns.Readers.{raise_each, Consecutive, raises-Consecutive}

abbrev insert : Slots → Request → List Request → List Request
insert m r [] = r ∷ []
insert m r (q ∷ qs) = let rest = insert m r qs in if compare m q r then q ∷ rest else r ∷ q ∷ qs

abbrev sort : Slots → List Request → List Request
sort m [] = []
sort m (r ∷ rs) = insert m r (sort m rs)

-- Slots at 100, 200, …; bodies at 1000, 2000, …
abbrev bodies : ℕ → ℕ
bodies i = 1000 * (i + 1)

abbrev reader : ℕ → Slot
reader c = set_read_only (new_slot c false)

abbrev write_slot : ℕ → Slot
write_slot c = new_slot c false

abbrev idle : ℕ → Cown
idle c = record { last_slot = 0; read_ref_count = 0; next_writer = 0; rc = 1 }

abbrev world : Slots → World
world m = record { slots = m; cowns = idle; resolved = [] }

abbrev resolved_of : Option World → List Resolve
resolved_of none = []
resolved_of (some w) = w.resolved

-- when(read a) + when(read b) + when(read a): the second read of a is the third behaviour.
abbrev three_reads : Slots
three_reads a = if a == 200 then reader 16 else reader 8

three_reads_test :
    resolved_of
      (schedule_many sort bodies 3 ((100 ∷ []) ∷ (200 ∷ []) ∷ (300 ∷ []) ∷ []) (world three_reads))
    ≡ resolve 1000 2 true ∷ resolve 2000 3 true ∷ resolve 3000 1 true ∷ []
unfolding schedule_many prepare close_chain prepare_next open_chain extend link_slot acquire_chain
    take_move handle_read_only_enqueue process_chain release_chain
three_reads_test = refl

abbrev raced : Race
raced = successor_close (successor_exchange 64 (owner_exchange (successor_load (owner_load start))))

raced_reached : Reach 64 raced
raced_reached =
    reached
      (reached
        (reached (reached (reached begin (owner_loads refl)) (successor_loads refl))
          (owner_exchanges refl))
        (successor_exchanges refl))
      (successor_closes refl)

one_wins_example : (false ≡ not true) × (raced.status ≡ (if true then status_chain_closed else 64))
one_wins_example =
    one_wins 64 (omega arith) {s = raced} {x = true} {y = false} raced_reached refl refl

abbrev ready_reader : Slot
ready_reader = set_ready (reader 8)

successor-roundtrip_example :
    (let (won, t) = set_next_slot_reader_contended 64 ready_reader in
      (won ≡ true)
      × (no_successor_response t ≡ false)
      × (is_next_slot_read_only t ≡ true)
      × (next_slot t ≡ 64))
    × (let (won, t) = set_next_slot_writer_contended 64 ready_reader in
        (won ≡ true)
        × (no_successor_response t ≡ false)
        × (is_next_slot_read_only t ≡ false)
        × (next_behaviour t ≡ 64))
successor-roundtrip_example = successor-roundtrip 64 ready_reader refl (omega arith) refl

abbrev sorted_reads : List Request
sorted_reads = request 0 100 ∷ request 2 300 ∷ request 1 200 ∷ []

prepare-groups_example :
    (prepare bodies three_reads sorted_reads).chain_info
    ≡ map (chain_of bodies three_reads) (groups three_reads sorted_reads)
prepare-groups_example =
    prepare-groups bodies three_reads sorted_reads ((refl, (refl, tt)), ((refl, tt), (tt, tt)))

-- One behaviour that reads a twice.
abbrev twice : List Request
twice = request 0 100 ∷ request 0 300 ∷ []

prepare-ec_example :
    (prepare bodies three_reads twice).ec 0 ≡ 1 + repeats bodies three_reads 0 twice
prepare-ec_example = prepare-ec bodies three_reads twice ((refl, tt), (tt, tt)) 0

prepare-Ascending_example :
    Ascending (map (λ c. c.cown) (prepare bodies three_reads sorted_reads).chain_info)
prepare-Ascending_example =
    prepare-Ascending three_reads bodies sorted_reads (refl, (refl, tt))
      ((refl, (refl, tt)), ((refl, tt), (tt, tt)))

-- The two calls of a behaviour with one slot: both load, and then both subtract.
abbrev two_calls : Countdown
two_calls = new_behaviour 1 (1 ∷ 1 ∷ [])

abbrev both_done : Countdown
both_done =
    resolve_fetch_sub 1 []
      (resolve_fetch_sub 1 (1 ∷ []) (resolve_load 1 [] (resolve_load 1 (1 ∷ []) two_calls)))

both_done-Run : Run two_calls 4 both_done
unfolding resolve_load resolve_fetch_sub
both_done-Run =
    later (later (later (later stay (loads here)) (loads here)) (subtracts here)) (subtracts here)

resolve-once_example : both_done.scheduled ≡ (if work both_done == 0 then 1 else 0)
resolve-once_example =
    resolve-once 1 (1 ∷ 1 ∷ []) (omega arith, (omega arith, tt)) refl (omega arith) both_done-Run

abbrev apart_reads : Group
apart_reads = record { first = request 0 100; rest = request 2 300 ∷ [] }

raises-Consecutive_example :
    ((j : ℕ) → raise_from 0 2 (λ i. 1) j ≡ raise_each (0 ∷ 2 ∷ []) (λ i. 1) j)
    ↔ Consecutive (0 ∷ 2 ∷ [])
raises-Consecutive_example =
    raises-Consecutive bodies three_reads apart_reads (λ i. 1) refl (omega arith, tt)

-- The writer at 100 has run, and the readers at 200 and 300 wait for it, with the writer 4000 behind.
abbrev queued : Slots
queued a =
    if a == 100
    then record { cown_bits = 8; status = 201; behaviour = 0 }
    else if a == 200
    then record { cown_bits = 10; status = 301; behaviour = 2000 }
    else record { cown_bits = 10; status = 4000; behaviour = 3000 }

release-Woken_example :
    Returns (Woken (world queued) 8 200 (300 ∷ []) (writer 4000)) (release 5 100 (world queued))
release-Woken_example =
    release-Woken 5 (world queued) 100 200 (300 ∷ []) (writer 4000)
      (record {
        duplicate = refl;
        writes = refl;
        pointer = (omega arith, refl);
        status = refl;
        readers = followed (omega arith, refl) refl (at_writer (omega arith, refl) refl);
        distinct = (refl, (refl, tt));
        no_readers = refl;
      })
      (omega arith) (omega arith)
