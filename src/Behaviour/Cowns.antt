-- ===== src/Behaviour/Cowns.antt =====
-- The acquire, release and process phases of `BehaviourCore::schedule_many`, src/rt/boc/behaviourcore.h,
-- for a thread that nothing interrupts: `none` is a thread that waits for another one.
-- A cown's record has what these phases use of it; `rc` is its count of strong references. The calls of
-- `resolve` are kept in order instead of being done.
pub mod Readers
use verona_rt_gc_bench.Base.{
  ℕ, zero, suc, ◌+◌, ◌-◌, Bool, true, false, not, ◌&&◌, ◌||◌, ltb, ◌==◌, if◌then◌else◌, Option,
  none, some, List, [], ◌∷◌, ◌++◌,
}
use verona_rt_gc_bench.Behaviour.Slot.{
  Slot, is_read_only, is_wait_2pl, set_ready, set_read_available_uncontended,
  set_next_slot_reader_contended, set_next_slot_writer_contended,
}
use verona_rt_gc_bench.Behaviour.Schedule.{
  Slots, update, ChainInfo, Request, Prepared, prepare, requests, is_none, raise,
}
use verona_rt_gc_bench.ReadRefCount.{add_read, try_add}

pub record Cown : Type 0 where
  pub last_slot : ℕ
  pub read_ref_count : ℕ
  pub next_writer : ℕ
  pub rc : ℕ

-- A call of `resolve`.
pub record Resolve : Type 0 where
  pub behaviour : ℕ
  pub amount : ℕ
  pub fifo : Bool

abbrev pub resolve : (behaviour amount : ℕ) → Bool → Resolve
resolve b n fifo = record { behaviour = b; amount = n; fifo = fifo }

pub record World : Type 0 where
  pub slots : Slots
  pub cowns : ℕ → Cown
  pub resolved : List Resolve

abbrev pub store_slot : ℕ → Slot → World → World
store_slot a s w = record w { slots = update w.slots a s }

abbrev pub set_cown : ℕ → Cown → World → World
set_cown c k w = record w { cowns = λ d. if c == d then k else w.cowns d }

abbrev pub iterate : ℕ → (ℕ → ℕ) → ℕ → ℕ
iterate zero f n = n
iterate (suc k) f n = iterate k f (f n)

-- `Cown::acquire` and `Cown::release`, as far as the count goes
abbrev pub acquire : ℕ → ℕ
acquire rc = rc + 1

abbrev pub decref : ℕ → ℕ
decref rc = rc - 1

unfoldable pub acquire_with_transfer : (transfer required : ℕ) → ℕ → ℕ
acquire_with_transfer transfer required rc =
    if transfer == required
    then rc
    else if ltb required transfer
    then iterate (transfer - required) decref rc
    else iterate (required - transfer) acquire rc

-- `try_write`, with nothing between the load and the addition
unfoldable pub try_write : ℕ → Bool × ℕ
try_write count = if count == 0 then (true, count) else (false, (try_add count).1)

-- The reference count and whether the readers can run.
unfoldable pub handle_read_only_enqueue :
    (prev_slot chain_first_slot readers cown : ℕ) → World → (ℕ × Bool) × World
handle_read_only_enqueue prev first readers c w =
    let (attached, s) = set_next_slot_reader_contended first (w.slots prev) in
    let answered = if prev == 0 then w else store_slot prev s w in
    let k = answered.cowns c in
    let (first_reader, count) = add_read readers k.read_ref_count in
    if not (prev == 0) && attached then ((0, false), answered) else (
      (if first_reader then 1 else 0, true),
      set_cown c (record k { read_ref_count = count }) answered,
    )

abbrev pub enqueue_readers : (prev : ℕ) → ChainInfo → World → ChainInfo × World
enqueue_readers prev i w =
    let (answer, after) =
      handle_read_only_enqueue prev i.first_slot i.first_consecutive_readers_count i.cown w in
    (record i { ref_count = answer.0; read_only_can_run = answer.1 }, after)

unfoldable pub enqueue_writer : (ℕ → ℕ) → (prev : ℕ) → ChainInfo → World → ChainInfo × World
enqueue_writer bodies prev i w =
    let (attached, s) = set_next_slot_writer_contended (bodies i.first_body_index) (w.slots prev) in
    (if attached then i else record i { read_only_can_run = true }, store_slot prev s w)

unfoldable pub acquire_chain : (ℕ → ℕ) → ChainInfo → World → Option (ChainInfo × World)
acquire_chain bodies i w =
    let k = w.cowns i.cown in
    let prev = k.last_slot in
    let exchanged = set_cown i.cown (record k { last_slot = i.last_slot }) w in
    let reader = is_read_only (exchanged.slots i.first_slot) in
    if prev == 0
    then (let j = record i { had_no_predecessor = true } in
        some (if reader then enqueue_readers prev j exchanged else (j, exchanged)))
    else if is_wait_2pl (exchanged.slots prev)
    then none
    else some (
        if reader then enqueue_readers prev i exchanged else enqueue_writer bodies prev i exchanged)

abbrev pub acquire_rest :
    ChainInfo → Option (List ChainInfo × World) → Option (List ChainInfo × World)
acquire_rest i none = none
acquire_rest i (some (is, w)) = some (i ∷ is, w)

abbrev pub acquire_phase : (ℕ → ℕ) → List ChainInfo → World → Option (List ChainInfo × World)
acquire_phase bodies [] w = some ([], w)
acquire_phase bodies (i ∷ is) w = elim (acquire_chain bodies i w) [
  | none ↦ none
  | some (j, after) ↦ acquire_rest j (acquire_phase bodies is after)
]

unfoldable pub release_chain : ChainInfo → World → World
release_chain i w =
    if (i.had_no_predecessor || i.read_only_can_run) && is_none i.first_writer
    then store_slot i.last_slot (set_read_available_uncontended (w.slots i.last_slot)) w
    else store_slot i.last_slot (set_ready (w.slots i.last_slot)) w

abbrev pub release_phase : List ChainInfo → World → World
release_phase [] w = w
release_phase (i ∷ is) w = release_phase is (release_chain i w)

-- `for (int i = 0; i < count; i++) ec[first + i] += 1`
abbrev pub raise_from : (first count : ℕ) → (ℕ → ℕ) → ℕ → ℕ
raise_from first zero ec = ec
raise_from first (suc n) ec = raise_from (first + 1) n (raise ec first)

abbrev pub next_writer_of : Option ℕ → Cown → Cown
next_writer_of none k = k
next_writer_of (some b) k = record k {
  read_ref_count = (try_write k.read_ref_count).1;
  next_writer = b;
}

unfoldable pub process_chain : (ℕ → ℕ) → ChainInfo → (ℕ → ℕ) → World → (ℕ → ℕ) × World
process_chain bodies i ec w =
    let k = w.cowns i.cown in
    let required = if i.had_no_predecessor then i.ref_count + 1 else i.ref_count in
    let held = record k { rc = acquire_with_transfer i.transfer_count required k.rc } in
    let (can_write, count) = try_write held.read_ref_count in
    let raised =
      if i.read_only_can_run
      then raise_from i.first_body_index i.first_consecutive_readers_count ec
      else ec in
    if i.had_no_predecessor || i.read_only_can_run
    then if not (is_read_only (w.slots i.first_slot))
      then if can_write
        then (
          raise ec i.first_body_index,
          set_cown i.cown (record held { read_ref_count = count }) w,
        )
        else (
          ec,
          set_cown i.cown
              (record held { read_ref_count = count; next_writer = bodies i.first_body_index }) w,
        )
      else (raised, set_cown i.cown (next_writer_of i.first_writer held) w)
    else (raised, set_cown i.cown held w)

abbrev pub process_phase : (ℕ → ℕ) → List ChainInfo → (ℕ → ℕ) → World → (ℕ → ℕ) × World
process_phase bodies [] ec w = (ec, w)
process_phase bodies (i ∷ is) ec w =
    let (raised, after) = process_chain bodies i ec w in process_phase bodies is raised after

-- `bodies[i]->resolve(ec[i])`, for the bodies from i on
abbrev pub resolve_phase : (ℕ → ℕ) → (ℕ → ℕ) → (i count : ℕ) → List Resolve
resolve_phase bodies ec i zero = []
resolve_phase bodies ec i (suc n) =
    resolve (bodies i) (ec i) true ∷ resolve_phase bodies ec (i + 1) n

-- The phases after the prepare phase, for the body_count bodies.
abbrev pub schedule_prepared :
    (ℕ → ℕ) → (body_count : ℕ) → (cowns : ℕ → Cown) → List Resolve → Prepared → Option World
schedule_prepared bodies n cowns resolved p =
    elim (acquire_phase bodies p.chain_info
      (record { slots = p.slots; cowns = cowns; resolved = resolved })) [
        | none ↦ none
        | some (is, w) ↦
            (let (ec, after) = process_phase bodies is p.ec (release_phase is w) in
              some (record after { resolved = after.resolved ++ resolve_phase bodies ec 0 n }))
      ]

-- `sort` is std::sort with the source's comparison.
unfoldable pub schedule_many :
    (Slots → List Request → List Request)
    → (ℕ → ℕ)
    → (body_count : ℕ) → List (List ℕ)
    → World
    → Option World
schedule_many sort bodies n slots w =
    schedule_prepared bodies n w.cowns w.resolved
      (prepare bodies w.slots (sort w.slots (requests 0 slots)))
