-- ===== src/Behaviour/Schedule.antt =====
-- The prepare phase of `BehaviourCore::schedule_many`, src/rt/boc/behaviourcore.h: the requests of all
-- the bodies, the order they are sorted by, and the loop that links them into a chain for each cown.
-- A slot is named by its address, and `bodies i` is the pointer `bodies[i]`.
pub mod Chains
pub mod Loop
pub mod Order
pub mod Prepare
use verona_rt_gc_bench.Base.{
  ℕ, suc, ◌+◌, Bool, true, false, not, ◌&&◌, ltb, ◌==◌, if◌then◌else◌, Option, none, some, List, [],
  ◌∷◌, ◌++◌, map,
}
use verona_rt_gc_bench.Behaviour.Slot.{
  Slot, cown, is_read_only, take_move, set_cown_duplicate, set_behaviour, reset_status,
  set_next_slot_reader_uncontended, set_next_slot_writer_uncontended,
}

abbrev pub Slots : Type 0
Slots = ℕ → Slot

abbrev pub update : Slots → ℕ → Slot → Slots
update m a s b = if a == b then s else m b

-- An entry of `cown_to_behaviour_slot_map`.
pub record Request : Type 0 where
  pub body : ℕ
  pub slot : ℕ

abbrev pub request : ℕ → ℕ → Request
request i a = record { body = i; slot = a }

-- The map before it is sorted, for the slots of each body.
abbrev pub requests : ℕ → List (List ℕ) → List Request
requests i [] = []
requests i (slots ∷ rest) = map (request i) slots ++ requests (suc i) rest

abbrev pub compare : Slots → Request → Request → Bool
compare m i j =
    if cown (m i.slot) == cown (m j.slot)
    then if i.body == j.body
      then not (is_read_only (m i.slot)) && is_read_only (m j.slot)
      else ltb i.body j.body
    else ltb (cown (m i.slot)) (cown (m j.slot))

pub record ChainInfo : Type 0 where
  pub cown : ℕ
  pub first_body_index : ℕ
  pub first_slot : ℕ
  pub last_slot : ℕ
  pub transfer_count : ℕ
  pub had_no_predecessor : Bool
  pub ref_count : ℕ
  pub read_only_can_run : Bool
  pub first_writer : Option ℕ
  pub first_consecutive_readers_count : ℕ

-- The variables of the loop's body.
pub record Chain : Type 0 where
  pub cown : ℕ
  pub body : ℕ
  pub first_body_index : ℕ
  pub first_slot : ℕ
  pub curr_slot : ℕ
  pub transfer_count : ℕ
  pub first_writer : Option ℕ
  pub first_consecutive_readers_count : ℕ

pub record Prepared : Type 0 where
  pub slots : Slots
  pub ec : ℕ → ℕ
  pub chain_info : List ChainInfo

pub record Preparing : Type 0 where
  pub slots : Slots
  pub ec : ℕ → ℕ
  pub chain_info : List ChainInfo
  pub chain : Chain

abbrev pub is_none : Option ℕ → Bool
is_none none = true
is_none (some b) = false

-- `ec[i]++`
abbrev pub raise : (ℕ → ℕ) → ℕ → ℕ → ℕ
raise ec i j = if i == j then ec j + 1 else ec j

unfoldable pub open_chain : (ℕ → ℕ) → Request → Prepared → Preparing
open_chain bodies r p =
    let (taken, s) = take_move (p.slots r.slot) in
    record {
      slots = update p.slots r.slot s;
      ec = p.ec;
      chain_info = p.chain_info;
      chain = record {
        cown = cown (p.slots r.slot);
        body = bodies r.body;
        first_body_index = r.body;
        first_slot = r.slot;
        curr_slot = r.slot;
        transfer_count = taken;
        first_writer = if is_read_only s then none else some (bodies r.body);
        first_consecutive_readers_count = if is_read_only s then 1 else 0;
      };
    }

-- The slot's cown is one that the body has already asked for.
unfoldable pub duplicate : Request → Preparing → Preparing
duplicate r p =
    let (taken, s) = take_move (p.slots r.slot) in
    record p {
      slots = update p.slots r.slot (set_cown_duplicate s);
      ec = raise p.ec r.body;
      chain = record p.chain { transfer_count = p.chain.transfer_count + taken };
    }

-- What the slot before learns of the next one.
abbrev pub set_next : Bool → (body_next slot_next : ℕ) → Slot → Slot
set_next true body_next slot_next s = set_next_slot_reader_uncontended slot_next s
set_next false body_next slot_next s = set_next_slot_writer_uncontended body_next s

abbrev pub set_reader_behaviour : ℕ → Slot → Slot
set_reader_behaviour body s = if is_read_only s then set_behaviour body s else s

unfoldable pub link_slot : (body_next slot_next : ℕ) → Preparing → Preparing
link_slot body_next slot_next p =
    let c = p.chain in
    let reader = is_read_only (p.slots slot_next) in
    record p {
      slots =
          update p.slots c.curr_slot (
            set_reader_behaviour c.body
              (set_next reader body_next slot_next (p.slots c.curr_slot)));
      chain = record c {
        body = body_next;
        curr_slot = slot_next;
        first_writer =
            if is_none c.first_writer && not reader then some body_next else c.first_writer;
        first_consecutive_readers_count =
            if is_none c.first_writer && reader
            then c.first_consecutive_readers_count + 1
            else c.first_consecutive_readers_count;
      };
    }

unfoldable pub extend : (ℕ → ℕ) → Request → Preparing → Preparing
extend bodies r p =
    let (taken, s) = take_move (p.slots r.slot) in
    let q : Preparing = record p {
      slots = update p.slots r.slot s;
      chain = record p.chain { transfer_count = p.chain.transfer_count + taken };
    } in
    if bodies r.body == p.chain.body then duplicate r q else link_slot (bodies r.body) r.slot q

abbrev pub info : Chain → ChainInfo
info c = record {
  cown = c.cown;
  first_body_index = c.first_body_index;
  first_slot = c.first_slot;
  last_slot = c.curr_slot;
  transfer_count = c.transfer_count;
  had_no_predecessor = false;
  ref_count = 0;
  read_only_can_run = false;
  first_writer = c.first_writer;
  first_consecutive_readers_count = c.first_consecutive_readers_count;
}

unfoldable pub close_chain : Preparing → Prepared
close_chain p =
    let c = p.chain in
    record {
      slots =
          update p.slots c.curr_slot
            (reset_status (set_reader_behaviour c.body (p.slots c.curr_slot)));
      ec = p.ec;
      chain_info = p.chain_info ++ (info c ∷ []);
    }

unfoldable pub prepare_next : (ℕ → ℕ) → Request → Preparing → Preparing
prepare_next bodies r p =
    if p.chain.cown == cown (p.slots r.slot)
    then extend bodies r p
    else open_chain bodies r (close_chain p)

abbrev pub prepare_rest : (ℕ → ℕ) → Preparing → List Request → Prepared
prepare_rest bodies p [] = close_chain p
prepare_rest bodies p (r ∷ rs) = prepare_rest bodies (prepare_next bodies r p) rs

-- The loop over the sorted map.
abbrev pub prepare_from : (ℕ → ℕ) → Prepared → List Request → Prepared
prepare_from bodies p [] = p
prepare_from bodies p (r ∷ rs) = prepare_rest bodies (open_chain bodies r p) rs

unfoldable pub prepare : (ℕ → ℕ) → Slots → List Request → Prepared
prepare bodies m rs = prepare_from bodies (record { slots = m; ec = λ i. 1; chain_info = [] }) rs
