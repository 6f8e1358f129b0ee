-- ===== src/Behaviour/Schedule/Chains.antt =====
-- The chains that the prepare phase builds, without the loop: the runs of requests for one cown.
use verona_rt_gc_bench.Base.{
  ℕ, suc, ◌+◌, ◌≡◌, sym, ap, ◌∙◌, true, false, not, ◌&&◌, ◌==◌, if◌then◌else◌, Option, none, some,
  List, [], ◌∷◌, map, arith, Bool-cases, inl, inr, eq_of_test,
}
use verona_rt_gc_bench.Behaviour.Slot.{cown, is_read_only, is_move}
use verona_rt_gc_bench.Behaviour.Schedule.{Slots, Request, ChainInfo, Chain, info, is_none}

-- A run of requests for one cown.
pub record Group : Type 0 where
  pub first : Request
  pub rest : List Request

abbrev pub insert_front : Slots → Request → List Group → List Group
insert_front m r [] = record { first = r; rest = [] } ∷ []
insert_front m r (g ∷ gs) =
    if cown (m r.slot) == cown (m g.first.slot)
    then record { first = r; rest = g.first ∷ g.rest } ∷ gs
    else record { first = r; rest = [] } ∷ (g ∷ gs)

abbrev pub groups : Slots → List Request → List Group
groups m [] = []
groups m (r ∷ rs) = insert_front m r (groups m rs)

module _ (bodies : ℕ → ℕ) (m : Slots) where
  -- The first request of each body after the body b.
  abbrev pub firsts : ℕ → List Request → List Request
  firsts b [] = []
  firsts b (r ∷ rs) =
      let same = firsts b rs in
      let other = firsts (bodies r.body) rs in if bodies r.body == b then same else r ∷ other

  abbrev pub moves : List Request → ℕ
  moves [] = 0
  moves (r ∷ rs) = (if is_move (m r.slot) then 1 else 0) + moves rs

  abbrev pub first_writer : List Request → Option ℕ
  first_writer [] = none
  first_writer (r ∷ rs) =
      let later = first_writer rs in if is_read_only (m r.slot) then later else some (bodies r.body)

  abbrev pub leading_readers : List Request → ℕ
  leading_readers [] = 0
  leading_readers (r ∷ rs) =
      let later = leading_readers rs in if is_read_only (m r.slot) then suc later else 0

  abbrev pub last_slot : ℕ → List Request → ℕ
  last_slot a [] = a
  last_slot a (r ∷ rs) = last_slot r.slot rs

  abbrev pub chain_of : Group → ChainInfo
  chain_of g =
      let after = firsts (bodies g.first.body) g.rest in
      record {
        cown = cown (m g.first.slot);
        first_body_index = g.first.body;
        first_slot = g.first.slot;
        last_slot = last_slot g.first.slot after;
        transfer_count = moves (g.first ∷ g.rest);
        had_no_predecessor = false;
        ref_count = 0;
        read_only_can_run = false;
        first_writer = first_writer (g.first ∷ after);
        first_consecutive_readers_count = leading_readers (g.first ∷ after);
      }

  -- The chain c after it has been extended by a run of requests.
  abbrev pub finished : Chain → List Request → ChainInfo
  finished c rs =
      let after = firsts c.body rs in
      record {
        cown = c.cown;
        first_body_index = c.first_body_index;
        first_slot = c.first_slot;
        last_slot = last_slot c.curr_slot after;
        transfer_count = c.transfer_count + moves rs;
        had_no_predecessor = false;
        ref_count = 0;
        read_only_can_run = false;
        first_writer = if is_none c.first_writer then first_writer after else c.first_writer;
        first_consecutive_readers_count =
            if is_none c.first_writer
            then c.first_consecutive_readers_count + leading_readers after
            else c.first_consecutive_readers_count;
      }

  abbrev pub opened : Request → Chain
  opened r = record {
    cown = cown (m r.slot);
    body = bodies r.body;
    first_body_index = r.body;
    first_slot = r.slot;
    curr_slot = r.slot;
    transfer_count = if is_move (m r.slot) then 1 else 0;
    first_writer = if is_read_only (m r.slot) then none else some (bodies r.body);
    first_consecutive_readers_count = if is_read_only (m r.slot) then 1 else 0;
  }

  abbrev pub extended : Chain → Request → Chain
  extended c r =
      let taken = (if is_move (m r.slot) then 1 else 0) in
      let reader = is_read_only (m r.slot) in
      if bodies r.body == c.body
      then record c { transfer_count = c.transfer_count + taken }
      else record c {
        body = bodies r.body;
        curr_slot = r.slot;
        transfer_count = c.transfer_count + taken;
        first_writer =
            if is_none c.first_writer && not reader then some (bodies r.body) else c.first_writer;
        first_consecutive_readers_count =
            if is_none c.first_writer && reader
            then c.first_consecutive_readers_count + 1
            else c.first_consecutive_readers_count;
      }

  pub info-finished : (c : Chain) → info c ≡ finished c []
  info-finished c = ground arith

  pub finished-opened :
      (r : Request) (rs : List Request)
      → finished (opened r) rs ≡ chain_of (record { first = r; rest = rs })
  finished-opened r rs = ground arith

  pub finished-extended :
      (c : Chain) (r : Request) (rs : List Request)
      → finished (extended c r) rs ≡ finished c (r ∷ rs)
  finished-extended c r rs = ground arith

  -- The chain c, left open before requests that fall into the given runs.
  abbrev pub absorbed : Chain → List Group → List ChainInfo
  absorbed c [] = finished c [] ∷ []
  absorbed c (g ∷ gs) =
      if c.cown == cown (m g.first.slot)
      then finished c (g.first ∷ g.rest) ∷ map chain_of gs
      else finished c [] ∷ map chain_of (g ∷ gs)

  pub extended-body : (c : Chain) (r : Request) → (extended c r).body ≡ bodies r.body
  extended-body c r = ground arith

  pub extended-cown : (c : Chain) (r : Request) → (extended c r).cown ≡ c.cown
  extended-cown c r = ground arith

  pub absorbed-extended :
      (c : Chain) (r : Request) (gs : List Group)
      → (c.cown == cown (m r.slot)) ≡ true
      → absorbed (extended c r) gs ≡ absorbed c (insert_front m r gs)
  absorbed-extended c r [] h = rw h (ap (λ x. x ∷ []) (finished-extended c r []))
  absorbed-extended c r (g ∷ gs) h =
      let same : c.cown ≡ cown (m r.slot) = eq_of_test _ _ h in
      elim (Bool-cases (cown (m r.slot) == cown (m g.first.slot))) [
        | inl e ↦
            rw (e, h, ap (λ x. x == cown (m g.first.slot)) (extended-cown c r ∙ same) ∙ e)
              (ap (λ x. x ∷ map chain_of gs) (finished-extended c r (g.first ∷ g.rest)))
        | inr e ↦
            rw (e, h, ap (λ x. x == cown (m g.first.slot)) (extended-cown c r ∙ same) ∙ e)
              (ap (λ x. x ∷ map chain_of (g ∷ gs)) (finished-extended c r []))
      ]

  pub absorbed-opened :
      (r : Request) (gs : List Group) → absorbed (opened r) gs ≡ map chain_of (insert_front m r gs)
  absorbed-opened r [] = ap (λ x. x ∷ []) (finished-opened r [])
  absorbed-opened r (g ∷ gs) = elim (Bool-cases (cown (m r.slot) == cown (m g.first.slot))) [
    | inl e ↦ rw e (ap (λ x. x ∷ map chain_of gs) (finished-opened r (g.first ∷ g.rest)))
    | inr e ↦ rw e (ap (λ x. x ∷ map chain_of (g ∷ gs)) (finished-opened r []))
  ]

  pub absorbed-closed :
      (c : Chain) (r : Request) (gs : List Group)
      → (c.cown == cown (m r.slot)) ≡ false
      → absorbed c (insert_front m r gs) ≡ info c ∷ map chain_of (insert_front m r gs)
  absorbed-closed c r [] h =
      rw h (ap (λ x. x ∷ map chain_of (insert_front m r [])) (sym (info-finished c)))
  absorbed-closed c r (g ∷ gs) h = elim (Bool-cases (cown (m r.slot) == cown (m g.first.slot))) [
    | inl e ↦
        rw (e, h)
          (ap (λ x. x ∷ map chain_of (record { first = r; rest = g.first ∷ g.rest } ∷ gs))
            (sym (info-finished c)))
    | inr e ↦
        rw (e, h)
          (ap (λ x. x ∷ map chain_of (record { first = r; rest = [] } ∷ g ∷ gs))
            (sym (info-finished c)))
  ]
