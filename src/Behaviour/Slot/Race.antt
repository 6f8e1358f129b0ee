-- ===== src/Behaviour/Slot/Race.antt =====
-- A ready reader's slot: its owner makes it available for readers while a successor attaches itself,
-- each by a load and an exchange.
use verona_rt_gc_bench.Base.{
  ℕ, ◌≡◌, ◌≤◌, refl, Bool, true, false, not, ap, sym, ◌∙◌, ◌==◌, if◌then◌else◌, arith,
}
use verona_rt_gc_bench.Behaviour.Slot.{status_ready, status_read_available, status_chain_closed}

-- Before the load, before the exchange, before the store after a failure, and the answer.
pub data Phase : Type 0 where
  loading exchanging closing : Phase
  answered : Bool → Phase

-- `next` is what the successor writes: its slot or its behaviour, with the flag.
pub record Race : Type 0 where
  pub status : ℕ
  pub owner : Phase
  pub successor : Phase

abbrev pub start : Race
start = record { status = status_ready; owner = loading; successor = loading }

abbrev pub owner_load : Race → Race
owner_load s = record s { owner = if s.status == status_ready then exchanging else answered false }

abbrev pub owner_exchange : Race → Race
owner_exchange s =
    if s.status == status_ready
    then record s { status = status_read_available; owner = answered true }
    else record s { owner = answered false }

abbrev pub successor_load : Race → Race
successor_load s = record s { successor = if s.status == status_ready then exchanging else closing }

abbrev pub successor_exchange : ℕ → Race → Race
successor_exchange next s =
    if s.status == status_ready
    then record s { status = next; successor = answered true }
    else record s { successor = closing }

abbrev pub successor_close : Race → Race
successor_close s = record s { status = status_chain_closed; successor = answered false }

pub data Step (next : ℕ) (s : Race) : Race → Type 0 where
  owner_loads : s.owner ≡ loading → Step next s (owner_load s)
  owner_exchanges : s.owner ≡ exchanging → Step next s (owner_exchange s)
  successor_loads : s.successor ≡ loading → Step next s (successor_load s)
  successor_exchanges : s.successor ≡ exchanging → Step next s (successor_exchange next s)
  successor_closes : s.successor ≡ closing → Step next s (successor_close s)

pub data Reach (next : ℕ) : Race → Type 0 where
  begin : Reach next start
  reached : {s t : Race} → Reach next s → Step next s t → Reach next t

abbrev is_trying : Phase → Bool
is_trying loading = true
is_trying exchanging = true
is_trying _ = false

abbrev is_before_answer : Phase → Bool
is_before_answer (answered b) = false
is_before_answer _ = true

abbrev is_no_winner : Phase → Bool
is_no_winner loading = true
is_no_winner exchanging = true
is_no_winner (answered false) = true
is_no_winner _ = false

-- Who has won, if anyone.
data Inv (next : ℕ) (s : Race) : Type 0 where
  open_race :
      s.status ≡ status_ready → is_trying s.owner ≡ true → is_trying s.successor ≡ true → Inv next s
  owner_won :
      s.status ≡ status_read_available
      → s.owner ≡ answered true
      → is_before_answer s.successor ≡ true
      → Inv next s
  owner_closed :
      s.status ≡ status_chain_closed
      → s.owner ≡ answered true
      → s.successor ≡ answered false
      → Inv next s
  successor_won :
      s.status ≡ next → is_no_winner s.owner ≡ true → s.successor ≡ answered true → Inv next s

before_of_trying : (p : Phase) → is_trying p ≡ true → is_before_answer p ≡ true
before_of_trying loading h = refl
before_of_trying exchanging h = refl
before_of_trying closing h = refl
before_of_trying (answered b) h = cc h

no_winner_of_trying : (p : Phase) → is_trying p ≡ true → is_no_winner p ≡ true
no_winner_of_trying loading h = refl
no_winner_of_trying exchanging h = refl
no_winner_of_trying closing h = cc h
no_winner_of_trying (answered b) h = cc h

abbrev answer : Phase → Bool
answer (answered b) = b
answer _ = false

lost : {p : Phase} {x : Bool} → p ≡ answered x → is_no_winner p ≡ true → x ≡ false
lost {x = true} e h = cc (ap is_no_winner e, h)
lost {x = false} e h = refl

module _ (next : ℕ) (pointer : 4 ≤ next) where
  clash : {p : Phase} {b : Bool} → p ≡ answered b → is_trying p ≡ true → ⊥
  clash e h = cc (ap is_trying e, h)

  ready : (s : Race) → s.status ≡ status_ready → (s.status == status_ready) ≡ true
  ready s h = ground arith

  not_ready : (s : Race) → 2 ≤ s.status → (s.status == status_ready) ≡ false
  not_ready s h = ground arith

  owner_load-Inv : (s : Race) → s.owner ≡ loading → Inv next s → Inv next (owner_load s)
  owner_load-Inv s e (open_race a b c) = rw (ready s a) (open_race a refl c)
  owner_load-Inv s e (owner_won a b c) = absurd (clash b (ap is_trying e))
  owner_load-Inv s e (owner_closed a b c) = absurd (clash b (ap is_trying e))
  owner_load-Inv s e (successor_won a b c) = rw (not_ready s (omega arith)) (successor_won a refl c)

  owner_exchange-Inv : (s : Race) → s.owner ≡ exchanging → Inv next s → Inv next (owner_exchange s)
  owner_exchange-Inv s e (open_race a b c) =
      rw (ready s a) (owner_won refl refl (before_of_trying _ c))
  owner_exchange-Inv s e (owner_won a b c) = absurd (clash b (ap is_trying e))
  owner_exchange-Inv s e (owner_closed a b c) = absurd (clash b (ap is_trying e))
  owner_exchange-Inv s e (successor_won a b c) =
      rw (not_ready s (omega arith)) (successor_won a refl c)

  successor_load-Inv : (s : Race) → s.successor ≡ loading → Inv next s → Inv next (successor_load s)
  successor_load-Inv s e (open_race a b c) = rw (ready s a) (open_race a b refl)
  successor_load-Inv s e (owner_won a b c) = rw (not_ready s (omega arith)) (owner_won a b refl)
  successor_load-Inv s e (owner_closed a b c) = absurd (clash c (ap is_trying e))
  successor_load-Inv s e (successor_won a b c) = absurd (clash c (ap is_trying e))

  successor_exchange-Inv :
      (s : Race) → s.successor ≡ exchanging → Inv next s → Inv next (successor_exchange next s)
  successor_exchange-Inv s e (open_race a b c) =
      rw (ready s a) (successor_won refl (no_winner_of_trying _ b) refl)
  successor_exchange-Inv s e (owner_won a b c) = rw (not_ready s (omega arith)) (owner_won a b refl)
  successor_exchange-Inv s e (owner_closed a b c) = absurd (clash c (ap is_trying e))
  successor_exchange-Inv s e (successor_won a b c) = absurd (clash c (ap is_trying e))

  successor_close-Inv :
      (s : Race) → s.successor ≡ closing → Inv next s → Inv next (successor_close s)
  successor_close-Inv s e (open_race a b c) = cc (ap is_trying e, c)
  successor_close-Inv s e (owner_won a b c) = owner_closed refl b refl
  successor_close-Inv s e (owner_closed a b c) = cc (e, c)
  successor_close-Inv s e (successor_won a b c) = cc (e, c)

  Step-Inv : {s t : Race} → Step next s t → Inv next s → Inv next t
  Step-Inv {s} (owner_loads e) inv = owner_load-Inv s e inv
  Step-Inv {s} (owner_exchanges e) inv = owner_exchange-Inv s e inv
  Step-Inv {s} (successor_loads e) inv = successor_load-Inv s e inv
  Step-Inv {s} (successor_exchanges e) inv = successor_exchange-Inv s e inv
  Step-Inv {s} (successor_closes e) inv = successor_close-Inv s e inv

  Reach-Inv : {s : Race} → Reach next s → Inv next s
  Reach-Inv begin = open_race refl refl refl
  Reach-Inv (reached before step) = Step-Inv step (Reach-Inv before)

  Inv-answers :
      {s : Race} {x y : Bool}
      → Inv next s
      → s.owner ≡ answered x
      → s.successor ≡ answered y
      → (y ≡ not x) × (s.status ≡ (if x then status_chain_closed else next))
  Inv-answers (open_race a b c) e f = absurd (clash e b)
  Inv-answers (owner_won a b c) e f = cc (ap is_before_answer f, c)
  Inv-answers {x} {y} (owner_closed a b c) e f =
      let wins : x ≡ true = ap answer (sym e ∙ b) in
      let loses : y ≡ false = ap answer (sym f ∙ c) in rw (wins, loses) (refl, a)
  Inv-answers {x} {y} (successor_won a b c) e f =
      let wins : y ≡ true = ap answer (sym f ∙ c) in
      let loses : x ≡ false = lost e b in rw (wins, loses) (refl, a)

  -- When the owner and the successor of a ready reader's slot have their answers, exactly one of
  -- them is true: the successor's if it is attached, and the owner's if the chain is closed. The
  -- successor writes a pointer, which is at least 4.
  pub one_wins :
      {s : Race} {x y : Bool}
      → Reach next s
      → s.owner ≡ answered x
      → s.successor ≡ answered y
      → (y ≡ not x) × (s.status ≡ (if x then status_chain_closed else next))
  one_wins r e f = Inv-answers (Reach-Inv r) e f
