-- ===== src/Behaviour/Schedule/Loop.antt =====
-- What a step of the prepare loop does to the slots, to the chain, and to the execution counts.
use verona_rt_gc_bench.Base.{
  ℕ, ◌+◌, ◌-◌, ◌%◌, ◌/◌, ◌≡◌, refl, sym, ap, ◌∙◌, Bool, true, false, ◌&&◌, ◌==◌, if◌then◌else◌,
  List, [], ◌∷◌, arith, Bool-cases, inl, inr, eq_of_test, All, ==_self,
}
use verona_rt_gc_bench.Behaviour.Slot.{
  Slot, cown, is_read_only, is_move, take_move, set_cown_duplicate, reset_status,
}
use verona_rt_gc_bench.Behaviour.Schedule.{
  Slots, Request, Preparing, Prepared, update, open_chain, duplicate, link_slot, extend,
  close_chain, set_next, set_reader_behaviour,
}
use verona_rt_gc_bench.Behaviour.Schedule.Chains.{opened, extended}

-- The loop changes no slot's cown, and whether it is for reading.
abbrev pub Keeps : Slot → Slot → Type 0
Keeps s t = (cown t ≡ cown s) × (is_read_only t ≡ is_read_only s)

-- The slots t during the loop, which began with m and still has the requests rs to take.
pub record Good (m t : Slots) (rs : List Request) : Type 0 where
  pub keeps : (a : ℕ) → Keeps (m a) (t a)
  pub fresh : All (λ r. is_move (t r.slot) ≡ is_move (m r.slot)) rs

abbrev pub Apart : ℕ → List Request → Type 0
Apart a rs = All (λ r. (a == r.slot) ≡ false) rs

abbrev pub Separate : List Request → Type 0
Separate [] = Unit
Separate (r ∷ rs) = Apart r.slot rs × Separate rs

Keeps-update :
    (m t : Slots) (a : ℕ) (s : Slot)
    → ((b : ℕ) → Keeps (m b) (t b))
    → Keeps (t a) s
    → (b : ℕ) → Keeps (m b) (update t a s b)
Keeps-update m t a s k h b = elim (Bool-cases (a == b)) [
  | inl e ↦ rw (e, sym (eq_of_test a b e)) (h.0 ∙ (k a).0, h.1 ∙ (k a).1)
  | inr e ↦ rw e (k b)
]

update-fresh :
    (m t : Slots) (a : ℕ) (s : Slot) (rs : List Request)
    → is_move s ≡ is_move (t a)
    → All (λ r. is_move (t r.slot) ≡ is_move (m r.slot)) rs
    → All (λ r. is_move (update t a s r.slot) ≡ is_move (m r.slot)) rs
update-fresh m t a s [] h f = tt
update-fresh m t a s (r ∷ rs) h f = (
  elim (Bool-cases (a == r.slot)) [
    | inl e ↦ rw e (h ∙ ap (λ b. is_move (t b)) (eq_of_test a _ e) ∙ f.0)
    | inr e ↦ rw e f.0
  ],
  update-fresh m t a s rs h f.1,
)

Apart-fresh :
    (m t : Slots) (a : ℕ) (s : Slot) (rs : List Request)
    → Apart a rs
    → All (λ r. is_move (t r.slot) ≡ is_move (m r.slot)) rs
    → All (λ r. is_move (update t a s r.slot) ≡ is_move (m r.slot)) rs
Apart-fresh m t a s [] h f = tt
Apart-fresh m t a s (r ∷ rs) h f = (rw h.0 f.0, Apart-fresh m t a s rs h.1 f.1)

-- A change of the slot of a request that has been taken.
taken-Good :
    (m t : Slots) (a : ℕ) (s : Slot) (rs : List Request)
    → Apart a rs
    → Keeps (t a) s
    → Good m t rs
    → Good m (update t a s) rs
taken-Good m t a s rs h k g = record {
  keeps = Keeps-update m t a s g.keeps k;
  fresh = Apart-fresh m t a s rs h g.fresh;
}

-- A change that leaves the slot's flags alone.
linked-Good :
    (m t : Slots) (a : ℕ) (s : Slot) (rs : List Request)
    → s.cown_bits ≡ (t a).cown_bits
    → Good m t rs
    → Good m (update t a s) rs
linked-Good m t a s rs e g = record {
  keeps = Keeps-update m t a s g.keeps (ap (λ n. n - n % 8) e, ap (λ n. n / 2 % 2 == 1) e);
  fresh = update-fresh m t a s rs (ap (λ n. n / 1 % 2 == 1) e) g.fresh;
}

take_move-Keeps : (s : Slot) → Keeps s (take_move s).1
unfolding take_move
take_move-Keeps s = ground arith

set_cown_duplicate-Keeps : (s : Slot) → Keeps s (set_cown_duplicate s)
set_cown_duplicate-Keeps s = ground arith

take_move_once : (s : Slot) → (take_move (take_move s).1).0 ≡ 0
unfolding take_move
take_move_once s = ground arith

take_move-is_move : (s : Slot) → (take_move s).0 ≡ (if is_move s then 1 else 0)
unfolding take_move
take_move-is_move s = refl

set_next-cown_bits :
    (r : Bool) (c b a : ℕ) (s : Slot)
    → (set_reader_behaviour c (set_next r b a s)).cown_bits ≡ s.cown_bits
set_next-cown_bits true c b a s = ground arith
set_next-cown_bits false c b a s = ground arith

set_reader_behaviour-cown_bits :
    (c : ℕ) (s : Slot) → (set_reader_behaviour c s).cown_bits ≡ s.cown_bits
set_reader_behaviour-cown_bits c s = ground arith

update_here : (t : Slots) (a : ℕ) (s : Slot) → update t a s a ≡ s
update_here t a s = rw (==_self a) refl

duplicate-Good :
    (m : Slots) (r : Request) (p : Preparing) (rs : List Request)
    → Apart r.slot rs
    → Good m p.slots rs
    → Good m (duplicate r p).slots rs
unfolding duplicate
duplicate-Good m r p rs h g =
    let s = p.slots r.slot in
    let k = take_move-Keeps s in
    let d = set_cown_duplicate-Keeps (take_move s).1 in
    taken-Good m p.slots r.slot (set_cown_duplicate (take_move s).1) rs h (d.0 ∙ k.0, d.1 ∙ k.1) g

link_slot-Good :
    (m : Slots) (b a : ℕ) (p : Preparing) (rs : List Request)
    → Good m p.slots rs
    → Good m (link_slot b a p).slots rs
unfolding link_slot
link_slot-Good m b a p rs g =
    linked-Good m p.slots p.chain.curr_slot _ rs (set_next-cown_bits _ p.chain.body b a _) g

rest_Good : {m t : Slots} {r : Request} {rs : List Request} → Good m t (r ∷ rs) → Good m t rs
rest_Good g = record { keeps = g.keeps; fresh = g.fresh.1 }

module _ (bodies : ℕ → ℕ) (m : Slots) (r : Request) (rs : List Request)
    (apart : Apart r.slot rs) where
  after_take :
      (t : Slots) → Good m t (r ∷ rs) → Good m (update t r.slot (take_move (t r.slot)).1) rs
  after_take t g =
      taken-Good m t r.slot (take_move (t r.slot)).1 rs apart (take_move-Keeps (t r.slot))
        (rest_Good g)

  pub extend-Good : (p : Preparing) → Good m p.slots (r ∷ rs) → Good m (extend bodies r p).slots rs
  unfolding extend
  extend-Good p g =
      let taken : Preparing = record p {
        slots = update p.slots r.slot (take_move (p.slots r.slot)).1;
        chain = record p.chain {
          transfer_count = p.chain.transfer_count + (take_move (p.slots r.slot)).0;
        };
      } in
      let now = after_take p.slots g in
      elim (Bool-cases (bodies r.body == p.chain.body)) [
        | inl e ↦ rw e (duplicate-Good m r taken rs apart now)
        | inr e ↦ rw e (link_slot-Good m (bodies r.body) r.slot taken rs now)
      ]

  pub open_chain-Good :
      (p : Prepared) → Good m p.slots (r ∷ rs) → Good m (open_chain bodies r p).slots rs
  unfolding open_chain
  open_chain-Good p g = after_take p.slots g

pub close_chain-Good :
    (m : Slots) (p : Preparing) (rs : List Request)
    → Good m p.slots rs
    → Good m (close_chain p).slots rs
unfolding close_chain
close_chain-Good m p rs g =
    let a = p.chain.curr_slot in
    let closed = reset_status (set_reader_behaviour p.chain.body (p.slots a)) in
    linked-Good m p.slots a closed rs (set_reader_behaviour-cown_bits p.chain.body (p.slots a)) g

pub open_chain-opened :
    (bodies : ℕ → ℕ) (m : Slots) (r : Request) (p : Prepared)
    → Keeps (m r.slot) (p.slots r.slot)
    → is_move (p.slots r.slot) ≡ is_move (m r.slot)
    → (open_chain bodies r p).chain ≡ opened bodies m r
unfolding open_chain take_move
open_chain-opened bodies m r p k e = ground arith

pub extend-extended :
    (bodies : ℕ → ℕ) (m : Slots) (r : Request) (p : Preparing)
    → Keeps (m r.slot) (p.slots r.slot)
    → is_move (p.slots r.slot) ≡ is_move (m r.slot)
    → (extend bodies r p).chain ≡ extended bodies m p.chain r
unfolding extend duplicate link_slot
extend-extended bodies m r p k e =
    let s = (take_move (p.slots r.slot)).1 in
    let here = update_here p.slots r.slot s in
    let reader : is_read_only (update p.slots r.slot s r.slot) ≡ is_read_only (m r.slot) =
      ap is_read_only here ∙ (take_move-Keeps (p.slots r.slot)).1 ∙ k.1 in
    let moved : (take_move (p.slots r.slot)).0 ≡ (if is_move (m r.slot) then 1 else 0) =
      take_move-is_move (p.slots r.slot) ∙ ap (λ b. if b then 1 else 0) e in
    let once : (take_move (update p.slots r.slot s r.slot)).0 ≡ 0 =
      ap (λ t. (take_move t).0) here ∙ take_move_once (p.slots r.slot) in
    elim (Bool-cases (bodies r.body == p.chain.body)) [
      | inl b ↦ rw (b, once, moved) (ap (λ n. record p.chain { transfer_count = n }) (omega arith))
      | inr b ↦ rw (b, reader, moved) refl
    ]

pub extend-chain_info :
    (bodies : ℕ → ℕ) (r : Request) (p : Preparing) → (extend bodies r p).chain_info ≡ p.chain_info
unfolding extend duplicate link_slot
extend-chain_info bodies r p = ground arith

pub extend-ec :
    (bodies : ℕ → ℕ) (r : Request) (p : Preparing) (i : ℕ)
    → (extend bodies r p).ec i
      ≡ p.ec i + (if (bodies r.body == p.chain.body) && (r.body == i) then 1 else 0)
unfolding extend duplicate link_slot
extend-ec bodies r p i = ground arith
