-- ===== src/Stack/Remove.antt =====
-- The removal of an item from the middle of the stack.
pub mod Refill
pub mod Total
pub mod Freed
use verona_rt_gc_bench.Base.{
  ℕ, suc, ◌+◌, ◌%◌, ◌≤◌, ◌<◌, ◌≡◌, refl, Bool, true, false, ◌||◌, List, [], ◌∷◌, ◌++◌, Option, none,
  some, arith, ◌==◌, if◌then◌else◌, length, elem, All, ap, ◌∙◌, if-either, ◌⊎◌, inl, inr, ◌∈◌, ◌∉◌,
  Returns, returns, Bool-cases, eq_of_test, sym,
}
use verona_rt_gc_bench.Stack.{
  Block, Stack, index, get_block, entries, find_in, find_slot, set_in, set_slot, owned, remove,
}
use verona_rt_gc_bench.Stack.Order.{addressed, IsChain, IsStack}

-- How often a value is among others.
abbrev pub times : ℕ → List ℕ → ℕ
times y [] = 0
times y (x ∷ xs) = (if x == y then 1 else 0) + times y xs

pub times-append : (y : ℕ) (xs ys : List ℕ) → times y (xs ++ ys) ≡ times y xs + times y ys
times-append y [] ys = omega arith
times-append y (x ∷ xs) ys = omega (arith, times-append y xs ys)

-- A slot found is one of the block's, and a write there replaces the item.
pub find_in-slot :
    (a item : ℕ) (slots : List ℕ) (p : ℕ)
    → find_in a item slots ≡ some p
    → (a < p) × (p ≤ a + length slots)
find_in-slot a item [] p e = cc e
find_in-slot a item (x ∷ slots) p e = ground (arith, find_in-slot a item slots p)

pub find_in-times :
    (a item v y : ℕ) (slots : List ℕ) (p : ℕ)
    → find_in a item slots ≡ some p
    → times y (set_in a p v slots) + (if item == y then 1 else 0)
      ≡ times y slots + (if v == y then 1 else 0)
find_in-times a item v y [] p e = cc e
find_in-times a item v y (x ∷ slots) p e =
    ground (arith, find_in-times a item v y slots p, find_in-slot a item slots p)

pub find_in-elem : (a item : ℕ) (slots : List ℕ) → find_in a item slots ≡ none → item ∉ slots
find_in-elem a item [] e = refl
find_in-elem a item (x ∷ slots) e = ground (arith, find_in-elem a item slots)

pub length-set_in : (a p v : ℕ) (slots : List ℕ) → length (set_in a p v slots) ≡ length slots
length-set_in a p v [] = refl
length-set_in a p v (x ∷ slots) = ground (arith, length-set_in a p v slots)

pub no_confusion : true ≡ false → ⊥
no_confusion e = cc e

pub get_block-in : (a p : ℕ) → a % 64 ≡ 0 → a < p → p < a + 64 → get_block p ≡ a
get_block-in a p h lo hi = omega arith

-- The slot found in a chain of blocks: one of the first block's, or one found further down.
pub find_slot-cases :
    (item : ℕ) (b : Block) (bs : List Block) (p : ℕ)
    → find_slot item (b ∷ bs) ≡ some p
    → (find_in b.address item b.slots ≡ some p)
      ⊎ ((find_in b.address item b.slots ≡ none) × (find_slot item bs ≡ some p))
find_slot-cases item b bs p e = ground (arith, e)

pub find_slot-block :
    (null item : ℕ) (bs : List Block) (p : ℕ)
    → IsChain null bs
    → find_slot item bs ≡ some p
    → (addressed (get_block p) bs ≡ true) × (0 < p % 64)
find_slot-block null item [] p chain e = cc e
find_slot-block null item (b ∷ bs) p chain e = elim (find_slot-cases item b bs p e) [
  | inl here ↦ (
    ground (
      arith,
      chain.0,
      chain.1.1.0,
      find_in-slot b.address item b.slots p here,
      get_block-in b.address p,
    ),
    omega (arith, chain.0, chain.1.1.0, find_in-slot b.address item b.slots p here),
  )
  | inr below ↦
      let rest = find_slot-block null item bs p chain.1.1.1.1.1.1 below.1 in
      (ground (arith, rest.0), rest.1)
]

-- A slot of one of the blocks is none of a block that is not among them.
pub block_apart :
    (a p : ℕ) (bs : List Block)
    → addressed a bs ≡ false
    → addressed (get_block p) bs ≡ true
    → (a == get_block p) ≡ false
block_apart a p bs off on = elim (Bool-cases (a == get_block p)) [
  | inl e ↦ absurd (no_confusion (sym on ∙ ap (λ q. addressed q bs) (sym (eq_of_test _ _ e)) ∙ off))
  | inr n ↦ n
]

pub find_slot-index :
    (null item : ℕ) (bs : List Block) (p : ℕ)
    → IsChain null bs
    → find_slot item bs ≡ some p
    → (p == index null bs + 1) ≡ false
find_slot-index null item [] p chain e = cc e
find_slot-index null item (b ∷ bs) p chain e = elim (find_slot-cases item b bs p e) [
  | inl here ↦ ground (arith, find_in-slot b.address item b.slots p here)
  | inr below ↦
      let rest = find_slot-block null item bs p chain.1.1.1.1.1.1 below.1 in
      let apart = block_apart b.address p bs chain.1.1.1.1.0 rest.0 in
      ground (arith, chain.0, chain.1.1.0, rest.1, apart)
]

pub owned-addressed : (p : ℕ) (bs : List Block) → owned p bs ≡ addressed (get_block p) bs
owned-addressed p [] = refl
owned-addressed p (b ∷ bs) = ap (λ r. (b.address == get_block p) || r) (owned-addressed p bs)

pub set_slot-absent :
    (p v : ℕ) (bs : List Block) → addressed (get_block p) bs ≡ false → set_slot p v bs ≡ bs
set_slot-absent p v [] e = refl
set_slot-absent p v (b ∷ bs) e = ground (arith, set_slot-absent p v bs)

pub find_slot-times :
    (null item v y : ℕ) (bs : List Block) (p : ℕ)
    → IsChain null bs
    → find_slot item bs ≡ some p
    → times y (entries (set_slot p v bs)) + (if item == y then 1 else 0)
      ≡ times y (entries bs) + (if v == y then 1 else 0)
find_slot-times null item v y [] p chain e = cc e
find_slot-times null item v y (b ∷ bs) p chain e = elim (find_slot-cases item b bs p e) [
  | inl here ↦
      let slot = find_in-slot b.address item b.slots p here in
      let block = get_block-in b.address p chain.0 slot.0 (omega (arith, chain.1.1.0, slot)) in
      ground (
        arith,
        block,
        find_in-times b.address item v y b.slots p here,
        times-append y (set_in b.address p v b.slots) (entries bs),
        times-append y b.slots (entries bs),
      )
  | inr below ↦
      let rest = find_slot-block null item bs p chain.1.1.1.1.1.1 below.1 in
      let apart = block_apart b.address p bs chain.1.1.1.1.0 rest.0 in
      ground (
        arith,
        apart,
        find_slot-times null item v y bs p chain.1.1.1.1.1.1 below.1,
        times-append y b.slots (entries (set_slot p v bs)),
        times-append y b.slots (entries bs),
      )
]

pub addressed-set_slot :
    (a p v : ℕ) (bs : List Block) → addressed a (set_slot p v bs) ≡ addressed a bs
addressed-set_slot a p v [] = refl
addressed-set_slot a p v (b ∷ bs) = ground (arith, addressed-set_slot a p v bs)

full-set_slot :
    (p v : ℕ) (bs : List Block)
    → All (λ c. length c.slots ≡ 63) bs
    → All (λ c. length c.slots ≡ 63) (set_slot p v bs)
full-set_slot p v [] h = tt
full-set_slot p v (b ∷ bs) h =
    if-either (All (λ c. length c.slots ≡ 63)) (b.address == get_block p) _ _
      (λ e. (omega (arith, h.0, length-set_in b.address p v b.slots), h.1))
      (λ e. (h.0, full-set_slot p v bs h.1))

pub set_slot-IsChain :
    (null p v : ℕ) (bs : List Block) → IsChain null bs → IsChain null (set_slot p v bs)
set_slot-IsChain null p v [] h = tt
set_slot-IsChain null p v (b ∷ bs) h =
    if-either (IsChain null) (b.address == get_block p) _ _
      (λ e. (
        h.0,
        (
          omega (arith, h.1.0, length-set_in b.address p v b.slots),
          (omega (arith, h.1.1.0, length-set_in b.address p v b.slots), h.1.1.1),
        ),
      ))
      (λ e. (
        h.0,
        (
          h.1.0,
          (
            h.1.1.0,
            (
              h.1.1.1.0,
              (
                addressed-set_slot b.address p v bs ∙ h.1.1.1.1.0,
                (full-set_slot p v bs h.1.1.1.1.1.0, set_slot-IsChain null p v bs h.1.1.1.1.1.1),
              ),
            ),
          ),
        ),
      ))
