-- ===== src/Stack.antt =====
-- The stack of aligned blocks: src/rt/ds/stack.h. The chain of blocks through `prev` is a list, the
-- top block first, and a block is its address with its live entries, the top one first. Addresses
-- count words, so a block is 64 of them: `prev`, then 63 entries. `index` is then the address of the
-- top block and the number of its entries; `null_block` is at the address `null`.
pub mod Order
pub mod Pop
pub mod Remove
mod Tests
use verona_rt_gc_bench.Base.{
  ℕ, suc, ◌+◌, ◌-◌, ◌%◌, Bool, true, false, ◌||◌, List, [], ◌∷◌, ◌++◌, Option, none, some, ◌==◌,
  if◌then◌else◌, length, ◌>>=◌,
}

pub record Block : Type 0 where
  pub address : ℕ
  pub slots : List ℕ

-- HeapAlloc, and BackupAlloc with its pool of one block.
pub data Alloc : Type 0 where
  heap_alloc : Alloc
  backup_alloc : Option ℕ → Alloc

pub record Stack : Type 0 where
  pub blocks : List Block
  pub alloc : Alloc

-- `alloc<sizeof(Block)>()`, where `fresh` is what the heap returns.
abbrev pub allocate : Alloc → ℕ → ℕ × Alloc
allocate heap_alloc fresh = (fresh, heap_alloc)
allocate (backup_alloc none) fresh = (fresh, backup_alloc none)
allocate (backup_alloc (some backup)) fresh = (backup, backup_alloc none)

abbrev pub deallocate : Alloc → ℕ → Alloc
deallocate heap_alloc b = heap_alloc
deallocate (backup_alloc none) b = backup_alloc (some b)
deallocate (backup_alloc (some backup)) b = backup_alloc (some backup)

-- The block that the allocator still owns.
abbrev pub pooled : Alloc → ℕ → Bool
pooled heap_alloc b = false
pooled (backup_alloc none) b = false
pooled (backup_alloc (some backup)) b = backup == b

abbrev pub get_block : ℕ → ℕ
get_block p = p - p % 64

abbrev pub is_empty : ℕ → Bool
is_empty p = p % 64 == 0

abbrev pub is_full : ℕ → Bool
is_full p = p % 64 == 63

abbrev pub index : ℕ → List Block → ℕ
index null [] = null + 63
index null (b ∷ bs) = b.address + length b.slots

abbrev pub empty : ℕ → Stack → Bool
empty null s = index null s.blocks == null + 63

-- `index++; *index = item`
abbrev pub put : ℕ → List Block → List Block
put item [] = []
put item (b ∷ bs) = record b { slots = item ∷ b.slots } ∷ bs

unfoldable pub push : ℕ → ℕ → ℕ → Stack → Stack
push null fresh item s =
    if is_full (index null s.blocks)
    then (let got = allocate s.alloc fresh in
        record { blocks = record { address = got.0; slots = item ∷ [] } ∷ s.blocks; alloc = got.1 })
    else record s { blocks = put item s.blocks }

-- `index--`, or the block before where the top one held one entry only
abbrev pub drop : Stack → Block → List ℕ → List Block → Stack
drop s b slots bs =
    if is_empty (b.address + length slots)
    then record { blocks = bs; alloc = deallocate s.alloc b.address }
    else record s { blocks = record b { slots = slots } ∷ bs }

-- A failed assertion is `none`.
unfoldable pub pop : Stack → Option (ℕ × Stack)
pop s = elim s.blocks [
  | [] ↦ none
  | b ∷ bs ↦ elim b.slots [ [] ↦ none | item ∷ slots ↦ some (item, drop s b slots bs) ]
]

-- What `forall` applies its argument to, in order.
abbrev pub entries : List Block → List ℕ
entries [] = []
entries (b ∷ bs) = b.slots ++ entries bs

-- The slot, from the top, that holds `item`.
abbrev pub find_in : ℕ → ℕ → List ℕ → Option ℕ
find_in address item [] = none
find_in address item (x ∷ slots) =
    if x == item then some (address + suc (length slots)) else find_in address item slots

abbrev pub find_slot : ℕ → List Block → Option ℕ
find_slot item [] = none
find_slot item (b ∷ bs) = elim (find_in b.address item b.slots) [
  | some p ↦ some p
  | none ↦ find_slot item bs
]

abbrev pub set_in : ℕ → ℕ → ℕ → List ℕ → List ℕ
set_in address p v [] = []
set_in address p v (x ∷ slots) =
    if p == address + suc (length slots) then v ∷ slots else x ∷ set_in address p v slots

abbrev pub set_slot : ℕ → ℕ → List Block → List Block
set_slot p v [] = []
set_slot p v (b ∷ bs) =
    if b.address == get_block p
    then record b { slots = set_in b.address p v b.slots } ∷ bs
    else b ∷ set_slot p v bs

abbrev pub owned : ℕ → List Block → Bool
owned p [] = false
owned p (b ∷ bs) = (b.address == get_block p) || owned p bs

-- `*p = v`; a write to a block that has been given back to the heap is `none`.
abbrev pub store : ℕ → ℕ → Stack → Option Stack
store p v s =
    if owned p s.blocks || pooled s.alloc (get_block p)
    then some (record s { blocks = set_slot p v s.blocks })
    else none

-- After the pop: the slot of the item takes what was on top, unless it was the top.
abbrev pub refill : ℕ → ℕ → ℕ × Stack → Option (Bool × Stack)
refill null curr popped =
    if curr == index null popped.1.blocks + 1
    then some (true, popped.1)
    else (store curr popped.0 popped.1 >>= λ s. some (true, s))

unfoldable pub remove : ℕ → ℕ → Stack → Option (Bool × Stack)
remove null item s = elim (find_slot item s.blocks) [
  | none ↦ some (false, s)
  | some curr ↦ pop s >>= refill null curr
]

-- The blocks that the destructor gives back.
abbrev pub dealloc : List Block → Alloc → List ℕ × Alloc
dealloc [] a = ([], a)
dealloc (b ∷ bs) a = let rest = dealloc bs (deallocate a b.address) in (b.address ∷ rest.0, rest.1)
