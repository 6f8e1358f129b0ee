-- ===== src/Stack/Remove/Total.antt =====
-- The removal of an item that is on the stack: what it leaves.
use verona_rt_gc_bench.Base.{
  ℕ, ◌≡◌, refl, Bool, ap, false, List, [], ◌∷◌, ◌++◌, Option, none, some, arith, ◌∈◌, ◌∉◌, sym,
  subst, ◌⊎◌, inl, inr, Returns, elem-append, ◌>>=◌,
}
use verona_rt_gc_bench.Stack.{Block, Alloc, Stack, entries, find_slot, find_in, pop, refill, remove}
use verona_rt_gc_bench.Stack.Order.{IsStack}
use verona_rt_gc_bench.Stack.Pop.{boxed}
use verona_rt_gc_bench.Stack.Remove.{find_in-elem}
use verona_rt_gc_bench.Stack.Remove.Refill.{IsRemoved, IsKept, refill-all}

find_slot-absent : (item : ℕ) (bs : List Block) → find_slot item bs ≡ none → item ∉ entries bs
find_slot-absent item [] e = refl
find_slot-absent item (b ∷ bs) e = ground (
  arith,
  find_in-elem b.address item b.slots,
  find_slot-absent item bs,
  elem-append item b.slots (entries bs),
)

Option-cases : (o : Option ℕ) → ((p : ℕ) × (o ≡ some p)) ⊎ (o ≡ none)
Option-cases none = inr refl
Option-cases (some p) = inl (p, refl)

remove-boxed :
    (null item a : ℕ) (slots : List ℕ) (bs : List Block) (al : Alloc) (p : ℕ)
    → IsStack null (record { blocks = boxed a slots ∷ bs; alloc = al })
    → IsKept item (boxed a slots ∷ bs) al
    → find_slot item (boxed a slots ∷ bs) ≡ some p
    → Returns
        (IsRemoved null item (slots ++ entries bs))
        (pop (record { blocks = boxed a slots ∷ bs; alloc = al }) >>= refill null p)
unfolding pop
remove-boxed null item a [] bs al p h kept e = absurd (omega (arith, h.chain.1.0))
remove-boxed null item a (x ∷ rest) bs al p h kept e =
    refill-all null item a x rest bs al h p e (λ r t. kept (cc (r, t)))

remove-found :
    (null item : ℕ) (bs : List Block) (al : Alloc) (p : ℕ)
    → IsStack null (record { blocks = bs; alloc = al })
    → IsKept item bs al
    → find_slot item bs ≡ some p
    → Returns
        (IsRemoved null item (entries bs))
        (pop (record { blocks = bs; alloc = al }) >>= refill null p)
remove-found null item [] al p h kept e = cc e
remove-found null item (b ∷ bs) al p h kept e =
    remove-boxed null item b.address b.slots bs al p h kept e

-- When the item is on the stack, and is not alone in the top block unless the pool takes that block,
-- remove returns true, takes one occurrence of it away and nothing else, and keeps the chain of
-- blocks.
pub remove-IsRemoved :
    (null item : ℕ) (s : Stack)
    → IsStack null s
    → IsKept item s.blocks s.alloc
    → item ∈ entries s.blocks
    → Returns (IsRemoved null item (entries s.blocks)) (remove null item s)
unfolding remove
remove-IsRemoved null item s h kept has = elim (Option-cases (find_slot item s.blocks)) [
  | inl f ↦
      subst
        (λ o.
          Returns (IsRemoved null item (entries s.blocks))
            (elim o [ none ↦ some (false, s) | some curr ↦ pop s >>= refill null curr ]))
        (sym f.1) (remove-found null item s.blocks s.alloc f.0 h kept f.1)
  | inr n ↦ absurd (ground (arith, has, find_slot-absent item s.blocks n))
]

find_in-none : (a item : ℕ) (slots : List ℕ) → item ∉ slots → find_in a item slots ≡ none
find_in-none a item [] h = refl
find_in-none a item (x ∷ slots) h = ground (arith, h, find_in-none a item slots)

find_slot-none : (item : ℕ) (bs : List Block) → item ∉ entries bs → find_slot item bs ≡ none
find_slot-none item [] h = refl
find_slot-none item (b ∷ bs) h =
    let both = elem-append item b.slots (entries bs) in
    ground (arith, h, both, find_in-none b.address item b.slots, find_slot-none item bs)

-- When the item is not on the stack, remove returns false and changes nothing.
pub remove-absent :
    (null item : ℕ) (s : Stack) → item ∉ entries s.blocks → remove null item s ≡ some (false, s)
unfolding remove
remove-absent null item s h =
    ap
      (λ o. elim o as (λ _. Option (Bool × Stack)) [
        | none ↦ some (false, s)
        | some curr ↦ pop s >>= refill null curr
      ])
      (find_slot-none item s.blocks h)
