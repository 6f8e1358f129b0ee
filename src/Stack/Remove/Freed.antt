-- ===== src/Stack/Remove/Freed.antt =====
-- The write of `remove` to a block that it has freed.
use verona_rt_gc_bench.Base.{
  ℕ, ◌+◌, ◌≡◌, refl, Bool, true, false, ◌||◌, List, [], ◌∷◌, Option, none, some, arith, ◌==◌,
  if◌then◌else◌, ap, sym, subst, if-either, ==_self, ◌>>=◌,
}
use verona_rt_gc_bench.Stack.{
  Block, heap_alloc, Stack, index, is_empty, find_slot, owned, pop, refill, remove,
}
use verona_rt_gc_bench.Stack.Order.{addressed, IsStack, index-full}
use verona_rt_gc_bench.Stack.Pop.{boxed}
use verona_rt_gc_bench.Stack.Remove.{get_block-in, owned-addressed}

refill-gone :
    (null item a : ℕ) (bs : List Block)
    → IsStack null (record { blocks = boxed a (item ∷ []) ∷ bs; alloc = heap_alloc })
    → refill null (a + 1) (item, record { blocks = bs; alloc = heap_alloc }) ≡ none
refill-gone null item a bs h =
    let block = get_block-in a (a + 1) h.chain.0 (omega arith) (omega arith) in
    let full = index-full null bs h.null_aligned h.chain.1.1.1.1.1.0 h.chain.1.1.1.1.1.1 in
    if-either (λ o. o ≡ none) (a + 1 == index null bs + 1) _ _
      (λ hit. absurd (ground (arith, hit, full, h.chain.0)))
      (λ miss.
        if-either (λ (o : Option Stack). ◌>>=◌ {B = Bool × Stack} o (λ s. some (true, s)) ≡ none)
          (owned (a + 1) bs || false) _ _
          (λ ok. absurd (
            ground (
              arith,
              ok,
              owned-addressed (a + 1) bs,
              ap (λ q. addressed q bs) block,
              h.chain.1.1.1.1.0,
            )))
          (λ gone. refl))

-- With HeapAlloc, the removal of an item that is alone in the top block writes to that block after
-- the block has been freed.
pub remove-freed :
    (null item a : ℕ) (bs : List Block)
    → IsStack null (record { blocks = boxed a (item ∷ []) ∷ bs; alloc = heap_alloc })
    → remove null item (record { blocks = boxed a (item ∷ []) ∷ bs; alloc = heap_alloc }) ≡ none
unfolding remove pop
remove-freed null item a bs h =
    let s : Stack = record { blocks = boxed a (item ∷ []) ∷ bs; alloc = heap_alloc } in
    subst
      (λ c.
        ◌≡◌ {A = Option (Bool × Stack)}
          (elim (elim (if c then some (a + 1) else none) as (λ _. Option ℕ) [
            | none ↦ find_slot item bs
            | some p ↦ some p
          ])
            as (λ _. Option (Bool × Stack)) [
              | none ↦ some (false, s)
              | some curr ↦ pop s >>= refill null curr
            ])
          none)
      (sym (==_self item))
      (subst
        (λ c.
          refill null (a + 1) (
            item,
            if c
                then record { blocks = bs; alloc = heap_alloc }
                else record { blocks = boxed a [] ∷ bs; alloc = heap_alloc },
          )
          ≡ none)
        (sym empties) (refill-gone null item a bs h))
  where
    empties : is_empty (a + 0) ≡ true
    empties = ground (arith, h.chain.0)
