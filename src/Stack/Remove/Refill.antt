-- ===== src/Stack/Remove/Refill.antt =====
-- The write of what was on top of the stack to the slot of the item that is removed.
use verona_rt_gc_bench.Base.{
  ℕ, suc, ◌+◌, ◌≡◌, refl, Bool, true, false, ◌||◌, List, [], ◌∷◌, ◌++◌, Option, some, arith, ◌==◌,
  if◌then◌else◌, length, ap, ◌∙◌, sym, subst, if-either, inl, inr, Returns, returns, Bool-cases,
  eq_of_test, ◌>>=◌,
}
use verona_rt_gc_bench.Stack.{
  Block, Alloc, Stack, index, get_block, is_empty, entries, find_slot, set_slot, owned, pooled,
  deallocate, drop, refill,
}
use verona_rt_gc_bench.Stack.Order.{addressed, IsFresh, IsStack}
use verona_rt_gc_bench.Stack.Pop.{boxed, drop-entries, drop-IsStack, emptied}
use verona_rt_gc_bench.Stack.Remove.{
  times, get_block-in, find_slot-block, find_slot-index, owned-addressed, set_slot-absent,
  find_slot-times, addressed-set_slot, set_slot-IsChain,
}

-- What is left of `before` after the item is gone.
pub record IsRemoved (null item : ℕ) (before : List ℕ) (r : Bool × Stack) : Type 0 where
  pub found : r.0 ≡ true
  pub rest : (y : ℕ) → times y (entries r.1.blocks) + (if item == y then 1 else 0) ≡ times y before
  pub valid : IsStack null r.1

set_slot-IsStack :
    (null p v : ℕ) (t : Stack)
    → IsStack null t
    → IsStack null (record t { blocks = set_slot p v t.blocks })
set_slot-IsStack null p v t h = record {
  null_aligned = h.null_aligned;
  chain = set_slot-IsChain null p v t.blocks h.chain;
  pool = λ backup e.
      let q = h.pool backup e in
      record {
        aligned = q.aligned;
        other = q.other;
        unused = addressed-set_slot backup p v t.blocks ∙ q.unused;
      };
}

-- The write of what was on top to the item's slot, in a stack that still holds it.
refill-found :
    (null item v p : ℕ) (t : Stack) (before : List ℕ)
    → IsStack null t
    → find_slot item t.blocks ≡ some p
    → ((y : ℕ) → times y (v ∷ entries t.blocks) ≡ times y before)
    → Returns (IsRemoved null item before) (refill null p (v, t))
refill-found null item v p t before h e same =
    if-either (Returns (IsRemoved null item before)) (p == index null t.blocks + 1) _ _
      (λ hit. absurd (ground (arith, hit, find_slot-index null item t.blocks p h.chain e)))
      (λ miss.
        if-either
          (λ (o : Option Stack). Returns (IsRemoved null item before) (o >>= λ s. some (true, s)))
          (owned p t.blocks || pooled t.alloc (get_block p)) _ _
          (λ own. returns (record {
            found = refl;
            rest = λ y. omega (arith, same y, find_slot-times null item v y t.blocks p h.chain e);
            valid = set_slot-IsStack null p v t h;
          }))
          (λ gone. absurd (
            ground (
              arith,
              gone,
              owned-addressed p t.blocks,
              find_slot-block null item t.blocks p h.chain e,
            ))))

-- The item was on top, alone in its block: the block's slot is written, which the pool must own.
refill-emptied :
    (null item a : ℕ) (bs : List Block) (k : Alloc)
    → IsStack null (record { blocks = bs; alloc = k })
    → IsFresh null a (record { blocks = bs; alloc = k })
    → pooled k a ≡ true
    → Returns
        (IsRemoved null item (item ∷ entries bs))
        (refill null (a + 1) (item, record { blocks = bs; alloc = k }))
refill-emptied null item a bs k h f own =
    let block = get_block-in a (a + 1) f.aligned (omega arith) (omega arith) in
    if-either (Returns (IsRemoved null item (item ∷ entries bs))) (a + 1 == index null bs + 1) _ _
      (λ hit. returns (record { found = refl; rest = λ y. omega arith; valid = h }))
      (λ miss.
        if-either
          (λ (o : Option Stack).
            Returns (IsRemoved null item (item ∷ entries bs)) (o >>= λ s. some (true, s)))
          (owned (a + 1) bs || pooled k (get_block (a + 1))) _ _
          (λ ok. returns (record {
            found = refl;
            rest = λ y. omega (
              arith,
              ap (λ c. times y (entries c))
                  (set_slot-absent (a + 1) item bs (ap (λ q. addressed q bs) block ∙ f.unused)),
            );
            valid = set_slot-IsStack null (a + 1) item (record { blocks = bs; alloc = k }) h;
          }))
          (λ gone. absurd (ground (arith, gone, own, ap (pooled k) block))))

-- The pool takes the top block if the item is alone in it.
abbrev pub IsKept : ℕ → List Block → Alloc → Type 0
IsKept item [] al = Unit
IsKept item (b ∷ bs) al = b.slots ≡ item ∷ [] → pooled (deallocate al b.address) b.address ≡ true

skip_head :
    (item a x : ℕ) (rest : List ℕ) (bs : List Block) (p : ℕ)
    → (x == item) ≡ false
    → find_slot item (boxed a (x ∷ rest) ∷ bs) ≡ some p
    → find_slot item (boxed a rest ∷ bs) ≡ some p
skip_head item a x rest bs p n e = ground (arith, n, e)

head_slot :
    (item a x : ℕ) (rest : List ℕ) (bs : List Block) (p : ℕ)
    → (x == item) ≡ true
    → find_slot item (boxed a (x ∷ rest) ∷ bs) ≡ some p
    → p ≡ a + suc (length rest)
head_slot item a x rest bs p n e = ground (arith, n, e)

module _ (null item a x : ℕ) (rest : List ℕ) (bs : List Block) (al : Alloc)
    (h : IsStack null (record { blocks = boxed a (x ∷ rest) ∷ bs; alloc = al })) (p : ℕ)
    (e : find_slot item (boxed a (x ∷ rest) ∷ bs) ≡ some p) where
  abbrev after : Stack
  after =
      drop (record { blocks = boxed a (x ∷ rest) ∷ bs; alloc = al }) (boxed a (x ∷ rest)) rest bs

  abbrev Removed : Bool × Stack → Type 0
  Removed = IsRemoved null item (x ∷ rest ++ entries bs)

  find-after : (x == item) ≡ false → find_slot item after.blocks ≡ some p
  find-after n =
      if-either (λ (t : Stack). find_slot item t.blocks ≡ some p) (is_empty (a + length rest)) _ _
        (λ m.
          subst (λ r. find_slot item (boxed a r ∷ bs) ≡ some p) (emptied null a x rest bs al h m)
            (skip_head item a x rest bs p n e))
        (λ m. skip_head item a x rest bs p n e)

  refill-below : (x == item) ≡ false → Returns Removed (refill null p (x, after))
  refill-below n =
      refill-found null item x p after (x ∷ rest ++ entries bs) (drop-IsStack null a x rest bs al h)
        (find-after n) (λ y. ap (times y) (drop-entries null a x rest bs al h))

  abbrev popped_block : Stack
  popped_block = record { blocks = bs; alloc = deallocate al a }

  abbrev popped_slot : Stack
  popped_slot = record { blocks = boxed a rest ∷ bs; alloc = al }

  after-IsStack :
      (b : Bool)
      → is_empty (a + length rest) ≡ b
      → IsStack null (if b then popped_block else popped_slot)
  after-IsStack b m =
      subst (λ c. IsStack null (if c then popped_block else popped_slot)) m
        (drop-IsStack null a x rest bs al h)

  refill-block :
      x ≡ item
      → p ≡ a + suc (length rest)
      → is_empty (a + length rest) ≡ true
      → pooled (deallocate al a) a ≡ true
      → Returns Removed (refill null p (x, popped_block))
  refill-block top place m own =
      let none_left = emptied null a x rest bs al h m in
      subst
        (λ z.
          Returns (IsRemoved null item (z ∷ rest ++ entries bs)) (refill null p (z, popped_block)))
        (sym top)
        (subst
          (λ r.
            Returns (IsRemoved null item (item ∷ r ++ entries bs))
              (refill null p (item, popped_block)))
          (sym none_left)
          (subst
            (λ q.
              Returns (IsRemoved null item (item ∷ entries bs))
                (refill null q (item, popped_block)))
            (omega (arith, place, ap length none_left))
            (refill-emptied null item a bs (deallocate al a) (after-IsStack true m)
              (record { aligned = h.chain.0; other = h.chain.1.1.1.0; unused = h.chain.1.1.1.1.0 })
              own)))

  refill-slot :
      x ≡ item
      → p ≡ a + suc (length rest)
      → is_empty (a + length rest) ≡ false
      → Returns Removed (refill null p (x, popped_slot))
  refill-slot top place m =
      if-either (Returns Removed) (p == index null popped_slot.blocks + 1) _ _
        (λ hit.
          returns (record {
            found = refl;
            rest = λ y. ground (arith, top);
            valid = after-IsStack false m;
          }))
        (λ miss. absurd (ground (arith, place, miss)))

  pub refill-all :
      (rest ≡ [] → x ≡ item → pooled (deallocate al a) a ≡ true)
      → Returns Removed (refill null p (x, after))
  refill-all keep = elim (Bool-cases (x == item)) [
    | inr n ↦ refill-below n
    | inl t ↦
        let place = head_slot item a x rest bs p t e in
        let top = eq_of_test x item t in
        if-either (λ (s : Stack). Returns Removed (refill null p (x, s)))
          (is_empty (a + length rest)) _ _
          (λ m. refill-block top place m (keep (emptied null a x rest bs al h m) top))
          (λ m. refill-slot top place m)
  ]
