-- ===== src/Stack/Pop.antt =====
-- The pop of the stack, over both its paths.
use verona_rt_gc_bench.Base.{
  ℕ, ◌+◌, ◌≡◌, refl, true, false, List, [], ◌∷◌, ◌++◌, none, some, arith, length, if-either, ap,
  sym, subst, Returns, returns, ◌∙◌,
}
use verona_rt_gc_bench.Stack.{
  Block, Alloc, heap_alloc, backup_alloc, Stack, deallocate, is_empty, empty, drop, pop, entries,
}
use verona_rt_gc_bench.Stack.Order.{IsFresh, IsStack}

abbrev pub boxed : ℕ → List ℕ → Block
boxed a slots = record { address = a; slots = slots }

nil_of_length : (xs : List ℕ) → length xs ≡ 0 → xs ≡ []
nil_of_length [] h = refl
nil_of_length (x ∷ xs) h = absurd (omega (arith, h))

module _ (null a item : ℕ) (rest : List ℕ) (bs : List Block) (al : Alloc)
    (h : IsStack null (record { blocks = boxed a (item ∷ rest) ∷ bs; alloc = al })) where
  abbrev s : Stack
  s = record { blocks = boxed a (item ∷ rest) ∷ bs; alloc = al }

  abbrev after : Stack
  after = drop s (boxed a (item ∷ rest)) rest bs

  pub emptied : is_empty (a + length rest) ≡ true → rest ≡ []
  emptied e = nil_of_length rest (ground (arith, h.chain.0, h.chain.1.1.0))

  pub drop-entries : item ∷ entries after.blocks ≡ item ∷ rest ++ entries bs
  drop-entries =
      if-either (λ (t : Stack). item ∷ entries t.blocks ≡ item ∷ rest ++ entries bs)
        (is_empty (a + length rest)) _ _ (λ e. ap (λ r. item ∷ r ++ entries bs) (sym (emptied e)))
        (λ e. refl)

  -- The block that the pool has after one has been given back.
  pooled_back :
      (k : Alloc)
      → al ≡ k
      → (backup : ℕ) → deallocate k a ≡ backup_alloc (some backup)
      → IsFresh null backup (record { blocks = bs; alloc = deallocate k a })
  pooled_back heap_alloc e backup p = cc p
  pooled_back (backup_alloc none) e backup p =
      subst (λ k. IsFresh null k (record { blocks = bs; alloc = deallocate (backup_alloc none) a }))
        (cc p) (record { aligned = h.chain.0; other = h.chain.1.1.1.0; unused = h.chain.1.1.1.1.0 })
  pooled_back (backup_alloc (some b)) e backup p =
      let q = h.pool backup (e ∙ p) in
      record { aligned = q.aligned; other = q.other; unused = ground (arith, q.unused) }

  pub drop-IsStack : IsStack null after
  drop-IsStack =
      if-either (IsStack null) (is_empty (a + length rest)) _ _
        (λ e. record {
          null_aligned = h.null_aligned;
          chain = h.chain.1.1.1.1.1.1;
          pool = pooled_back al refl;
        })
        (λ e. record {
          null_aligned = h.null_aligned;
          chain = (
            h.chain.0,
            (ground (arith, h.chain.0), (omega (arith, h.chain.1.1.0), h.chain.1.1.1)),
          );
          pool = λ backup p.
              let q = h.pool backup p in
              record { aligned = q.aligned; other = q.other; unused = q.unused };
        })

pop-boxed :
    (null a : ℕ) (slots : List ℕ) (bs : List Block) (al : Alloc)
    → IsStack null (record { blocks = boxed a slots ∷ bs; alloc = al })
    → Returns
        (λ r. (r.0 ∷ entries r.1.blocks ≡ slots ++ entries bs) × IsStack null r.1)
        (pop (record { blocks = boxed a slots ∷ bs; alloc = al }))
unfolding pop
pop-boxed null a [] bs al h = absurd (omega (arith, h.chain.1.0))
pop-boxed null a (item ∷ rest) bs al h =
    returns (drop-entries null a item rest bs al h, drop-IsStack null a item rest bs al h)

pop_blocks :
    (null : ℕ) (bs : List Block) (al : Alloc)
    → IsStack null (record { blocks = bs; alloc = al })
    → empty null (record { blocks = bs; alloc = al }) ≡ false
    → Returns
        (λ r. (r.0 ∷ entries r.1.blocks ≡ entries bs) × IsStack null r.1)
        (pop (record { blocks = bs; alloc = al }))
pop_blocks null [] al h e = absurd (ground (arith, e))
pop_blocks null (b ∷ bs) al h e = pop-boxed null b.address b.slots bs al h

-- A pop of a stack that is not empty takes the first of its entries away and keeps the chain of
-- blocks, whether or not the top block goes with it.
pub pop-entries :
    (null : ℕ) (s : Stack)
    → IsStack null s
    → empty null s ≡ false
    → Returns (λ r. (r.0 ∷ entries r.1.blocks ≡ entries s.blocks) × IsStack null r.1) (pop s)
pop-entries null s h e = pop_blocks null s.blocks s.alloc h e
