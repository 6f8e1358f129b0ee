-- ===== src/Stack/Order.antt =====
-- The stack against the list of its entries.
use verona_rt_gc_bench.Base.{
  ℕ, ◌%◌, ◌<◌, ◌≡◌, refl, Bool, false, ◌||◌, List, [], ◌∷◌, none, some, arith, ◌==◌, length, All,
  if-either, eq_of_test, ◌≢◌, ◌∙◌,
}
use verona_rt_gc_bench.Stack.{
  Block, Alloc, heap_alloc, backup_alloc, Stack, allocate, index, put, push, entries, is_full,
}

abbrev pub addressed : ℕ → List Block → Bool
addressed a [] = false
addressed a (b ∷ bs) = (b.address == a) || addressed a bs

-- Blocks are aligned and distinct, none is the null block, every one has an entry, and all but the
-- top one are full.
abbrev pub IsChain : ℕ → List Block → Type 0
IsChain null [] = Unit
IsChain null (b ∷ bs) =
    (b.address % 64 ≡ 0)
    × ((0 < length b.slots)
        × ((length b.slots < 64)
            × (((null == b.address) ≡ false)
                × ((addressed b.address bs ≡ false)
                    × (All (λ c. length c.slots ≡ 63) bs × IsChain null bs)))))

-- What the heap returns: an aligned block that is not in use.
pub record IsFresh (null fresh : ℕ) (s : Stack) : Type 0 where
  pub aligned : fresh % 64 ≡ 0
  pub other : (null == fresh) ≡ false
  pub unused : addressed fresh s.blocks ≡ false

-- The chain, and the pooled block is aligned and not in use.
pub record IsStack (null : ℕ) (s : Stack) : Type 0 where
  pub null_aligned : null % 64 ≡ 0
  pub chain : IsChain null s.blocks
  pub pool : (backup : ℕ) → s.alloc ≡ backup_alloc (some backup) → IsFresh null backup s

pub index-full :
    (null : ℕ) (bs : List Block)
    → null % 64 ≡ 0
    → All (λ c. length c.slots ≡ 63) bs
    → IsChain null bs
    → index null bs % 64 ≡ 63
index-full null [] n full chain = omega arith
index-full null (b ∷ bs) n full chain = omega (arith, full.0, chain.0)

full_chain :
    (null : ℕ) (bs : List Block)
    → null % 64 ≡ 0
    → IsChain null bs
    → index null bs % 64 ≡ 63
    → All (λ c. length c.slots ≡ 63) bs
full_chain null [] n chain full = tt
full_chain null (b ∷ bs) n chain full =
    (omega (arith, chain.0, chain.1.1.0, full), chain.1.1.1.1.1.0)

put-entries :
    (null item : ℕ) (bs : List Block)
    → null % 64 ≡ 0
    → is_full (index null bs) ≡ false
    → entries (put item bs) ≡ item ∷ entries bs
put-entries null item [] n h = ground arith
put-entries null item (b ∷ bs) n h = refl

-- A push, into the top block or into a new one, puts the item before the entries.
pub push-entries :
    (null fresh item : ℕ) (s : Stack)
    → IsStack null s
    → entries (push null fresh item s).blocks ≡ item ∷ entries s.blocks
unfolding push
push-entries null fresh item s h =
    if-either (λ (t : Stack). entries t.blocks ≡ item ∷ entries s.blocks)
      (is_full (index null s.blocks)) _ _ (λ e. refl)
      (λ e. put-entries null item s.blocks h.null_aligned e)

put-IsChain :
    (null item : ℕ) (bs : List Block)
    → null % 64 ≡ 0
    → is_full (index null bs) ≡ false
    → IsChain null bs
    → IsChain null (put item bs)
put-IsChain null item [] n h chain = tt
put-IsChain null item (b ∷ bs) n h chain =
    (chain.0, (omega arith, (ground (arith, chain.0, chain.1.1.0), chain.1.1.1)))

addressed-put : (a item : ℕ) (bs : List Block) → addressed a (put item bs) ≡ addressed a bs
addressed-put a item [] = refl
addressed-put a item (b ∷ bs) = refl

new-IsChain :
    (null a item : ℕ) (s : Stack)
    → IsFresh null a s
    → All (λ c. length c.slots ≡ 63) s.blocks
    → IsChain null s.blocks
    → IsChain null (record { address = a; slots = item ∷ [] } ∷ s.blocks)
new-IsChain null a item s f full chain =
    (f.aligned, (omega arith, (omega arith, (f.other, (f.unused, (full, chain))))))

-- The block that a push takes, from the pool or from the heap.
allocate-IsFresh :
    (null fresh : ℕ) (s : Stack) (a : Alloc)
    → s.alloc ≡ a
    → IsStack null s
    → IsFresh null fresh s
    → IsFresh null (allocate a fresh).0 s
allocate-IsFresh null fresh s heap_alloc e h f = f
allocate-IsFresh null fresh s (backup_alloc none) e h f = f
allocate-IsFresh null fresh s (backup_alloc (some backup)) e h f = h.pool backup e

allocate-none : (a : Alloc) (fresh backup : ℕ) → (allocate a fresh).1 ≢ backup_alloc (some backup)
allocate-none heap_alloc fresh backup = λ e. cc e
allocate-none (backup_alloc none) fresh backup = λ e. cc e
allocate-none (backup_alloc (some b)) fresh backup = λ e. cc e

-- A push keeps the chain of blocks: aligned, distinct, full below the top one.
pub push-IsStack :
    (null fresh item : ℕ) (s : Stack)
    → IsStack null s
    → IsFresh null fresh s
    → IsStack null (push null fresh item s)
unfolding push
push-IsStack null fresh item s h f =
    if-either (IsStack null) (is_full (index null s.blocks)) _ _
      (λ e. record {
        null_aligned = h.null_aligned;
        chain =
            new-IsChain null (allocate s.alloc fresh).0 item s
              (allocate-IsFresh null fresh s s.alloc refl h f)
              (full_chain null s.blocks h.null_aligned h.chain (eq_of_test _ _ e)) h.chain;
        pool = λ backup p. absurd (allocate-none s.alloc fresh backup p);
      })
      (λ e. record {
        null_aligned = h.null_aligned;
        chain = put-IsChain null item s.blocks h.null_aligned e h.chain;
        pool = λ backup p.
            let q = h.pool backup p in
            record {
              aligned = q.aligned;
              other = q.other;
              unused = addressed-put backup item s.blocks ∙ q.unused;
            };
      })
