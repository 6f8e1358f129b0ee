-- ===== src/SemiSpace/Iterator/Order.antt =====
-- The iterator visits each object of its kind once, in order.
use verona_rt_gc_bench.Base.{
  arith, ℕ, zero, suc, ◌+◌, ◌≤◌, ◌<◌, ◌≡◌, refl, true, false, List, [], ◌∷◌, ◌++◌, ◌==◌, Bool-cases,
  inl, inr, length, select, ltb, ap, subst, sym, ◌∙◌, ◌≢◌, Bool,
}
use verona_rt_gc_bench.Object.{Mem}
use verona_rt_gc_bench.SemiSpace.{Region}
use verona_rt_gc_bench.SemiSpace.Layout.{Tiled, Tiled-le}
use verona_rt_gc_bench.SemiSpace.Iterator.{
  IteratorType, matches_filter, skip_to_valid_large, advance_from_space, begin, next, visited,
}

select-append : (p : ℕ → Bool) (xs ys : List ℕ) → select p (xs ++ ys) ≡ select p xs ++ select p ys
select-append p [] ys = refl
select-append p (x ∷ xs) ys = elim (Bool-cases (p x)) [
  | inl e ↦ rw e (ap (λ zs. x ∷ zs) (select-append p xs ys))
  | inr e ↦ rw e (select-append p xs ys)
]

module _ (up : ℕ → ℕ) (grows : (n : ℕ) → n ≤ up n) (type : IteratorType) (r : Region)
    (m : Mem) where
  abbrev chosen : List ℕ → List ℕ
  chosen = select (λ a. matches_filter type (m a))

  large-visited :
      (k : ℕ) (los : List ℕ)
      → length los < k
      → visited up type r m k (skip_to_valid_large up type r m los) ≡ chosen los
  unfolding visited skip_to_valid_large next
  large-visited zero los h = absurd (omega arith)
  large-visited (suc k) [] h = refl
  large-visited (suc k) (lo ∷ los) h = elim (Bool-cases (matches_filter type (m lo))) [
    | inl fits ↦ rw fits (ap (λ xs. lo ∷ xs) (large-visited k los (omega arith)))
    | inr skip ↦ rw skip (large-visited (suc k) los (omega arith))
  ]

  from-visited :
      (objs : List ℕ) (j k p : ℕ)
      → Tiled up m p r.alloc_ptr objs
      → r.alloc_ptr < p + j
      → length objs + length r.large_objects < k
      → visited up type r m k (advance_from_space up type r m j p)
        ≡ chosen objs ++ chosen r.large_objects
  unfolding advance_from_space visited next
  from-visited [] zero k p t fuel h = absurd (omega arith)
  from-visited [] (suc j) k p t fuel h =
      let stop : ltb p r.alloc_ptr ≡ false = ground arith in
      rw stop (large-visited k r.large_objects (omega arith))
  from-visited (a ∷ rest) j zero p t fuel h = absurd (omega arith)
  from-visited (a ∷ rest) zero (suc k) p t fuel h =
      absurd (omega (arith, Tiled-le up grows m rest (p + up (m a).size) r.alloc_ptr t.2))
  from-visited (a ∷ rest) (suc j) (suc k) p t fuel h =
      let later = subst (λ x. Tiled up m (p + up (m x).size) r.alloc_ptr rest) t.0 t.2 in
      let pos : 0 < up (m p).size =
        subst (λ x. 0 < up (m x).size) t.0 (omega (arith, t.1, grows (m a).size)) in
      let end = Tiled-le up grows m rest (p + up (m p).size) r.alloc_ptr later in
      let more : ltb p r.alloc_ptr ≡ true = ground (arith, pos, end) in
      elim (Bool-cases (matches_filter type (m p))) [
        | inl fits ↦
            rw (more, t.0, fits)
              (ap (λ xs. p ∷ xs)
                (from-visited rest (suc r.alloc_ptr) k (p + up (m p).size) later
                  (omega (arith, pos)) (omega arith)))
        | inr skip ↦
            rw (more, t.0, skip)
              (from-visited rest j (suc k) (p + up (m p).size) later (omega (arith, pos))
                (omega arith))
      ]

  -- From `begin` to the end the iterator visits the root, the objects of from-space and the large
  -- objects that its kind selects, each once and in this order, and then stops.
  pub iterator_visits :
      (objs : List ℕ)
      → Tiled up m r.from_space r.alloc_ptr objs
      → r.pinned_iso ≢ 0
      → visited up type r m (2 + length objs + length r.large_objects) (begin up type r m)
        ≡ select (λ a. matches_filter type (m a)) (r.pinned_iso ∷ objs ++ r.large_objects)
  unfolding begin visited next
  iterator_visits objs t root =
      let there : (r.pinned_iso == 0) ≡ false = ground arith in
      let n = 1 + length objs + length r.large_objects in
      let rest : (k : ℕ)
          → length objs + length r.large_objects < k
          → visited up type r m k (advance_from_space up type r m (suc r.alloc_ptr) r.from_space)
            ≡ chosen (objs ++ r.large_objects) =
        λ k h.
          from-visited objs (suc r.alloc_ptr) k r.from_space t (omega arith) h
          ∙ sym (select-append (λ a. matches_filter type (m a)) objs r.large_objects) in
      let count : 2 + length objs + length r.large_objects ≡ suc n = omega arith in
      rw (there, count)
        (elim (Bool-cases (matches_filter type (m r.pinned_iso))) [
          | inl fits ↦ rw fits (ap (λ xs. r.pinned_iso ∷ xs) (rest n (omega arith)))
          | inr skip ↦ rw skip (rest (suc n) (omega arith))
        ])
