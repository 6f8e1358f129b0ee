-- ===== src/SemiSpace/Collect/Targets.antt =====
-- Where the copies stand: one address for each object that was copied, and no two alike.
use verona_rt_gc_bench.Base.{
  ℕ, ◌+◌, ◌≤◌, ◌<◌, ◌≡◌, refl, List, [], ◌∷◌, arith, ◌==◌, ◌∈◌, Bool-cases, ap, inl, inr,
  eq_of_test, subst, sym, ◌∙◌,
}
use verona_rt_gc_bench.Object.{Mem, init_next, set_forwarding_pointer}
use verona_rt_gc_bench.SemiSpace.{Region}
use verona_rt_gc_bench.SemiSpace.Layout.{Tiled, Tiled-within}
use verona_rt_gc_bench.SemiSpace.Collect.Heap.{IsHeap, Copied}

abbrev pub targets : (ℕ → ℕ) → Mem → List ℕ → ℕ → List ℕ
targets up m₀ [] q = []
targets up m₀ (p ∷ rest) q = q ∷ targets up m₀ rest (q + up (m₀ p).size)

module _ (up : ℕ → ℕ) (grows : (n : ℕ) → n ≤ up n) (r : Region) (m₀ : Mem) (root : ℕ)
    (objs : List ℕ) (heap : IsHeap up r m₀ root objs) (m : Mem) where
  size_pos : (a : ℕ) → a ∈ objs → 0 < (m₀ a).size
  size_pos a h = (Tiled-within up grows m₀ objs r.from_space r.alloc_ptr a heap.tiled h).2

  pub Copied-Tiled :
      (ps : List ℕ) (q stop : ℕ)
      → Copied up objs m₀ m ps q stop
      → Tiled up m q stop (targets up m₀ ps q)
  Copied-Tiled [] q stop c = c
  Copied-Tiled (p ∷ rest) q stop c =
      let size : (m q).size ≡ (m₀ p).size = ap (λ o. o.size) c.0 in
      (refl, rw size (size_pos p c.2), rw size (Copied-Tiled rest (q + up (m₀ p).size) stop c.3))

  -- The forwarding pointer of an object that was copied leads to its copy.
  pub Copied-target :
      (ps : List ℕ) (q stop a : ℕ)
      → Copied up objs m₀ m ps q stop
      → a ∈ ps
      → ((m a).payload ∈ targets up m₀ ps q)
        × (m (m a).payload ≡ init_next (m₀ a) 0)
        × (m a ≡ set_forwarding_pointer (m₀ a) (m a).payload)
  Copied-target [] q stop a c h = cc
  Copied-target (p ∷ rest) q stop a c h = elim (Bool-cases (p == a)) [
    | inl e ↦
        subst
          (λ x.
            ((m x).payload ∈ targets up m₀ (p ∷ rest) q)
            × (m (m x).payload ≡ init_next (m₀ x) 0)
            × (m x ≡ set_forwarding_pointer (m₀ x) (m x).payload))
          (eq_of_test p a e)
          (let here : (m p).payload ≡ q = ap (λ o. o.payload) c.1 in
            (
              rw here (ground arith),
              rw here c.0,
              c.1 ∙ ap (set_forwarding_pointer (m₀ p)) (sym here),
            ))
    | inr n ↦
        let (i, copy, forward) =
          Copied-target rest (q + up (m₀ p).size) stop a c.3 (ground arith) in
        (ground arith, copy, forward)
  ]

  pub Copied-injective :
      (ps : List ℕ) (q stop a b : ℕ)
      → Copied up objs m₀ m ps q stop
      → a ∈ ps
      → b ∈ ps
      → (m a).payload ≡ (m b).payload
      → a ≡ b
  Copied-injective [] q stop a b c h k e = cc
  Copied-injective (p ∷ rest) q stop a b c h k e =
      let here : (m p).payload ≡ q = ap (λ o. o.payload) c.1 in
      let past : ℕ = q + up (m₀ p).size in
      let later : (x : ℕ) → x ∈ rest → past ≤ (m x).payload = λ x i.
        (Tiled-within up grows m (targets up m₀ rest past) past stop (m x).payload
          (Copied-Tiled rest past stop c.3) (Copied-target rest past stop x c.3 i).0).0 in
      let pos : q < past = omega (arith, grows (m₀ p).size, size_pos p c.2) in
      elim (Bool-cases (p == a)) [
        | inl i ↦ elim (Bool-cases (p == b)) [
          | inl j ↦ ground arith
          | inr j ↦ ground (arith, later b)
        ]
        | inr i ↦ elim (Bool-cases (p == b)) [
          | inl j ↦ ground (arith, later a)
          | inr j ↦ Copied-injective rest past stop a b c.3 (ground arith) (ground arith) e
        ]
      ]
