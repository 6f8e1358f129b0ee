-- ===== src/SemiSpace/Layout.antt =====
-- How objects fill from-space, and sums over the objects of a space.
use verona_rt_gc_bench.Base.{
  ℕ, zero, suc, ◌+◌, ◌≤◌, ◌<◌, ◌≡◌, refl, List, [], ◌∷◌, arith, if◌then◌else◌, ◌∈◌, ◌∉◌, Distinct,
}
use verona_rt_gc_bench.Object.{Obj, Mem, write, is_unmarked}
use verona_rt_gc_bench.SemiSpace.{objects}

-- The objects at `as` lie one behind the other from `p` to `stop`, and none is empty.
abbrev pub Tiled : (ℕ → ℕ) → Mem → (p stop : ℕ) → List ℕ → Type 0
Tiled up m p stop [] = p ≡ stop
Tiled up m p stop (a ∷ rest) = (a ≡ p) × (0 < (m a).size) × Tiled up m (p + up (m a).size) stop rest

-- The layout depends on the sizes alone.
pub Tiled-sizes :
    (up : ℕ → ℕ) (m m' : Mem) (xs : List ℕ) (p stop : ℕ)
    → ((a : ℕ) → a ∈ xs → (m' a).size ≡ (m a).size)
    → Tiled up m p stop xs
    → Tiled up m' p stop xs
Tiled-sizes up m m' [] p stop same t = t
Tiled-sizes up m m' (b ∷ rest) p stop same t =
    rw (same b (ground arith)) (
      t.0,
      t.1,
      Tiled-sizes up m m' rest (p + up (m b).size) stop (λ a h. same a (ground arith)) t.2,
    )

-- The sum of a weight over the objects.
abbrev pub total : (Obj → ℕ) → Mem → List ℕ → ℕ
total w m [] = 0
total w m (a ∷ rest) = w (m a) + total w m rest

pub total-write_out :
    (w : Obj → ℕ) (m : Mem) (a : ℕ) (o : Obj) (objs : List ℕ)
    → a ∉ objs
    → total w (write m a o) objs ≡ total w m objs
total-write_out w m a o [] h = refl
total-write_out w m a o (b ∷ rest) h = ground (arith, total-write_out w m a o rest)

pub total-write :
    (w : Obj → ℕ) (m : Mem) (a : ℕ) (o : Obj) (objs : List ℕ)
    → Distinct objs
    → a ∈ objs
    → total w (write m a o) objs + w (m a) ≡ total w m objs + w o
total-write w m a o [] d h = ground arith
total-write w m a o (b ∷ rest) d h =
    ground (arith, total-write w m a o rest, total-write_out w m a o rest)

pub le-total : (w : Obj → ℕ) (m : Mem) (a : ℕ) (objs : List ℕ) → a ∈ objs → w (m a) ≤ total w m objs
le-total w m a [] h = ground arith
le-total w m a (b ∷ rest) h = ground (arith, le-total w m a rest)

-- The bytes that objects without a mark take, and their number.
abbrev pub unmarked_bytes : (ℕ → ℕ) → Obj → ℕ
unmarked_bytes up o = if is_unmarked o.cls then up o.size else 0

abbrev pub unmarked_one : Obj → ℕ
unmarked_one o = if is_unmarked o.cls then 1 else 0

module _ (up : ℕ → ℕ) (grows : (n : ℕ) → n ≤ up n) (m : Mem) where
  pub Tiled-le : (objs : List ℕ) (p stop : ℕ) → Tiled up m p stop objs → p ≤ stop
  Tiled-le [] p stop t = omega arith
  Tiled-le (a ∷ rest) p stop t = omega (arith, Tiled-le rest (p + up (m a).size) stop t.2)

  -- An object of the tiling lies within it.
  pub Tiled-within :
      (objs : List ℕ) (p stop a : ℕ)
      → Tiled up m p stop objs
      → a ∈ objs
      → (p ≤ a) × (a + up (m a).size ≤ stop) × (0 < (m a).size)
  Tiled-within [] p stop a t h = ground arith
  Tiled-within (b ∷ rest) p stop a t h = ground (
    arith,
    Tiled-le rest (p + up (m b).size) stop t.2,
    Tiled-within rest (p + up (m b).size) stop a t.2,
    grows (m b).size,
  )

  Tiled-not_below : (objs : List ℕ) (p stop a : ℕ) → Tiled up m p stop objs → a < p → a ∉ objs
  Tiled-not_below [] p stop a t h = refl
  Tiled-not_below (b ∷ rest) p stop a t h =
      ground (arith, Tiled-not_below rest (p + up (m b).size) stop a t.2)

  pub Tiled-Distinct : (objs : List ℕ) (p stop : ℕ) → Tiled up m p stop objs → Distinct objs
  Tiled-Distinct [] p stop t = tt
  Tiled-Distinct (b ∷ rest) p stop t = (
    Tiled-not_below rest (p + up (m b).size) stop b t.2 (omega (arith, grows (m b).size)),
    Tiled-Distinct rest (p + up (m b).size) stop t.2,
  )

  pub Tiled-total :
      (objs : List ℕ) (p stop : ℕ)
      → Tiled up m p stop objs
      → p + total (unmarked_bytes up) m objs ≤ stop
  Tiled-total [] p stop t = omega arith
  Tiled-total (b ∷ rest) p stop t = ground (arith, Tiled-total rest (p + up (m b).size) stop t.2)

  -- The walk finds the objects of the tiling, given a round for each byte.
  pub objects-Tiled :
      (k : ℕ) (objs : List ℕ) (p stop : ℕ)
      → Tiled up m p stop objs
      → stop ≤ p + k
      → objects up k m p stop ≡ objs
  unfolding objects
  objects-Tiled zero [] p stop t h = refl
  objects-Tiled zero (b ∷ rest) p stop t h =
      absurd (omega (arith, grows (m b).size, Tiled-le rest (p + up (m b).size) stop t.2))
  objects-Tiled (suc k) [] p stop t h = ground arith
  objects-Tiled (suc k) (b ∷ rest) p stop t h = ground (
    arith,
    grows (m b).size,
    Tiled-le rest (p + up (m b).size) stop t.2,
    objects-Tiled k rest (p + up (m b).size) stop,
  )
