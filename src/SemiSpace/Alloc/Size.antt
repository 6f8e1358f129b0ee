-- ===== src/SemiSpace/Alloc/Size.antt =====
-- The growth of the spaces: the loop ends, and there is room for the request.
use native.Mathlib.Nat.{pow-suc}
use verona_rt_gc_bench.Base.{
  arith, ℕ, zero, suc, ◌+◌, ◌-◌, ◌*◌, ◌≤◌, ◌<◌, ◌≡◌, Bool-cases, inl, inr, ltb, ◌==◌, ◌^◌, refl,
}
use verona_rt_gc_bench.SemiSpace.Alloc.{double_until, grown_size, State, grow}

-- A round for each byte of the request is enough.
double_until-fits :
    (k request size : ℕ)
    → 0 < size
    → request ≤ size + k
    → (request ≤ double_until k request size) × (size ≤ double_until k request size)
unfolding double_until
double_until-fits zero request size pos fuel = omega arith
double_until-fits (suc k) request size pos fuel =
    ground (arith, double_until-fits k request (size * 2))

-- The new size is the old one doubled some number of times.
double_until-pow : (k request size : ℕ) → (n : ℕ) × (double_until k request size ≡ size * 2 ^ n)
unfolding double_until
double_until-pow zero request size = (0, omega arith)
double_until-pow (suc k) request size = elim (Bool-cases (ltb size request)) [
  | inl more ↦
      let (n, e) = double_until-pow k request (size * 2) in
      (suc n, rw (more, e, pow-suc) (omega arith))
  | inr done ↦ (0, rw done (omega arith))
]

pub grown_size-fits :
    (request size : ℕ)
    → 0 < size
    → (request ≤ grown_size request size) × (size < grown_size request size)
unfolding grown_size
grown_size-fits request size pos =
    ground (arith, double_until-fits request request size pos (omega arith))

grown_size-pow : (request size : ℕ) → (n : ℕ) × (grown_size request size ≡ size * 2 ^ n)
unfolding grown_size
grown_size-pow request size =
    let (n, e) = double_until-pow request request size in
    elim (Bool-cases (double_until request request size == size)) [
      | inl same ↦ (1, rw same (ground arith))
      | inr grew ↦ (n, rw grew e)
    ]

module _ (up : ℕ → ℕ) (new_from new_to needed : ℕ) (s : State) where
  -- After `grow` the request fits behind the bump pointer, the space ends where its size says, and
  -- both spaces are a power of two times as large as before, and larger.
  pub grow-room :
      0 < s.region.semispace_size
      → let r = (grow up new_from new_to needed s).region in
        (r.alloc_ptr + needed ≤ r.alloc_end)
        × (r.alloc_end ≡ r.from_space + r.semispace_size)
        × (s.region.semispace_size < r.semispace_size)
        × ((n : ℕ) × (r.semispace_size ≡ s.region.semispace_size * 2 ^ n))
  unfolding grow
  grow-room pos =
      let request = s.region.alloc_ptr - s.region.from_space + needed in
      let fits = grown_size-fits request s.region.semispace_size pos in
      (omega (arith, fits), refl, fits.1, grown_size-pow request s.region.semispace_size)
