-- ===== src/SemiSpace/Collect/Update.antt =====
-- Phases 3 and 4 write each object once, and read headers of from-space, which they leave alone.
use mathlib.Core.Path.{fun_ext}
use verona_rt_gc_bench.Base.{
  ℕ, ◌≡◌, refl, true, false, List, [], ◌∷◌, arith, elem, ◌∉◌, All, Distinct, if◌then◌else◌, ap,
}
use verona_rt_gc_bench.Object.{Obj, Mem}
use verona_rt_gc_bench.SemiSpace.{Region, is_in_space, forward_if_moved, relocate}
use verona_rt_gc_bench.SemiSpace.Collect.{
  update_object, update_object_pointers, update_all_pointers, Sweep, sweep_large_object,
  sweep_large,
}

module _ (r : Region) where
  abbrev pub InFrom : ℕ → Type 0
  InFrom a = is_in_space a r.from_space r.semispace_size ≡ true

  abbrev pub NotFrom : ℕ → Type 0
  NotFrom a = is_in_space a r.from_space r.semispace_size ≡ false

  -- Two memories that agree on from-space forward alike.
  abbrev pub SameFrom : Mem → Mem → Type 0
  SameFrom m m' = (a : ℕ) → InFrom a → m a ≡ m' a

  forward-SameFrom :
      (m m' : Mem)
      → SameFrom m m'
      → forward_if_moved r.from_space r.semispace_size m
        ≡ forward_if_moved r.from_space r.semispace_size m'
  forward-SameFrom m m' same = fun_ext λ a. ground (arith, same a)

  pub update_object-SameFrom :
      (m m' : Mem) (o : Obj) → SameFrom m m' → update_object r m o ≡ update_object r m' o
  update_object-SameFrom m m' o same = ap (λ f. relocate f o) (forward-SameFrom m m' same)

  pub update_all_pointers-at :
      (qs : List ℕ) (m : Mem)
      → Distinct qs
      → All NotFrom qs
      → (a : ℕ)
      → update_all_pointers r qs m a ≡ (if elem a qs then update_object r m (m a) else m a)
  unfolding update_all_pointers
  update_all_pointers-at [] m d out a = refl
  update_all_pointers-at (q ∷ rest) m d out a =
      let m₁ : Mem = update_object_pointers r m q in
      let same : SameFrom m₁ m = λ b h. ground (arith, out.0) in
      ground
        (arith, update_all_pointers-at rest m₁ d.1 out.1 a, update_object-SameFrom m₁ m (m₁ a) same)

  -- The sweep of the large objects writes to them alone.
  pub sweep_large-out :
      (los : List ℕ) (s : Sweep) (a : ℕ) → a ∉ los → (sweep_large r los s).mem a ≡ s.mem a
  unfolding sweep_large sweep_large_object
  sweep_large-out [] s a h = refl
  sweep_large-out (lo ∷ los) s a h =
      ground (arith, sweep_large-out los (sweep_large_object r lo s) a)
