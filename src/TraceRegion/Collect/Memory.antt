-- ===== src/TraceRegion/Collect/Memory.antt =====
-- What a collection makes of `current_memory_used`.
use verona_rt_gc_bench.Base.{
  ℕ, ◌+◌, ◌*◌, ◌<◌, ◌≡◌, ap, inl, inr, refl, List, [], ◌∷◌, arith, Bool-cases, Returns,
}
use verona_rt_gc_bench.Object.{Obj, Mem, is_unmarked}
use verona_rt_gc_bench.TraceRegion.{Region, size_t}
use verona_rt_gc_bench.TraceRegion.Collect.{Marking, gc}
use verona_rt_gc_bench.TraceRegion.Collect.Heap.{members, IsRegion, IsClosed}
use verona_rt_gc_bench.TraceRegion.Collect.Mark.{Exact}
use verona_rt_gc_bench.TraceRegion.Collect.Sweep.{bytes, HasSizes, live, dead}
use verona_rt_gc_bench.TraceRegion.Collect.Rings.{bytes-append}
use verona_rt_gc_bench.TraceRegion.Collect.Live.{gc-Returns}

bytes-live :
    (w : ℕ → ℕ) (m : Mem) (xs : List ℕ) → bytes w xs ≡ bytes w (live m xs) + bytes w (dead m xs)
bytes-live w m [] = refl
bytes-live w m (x ∷ xs) = elim (Bool-cases (is_unmarked (m x).cls)) [
  | inl e ↦ rw e (omega (arith, bytes-live w m xs))
  | inr n ↦ rw n (omega (arith, bytes-live w m xs))
]

module _ (r : Region) (m₀ : Mem) (root : ℕ) (valid : IsRegion r m₀ root)
    (closed : IsClosed r m₀ root) where
  abbrev pub sizes : ℕ → ℕ
  sizes a = (m₀ a).size

  same-HasSizes :
      (g : Marking)
      → Exact r m₀ root valid closed g
      → ((a : ℕ) → sizes a < 18446744073709551616)
      → HasSizes g.mem sizes
  same-HasSizes g e small a = (
    elim (e.same a) [
      | inl s ↦ ap (λ (o : Obj). o.size) s
      | inr (_, _, s) ↦ ap (λ (o : Obj). o.size) s
    ],
    small a,
  )

  -- When the objects have sizes of 64 bits and `current_memory_used` counts each of them once, after
  -- a collection it counts each object that has stayed twice, up to the wrap at 2 ^ 64.
  pub gc-counts_twice :
      (reports : ℕ → List ℕ) (to_class : ℕ → ℕ)
      → ((a : ℕ) → sizes a < 18446744073709551616)
      → r.current_memory_used ≡ size_t (bytes sizes (members r))
      → Returns
          (λ c. size_t c.0.current_memory_used ≡ size_t (2 * bytes sizes (members c.0)))
          (gc reports to_class r m₀ root)
  gc-counts_twice reports to_class small before =
      gc-Returns r m₀ root valid closed reports to_class
        (λ c. size_t c.0.current_memory_used ≡ size_t (2 * bytes sizes (members c.0)))
        (λ g e c o. omega (
          arith,
          before,
          o.account sizes (same-HasSizes g e small),
          o.used,
          ap (bytes sizes) o.primary,
          ap (bytes sizes) o.secondary,
          bytes-append sizes c.0.primary c.0.secondary,
          bytes-append sizes r.primary r.secondary,
          bytes-live sizes g.mem r.primary,
          bytes-live sizes g.mem r.secondary,
        ))
