-- ===== src/TraceRegion/Collect/Outcome.antt =====
-- What a collection leaves of the rings, of memory and of the remembered set.
use verona_rt_gc_bench.Base.{
  ℕ, ◌+◌, ◌≡◌, inl, inr, refl, false, List, ◌++◌, Option, some, arith, Returns, returns,
  Returns-bind, Bool-cases, ◌∙◌, Distinct, if◌then◌else◌, elem-append, ◌>>=◌,
}
use verona_rt_gc_bench.Object.{Mem, is_trivial}
use verona_rt_gc_bench.RememberedSet
use verona_rt_gc_bench.TraceRegion.{Region, size_t}
use verona_rt_gc_bench.TraceRegion.Collect.{Marking, Sweeping, sweep, start}
use verona_rt_gc_bench.TraceRegion.Collect.Heap.{members}
use verona_rt_gc_bench.TraceRegion.Collect.Sweep.{bytes, HasSizes, dead, live, swept, IsRing}
use verona_rt_gc_bench.TraceRegion.Collect.Rings.{ring_events, sweep_rings, Distinct-swap}

-- The ring with the finalisers and destructors, and the other one.
abbrev pub nontrivial : Region → Mem → ℕ → List ℕ
nontrivial r m root = if is_trivial (m root) then r.secondary else r.primary

abbrev pub trivial : Region → Mem → ℕ → List ℕ
trivial r m root = if is_trivial (m root) then r.primary else r.secondary

pub record Outcome (r : Region) (root : ℕ) (g : Marking) (c : Region × Sweeping) : Type 0 where
  pub primary : c.0.primary ≡ live g.mem r.primary
  pub secondary : c.0.secondary ≡ live g.mem r.secondary
  pub mem : (a : ℕ) → c.1.mem a ≡ swept (members r) g.mem a
  pub events : c.1.events ≡ ring_events g.mem (nontrivial r g.mem root) (trivial r g.mem root)
  pub rset : c.0.rset ≡ RememberedSet.sweep g.rset
  pub entries : c.0.additional_entry_points ≡ r.additional_entry_points
  pub size : c.0.region_size ≡ c.1.size
  pub used : c.0.current_memory_used ≡ c.1.used
  pub account :
      (w : ℕ → ℕ)
      → HasSizes g.mem w
      → size_t (c.1.used + (bytes w (dead g.mem r.primary) + bytes w (dead g.mem r.secondary)))
        ≡ size_t (
            r.current_memory_used
            + (bytes w (live g.mem r.primary) + bytes w (live g.mem r.secondary)))

swept_swap : (xs ys : List ℕ) (m : Mem) (a : ℕ) → swept (ys ++ xs) m a ≡ swept (xs ++ ys) m a
swept_swap xs ys m a = ground (arith, elem-append a xs ys, elem-append a ys xs)

module _ (reports : ℕ → List ℕ) (to_class : ℕ → ℕ) (r : Region) (root : ℕ) (g : Marking)
    (shape₁ : IsRing g.mem r.primary) (shape₂ : IsRing g.mem r.secondary)
    (d : Distinct (members r)) where
  abbrev pub before : Region
  before = record r { rset = g.rset }

  abbrev pub finished : Region × Sweeping → Option (Region × Sweeping)
  finished c = some (record c.0 { memory_at_last_gc = c.1.used }, c.1)

  pub sweep-Outcome :
      Returns (Outcome r root g) (
        sweep reports to_class false root before (start reports to_class before g.mem) >>= finished)
  unfolding sweep
  sweep-Outcome = elim (Bool-cases (is_trivial (g.mem root))) [
    | inl t ↦ rw t (
        Returns-bind
          (sweep_rings reports to_class r.secondary r.primary (start reports to_class before g.mem)
            shape₂ shape₁ (Distinct-swap r.primary r.secondary d) refl refl
            (λ (c : Region × Sweeping).
              Outcome r root g (record c.0 { memory_at_last_gc = c.1.used }, c.1))
            _
            (λ k₁ k₂ s w. record {
              primary = w.second_kept;
              secondary = w.first_kept;
              mem = λ a. w.mem a ∙ swept_swap r.primary r.secondary g.mem a;
              events = rw t w.events;
              rset = refl;
              entries = refl;
              size = refl;
              used = refl;
              account = λ v z. omega (arith, w.used v z);
            }))
          (λ c o. returns o))
    | inr n ↦ rw n (
        Returns-bind
          (sweep_rings reports to_class r.primary r.secondary (start reports to_class before g.mem)
            shape₁ shape₂ d refl refl
            (λ (c : Region × Sweeping).
              Outcome r root g (record c.0 { memory_at_last_gc = c.1.used }, c.1))
            _
            (λ k₁ k₂ s w. record {
              primary = w.first_kept;
              secondary = w.second_kept;
              mem = w.mem;
              events = rw n w.events;
              rset = refl;
              entries = refl;
              size = refl;
              used = refl;
              account = w.used;
            }))
          (λ c o. returns o))
  ]
