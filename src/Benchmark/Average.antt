-- ===== src/Benchmark/Average.antt =====
-- Bounds on the averages of the benchmark: a total that wraps only gets smaller.
use verona_rt_gc_bench.Base.{ℕ, suc, ◌+◌, ◌*◌, ◌≤◌, List, [], ◌∷◌, arith, length}
use native.Mathlib.Nat.{div-le_of_le-mul}
use verona_rt_gc_bench.Benchmark.{
  Collector, uint64, add_all, average, get_average_memory, get_average_objects, get_peak_memory,
  get_peak_objects,
}
use verona_rt_gc_bench.Benchmark.Totals.{sum, max_of, IsConsistent}

pub add_all-le : (values : List ℕ) (total : ℕ) → add_all total values ≤ total + sum values
add_all-le [] total = omega arith
add_all-le (m ∷ values) total = ground (arith, add_all-le values (uint64 (total + m)))

sum-le_max : (values : List ℕ) (peak : ℕ) → max_of values ≤ peak → sum values ≤ length values * peak
sum-le_max [] peak h = omega arith
sum-le_max (m ∷ values) peak h = grind (arith, sum-le_max values peak)

pub average-le_max : (values : List ℕ) → average values ≤ max_of values
average-le_max [] = omega arith
average-le_max (m ∷ values) = div-le_of_le-mul (suc (length values)) (
    omega (
      arith,
      add_all-le (m ∷ values) 0,
      sum-le_max (m ∷ values) (max_of (m ∷ values)) (omega arith),
    ))

-- The average memory of the samples is at most their peak.
pub average_memory-le_peak :
    (c : Collector) → IsConsistent c → get_average_memory c ≤ get_peak_memory c
average_memory-le_peak c h = omega (arith, h.peak_memory, average-le_max c.memory_samples)

pub average_objects-le_peak :
    (c : Collector) → IsConsistent c → get_average_objects c ≤ get_peak_objects c
average_objects-le_peak c h = omega (arith, h.peak_objects, average-le_max c.object_samples)
