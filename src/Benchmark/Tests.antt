-- ===== src/Benchmark/Tests.antt =====
-- Concrete measurements and benchmarks, and the theorems at them.
use verona_rt_gc_bench.Base.{ℕ, ◌+◌, ◌*◌, ◌/◌, ◌≡◌, refl, List, [], ◌∷◌, Option, none, arith}
use native.Mathlib.Nat.{div-le_of_le-mul}
use verona_rt_gc_bench.Benchmark.{
  trace, semi_space, Sample, Collector, record_gc_measurement, reset, get_total_gc_time,
  get_gc_time_by_type, get_gc_count_by_type, get_average_memory,
}
use verona_rt_gc_bench.Benchmark.Totals.{IsConsistent, reset-IsConsistent}
use verona_rt_gc_bench.Benchmark.Harness.{
  Result, Harness, TestRun, calculate_percentile, record_all,
}
use verona_rt_gc_bench.Benchmark.Harness.Runs.{IsHarness, record_all-IsConsistent}
use verona_rt_gc_bench.Benchmark.Harness.Summary.{IsRank, IsSorted, div_mono}

abbrev first : Sample
first = record {
  duration_ns = 30;
  region_type = semi_space;
  memory_before = 512;
  objects_before = 8;
}

abbrev second : Sample
second = record { duration_ns = 12; region_type = trace; memory_before = 256; objects_before = 2 }

abbrev two : Collector
two = record_all reset (first ∷ second ∷ [])

two-IsConsistent : IsConsistent two
two-IsConsistent = record_all-IsConsistent (first ∷ second ∷ []) reset reset-IsConsistent

two_totals :
    (get_total_gc_time two ≡ 42)
    × ((get_gc_time_by_type trace two ≡ 12)
        × ((get_gc_count_by_type semi_space two ≡ 1) × (get_average_memory two ≡ 384)))
unfolding record_gc_measurement
two_totals = (refl, (refl, (refl, refl)))

-- The world is the time; each run takes 100 and reports the two samples.
abbrev run_two : ℕ → Option ℕ → ℕ → TestRun ℕ
run_two callback wall t = record { samples = first ∷ second ∷ []; wall = 0; world = t + 100 }

abbrev time_now : ℕ → ℕ
time_now t = t

abbrev idle : Harness ℕ
idle = record {
  run_results = [];
  all_gc_measurements = [];
  all_gc_measurements_with_type = [];
  wall_time_ns_out = none;
  callback = 7;
  world = 5;
}

idle-IsHarness : IsHarness idle
idle-IsHarness = record { bounded = tt; counted = refl; typed = refl }

abbrev percent : ℕ → ℕ → ℕ
percent p n = p * n / 100

percent-IsRank : IsRank percent
percent-IsRank = record {
  mono = λ p q n h. div_mono 99 (p * n) (q * n) (grind arith);
  bound = λ n. div-le_of_le-mul 100 (omega arith);
}

abbrev durations : List ℕ
durations = 3 ∷ 5 ∷ 9 ∷ []

durations-IsSorted : IsSorted durations
durations-IsSorted = ((omega arith, (omega arith, tt)), ((omega arith, tt), (tt, tt)))

percentile_50 : calculate_percentile percent durations 50 ≡ 5
unfolding calculate_percentile
percentile_50 = refl

abbrev result : Result
result = record {
  total_gc_time_ns = 42;
  gc_call_count = 2;
  average_gc_time_ns = 21;
  max_gc_time_ns = 30;
  peak_memory_bytes = 512;
  peak_object_count = 8;
  avg_memory_bytes = 384;
  avg_object_count = 5;
  total_run_time_ns = 100;
}
