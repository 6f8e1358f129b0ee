-- ===== src/Benchmark/Harness.antt =====
-- The benchmark harness: GCBenchmark of src/rt/util/gc_benchmark.h. What it prints and the files
-- that it writes are left out. `callback` is the runtime's global callback, by address, and
-- `world` all that a test works on. `wall_time_ns_out` holds the number that the pointer points to.
pub mod Runs
pub mod Summary
use verona_rt_gc_bench.Base.{
  ℕ, zero, suc, ◌+◌, ◌-◌, ◌/◌, max, Bool, List, [], ◌∷◌, ◌++◌, map, Option, none, some, length,
  get_or,
}
use verona_rt_gc_bench.Benchmark.{
  RegionType, Sample, Collector, uint64, add_to, type_id, add_all, record_gc_measurement,
  get_total_gc_time, get_gc_count, get_peak_memory, get_peak_objects, get_average_memory,
  get_average_objects, reset,
}

pub record Result : Type 0 where
  pub total_gc_time_ns : ℕ
  pub gc_call_count : ℕ
  pub average_gc_time_ns : ℕ
  pub max_gc_time_ns : ℕ
  pub peak_memory_bytes : ℕ
  pub peak_object_count : ℕ
  pub avg_memory_bytes : ℕ
  pub avg_object_count : ℕ
  pub total_run_time_ns : ℕ

pub record Harness {ℓ} (W : Type ℓ) : Type ℓ where
  pub run_results : List Result
  pub all_gc_measurements : List ℕ
  pub all_gc_measurements_with_type : List (ℕ × RegionType)
  pub wall_time_ns_out : Option ℕ
  pub callback : ℕ
  pub world : W

-- What a call of `test_fn` leaves: the samples that it reported to the callback, the number that it
-- left for the wall time, and the world.
pub record TestRun {ℓ} (W : Type ℓ) : Type ℓ where
  pub samples : List Sample
  pub wall : ℕ
  pub world : W

-- The calls of the callback in one run.
abbrev pub record_all : Collector → List Sample → Collector
record_all c [] = c
record_all c (s ∷ samples) = record_all (record_gc_measurement c s) samples

-- `m.first`
abbrev pub duration : ℕ × RegionType → ℕ
duration m = m.0

-- `for (m : measurements) max_time = max(max_time, m.first)`
abbrev pub max_time : ℕ → List (ℕ × RegionType) → ℕ
max_time best [] = best
max_time best (m ∷ ms) = max_time (max best (duration m)) ms

-- `total_calls > 0 ? total_time / total_calls : 0`
abbrev pub average_time : ℕ → ℕ → ℕ
average_time total zero = 0
average_time total (suc calls) = total / suc calls

abbrev pub result_of : Collector → ℕ → Result
result_of c run_time_ns = record {
  total_gc_time_ns = get_total_gc_time c;
  gc_call_count = get_gc_count c;
  average_gc_time_ns = average_time (get_total_gc_time c) (get_gc_count c);
  max_gc_time_ns = max_time 0 c.measurements;
  peak_memory_bytes = get_peak_memory c;
  peak_object_count = get_peak_objects c;
  avg_memory_bytes = get_average_memory c;
  avg_object_count = get_average_objects c;
  total_run_time_ns = run_time_ns;
}

-- A number written through `wall_time_ns_out`, if it is not null.
abbrev pub write_wall : Option ℕ → ℕ → Option ℕ
write_wall none n = none
write_wall (some _) n = some n

-- `t_end - t_start`, or what the test has written
abbrev pub run_time : Option ℕ → ℕ → ℕ → ℕ → ℕ
run_time none t_start t_end wall = uint64 (t_end + 18446744073709551616 - t_start)
run_time (some _) t_start t_end wall = wall

-- `now` is the clock, `here` the address of the callback that run_benchmark sets for a run, and
-- `test_fn` is given the callback that is set and what `wall_time_ns_out` points to.
module _ {ℓ} {W : Type ℓ} (now : W → ℕ) (here : ℕ) (test_fn : ℕ → Option ℕ → W → TestRun W) where
  -- One warm-up run: its samples go to a collector that is dropped.
  unfoldable pub warm_up : Harness W → Harness W
  warm_up h =
      let prev = h.callback in
      let set = record h { callback = here } in
      let run = test_fn set.callback set.wall_time_ns_out set.world in
      record set {
        wall_time_ns_out = write_wall set.wall_time_ns_out run.wall;
        world = run.world;
        callback = prev;
      }

  -- One measured run.
  unfoldable pub measure : Harness W → Harness W
  measure h =
      let prev = h.callback in
      let set = record h { callback = here; wall_time_ns_out = write_wall h.wall_time_ns_out 0 } in
      let run = test_fn set.callback set.wall_time_ns_out set.world in
      let time = run_time set.wall_time_ns_out (now set.world) (now run.world) run.wall in
      let collector = record_all reset run.samples in
      record {
        run_results = h.run_results ++ result_of collector time ∷ [];
        all_gc_measurements = h.all_gc_measurements ++ map duration collector.measurements;
        all_gc_measurements_with_type = h.all_gc_measurements_with_type ++ collector.measurements;
        wall_time_ns_out = write_wall set.wall_time_ns_out run.wall;
        callback = prev;
        world = run.world;
      }

  abbrev pub repeat : ℕ → (Harness W → Harness W) → Harness W → Harness W
  repeat zero run h = h
  repeat (suc n) run h = repeat n run (run h)

  unfoldable pub run_benchmark : ℕ → ℕ → Harness W → Harness W
  run_benchmark num_runs warmup_runs h = repeat num_runs measure (repeat warmup_runs warm_up h)

-- The mean over the runs of one field of their results: get_average_gc_time, get_average_peak_memory,
-- get_average_peak_objects and the overall averages of print_summary.
unfoldable pub mean : (Result → ℕ) → List Result → ℕ
mean field [] = 0
mean field (r ∷ results) = add_all 0 (map field (r ∷ results)) / suc (length results)

-- The loop of print_summary over the typed measurements, for the durations and for the counts.
unfoldable pub breakdown :
    List (ℕ × RegionType) → List (ℕ × ℕ) → List (ℕ × ℕ) → List (ℕ × ℕ) × List (ℕ × ℕ)
breakdown [] total_by_type count_by_type = (total_by_type, count_by_type)
breakdown ((duration_ns, type) ∷ ms) total_by_type count_by_type =
    breakdown ms (add_to (type_id type) duration_ns total_by_type)
      (add_to (type_id type) 1 count_by_type)

-- `rank percentile (n - 1)` is the index, which the source computes in floating point.
unfoldable pub calculate_percentile : (ℕ → ℕ → ℕ) → List ℕ → ℕ → ℕ
calculate_percentile rank [] percentile = 0
calculate_percentile rank (x ∷ xs) percentile = get_or (x ∷ xs) (rank percentile (length xs)) 0

-- `p99 - p50`
abbrev pub spread : (ℕ → ℕ → ℕ) → List ℕ → ℕ
spread rank sorted = uint64 (
    calculate_percentile rank sorted 99
    + 18446744073709551616
    - calculate_percentile rank sorted 50)
