-- ===== src/Benchmark/Harness/Runs.antt =====
-- What run_benchmark keeps true of the harness.
use verona_rt_gc_bench.Base.{
  ℕ, zero, suc, ◌+◌, ◌*◌, ◌≤◌, ◌≡◌, refl, List, [], ◌∷◌, ◌++◌, map, max, arith, length, All,
  All-append, length-append, Option,
}
use native.Mathlib.Nat.{div-le_of_le-mul}
use verona_rt_gc_bench.Benchmark.{
  RegionType, Sample, Collector, record_gc_measurement, reset, get_total_gc_time, get_gc_count,
}
use verona_rt_gc_bench.Benchmark.Totals.{
  time, IsConsistent, reset-IsConsistent, length-snoc, record_gc_measurement-IsConsistent,
}
use verona_rt_gc_bench.Benchmark.Average.{average_memory-le_peak, average_objects-le_peak}
use verona_rt_gc_bench.Benchmark.Harness.{
  Result, Harness, TestRun, record_all, duration, max_time, average_time, result_of, warm_up,
  write_wall, measure, repeat, run_benchmark,
}

pub record_all-IsConsistent :
    (samples : List Sample) (c : Collector) → IsConsistent c → IsConsistent (record_all c samples)
record_all-IsConsistent [] c h = h
record_all-IsConsistent (s ∷ samples) c h =
    record_all-IsConsistent samples (record_gc_measurement c s)
      (record_gc_measurement-IsConsistent c s h)

max_time-ge : (ms : List (ℕ × RegionType)) (best : ℕ) → best ≤ max_time best ms
max_time-ge [] best = omega arith
max_time-ge (m ∷ ms) best = omega (arith, max_time-ge ms (max best m.0))

time-le : (ms : List (ℕ × RegionType)) (best : ℕ) → time ms ≤ length ms * max_time best ms
time-le [] best = omega arith
time-le (m ∷ ms) best = grind (arith, time-le ms (max best m.0), max_time-ge ms (max best m.0))

average_time-le : (total calls peak : ℕ) → total ≤ calls * peak → average_time total calls ≤ peak
average_time-le total zero peak h = omega arith
average_time-le total (suc calls) peak h = div-le_of_le-mul (suc calls) h

-- No average is above the maximum that it belongs to.
pub record IsBounded (r : Result) : Type 0 where
  pub gc_time : r.average_gc_time_ns ≤ r.max_gc_time_ns
  pub memory : r.avg_memory_bytes ≤ r.peak_memory_bytes
  pub objects : r.avg_object_count ≤ r.peak_object_count

result_of-IsBounded : (c : Collector) (t : ℕ) → IsConsistent c → IsBounded (result_of c t)
result_of-IsBounded c t h = record {
  gc_time =
      average_time-le (get_total_gc_time c) (get_gc_count c) (max_time 0 c.measurements)
        (omega (arith, h.total, time-le c.measurements 0));
  memory = average_memory-le_peak c h;
  objects = average_objects-le_peak c h;
}

abbrev pub calls : List Result → ℕ
calls [] = 0
calls (r ∷ results) = r.gc_call_count + calls results

calls-snoc :
    (results : List Result) (r : Result)
    → calls (results ++ r ∷ []) ≡ calls results + r.gc_call_count
calls-snoc [] r = omega arith
calls-snoc (x ∷ results) r = omega (arith, calls-snoc results r)

length-map {ℓ κ} :
    {A : Type ℓ} {B : Type κ} (f : A → B) (xs : List A) → length (map f xs) ≡ length xs
length-map f [] = refl
length-map f (x ∷ xs) = omega (arith, length-map f xs)

map-append {ℓ κ} :
    {A : Type ℓ} {B : Type κ} (f : A → B) (xs ys : List A) → map f (xs ++ ys) ≡ map f xs ++ map f ys
map-append f [] ys = refl
map-append f (x ∷ xs) ys = cc (map-append f xs ys)

-- The results are bounded, they count the measurements that the harness has kept, and the two lists
-- of measurements agree.
pub record IsHarness {ℓ} {W : Type ℓ} (h : Harness W) : Type ℓ where
  pub bounded : All IsBounded h.run_results
  pub counted : calls h.run_results ≡ length h.all_gc_measurements
  pub typed : map duration h.all_gc_measurements_with_type ≡ h.all_gc_measurements

module _ {ℓ} {W : Type ℓ} (now : W → ℕ) (here : ℕ) (test_fn : ℕ → Option ℕ → W → TestRun W) where
  warm_up-IsHarness : (h : Harness W) → IsHarness h → IsHarness (warm_up now here test_fn h)
  unfolding warm_up
  warm_up-IsHarness h k = record { bounded = k.bounded; counted = k.counted; typed = k.typed }

  -- A result and its measurements at the ends of the lists.
  kept :
      (results : List Result) (all : List ℕ) (r : Result) (ms : List (ℕ × RegionType))
      → calls results ≡ length all
      → r.gc_call_count ≡ length ms
      → calls (results ++ r ∷ []) ≡ length (all ++ map duration ms)
  kept results all r ms h e =
      omega
        (arith, calls-snoc results r, length-append all (map duration ms), length-map duration ms)

  samples_of : Harness W → List Sample
  samples_of h = (test_fn here (write_wall h.wall_time_ns_out 0) h.world).samples

  measure-IsHarness : (h : Harness W) → IsHarness h → IsHarness (measure now here test_fn h)
  unfolding measure samples_of
  measure-IsHarness h k = record {
    bounded = All-append IsBounded h.run_results _ k.bounded (
      result_of-IsBounded _ _ (record_all-IsConsistent (samples_of h) reset reset-IsConsistent),
      tt,
    );
    counted = kept h.run_results h.all_gc_measurements _ _ k.counted refl;
    typed = cc (k.typed, map-append duration h.all_gc_measurements_with_type _);
  }

  repeat-IsHarness :
      (n : ℕ) (run : Harness W → Harness W)
      → ((h : Harness W) → IsHarness h → IsHarness (run h))
      → (h : Harness W) → IsHarness h
      → IsHarness (repeat now here test_fn n run h)
  repeat-IsHarness zero run keeps h k = k
  repeat-IsHarness (suc n) run keeps h k = repeat-IsHarness n run keeps (run h) (keeps h k)

  -- Every run of run_benchmark, whatever the test does, leaves results in which no average is above
  -- its maximum, call counts that add up to the number of the measurements kept, and a typed list of
  -- measurements that agrees with the untyped one.
  pub run_benchmark-IsHarness :
      (num_runs warmup_runs : ℕ) (h : Harness W)
      → IsHarness h
      → IsHarness (run_benchmark now here test_fn num_runs warmup_runs h)
  unfolding run_benchmark
  run_benchmark-IsHarness n w h k =
      repeat-IsHarness n (measure now here test_fn) measure-IsHarness
        (repeat now here test_fn w (warm_up now here test_fn) h)
        (repeat-IsHarness w (warm_up now here test_fn) warm_up-IsHarness h k)

  warm_ups :
      (n : ℕ) (h : Harness W)
      → let g = repeat now here test_fn n (warm_up now here test_fn) h in
        (g.run_results ≡ h.run_results) × (g.callback ≡ h.callback)
  unfolding warm_up
  warm_ups zero h = (refl, refl)
  warm_ups (suc n) h = warm_ups n (warm_up now here test_fn h)

  measure-adds :
      (h : Harness W)
      → let g = measure now here test_fn h in
        (length g.run_results ≡ suc (length h.run_results)) × (g.callback ≡ h.callback)
  unfolding measure
  measure-adds h = (length-snoc h.run_results _, refl)

  measures :
      (n : ℕ) (h : Harness W)
      → let g = repeat now here test_fn n (measure now here test_fn) h in
        (length g.run_results ≡ n + length h.run_results) × (g.callback ≡ h.callback)
  measures zero h = (omega arith, refl)
  measures (suc n) h = ground (arith, measures n (measure now here test_fn h), measure-adds h)

  -- run_benchmark adds one result for each run that is no warm-up, and leaves the callback that was
  -- set before.
  pub run_benchmark-runs :
      (num_runs warmup_runs : ℕ) (h : Harness W)
      → let g = run_benchmark now here test_fn num_runs warmup_runs h in
        (length g.run_results ≡ num_runs + length h.run_results) × (g.callback ≡ h.callback)
  unfolding run_benchmark
  run_benchmark-runs n w h =
      ground
        (arith, warm_ups w h, measures n (repeat now here test_fn w (warm_up now here test_fn) h))
