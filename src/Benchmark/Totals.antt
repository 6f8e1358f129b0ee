-- ===== src/Benchmark/Totals.antt =====
-- The collector's running totals against the list of its measurements.
use verona_rt_gc_bench.Base.{
  ℕ, suc, ◌+◌, ◌≡◌, refl, List, [], ◌∷◌, ◌++◌, max, arith, ◌==◌, if◌then◌else◌, length,
}
use verona_rt_gc_bench.Benchmark.{
  RegionType, trace, arena, rc, semi_space, type_id, Sample, Collector, uint64, add_to, find,
  record_gc_measurement, get_total_gc_time, get_gc_time_by_type, reset,
}

abbrev pub sum : List ℕ → ℕ
sum [] = 0
sum (x ∷ xs) = x + sum xs

abbrev pub max_of : List ℕ → ℕ
max_of [] = 0
max_of (x ∷ xs) = max x (max_of xs)

-- The time, and the number, of the measurements of one type.
abbrev pub time_of : RegionType → List (ℕ × RegionType) → ℕ
time_of t [] = 0
time_of t ((d, u) ∷ ms) = (if type_id u == type_id t then d else 0) + time_of t ms

abbrev pub number_of : RegionType → List (ℕ × RegionType) → ℕ
number_of t [] = 0
number_of t ((d, u) ∷ ms) = (if type_id u == type_id t then 1 else 0) + number_of t ms

abbrev pub time : List (ℕ × RegionType) → ℕ
time [] = 0
time ((d, _) ∷ ms) = d + time ms

pub record IsConsistent (c : Collector) : Type 0 where
  pub total : c.total_duration_ns ≡ uint64 (time c.measurements)
  pub times :
      (t : RegionType) → find (type_id t) c.duration_by_type ≡ uint64 (time_of t c.measurements)
  pub counts :
      (t : RegionType) → find (type_id t) c.count_by_type ≡ uint64 (number_of t c.measurements)
  pub peak_memory : c.peak_memory_bytes ≡ max_of c.memory_samples
  pub peak_objects : c.peak_object_count ≡ max_of c.object_samples
  pub memory_length : length c.memory_samples ≡ length c.measurements
  pub object_length : length c.object_samples ≡ length c.measurements

pub find-add_to :
    (totals : List (ℕ × ℕ)) (key n k : ℕ)
    → find k (add_to key n totals)
      ≡ (if key == k then uint64 (find key totals + n) else find k totals)
find-add_to [] key n k = ground arith
find-add_to ((a, v) ∷ totals) key n k = ground (arith, find-add_to totals key n k)

time-snoc :
    (ms : List (ℕ × RegionType)) (d : ℕ) (u : RegionType) → time (ms ++ (d, u) ∷ []) ≡ time ms + d
time-snoc [] d u = omega arith
time-snoc ((e, _) ∷ ms) d u = omega (arith, time-snoc ms d u)

time_of-snoc :
    (t : RegionType) (ms : List (ℕ × RegionType)) (d : ℕ) (u : RegionType)
    → time_of t (ms ++ (d, u) ∷ []) ≡ time_of t ms + (if type_id u == type_id t then d else 0)
time_of-snoc t [] d u = omega arith
time_of-snoc t ((e, _) ∷ ms) d u = omega (arith, time_of-snoc t ms d u)

number_of-snoc :
    (t : RegionType) (ms : List (ℕ × RegionType)) (d : ℕ) (u : RegionType)
    → number_of t (ms ++ (d, u) ∷ []) ≡ number_of t ms + (if type_id u == type_id t then 1 else 0)
number_of-snoc t [] d u = omega arith
number_of-snoc t ((e, _) ∷ ms) d u = omega (arith, number_of-snoc t ms d u)

max_of-snoc : (xs : List ℕ) (x : ℕ) → max_of (xs ++ x ∷ []) ≡ max (max_of xs) x
max_of-snoc [] x = ground arith
max_of-snoc (y ∷ xs) x = ground (arith, max_of-snoc xs x)

pub length-snoc {ℓ} : {A : Type ℓ} → (xs : List A) (x : A) → length (xs ++ x ∷ []) ≡ suc (length xs)
length-snoc [] x = refl
length-snoc (y ∷ xs) x = omega (arith, length-snoc xs x)

pub reset-IsConsistent : IsConsistent reset
reset-IsConsistent = record {
  total = refl;
  times = λ t. refl;
  counts = λ t. refl;
  peak_memory = refl;
  peak_objects = refl;
  memory_length = refl;
  object_length = refl;
}

-- A measurement keeps every total, of all types and of each one, every peak and every number of
-- samples in accord with the lists of measurements and samples, up to the wrap at 2 ^ 64.
pub record_gc_measurement-IsConsistent :
    (c : Collector) (s : Sample) → IsConsistent c → IsConsistent (record_gc_measurement c s)
unfolding record_gc_measurement
record_gc_measurement-IsConsistent c s h = record {
  total = ground (arith, h.total, time-snoc c.measurements s.duration_ns s.region_type);
  times = λ t. ground (
    arith,
    find-add_to c.duration_by_type (type_id s.region_type) s.duration_ns (type_id t),
    h.times t,
    h.times s.region_type,
    time_of-snoc t c.measurements s.duration_ns s.region_type,
  );
  counts = λ t. ground (
    arith,
    find-add_to c.count_by_type (type_id s.region_type) 1 (type_id t),
    h.counts t,
    h.counts s.region_type,
    number_of-snoc t c.measurements s.duration_ns s.region_type,
  );
  peak_memory = ground (arith, h.peak_memory, max_of-snoc c.memory_samples s.memory_before);
  peak_objects = ground (arith, h.peak_objects, max_of-snoc c.object_samples s.objects_before);
  memory_length = omega (
    arith,
    h.memory_length,
    length-snoc c.memory_samples s.memory_before,
    length-snoc c.measurements (s.duration_ns, s.region_type),
  );
  object_length = omega (
    arith,
    h.object_length,
    length-snoc c.object_samples s.objects_before,
    length-snoc c.measurements (s.duration_ns, s.region_type),
  );
}

split_time :
    (ms : List (ℕ × RegionType))
    → time ms ≡ time_of trace ms + time_of arena ms + time_of rc ms + time_of semi_space ms
split_time [] = refl
split_time ((d, trace) ∷ ms) = omega (arith, split_time ms)
split_time ((d, arena) ∷ ms) = omega (arith, split_time ms)
split_time ((d, rc) ∷ ms) = omega (arith, split_time ms)
split_time ((d, semi_space) ∷ ms) = omega (arith, split_time ms)

-- The times of the four region types add up to the total time, up to the wrap at 2 ^ 64.
pub total-by_type :
    (c : Collector)
    → IsConsistent c
    → get_total_gc_time c
      ≡ uint64 (
          get_gc_time_by_type trace c
          + get_gc_time_by_type arena c
          + get_gc_time_by_type rc c
          + get_gc_time_by_type semi_space c)
total-by_type c h = ground (
  arith,
  h.total,
  h.times trace,
  h.times arena,
  h.times rc,
  h.times semi_space,
  split_time c.measurements,
)
