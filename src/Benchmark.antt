-- ===== src/Benchmark.antt =====
-- The collector of garbage collection measurements: TestMeasurementCollector of
-- src/rt/util/gc_benchmark.h. The maps from region types to totals are association lists with the
-- type's number for a key; uint64_t and size_t wrap at 2 ^ 64.
pub mod Totals
pub mod Average
pub mod Harness
mod Tests
use verona_rt_gc_bench.Base.{
  ℕ, suc, ◌+◌, ◌/◌, ◌%◌, max, List, [], ◌∷◌, ◌++◌, ◌==◌, if◌then◌else◌, length,
}

pub data RegionType : Type 0 where
  trace arena rc semi_space : RegionType

-- `(int)region_type`
abbrev pub type_id : RegionType → ℕ
type_id trace = 0
type_id arena = 1
type_id rc = 2
type_id semi_space = 3

-- The arguments of one call of the callback.
pub record Sample : Type 0 where
  pub duration_ns : ℕ
  pub region_type : RegionType
  pub memory_before : ℕ
  pub objects_before : ℕ

pub record Collector : Type 0 where
  pub measurements : List (ℕ × RegionType)
  pub total_duration_ns : ℕ
  pub duration_by_type : List (ℕ × ℕ)
  pub count_by_type : List (ℕ × ℕ)
  pub memory_samples : List ℕ
  pub object_samples : List ℕ
  pub peak_memory_bytes : ℕ
  pub peak_object_count : ℕ

abbrev pub uint64 : ℕ → ℕ
uint64 n = n % 18446744073709551616

-- `totals[key] += n`
abbrev pub add_to : ℕ → ℕ → List (ℕ × ℕ) → List (ℕ × ℕ)
add_to key n [] = (key, uint64 n) ∷ []
add_to key n ((k, v) ∷ totals) =
    if k == key then (k, uint64 (v + n)) ∷ totals else (k, v) ∷ add_to key n totals

-- `find`, and 0 for a key that is missing
abbrev pub find : ℕ → List (ℕ × ℕ) → ℕ
find key [] = 0
find key ((k, v) ∷ totals) = if k == key then v else find key totals

-- `for (size_t m : values) total += m`, from `total`
abbrev pub add_all : ℕ → List ℕ → ℕ
add_all total [] = total
add_all total (m ∷ values) = add_all (uint64 (total + m)) values

unfoldable pub record_gc_measurement : Collector → Sample → Collector
record_gc_measurement c s = record {
  measurements = c.measurements ++ (s.duration_ns, s.region_type) ∷ [];
  total_duration_ns = uint64 (c.total_duration_ns + s.duration_ns);
  duration_by_type = add_to (type_id s.region_type) s.duration_ns c.duration_by_type;
  count_by_type = add_to (type_id s.region_type) 1 c.count_by_type;
  memory_samples = c.memory_samples ++ s.memory_before ∷ [];
  object_samples = c.object_samples ++ s.objects_before ∷ [];
  peak_memory_bytes = max c.peak_memory_bytes s.memory_before;
  peak_object_count = max c.peak_object_count s.objects_before;
}

abbrev pub get_total_gc_time : Collector → ℕ
get_total_gc_time c = c.total_duration_ns

abbrev pub get_gc_count : Collector → ℕ
get_gc_count c = length c.measurements

abbrev pub get_gc_count_by_type : RegionType → Collector → ℕ
get_gc_count_by_type t c = find (type_id t) c.count_by_type

abbrev pub get_gc_time_by_type : RegionType → Collector → ℕ
get_gc_time_by_type t c = find (type_id t) c.duration_by_type

abbrev pub get_peak_memory : Collector → ℕ
get_peak_memory c = c.peak_memory_bytes

abbrev pub get_peak_objects : Collector → ℕ
get_peak_objects c = c.peak_object_count

-- The mean of the samples, and 0 for none.
abbrev pub average : List ℕ → ℕ
average [] = 0
average (m ∷ values) = add_all 0 (m ∷ values) / suc (length values)

abbrev pub get_average_memory : Collector → ℕ
get_average_memory c = average c.memory_samples

abbrev pub get_average_objects : Collector → ℕ
get_average_objects c = average c.object_samples

-- `reset`, and the collector as it is constructed
abbrev pub reset : Collector
reset = record {
  measurements = [];
  total_duration_ns = 0;
  duration_by_type = [];
  count_by_type = [];
  memory_samples = [];
  object_samples = [];
  peak_memory_bytes = 0;
  peak_object_count = 0;
}
