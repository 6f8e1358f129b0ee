-- ===== src/Benchmark/Harness/Summary.antt =====
-- The summary of a benchmark: its percentiles and its averages over the runs.
use verona_rt_gc_bench.Base.{
  ℕ, zero, suc, ◌+◌, ◌/◌, ◌≤◌, ◌<◌, ◌≡◌, List, [], ◌∷◌, map, arith, length, All, get_or,
}
use native.Mathlib.Nat.{le-div_iff_mul-le, div-mul-le_self}
use verona_rt_gc_bench.Benchmark.{RegionType, type_id, uint64, add_to, find, add_all}
use verona_rt_gc_bench.Benchmark.Totals.{sum, time_of, number_of, find-add_to}
use verona_rt_gc_bench.Benchmark.Harness.{Result, mean, breakdown, calculate_percentile, spread}

abbrev pub IsSorted : List ℕ → Type 0
IsSorted [] = Unit
IsSorted (x ∷ xs) = All (λ y. x ≤ y) xs × IsSorted xs

-- The index of a percentile grows with it, and that of 100 per cent, or less, is in bounds.
pub record IsRank (rank : ℕ → ℕ → ℕ) : Type 0 where
  pub mono : (p q n : ℕ) → p ≤ q → rank p n ≤ rank q n
  pub bound : (n : ℕ) → rank 100 n ≤ n

get_or-ge : (xs : List ℕ) (x j : ℕ) → All (λ y. x ≤ y) xs → j < length xs → x ≤ get_or xs j 0
get_or-ge [] x j h b = omega arith
get_or-ge (y ∷ xs) x zero h b = h.0
get_or-ge (y ∷ xs) x (suc j) h b = get_or-ge xs x j h.1 (omega arith)

get_or_mono :
    (xs : List ℕ) (i j : ℕ) → IsSorted xs → i ≤ j → j < length xs → get_or xs i 0 ≤ get_or xs j 0
get_or_mono [] i j s le b = omega arith
get_or_mono (x ∷ xs) zero zero s le b = omega arith
get_or_mono (x ∷ xs) zero (suc j) s le b = get_or-ge xs x j s.0 (omega arith)
get_or_mono (x ∷ xs) (suc i) zero s le b = omega arith
get_or_mono (x ∷ xs) (suc i) (suc j) s le b = get_or_mono xs i j s.1 (omega arith) (omega arith)

get_or-bound : (xs : List ℕ) (i b : ℕ) → All (λ y. y < b) xs → 0 < b → get_or xs i 0 < b
get_or-bound [] i b h p = p
get_or-bound (x ∷ xs) zero b h p = h.0
get_or-bound (x ∷ xs) (suc i) b h p = get_or-bound xs i b h.1 p

percentile-bound :
    (rank : ℕ → ℕ → ℕ) (sorted : List ℕ) (p b : ℕ)
    → All (λ y. y < b) sorted
    → 0 < b
    → calculate_percentile rank sorted p < b
unfolding calculate_percentile
percentile-bound rank [] p b h pos = pos
percentile-bound rank (x ∷ xs) p b h pos = get_or-bound (x ∷ xs) (rank p (length xs)) b h pos

-- On sorted values a higher percentile, up to 100, is no lower.
pub percentile_mono :
    (rank : ℕ → ℕ → ℕ) (sorted : List ℕ) (p q : ℕ)
    → IsRank rank
    → IsSorted sorted
    → p ≤ q
    → q ≤ 100
    → calculate_percentile rank sorted p ≤ calculate_percentile rank sorted q
unfolding calculate_percentile
percentile_mono rank [] p q r s le top = omega arith
percentile_mono rank (x ∷ xs) p q r s le top =
    get_or_mono (x ∷ xs) (rank p (length xs)) (rank q (length xs)) s (r.mono p q (length xs) le)
      (omega (arith, r.bound (length xs), r.mono q 100 (length xs) top))

-- The difference of the 99th and the 50th percentile of sorted 64-bit values does not wrap.
pub spread-exact :
    (rank : ℕ → ℕ → ℕ) (sorted : List ℕ)
    → IsRank rank
    → IsSorted sorted
    → All (λ y. y < 18446744073709551616) sorted
    → calculate_percentile rank sorted 50 + spread rank sorted ≡ calculate_percentile rank sorted 99
spread-exact rank sorted r s h = ground (
  arith,
  percentile_mono rank sorted 50 99 r s (omega arith) (omega arith),
  percentile-bound rank sorted 99 18446744073709551616 h (omega arith),
)

add_all-exact :
    (values : List ℕ) (total : ℕ)
    → total + sum values < 18446744073709551616
    → add_all total values ≡ total + sum values
add_all-exact [] total h = omega arith
add_all-exact (m ∷ values) total h =
    omega (arith, add_all-exact values (uint64 (total + m)) (omega arith))

sum_mono :
    (f g : Result → ℕ) (results : List Result)
    → All (λ r. f r ≤ g r) results
    → sum (map f results) ≤ sum (map g results)
sum_mono f g [] h = omega arith
sum_mono f g (r ∷ results) h = omega (arith, h.0, sum_mono f g results h.1)

pub div_mono : (n a b : ℕ) → a ≤ b → a / suc n ≤ b / suc n
div_mono n a b h = (le-div_iff_mul-le (omega arith)).1 (omega (arith, div-mul-le_self a (suc n)))

-- While the larger totals do not reach 2 ^ 64, a field that no result has above another one has no
-- larger a mean over the runs.
pub mean_mono :
    (f g : Result → ℕ) (results : List Result)
    → All (λ r. f r ≤ g r) results
    → sum (map g results) < 18446744073709551616
    → mean f results ≤ mean g results
unfolding mean
mean_mono f g [] h small = omega arith
mean_mono f g (r ∷ results) h small =
    div_mono (length results) (add_all 0 (map f (r ∷ results))) (add_all 0 (map g (r ∷ results))) (
      omega (
        arith,
        sum_mono f g (r ∷ results) h,
        add_all-exact (map f (r ∷ results)) 0,
        add_all-exact (map g (r ∷ results)) 0,
      ))

totals_of :
    (ms : List (ℕ × RegionType)) (totals counts : List (ℕ × ℕ)) (t : RegionType)
    → find (type_id t) totals < 18446744073709551616
    → find (type_id t) (breakdown ms totals counts).0
      ≡ uint64 (find (type_id t) totals + time_of t ms)
unfolding breakdown
totals_of [] totals counts t small = omega arith
totals_of ((d, u) ∷ ms) totals counts t small = ground (
  arith,
  find-add_to totals (type_id u) d (type_id t),
  totals_of ms (add_to (type_id u) d totals) (add_to (type_id u) 1 counts) t,
)

counts_of :
    (ms : List (ℕ × RegionType)) (totals counts : List (ℕ × ℕ)) (t : RegionType)
    → find (type_id t) counts < 18446744073709551616
    → find (type_id t) (breakdown ms totals counts).1
      ≡ uint64 (find (type_id t) counts + number_of t ms)
unfolding breakdown
counts_of [] totals counts t small = omega arith
counts_of ((d, u) ∷ ms) totals counts t small = ground (
  arith,
  find-add_to counts (type_id u) 1 (type_id t),
  counts_of ms (add_to (type_id u) d totals) (add_to (type_id u) 1 counts) t,
)

-- The breakdown of the summary has, for each region type, the time and the number of the
-- measurements of that type, up to the wrap at 2 ^ 64.
pub breakdown-by_type :
    (ms : List (ℕ × RegionType)) (t : RegionType)
    → (find (type_id t) (breakdown ms [] []).0 ≡ uint64 (time_of t ms))
      × (find (type_id t) (breakdown ms [] []).1 ≡ uint64 (number_of t ms))
breakdown-by_type ms t = (
  omega (arith, totals_of ms [] [] t (omega arith)),
  omega (arith, counts_of ms [] [] t (omega arith)),
)
