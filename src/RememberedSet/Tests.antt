-- ===== src/RememberedSet/Tests.antt =====
-- A set of two entries, one of them marked.
use verona_rt_gc_bench.Base.{◌+◌, ◌≡◌, refl, true, false, [], ◌∷◌, arith, ◌==◌, if◌then◌else◌}
use verona_rt_gc_bench.RememberedSet.{RSet, sweep}
use verona_rt_gc_bench.RememberedSet.Counts.{held, Covers, sweep-balance}

abbrev two : RSet
two = record {
  entries = (5, true) ∷ (7, false) ∷ [];
  count = λ a. if a == 5 then 2 else if a == 7 then 1 else 0;
}

abbrev plain : RSet
plain = record {
  entries = (5, false) ∷ (7, false) ∷ [];
  count = λ a. if a == 5 then 2 else if a == 7 then 1 else 0;
}

two-Covers :
    Covers (λ a. if a == 5 then 2 else if a == 7 then 1 else 0) ((5, true) ∷ (7, false) ∷ [])
two-Covers o = ground arith

swept_two : (sweep two).entries ≡ (5, false) ∷ []
unfolding sweep
swept_two = refl

sweep-balance_example : (sweep two).count 7 + 1 ≡ 1 + held 7 (sweep two).entries
sweep-balance_example = sweep-balance two 7 two-Covers
