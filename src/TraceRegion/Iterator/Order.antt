-- ===== src/TraceRegion/Iterator/Order.antt =====
-- What the iterator of a trace region visits.
use verona_rt_gc_bench.Base.{ℕ, suc, List, [], ◌∷◌}

-- `k` more than the length of a ring.
abbrev fuel_for : List ℕ → ℕ → ℕ
fuel_for [] k = k
fuel_for (p ∷ ring) k = suc (fuel_for ring k)
