-- ===== src/TraceRegion/Collect/Fates.antt =====
-- What a collection does to each object: its finaliser, its destructor and its memory.
use verona_rt_gc_bench.Base.{ℕ, ◌≡◌, ◌⊎◌, Bool, true, false, List, [], ◌++◌, All}
use verona_rt_gc_bench.Object.{Mem, Event, finalise}
use verona_rt_gc_bench.TraceRegion.{Region}
use verona_rt_gc_bench.TraceRegion.Collect.Heap.{Reach}
use verona_rt_gc_bench.TraceRegion.Collect.Outcome.{Outcome}
use verona_rt_gc_bench.TraceRegion.Collect.History.{history, end_of}

-- What a collection is to do to an object: nothing if it is the root or is reached, and else its
-- whole end, once.
abbrev pub Fate : Region → Mem → ℕ → List Event → ℕ → Type 0
Fate r m root es a =
    ((((a ≡ root) ⊎ Reach r m root a) × (history a es ≡ []))
      ⊎ (¬ ((a ≡ root) ⊎ Reach r m root a) × (history a es ≡ end_of m a)))

abbrev pub is_finalise : Event → Bool
is_finalise (finalise a) = true
is_finalise _ = false

-- The finalisers come first.
pub record FinalisersFirst (es : List Event) : Type 0 where
  pub finalisers : List Event
  pub rest : List Event
  pub parts : es ≡ finalisers ++ rest
  pub are_finalisers : All (λ e. is_finalise e ≡ true) finalisers
  pub no_finalisers : All (λ e. is_finalise e ≡ false) rest
