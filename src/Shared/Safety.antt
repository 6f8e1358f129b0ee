-- ===== src/Shared/Safety.antt =====
-- What the two counts of a shared object protect it from.
use verona_rt_gc_bench.Base.{ℕ, ◌+◌, ◌≡◌, ◌≤◌, ◌↔◌, arith}
use verona_rt_gc_bench.Shared.{System, failed, acquire_strong_from_weak, Reach}
use verona_rt_gc_bench.Shared.Invariant.{live, at_zero, finished, Inv, Reach-Inv}

-- References and threads that may still touch the object.
abbrev pub users : System → ℕ
users s =
    s.strong + s.weak + s.dropping + s.releasing + s.last + s.collecting + s.reacquiring + s.failing

Inv-once : {s : System} → Inv s → (s.collected ≤ 1) × (s.freed ≤ 1) × (s.freed ≤ s.collected)
Inv-once (live b i) = omega (arith, i)
Inv-once (at_zero b i) = omega (arith, i)
Inv-once (finished b i) = ground arith

-- A shared object is collected at most once and freed at most once, and not freed without having
-- been collected.
pub collected_once :
    {s : System} → Reach s → (s.collected ≤ 1) × (s.freed ≤ 1) × (s.freed ≤ s.collected)
collected_once reached = Inv-once (Reach-Inv reached)

Inv-strong :
    {s : System}
    → Inv s
    → 1 ≤ s.strong + s.reacquiring
    → (s.last ≡ 0) × (s.collected ≡ 0) × (1 ≤ s.object.weak_count)
Inv-strong (live b i) h = ground (arith, i)
Inv-strong (at_zero b i) h = absurd (omega (arith, i, h))
Inv-strong (finished b i) h = absurd (omega (arith, i, h))

-- While a thread has a strong reference, no thread is collecting the object or has done so, and it
-- is allocated.
pub strong_protects :
    {s : System}
    → Reach s
    → 1 ≤ s.strong + s.reacquiring
    → (s.last ≡ 0) × (s.collected ≡ 0) × (1 ≤ s.object.weak_count)
strong_protects reached = Inv-strong (Reach-Inv reached)

Inv-freed : {s : System} → Inv s → 1 ≤ s.freeing + s.freed → users s ≡ 0
Inv-freed (live b i) h = absurd (omega (arith, i, h))
Inv-freed (at_zero b i) h = absurd (omega (arith, i, h))
Inv-freed (finished b i) h = ground (arith, i, h)

-- Once the object is freed or is about to be, no reference to it is left and no thread is in one of
-- its operations.
pub freed_unused : {s : System} → Reach s → 1 ≤ s.freeing + s.freed → users s ≡ 0
freed_unused reached = Inv-freed (Reach-Inv reached)

Inv-promotion :
    {s : System}
    → Inv s
    → ((acquire_strong_from_weak s.object).0 ≡ failed) ↔ (1 ≤ s.last + s.collected)
unfolding acquire_strong_from_weak
Inv-promotion (live b i) = ground arith
Inv-promotion (at_zero b i) = ground arith
Inv-promotion (finished b i) = ground arith

-- The promotion of a weak reference fails if and only if some thread has taken the collection over.
pub promotion_iff :
    {s : System}
    → Reach s
    → ((acquire_strong_from_weak s.object).0 ≡ failed) ↔ (1 ≤ s.last + s.collected)
promotion_iff reached = Inv-promotion (Reach-Inv reached)
