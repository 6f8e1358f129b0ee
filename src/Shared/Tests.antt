-- ===== src/Shared/Tests.antt =====
-- Shared objects on concrete runs.
use verona_rt_gc_bench.Base.{◌+◌, ◌≡◌, ◌≤◌, ◌↔◌, refl, arith}
use verona_rt_gc_bench.Shared.{
  System, failed, acquire_strong_from_weak, decref_shared, try_finish, weak_release, init, acquire,
  release, finish, give_up, copy_weak, promote, reacquire, collect, dealloc, Reach, start, later,
  copied, released, exchanged, did_collect, let_go, deallocated, weak_acquired, promoted,
  reacquired,
}
use verona_rt_gc_bench.Shared.Safety.{strong_protects, freed_unused, promotion_iff, users}
use verona_rt_gc_bench.Shared.Settle.{Settles, work, no_leak, unreferenced_freed}

-- A second reference, a weak one, and the release of both strong ones.
abbrev dropped : System
dropped = release (release (copy_weak (acquire init)))

dropped-Reach : Reach dropped
unfolding release decref_shared
dropped-Reach =
    later
      (later
        (later (later start (copied (omega arith) (omega arith)))
          (weak_acquired (omega arith) (omega arith)))
        (released (omega arith)))
      (released (omega arith))

-- The weak reference is promoted before the exchange, which is then lost.
abbrev revived : System
revived = reacquire (finish (promote dropped))

revived-Reach : Reach revived
unfolding release decref_shared finish try_finish promote acquire_strong_from_weak
revived-Reach =
    later
      (later (later dropped-Reach (promoted (omega arith) (omega arith))) (exchanged (omega arith)))
      (reacquired (omega arith))

-- The one reference has been released, and then the object is collected and freed.
abbrev lone : System
lone = release init

lone-Reach : Reach lone
lone-Reach = later start (released (omega arith))

abbrev gone : System
gone = let s = collect (finish lone) in dealloc (give_up (record s { collecting = 0 }))

gone-Reach : Reach gone
unfolding release decref_shared finish try_finish give_up weak_release
gone-Reach =
    later
      (later (later (later lone-Reach (exchanged (omega arith))) (did_collect (omega arith)))
        (let_go (omega arith)))
      (deallocated (omega arith))

strong_protects_example :
    (revived.last ≡ 0) × (revived.collected ≡ 0) × (1 ≤ revived.object.weak_count)
unfolding release decref_shared finish try_finish promote acquire_strong_from_weak
strong_protects_example = strong_protects revived-Reach (omega arith)

freed_unused_example : users gone ≡ 0
unfolding release decref_shared finish try_finish give_up weak_release
freed_unused_example = freed_unused gone-Reach (omega arith)

promotion_iff_example :
    ((acquire_strong_from_weak dropped.object).0 ≡ failed) ↔ (1 ≤ dropped.last + dropped.collected)
promotion_iff_example = promotion_iff dropped-Reach

no_leak_example :
    (gone.collected ≡ 1) × ((gone.weak ≡ 0) → gone.freed ≡ 1) × ((1 ≤ gone.weak) → gone.freed ≡ 0)
unfolding release decref_shared finish try_finish give_up weak_release
no_leak_example = no_leak gone-Reach refl refl

unreferenced_freed_example :
    ((t : System) × Settles lone t × (work t ≡ 0))
    × ((t : System) → Settles lone t → work t ≡ 0 → (t.collected ≡ 1) × (t.freed ≡ 1))
unfolding release decref_shared
unreferenced_freed_example = unreferenced_freed lone-Reach refl
