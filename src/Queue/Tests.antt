-- ===== src/Queue/Tests.antt =====
-- A concrete queue, and the theorems at it.
use verona_rt_gc_bench.Base.{[], ◌∷◌, ◌≡◌, refl, Returns}
use verona_rt_gc_bench.Queue.{Queue, link, dequeue}
use verona_rt_gc_bench.Queue.Fifo.{IsQueue, dequeue-IsQueue}

abbrev two : Queue
two = record { first = 3; last = 5; next = link 3 5 (λ a. 0) }

two-IsQueue : IsQueue two (3 ∷ 5 ∷ [])
two-IsQueue = (refl, (refl, ((refl, (refl, tt)), (refl, (refl, refl)))))

dequeue-IsQueue_example : Returns (λ r. (r.0 ≡ 3) × IsQueue r.1 (5 ∷ [])) (dequeue two)
dequeue-IsQueue_example = dequeue-IsQueue two 3 (5 ∷ []) two-IsQueue
