-- ===== src/Shared/Invariant.antt =====
-- What is kept by every step of the threads that share an object.
use verona_rt_gc_bench.Base.{
  ℕ, ◌+◌, ◌-◌, ◌*◌, ◌≡◌, ◌≤◌, ◌<◌, inl, inr, true, false, leb, ◌==◌, if◌then◌else◌, arith,
  Bool-cases,
}
use verona_rt_gc_bench.Shared.{
  System, load, max_load, zero_rc, done_rc, finished_rc, one_rc, decref_shared, try_finish,
  acquire_strong_from_weak, weak_release, acquire, release, finish, give_up, copy_weak, promote,
  reacquire, collect, dealloc, undo, Step, Reach, start, later, copied, released, exchanged, lost,
  did_collect, let_go, deallocated, weak_acquired, weak_released, promoted, reacquired, undone,
}

-- Nothing has been collected or freed, and the weak count is that of the weak references, of the
-- threads that are to release one, and of `extra` more.
abbrev pub IsUp : ℕ → System → Type 0
IsUp extra s =
    (s.object.rc ≡ zero_rc + one_rc * (s.strong + s.reacquiring))
    × (s.object.weak_count ≡ s.weak + s.dropping + s.releasing + extra)
    × (s.last ≡ 0)
    × (s.collecting ≡ 0)
    × (s.failing ≡ 0)
    × (s.freeing ≡ 0)
    × (s.collected ≡ 0)
    × (s.freed ≡ 0)

-- One weak reference is that of all strong ones.
abbrev pub IsLive : ℕ → System → Type 0
IsLive due s = (1 ≤ s.strong + s.reacquiring) × IsUp (1 + due) s

-- The strong count is zero, and some thread is to find out.
abbrev pub IsZero : ℕ → System → Type 0
IsZero due s = (s.strong + s.reacquiring ≡ 0) × (1 ≤ s.dropping) × IsUp due s

-- One thread has won the exchange: the object is collected once, and freed with the last weak
-- reference.
abbrev pub IsFinished : ℕ → System → Type 0
IsFinished due s =
    (s.strong + s.reacquiring ≡ 0)
    × (finished_rc ≤ s.object.rc)
    × (s.object.rc ≤ finished_rc + one_rc * s.failing)
    × (s.object.weak_count
        ≡ s.weak + s.failing + s.dropping + s.releasing + s.last + s.collecting + due)
    × (s.last + s.collected ≡ 1)
    × (s.collecting ≤ s.collected)
    × (s.freeing + s.freed ≡ (if s.object.weak_count == 0 then 1 else 0))

-- A thread is about to release `due` weak references besides those that its place in an operation
-- tells.
pub data Due (due : ℕ) (s : System) : Type 0 where
  live : load s ≤ max_load → IsLive due s → Due due s
  at_zero : load s ≤ max_load → IsZero due s → Due due s
  finished : load s ≤ max_load → IsFinished due s → Due due s

abbrev pub Inv : System → Type 0
Inv s = Due 0 s

abbrev Keeps : (System → System) → (System → Type 0) → Type 0
Keeps f guard = (s : System) → guard s → Inv s → Inv (f s)

acquire-Inv : Keeps acquire (λ s. (1 ≤ s.strong) × (load s < max_load))
acquire-Inv s h (live b i) = live (omega (arith, h)) (ground arith)
acquire-Inv s h (at_zero b i) = absurd (omega (arith, h, i))
acquire-Inv s h (finished b i) = absurd (omega (arith, h, i))

release-Inv : Keeps release (λ s. 1 ≤ s.strong)
unfolding release decref_shared
release-Inv s h (live b i) = elim (Bool-cases (s.object.rc == done_rc)) [
  | inl e ↦ rw e (at_zero (ground arith) (ground arith))
  | inr n ↦ rw n (live (ground arith) (ground arith))
]
release-Inv s h (at_zero b i) = absurd (omega (arith, h, i))
release-Inv s h (finished b i) = absurd (omega (arith, h, i))

finish-Inv : Keeps finish (λ s. 1 ≤ s.dropping)
unfolding finish try_finish
finish-Inv s h (live b i) =
    let n : (s.object.rc == zero_rc) ≡ false = ground arith in
    rw n (live (ground arith) (ground arith))
finish-Inv s h (at_zero b i) =
    let e : (s.object.rc == zero_rc) ≡ true = ground arith in
    rw e (finished (ground arith) (ground arith))
finish-Inv s h (finished b i) =
    let n : (s.object.rc == zero_rc) ≡ false = ground arith in
    rw n (finished (ground arith) (ground arith))

give_up-Inv : (s : System) → Due 1 s → Inv (give_up s)
unfolding give_up weak_release
give_up-Inv s (live b i) =
    let n : (s.object.weak_count == 1) ≡ false = ground arith in
    rw n (live (ground arith) (ground arith))
give_up-Inv s (at_zero b i) =
    let n : (s.object.weak_count == 1) ≡ false = ground arith in
    rw n (at_zero (ground arith) (ground arith))
give_up-Inv s (finished b i) = elim (Bool-cases (s.object.weak_count == 1)) [
  | inl e ↦ rw e (finished (ground arith) (ground arith))
  | inr n ↦ rw n (finished (ground arith) (ground arith))
]

lost-Due : (s : System) → 1 ≤ s.releasing → Inv s → Due 1 (record s { releasing = s.releasing - 1 })
lost-Due s h (live b i) = live (omega arith) (ground arith)
lost-Due s h (at_zero b i) = at_zero (omega arith) (ground arith)
lost-Due s h (finished b i) = finished (omega arith) (ground arith)

let_go-Due :
    (s : System) → 1 ≤ s.collecting → Inv s → Due 1 (record s { collecting = s.collecting - 1 })
let_go-Due s h (live b i) = absurd (omega (arith, h, i))
let_go-Due s h (at_zero b i) = absurd (omega (arith, h, i))
let_go-Due s h (finished b i) = finished (omega arith) (ground arith)

weak_released-Due : (s : System) → 1 ≤ s.weak → Inv s → Due 1 (record s { weak = s.weak - 1 })
weak_released-Due s h (live b i) = live (omega arith) (ground arith)
weak_released-Due s h (at_zero b i) = at_zero (omega arith) (ground arith)
weak_released-Due s h (finished b i) = finished (omega arith) (ground arith)

copy_weak-Inv : Keeps copy_weak (λ s. (1 ≤ s.strong + s.weak) × (load s < max_load))
copy_weak-Inv s h (live b i) = live (ground arith) (ground arith)
copy_weak-Inv s h (at_zero b i) = at_zero (ground arith) (ground arith)
copy_weak-Inv s h (finished b i) = finished (ground arith) (ground arith)

promote-Inv : Keeps promote (λ s. (1 ≤ s.weak) × (load s < max_load))
unfolding promote acquire_strong_from_weak
promote-Inv s h (live b i) =
    let n : (leb finished_rc s.object.rc) ≡ false = ground arith in
    let k : (s.object.rc == zero_rc) ≡ false = ground arith in
    rw (n, k) (live (ground arith) (ground arith))
promote-Inv s h (at_zero b i) =
    let n : (leb finished_rc s.object.rc) ≡ false = ground arith in
    let k : (s.object.rc == zero_rc) ≡ true = ground arith in
    rw (n, k) (live (ground arith) (ground arith))
promote-Inv s h (finished b i) =
    let n : (leb finished_rc s.object.rc) ≡ true = ground arith in
    rw n (finished (ground arith) (ground arith))

reacquire-Inv : Keeps reacquire (λ s. 1 ≤ s.reacquiring)
reacquire-Inv s h (live b i) = live (ground arith) (ground arith)
reacquire-Inv s h (at_zero b i) = absurd (omega (arith, h, i))
reacquire-Inv s h (finished b i) = absurd (omega (arith, h, i))

collect-Inv : Keeps collect (λ s. 1 ≤ s.last)
collect-Inv s h (live b i) = absurd (omega (arith, h, i))
collect-Inv s h (at_zero b i) = absurd (omega (arith, h, i))
collect-Inv s h (finished b i) = finished (omega arith) (ground arith)

dealloc-Inv : Keeps dealloc (λ s. 1 ≤ s.freeing)
dealloc-Inv s h (live b i) = absurd (omega (arith, h, i))
dealloc-Inv s h (at_zero b i) = absurd (omega (arith, h, i))
dealloc-Inv s h (finished b i) = finished b (ground arith)

undo-Inv : Keeps undo (λ s. 1 ≤ s.failing)
undo-Inv s h (live b i) = absurd (omega (arith, h, i))
undo-Inv s h (at_zero b i) = absurd (omega (arith, h, i))
undo-Inv s h (finished b i) = finished (omega arith) (ground arith)

-- The steps keep the invariant, whichever thread takes them.
pub Step-Inv : {s t : System} → Step s t → Inv s → Inv t
Step-Inv {s} (copied h k) inv = acquire-Inv s (h, k) inv
Step-Inv {s} (released h) inv = release-Inv s h inv
Step-Inv {s} (exchanged h) inv = finish-Inv s h inv
Step-Inv {s} (lost h) inv = give_up-Inv _ (lost-Due s h inv)
Step-Inv {s} (did_collect h) inv = collect-Inv s h inv
Step-Inv {s} (let_go h) inv = give_up-Inv _ (let_go-Due s h inv)
Step-Inv {s} (deallocated h) inv = dealloc-Inv s h inv
Step-Inv {s} (weak_acquired h k) inv = copy_weak-Inv s (h, k) inv
Step-Inv {s} (weak_released h) inv = give_up-Inv _ (weak_released-Due s h inv)
Step-Inv {s} (promoted h k) inv = promote-Inv s (h, k) inv
Step-Inv {s} (reacquired h) inv = reacquire-Inv s h inv
Step-Inv {s} (undone h) inv = undo-Inv s h inv

pub Reach-Inv : {s : System} → Reach s → Inv s
Reach-Inv start = live (omega arith) (ground arith)
Reach-Inv (later reached step) = Step-Inv step (Reach-Inv reached)
