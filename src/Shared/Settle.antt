-- ===== src/Shared/Settle.antt =====
-- The threads finish their operations, and an object without references is freed.
use verona_rt_gc_bench.Base.{
  ℕ, zero, suc, ◌+◌, ◌-◌, ◌*◌, ◌≡◌, ◌≤◌, ◌<◌, ◌⊎◌, inl, inr, refl, ◌==◌, arith, Bool-cases,
}
use verona_rt_gc_bench.Shared.{
  System, zero_rc, Step, Reach, later, finish, give_up, collect, dealloc, reacquire, undo,
  try_finish, weak_release, exchanged, lost, did_collect, let_go, deallocated, reacquired, undone,
}
use verona_rt_gc_bench.Shared.Invariant.{live, at_zero, finished, Inv, Reach-Inv}

-- A step by a thread that is in an operation.
pub data Settle (s : System) : System → Type 0 where
  exchanging : 1 ≤ s.dropping → Settle s (finish s)
  losing : 1 ≤ s.releasing → Settle s (give_up (record s { releasing = s.releasing - 1 }))
  do_collect : 1 ≤ s.last → Settle s (collect s)
  letting_go : 1 ≤ s.collecting → Settle s (give_up (record s { collecting = s.collecting - 1 }))
  freeing : 1 ≤ s.freeing → Settle s (dealloc s)
  reacquiring : 1 ≤ s.reacquiring → Settle s (reacquire s)
  undoing : 1 ≤ s.failing → Settle s (undo s)

pub Settle-Step : {s t : System} → Settle s t → Step s t
Settle-Step (exchanging h) = exchanged h
Settle-Step (losing h) = lost h
Settle-Step (do_collect h) = did_collect h
Settle-Step (letting_go h) = let_go h
Settle-Step (freeing h) = deallocated h
Settle-Step (reacquiring h) = reacquired h
Settle-Step (undoing h) = undone h

-- How many steps the threads in operations have before them, at most.
abbrev pub work : System → ℕ
work s =
    5 * s.dropping
    + 4 * s.last
    + 3 * s.collecting
    + 2 * s.releasing
    + s.reacquiring
    + s.failing
    + s.freeing

work-give_up : (s : System) → work (give_up s) ≤ work s + 1
unfolding give_up weak_release
work-give_up s = elim (Bool-cases (s.object.weak_count == 1)) [
  | inl e ↦ rw e (omega arith)
  | inr n ↦ rw n (omega arith)
]

work-finish : (s : System) → 1 ≤ s.dropping → work (finish s) < work s
unfolding finish try_finish
work-finish s h = elim (Bool-cases (s.object.rc == zero_rc)) [
  | inl e ↦ rw e (omega (arith, h))
  | inr n ↦ rw n (omega (arith, h))
]

-- However the threads are scheduled, they finish their operations: each step of a thread in an
-- operation leaves less work.
pub Settle-work : {s t : System} → Settle s t → work t < work s
Settle-work {s} (exchanging h) = work-finish s h
Settle-work {s} (losing h) =
    omega (arith, h, work-give_up (record s { releasing = s.releasing - 1 }))
Settle-work {s} (do_collect h) = omega (arith, h)
Settle-work {s} (letting_go h) =
    omega (arith, h, work-give_up (record s { collecting = s.collecting - 1 }))
Settle-work {s} (freeing h) = omega (arith, h)
Settle-work {s} (reacquiring h) = omega (arith, h)
Settle-work {s} (undoing h) = omega (arith, h)

positive : (n : ℕ) → (n ≡ 0) ⊎ (1 ≤ n)
positive zero = inl refl
positive (suc n) = inr (omega arith)

-- No thread in an operation waits for another one.
pub next-Settle : (s : System) → 1 ≤ work s → (t : System) × Settle s t
next-Settle s h = elim (positive s.dropping) [
  | inr d ↦ (_, exchanging d)
  | inl d ↦ elim (positive s.last) [
    | inr l ↦ (_, do_collect l)
    | inl l ↦ elim (positive s.collecting) [
      | inr c ↦ (_, letting_go c)
      | inl c ↦ elim (positive s.releasing) [
        | inr e ↦ (_, losing e)
        | inl e ↦ elim (positive s.reacquiring) [
          | inr q ↦ (_, reacquiring q)
          | inl q ↦ elim (positive s.failing) [
            | inr f ↦ (_, undoing f)
            | inl f ↦ (_, freeing (omega (arith, h, d, l, c, e, q, f)))
          ]
        ]
      ]
    ]
  ]
]

pub data Settles : System → System → Type 0 where
  rest : {s : System} → Settles s s
  more : {s t u : System} → Settle s t → Settles t u → Settles s u

pub Reach-Settles : {s t : System} → Reach s → Settles s t → Reach t
Reach-Settles reached rest = reached
Reach-Settles reached (more step steps) = Reach-Settles (later reached (Settle-Step step)) steps

settle_all : (n : ℕ) (s : System) → work s ≤ n → (t : System) × Settles s t × (work t ≡ 0)
settle_all zero s h = (s, rest, omega (arith, h))
settle_all (suc n) s h = elim (positive (work s)) [
  | inl z ↦ (s, rest, z)
  | inr p ↦
      let (t, step) = next-Settle s p in
      let (u, steps, done) = settle_all n t (omega (arith, h, Settle-work step)) in
      (u, more step steps, done)
]

Inv-rest :
    {s : System}
    → Inv s
    → work s ≡ 0
    → s.strong ≡ 0
    → (s.collected ≡ 1) × ((s.weak ≡ 0) → s.freed ≡ 1) × ((1 ≤ s.weak) → s.freed ≡ 0)
Inv-rest (live b i) w h = absurd (omega (arith, i, w, h))
Inv-rest (at_zero b i) w h = absurd (omega (arith, i, w, h))
Inv-rest (finished b i) w h = ground (arith, i, w, h)

-- When no thread is in an operation and there is no strong reference, the object has been collected,
-- and it has been freed if and only if there is no weak reference.
pub no_leak :
    {s : System}
    → Reach s
    → work s ≡ 0
    → s.strong ≡ 0
    → (s.collected ≡ 1) × ((s.weak ≡ 0) → s.freed ≡ 1) × ((1 ≤ s.weak) → s.freed ≡ 0)
no_leak reached = Inv-rest (Reach-Inv reached)

-- The references that threads have, or get at the end of an operation.
abbrev pub held : System → ℕ
held s = s.strong + s.weak + s.reacquiring + s.failing

held-give_up : (s : System) → held (give_up s) ≡ held s
unfolding give_up weak_release
held-give_up s = elim (Bool-cases (s.object.weak_count == 1)) [
  | inl e ↦ rw e refl
  | inr n ↦ rw n refl
]

held-finish : (s : System) → held (finish s) ≡ held s
unfolding finish try_finish
held-finish s = elim (Bool-cases (s.object.rc == zero_rc)) [ inl e ↦ rw e refl | inr n ↦ rw n refl ]

Settle-held : {s t : System} → Settle s t → held s ≡ 0 → held t ≡ 0
Settle-held {s} (exchanging h) z = omega (arith, z, held-finish s)
Settle-held {s} (losing h) z =
    omega (arith, z, held-give_up (record s { releasing = s.releasing - 1 }))
Settle-held {s} (do_collect h) z = omega (arith, z)
Settle-held {s} (letting_go h) z =
    omega (arith, z, held-give_up (record s { collecting = s.collecting - 1 }))
Settle-held {s} (freeing h) z = omega (arith, z)
Settle-held {s} (reacquiring h) z = absurd (omega (arith, z, h))
Settle-held {s} (undoing h) z = absurd (omega (arith, z, h))

Settles-held : {s t : System} → Settles s t → held s ≡ 0 → held t ≡ 0
Settles-held rest z = z
Settles-held (more step steps) z = Settles-held steps (Settle-held step z)

-- Once no reference is left, the threads can finish their operations, and whenever they have, the
-- object has been collected once and freed once.
pub unreferenced_freed :
    {s : System}
    → Reach s
    → held s ≡ 0
    → ((t : System) × Settles s t × (work t ≡ 0))
      × ((t : System) → Settles s t → work t ≡ 0 → (t.collected ≡ 1) × (t.freed ≡ 1))
unreferenced_freed {s} reached z = (
  settle_all (work s) s (omega arith),
  λ t steps w.
      let none_held = Settles-held steps z in
      let (once, freed, kept) =
        no_leak (Reach-Settles reached steps) w (omega (arith, none_held)) in
      (once, freed (omega (arith, none_held))),
)
