-- ===== src/ReadRefCount/Exclusion.antt =====
-- Readers and the writer exclude each other, and a waiting writer is woken.
use verona_rt_gc_bench.Base.{
  ℕ, zero, suc, ◌+◌, ◌-◌, ◌*◌, ◌≡◌, ◌≤◌, ◌<◌, inl, inr, refl, true, false, ltb, ◌==◌, if◌then◌else◌,
  arith, Bool-cases, subst, sym, ◌∙◌,
}
use verona_rt_gc_bench.ReadRefCount.{
  add_read, release_read, try_add, Writer, absent, loaded, clearing, waiting, writing, System,
  max_readers, join, leave, wake, load, announce, Leaving, left, woke, Step, joined, reader, asked,
  announced, cleared, written, Reach, start, later,
}

-- The answers of a first and of a last reader alternate.
abbrev IsOpen : System → Type 0
IsOpen s = s.firsts ≡ s.lasts + (if s.readers + s.handing == 0 then 0 else 1)

-- What the count is, for each state of the writer.
abbrev pub IsCount : Writer → System → Type 0
IsCount absent s = (s.count ≡ 2 * s.readers) × (s.handing ≡ 0)
IsCount loaded s = (s.count ≡ 2 * s.readers) × (s.handing ≡ 0)
IsCount clearing s = (s.count ≡ 1) × (s.readers ≡ 0) × (s.handing ≡ 0)
IsCount waiting s = (s.count ≡ 2 * s.readers + 1) × (s.handing ≡ (if s.readers == 0 then 1 else 0))
IsCount writing s = (s.count ≡ 0) × (s.readers ≡ 0) × (s.handing ≡ 0)

pub data Inv (w : Writer) (s : System) : Type 0 where
  inv : s.writer ≡ w → s.readers < max_readers → IsCount w s → IsOpen s → Inv w s

leave-Inv : (s : System) (w : Writer) → Inv w s → 1 ≤ s.readers → (v : Writer) × Inv v (leave s)
unfolding leave release_read
leave-Inv s absent (inv e b c o) h = (
  absent,
  elim (Bool-cases (ltb 3 s.count)) [
    | inl k ↦ rw k (inv e (omega arith) (ground arith) (ground arith))
    | inr k ↦
        let two : (s.count == 2) ≡ true = ground arith in
        rw (k, two) (inv e (omega arith) (ground arith) (ground arith))
  ],
)
leave-Inv s loaded (inv e b c o) h = (
  loaded,
  elim (Bool-cases (ltb 3 s.count)) [
    | inl k ↦ rw k (inv e (omega arith) (ground arith) (ground arith))
    | inr k ↦
        let two : (s.count == 2) ≡ true = ground arith in
        rw (k, two) (inv e (omega arith) (ground arith) (ground arith))
  ],
)
leave-Inv s clearing (inv e b c o) h = absurd (omega (arith, c, h))
leave-Inv s waiting (inv e b c o) h = (
  waiting,
  elim (Bool-cases (ltb 3 s.count)) [
    | inl k ↦ rw k (inv e (omega arith) (ground arith) (ground arith))
    | inr k ↦
        let two : (s.count == 2) ≡ false = ground arith in
        rw (k, two) (inv e (omega arith) (ground arith) (ground arith))
  ],
)
leave-Inv s writing (inv e b c o) h = absurd (omega (arith, c, h))

wake-Inv : (s : System) (w : Writer) → Inv w s → 1 ≤ s.handing → Inv writing (wake s)
wake-Inv s absent (inv e b c o) h = absurd (omega (arith, c, h))
wake-Inv s loaded (inv e b c o) h = absurd (omega (arith, c, h))
wake-Inv s clearing (inv e b c o) h = absurd (omega (arith, c, h))
wake-Inv s waiting (inv e b c o) h = inv refl b (ground arith) (ground arith)
wake-Inv s writing (inv e b c o) h = absurd (omega (arith, c, h))

-- The steps that only the writer's state allows.
Inv-at : (s : System) (w v : Writer) → Inv w s → s.writer ≡ v → Inv v s
Inv-at s w v (inv e b c o) h = inv h b (subst (λ u. IsCount u s) (sym e ∙ h) c) o

join-Inv :
    (n : ℕ) (s : System)
    → Inv absent s
    → 1 ≤ n
    → s.readers + n < max_readers
    → Inv absent (join n s)
unfolding join add_read
join-Inv n s (inv e b c o) h k = elim (Bool-cases (s.count == 0)) [
  | inl z ↦ rw z (inv e k (ground arith) (ground arith))
  | inr z ↦ rw z (inv e k (ground arith) (ground arith))
]

load-Inv : (s : System) → Inv absent s → (v : Writer) × Inv v (load s)
load-Inv s (inv e b c o) = elim (Bool-cases (s.count == 0)) [
  | inl z ↦ (writing, rw z (inv refl b (ground arith) o))
  | inr z ↦ (loaded, rw z (inv refl b c o))
]

announce-Inv : (s : System) → Inv loaded s → (v : Writer) × Inv v (announce s)
unfolding announce try_add
announce-Inv s (inv e b c o) = elim (Bool-cases (s.count == 0)) [
  | inl z ↦ (clearing, rw z (inv refl b (ground arith) o))
  | inr z ↦ (waiting, rw z (inv refl b (ground arith) o))
]

Step-Inv : {s t : System} → Step s t → (w : Writer) → Inv w s → (v : Writer) × Inv v t
Step-Inv {s} (joined n h k e) w i = (absent, join-Inv n s (Inv-at s w absent i e) h k)
Step-Inv {s} (reader (left h)) w i = leave-Inv s w i h
Step-Inv {s} (reader (woke h)) w i = (writing, wake-Inv s w i h)
Step-Inv {s} (asked e) w i = load-Inv s (Inv-at s w absent i e)
Step-Inv {s} (announced e) w i = announce-Inv s (Inv-at s w loaded i e)
Step-Inv {s} (cleared e) w i = elim (Inv-at s w clearing i e) [
  | inv _ b c o ↦ (writing, inv refl b (ground (arith, c)) o)
]
Step-Inv {s} (written e) w i = elim (Inv-at s w writing i e) [
  | inv _ b c o ↦ (absent, inv refl b (ground (arith, c)) o)
]

pub Reach-Inv : {s : System} → Reach s → (w : Writer) × Inv w s
Reach-Inv start = (absent, inv refl (omega arith) (refl, refl) refl)
Reach-Inv (later reached step) = let (w, i) = Reach-Inv reached in Step-Inv step w i

pub Reach-at : {s : System} (v : Writer) → Reach s → s.writer ≡ v → Inv v s
Reach-at {s} v reached e = let (w, i) = Reach-Inv reached in Inv-at s w v i e

-- While the writer writes, there is no reader, and no thread that is still to wake the writer.
pub writer_alone : {s : System} → Reach s → s.writer ≡ writing → (s.readers ≡ 0) × (s.handing ≡ 0)
writer_alone {s} reached e = elim (Reach-at writing reached e) [ inv _ b c o ↦ (c.1, c.2) ]

handing-case :
    (s : System) (w : Writer)
    → Inv w s
    → 1 ≤ s.handing
    → (s.count ≡ 1) × (s.handing ≡ 1) × (s.writer ≡ waiting)
handing-case s absent (inv e b c o) h = absurd (omega (arith, c, h))
handing-case s loaded (inv e b c o) h = absurd (omega (arith, c, h))
handing-case s clearing (inv e b c o) h = absurd (omega (arith, c, h))
handing-case s waiting (inv e b c o) h = (ground (arith, c, h), ground (arith, c, h), e)
handing-case s writing (inv e b c o) h = absurd (omega (arith, c, h))

-- What the code asserts of the count: it is even where readers are added and where the writer's
-- addition is to come, and it is 1 where the last reader is to wake the writer.
pub assertions :
    {s : System}
    → Reach s
    → ((s.writer ≡ absent) → s.count ≡ 2 * s.readers)
      × ((s.writer ≡ loaded) → s.count ≡ 2 * s.readers)
      × ((1 ≤ s.handing) → (s.count ≡ 1) × (s.handing ≡ 1) × (s.writer ≡ waiting))
assertions {s} reached = (
  λ e. elim (Reach-at absent reached e) [ inv _ b c o ↦ c.0 ],
  λ e. elim (Reach-at loaded reached e) [ inv _ b c o ↦ c.0 ],
  λ h. let (w, i) = Reach-Inv reached in handing-case s w i h,
)

-- Between the answer that a reader is the first and the one that a reader is the last there is
-- exactly the time in which the cown has readers, so that the reference of the first one is released
-- once.
pub firsts_lasts :
    {s : System} → Reach s → s.firsts ≡ s.lasts + (if s.readers + s.handing == 0 then 0 else 1)
firsts_lasts {s} reached = let (w, i) = Reach-Inv reached in elim i [ inv _ b c o ↦ o ]

pub data Leavings : System → System → Type 0 where
  rest : {s : System} → Leavings s s
  more : {s t u : System} → Leaving s t → Leavings t u → Leavings s u

Reach-Leavings : {s t : System} → Reach s → Leavings s t → Reach t
Reach-Leavings reached rest = reached
Reach-Leavings reached (more step steps) = Reach-Leavings (later reached (reader step)) steps

leave-readers : (s : System) → (leave s).readers ≡ s.readers - 1
unfolding leave release_read
leave-readers s = elim (Bool-cases (ltb 3 s.count)) [
  | inl k ↦ rw k refl
  | inr k ↦ elim (Bool-cases (s.count == 2)) [ inl j ↦ rw (k, j) refl | inr j ↦ rw (k, j) refl ]
]

leave-writer : (s : System) → (leave s).writer ≡ s.writer
unfolding leave release_read
leave-writer s = elim (Bool-cases (ltb 3 s.count)) [
  | inl k ↦ rw k refl
  | inr k ↦ elim (Bool-cases (s.count == 2)) [ inl j ↦ rw (k, j) refl | inr j ↦ rw (k, j) refl ]
]

wakes :
    (n : ℕ) (s : System)
    → s.readers ≡ n
    → Reach s
    → s.writer ≡ waiting
    → (t : System) × Leavings s t × (t.writer ≡ writing)
wakes zero s z reached e = elim (Reach-at waiting reached e) [
  | inv _ b c o ↦ (wake s, more (woke (ground (arith, c, z))) rest, refl)
]
wakes (suc n) s z reached e =
    let step : Leaving s (leave s) = left (omega (arith, z)) in
    let (t, steps, done) =
      wakes n (leave s) (omega (arith, z, leave-readers s)) (later reached (reader step))
        (leave-writer s ∙ e) in
    (t, more step steps, done)

-- A writer that waits gets to write once the readers have left: the last one wakes it.
pub waiting_woken :
    {s : System}
    → Reach s
    → s.writer ≡ waiting
    → (t : System) × Leavings s t × (t.writer ≡ writing) × (t.readers ≡ 0)
waiting_woken {s} reached e =
    let (t, steps, done) = wakes s.readers s refl reached e in
    (t, steps, done, (writer_alone (Reach-Leavings reached steps) done).0)
