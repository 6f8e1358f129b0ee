-- ===== src/Behaviour/Resolve.antt =====
-- `BehaviourCore::resolve` of src/rt/boc/behaviourcore.h, by any number of threads at once: each call
-- is cut between its load and its subtraction.
use verona_rt_gc_bench.Base.{
  ℕ, suc, ◌+◌, ◌-◌, ◌*◌, ◌%◌, ◌≡◌, ◌≤◌, ◌<◌, ◌⊎◌, refl, ap, ◌==◌, if◌then◌else◌, List, [], ◌∷◌,
  arith, Bool-cases, inl, inr, All, eq_of_test, length,
}

-- `calls` are what the calls that have not begun are to remove, `loaded` those after the load.
-- `scheduled` counts the calls of `Scheduler::schedule`.
pub record Countdown : Type 0 where
  pub exec_count_down : ℕ
  pub calls : List ℕ
  pub loaded : List ℕ
  pub scheduled : ℕ

-- `exec_count_down(count + 1)`
abbrev pub new_behaviour : (count : ℕ) → (calls : List ℕ) → Countdown
new_behaviour count calls = record {
  exec_count_down = count + 1;
  calls = calls;
  loaded = [];
  scheduled = 0;
}

-- The load, and what follows: the thread schedules the behaviour, or goes on to subtract.
unfoldable pub resolve_load : ℕ → (calls : List ℕ) → Countdown → Countdown
resolve_load n rest s =
    if s.exec_count_down == n
    then record s { calls = rest; scheduled = s.scheduled + 1 }
    else record s { calls = rest; loaded = n ∷ s.loaded }

unfoldable pub resolve_fetch_sub : ℕ → (loaded : List ℕ) → Countdown → Countdown
resolve_fetch_sub n rest s = record s {
  exec_count_down = (s.exec_count_down + 18446744073709551616 - n) % 18446744073709551616;
  loaded = rest;
  scheduled = if s.exec_count_down == n then s.scheduled + 1 else s.scheduled;
}

-- One of the calls, and the others.
pub data Pick (n : ℕ) : List ℕ → List ℕ → Type 0 where
  here : {xs : List ℕ} → Pick n (n ∷ xs) xs
  there : {x : ℕ} {xs ys : List ℕ} → Pick n xs ys → Pick n (x ∷ xs) (x ∷ ys)

pub data Step (s : Countdown) : Countdown → Type 0 where
  loads : {n : ℕ} {rest : List ℕ} → Pick n s.calls rest → Step s (resolve_load n rest s)
  subtracts : {n : ℕ} {rest : List ℕ} → Pick n s.loaded rest → Step s (resolve_fetch_sub n rest s)

-- The states after k steps.
pub data Run (s : Countdown) : ℕ → Countdown → Type 0 where
  stay : Run s 0 s
  later : {k : ℕ} {t u : Countdown} → Run s k t → Step t u → Run s (suc k) u

abbrev pub sum : List ℕ → ℕ
sum [] = 0
sum (x ∷ xs) = x + sum xs

abbrev pub Positive : List ℕ → Type 0
Positive xs = All (λ n. 1 ≤ n) xs

-- The steps that are left at most.
abbrev pub work : Countdown → ℕ
work s = 2 * length s.calls + length s.loaded

Pick-sum : {n : ℕ} {xs ys : List ℕ} → Pick n xs ys → sum xs ≡ n + sum ys
Pick-sum here = refl
Pick-sum (there p) = omega (arith, Pick-sum p)

Pick-length : {n : ℕ} {xs ys : List ℕ} → Pick n xs ys → length xs ≡ suc (length ys)
Pick-length here = refl
Pick-length (there p) = ap suc (Pick-length p)

Pick-Positive : {n : ℕ} {xs ys : List ℕ} → Pick n xs ys → Positive xs → (1 ≤ n) × Positive ys
Pick-Positive here h = h
Pick-Positive (there p) h = let k = Pick-Positive p h.1 in (k.0, (h.0, k.1))

length_of_sum : (xs : List ℕ) → Positive xs → length xs ≤ sum xs
length_of_sum [] h = omega arith
length_of_sum (x ∷ xs) h = omega (arith, h.0, length_of_sum xs h.1)

record Inv (s : Countdown) : Type 0 where
  calls_positive : Positive s.calls
  loaded_positive : Positive s.loaded
  bound : s.exec_count_down < 18446744073709551616
  -- Not yet scheduled, and the count is what is left to remove; or all is done.
  phase :
      ((s.scheduled ≡ 0)
        × (s.exec_count_down ≡ sum s.calls + sum s.loaded)
        × (1 ≤ s.exec_count_down))
      ⊎ ((s.scheduled ≡ 1) × (work s ≡ 0))

-- The last call to remove its share.
last_work :
    (n : ℕ) (xs ys : List ℕ)
    → Positive xs
    → Positive ys
    → n ≡ n + sum xs + sum ys
    → 2 * length xs + length ys ≡ 0
last_work n xs ys h k e = omega (arith, e, length_of_sum xs h, length_of_sum ys k)

resolve_load-Inv :
    (s : Countdown) {n : ℕ} {rest : List ℕ}
    → Pick n s.calls rest
    → Inv s
    → Inv (resolve_load n rest s)
unfolding resolve_load
resolve_load-Inv s {n} {rest} p i =
    let (one, positive) = Pick-Positive p i.calls_positive in
    let total = Pick-sum p in
    elim i.phase [
      | inr (e, none_left) ↦ absurd (omega (arith, none_left, Pick-length p))
      | inl (e, left, some_left) ↦ elim (Bool-cases (s.exec_count_down == n)) [
        | inl same ↦ rw same (record {
          calls_positive = positive;
          loaded_positive = i.loaded_positive;
          bound = i.bound;
          phase = inr (
            omega (arith, e),
            last_work n rest s.loaded positive i.loaded_positive
                (omega (arith, eq_of_test _ _ same, left, total)),
          );
        })
        | inr other ↦ rw other (record {
          calls_positive = positive;
          loaded_positive = (one, i.loaded_positive);
          bound = i.bound;
          phase = inl (e, omega (arith, left, total), some_left);
        })
      ]
    ]

resolve_fetch_sub-Inv :
    (s : Countdown) {n : ℕ} {rest : List ℕ}
    → Pick n s.loaded rest
    → Inv s
    → Inv (resolve_fetch_sub n rest s)
unfolding resolve_fetch_sub
resolve_fetch_sub-Inv s {n} {rest} p i =
    let (one, positive) = Pick-Positive p i.loaded_positive in
    let total = Pick-sum p in
    let bound : (s.exec_count_down + 18446744073709551616 - n) % 18446744073709551616
        < 18446744073709551616 =
      omega arith in
    elim i.phase [
      | inr (e, none_left) ↦ absurd (omega (arith, none_left, Pick-length p))
      | inl (e, left, some_left) ↦ elim (Bool-cases (s.exec_count_down == n)) [
        | inl same ↦ rw same (record {
          calls_positive = i.calls_positive;
          loaded_positive = positive;
          bound = bound;
          phase = inr (
            omega (arith, e),
            last_work n s.calls rest i.calls_positive positive
                (omega (arith, eq_of_test _ _ same, left, total)),
          );
        })
        | inr other ↦ rw other (record {
          calls_positive = i.calls_positive;
          loaded_positive = positive;
          bound = bound;
          phase =
              inl (
                e,
                omega (arith, left, total, i.bound),
                ground (arith, other, left, total, i.bound),
              );
        })
      ]
    ]

Step-Inv : {s t : Countdown} → Step s t → Inv s → Inv t
Step-Inv {s} (loads p) i = resolve_load-Inv s p i
Step-Inv {s} (subtracts p) i = resolve_fetch_sub-Inv s p i

Run-Inv : {s t : Countdown} {k : ℕ} → Run s k t → Inv s → Inv t
Run-Inv stay i = i
Run-Inv (later run step) i = Step-Inv step (Run-Inv run i)

sum-length : (xs : List ℕ) → length xs ≡ 0 → sum xs ≡ 0
sum-length [] h = refl
sum-length (x ∷ xs) h = omega (arith, h)

not_zero : {a b c d n : ℕ} → (a ≡ 0 → b ≡ 0) → (c ≡ 0 → d ≡ 0) → n ≡ b + d → 1 ≤ n → 1 ≤ 2 * a + c
not_zero {a} {b} {c} {d} f g e h = elim (Bool-cases (a == 0)) [
  | inr k ↦ ground arith
  | inl k ↦ elim (Bool-cases (c == 0)) [
    | inr l ↦ ground arith
    | inl l ↦ omega (arith, f (eq_of_test a 0 k), g (eq_of_test c 0 l))
  ]
]

module _ (count : ℕ) (calls : List ℕ) (positive : Positive calls) (total : sum calls ≡ count + 1)
    (bound : count + 1 < 18446744073709551616) where
  new_behaviour-Inv : Inv (new_behaviour count calls)
  new_behaviour-Inv = record {
    calls_positive = positive;
    loaded_positive = tt;
    bound = bound;
    phase = inl (refl, omega (arith, total), omega arith);
  }

  -- Calls of resolve, each for at least one, that together remove count + 1 from a new behaviour's
  -- count, schedule the behaviour exactly once: whatever the order of their steps, it has been
  -- scheduled once if no call is left, and not before. The count + 1 is below 2 ^ 64.
  pub resolve-once :
      {k : ℕ} {s : Countdown}
      → Run (new_behaviour count calls) k s
      → s.scheduled ≡ (if work s == 0 then 1 else 0)
  resolve-once {s = s} run = elim (Run-Inv run new_behaviour-Inv).phase [
    | inl (e, left, some_left) ↦
        ground (arith, e, not_zero (sum-length s.calls) (sum-length s.loaded) left some_left)
    | inr (e, w) ↦ ground (arith, e, w)
  ]
