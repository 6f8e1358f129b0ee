-- ===== src/Behaviour/Release/Wake.antt =====
-- A writer that has run wakes the readers behind it.
use verona_rt_gc_bench.Base.{
  ℕ, zero, suc, ◌+◌, ◌*◌, ◌%◌, ◌≡◌, ◌≤◌, ◌<◌, refl, ap, ◌∙◌, Bool, true, false, ◌==◌, if◌then◌else◌,
  some, List, [], ◌∷◌, ◌++◌, map, arith, Bool-cases, inl, inr, eq_of_test, length, Distinct, ◌∉◌,
  Returns, returns, ==_self,
}
use verona_rt_gc_bench.Behaviour.Slot.{
  Slot, cown, is_read_only, is_cown_duplicate, is_next_slot_read_only, no_successor_response,
  next_slot, next_behaviour, status_ready, set_read_available_contended,
  set_read_available_uncontended,
}
use verona_rt_gc_bench.Behaviour.Schedule.{Slots, update}
use verona_rt_gc_bench.Behaviour.Cowns.{World, Resolve, resolve, try_write}
use verona_rt_gc_bench.Behaviour.Release.{
  Walk, walk_readers, resolve_readers, finish_walk, wake_readers, release,
}
use verona_rt_gc_bench.ReadRefCount.{add_read, try_add}

-- What stands behind the readers.
pub data End : Type 0 where
  nothing : End
  writer : (behaviour : ℕ) → End

abbrev pub Pointer : ℕ → Type 0
Pointer n = (4 ≤ n) × (n % 4 ≡ 0)

-- The readers' slots a and as, linked, with `end` behind them.
pub data Readers (m : Slots) : (a : ℕ) → List ℕ → End → Type 0 where
  at_end : {a : ℕ} → (m a).status ≡ status_ready → Readers m a [] nothing
  at_writer : {a b : ℕ} → Pointer b → (m a).status ≡ b → Readers m a [] (writer b)
  followed :
      {a n : ℕ} {rest : List ℕ} {end : End}
      → Pointer n
      → (m a).status ≡ n + 1
      → Readers m n rest end
      → Readers m a (n ∷ rest) end

abbrev pub last_of : ℕ → List ℕ → ℕ
last_of a [] = a
last_of a (n ∷ rest) = last_of n rest

abbrev pub is_writer : End → Bool
is_writer nothing = false
is_writer (writer b) = true

-- The slots after the readers have been woken.
abbrev pub woken : Slots → ℕ → End → Slots
woken m last nothing = update m last (set_read_available_uncontended (m last))
woken m last (writer b) = m

ready_test : (s : Slot) → s.status ≡ status_ready → (s.status == status_ready) ≡ true
ready_test s e = ground (arith, e)

pointer_test : (s : Slot) (n : ℕ) → 4 ≤ n → n ≤ s.status → (s.status == status_ready) ≡ false
pointer_test s n h k = ground (arith, h, k)

writer_flag : (s : Slot) (b : ℕ) → Pointer b → s.status ≡ b → is_next_slot_read_only s ≡ false
writer_flag s b p e = ground (arith, p.1, e)

writer-next_behaviour : (s : Slot) (b : ℕ) → Pointer b → s.status ≡ b → next_behaviour s ≡ b
writer-next_behaviour s b p e = omega (arith, p.1, e)

reader_flag : (s : Slot) (n : ℕ) → Pointer n → s.status ≡ n + 1 → is_next_slot_read_only s ≡ true
reader_flag s n p e = ground (arith, p.1, e)

reader-next_slot : (s : Slot) (n : ℕ) → Pointer n → s.status ≡ n + 1 → next_slot s ≡ n
reader-next_slot s n p e = omega (arith, p.1, e)

abbrev walk_of : Slots → Bool → (last count : ℕ) → Walk
walk_of m w last n = record { slots = m; writer_at_end = w; last_slot = last; count = n }

walked :
    (m : Slots) {a : ℕ} {rest : List ℕ} {end : End}
    → Readers m a rest end
    → (fuel n : ℕ) → length rest < fuel
    → walk_readers fuel m a n
      ≡ some (
          walk_of (woken m (last_of a rest) end) (is_writer end) (last_of a rest) (n + length rest))
unfolding walk_readers set_read_available_contended
walked m r zero n h = absurd (omega (arith, h))
walked m (at_end {a} e) (suc fuel) n h = rw (ready_test (m a) e) (
    ap (λ k. some (walk_of (update m a (set_read_available_uncontended (m a))) false a k))
      (omega arith))
walked m (at_writer {a} {b} p e) (suc fuel) n h =
    rw (pointer_test (m a) b p.0 (omega (arith, e)), writer_flag (m a) b p e)
      (ap (λ k. some (walk_of m true a k)) (omega arith))
walked m (followed {a} {n = k} {rest} {end} p e r) (suc fuel) n h =
    rw
      (
        pointer_test (m a) k p.0 (omega (arith, e)),
        reader_flag (m a) k p e,
        reader-next_slot (m a) k p e,
      )
      (walked m r fuel (n + 1) (omega (arith, h))
        ∙ ap (λ j. some (walk_of (woken m (last_of k rest) end) (is_writer end) (last_of k rest) j))
            (omega arith))

-- The slots t are those of m, but for the status of the slot l.
abbrev Same : Slots → Slots → ℕ → Type 0
Same m t l =
    (x : ℕ) → ((t x).behaviour ≡ (m x).behaviour) × ((x == l) ≡ false → (t x).status ≡ (m x).status)

woken-Same : (m : Slots) (l : ℕ) (end : End) → Same m (woken m l end) l
woken-Same m l nothing x = elim (Bool-cases (l == x)) [
  | inl e ↦ rw e (ap (λ y. (m y).behaviour) (eq_of_test l x e), λ k. ground (arith, e, k))
  | inr e ↦ rw e (refl, λ k. refl)
]
woken-Same m l (writer b) x = (refl, λ k. refl)

last_of-∈ : (a : ℕ) (rest : List ℕ) → (x : ℕ) → x ∉ (a ∷ rest) → (x == last_of a rest) ≡ false
last_of-∈ a [] x h = ground (arith, h)
last_of-∈ a (n ∷ rest) x h = last_of-∈ n rest x (ground (arith, h))

abbrev wake : Slots → ℕ → Resolve
wake m a = resolve (m a).behaviour 1 false

resolves :
    (m t : Slots) {a : ℕ} {rest : List ℕ} {end : End}
    → Readers m a rest end
    → Same m t (last_of a rest)
    → Distinct (a ∷ rest)
    → (fuel : ℕ) → length rest < fuel
    → resolve_readers fuel t a (last_of a rest) ≡ map (wake m) (a ∷ rest)
unfolding resolve_readers
resolves m t r same d zero h = absurd (omega (arith, h))
resolves m t (at_end {a} e) same d (suc fuel) h =
    rw (==_self a) (ap (λ b. resolve b 1 false ∷ []) (same a).0)
resolves m t (at_writer {a} p e) same d (suc fuel) h =
    rw (==_self a) (ap (λ b. resolve b 1 false ∷ []) (same a).0)
resolves m t (followed {a} {n} {rest} p e r) same d (suc fuel) h =
    let other = last_of-∈ n rest a d.0 in
    rw (other, reader-next_slot (t a) n p ((same a).1 other ∙ e), (same a).0)
      (ap (λ xs. wake m a ∷ xs) (resolves m t r same d.1 fuel (omega (arith, h))))

abbrev pub next_writer_of : End → ℕ → ℕ
next_writer_of nothing old = old
next_writer_of (writer b) old = b

-- The world after a writer of the cown c has woken the readers a and rest.
pub record Woken (w : World) (c a : ℕ) (rest : List ℕ) (end : End) (t : World) : Type 0 where
  pub resolved : t.resolved ≡ w.resolved ++ map (wake w.slots) (a ∷ rest)
  pub slots : t.slots ≡ woken w.slots (last_of a rest) end
  pub read_ref_count :
      (t.cowns c).read_ref_count ≡ 2 * suc (length rest) + (if is_writer end then 1 else 0)
  pub next_writer : (t.cowns c).next_writer ≡ next_writer_of end (w.cowns c).next_writer
  pub rc : (t.cowns c).rc ≡ (w.cowns c).rc + 1
  pub last_slot : (t.cowns c).last_slot ≡ (w.cowns c).last_slot
  pub others : (d : ℕ) → (c == d) ≡ false → t.cowns d ≡ w.cowns d

counted :
    (n count : ℕ)
    → count ≡ 0
    → n < 72057594037927936
    → (add_read n (add_read 1 count).1).1 ≡ 2 * suc n
unfolding add_read
counted n count e h = omega (arith, e, h)

abbrev started : World → ℕ → World
started w c = record w {
  cowns = λ d.
      if c == d
      then record (w.cowns c) {
        read_ref_count = (add_read 1 (w.cowns c).read_ref_count).1;
        rc = (w.cowns c).rc + 1;
      }
      else w.cowns d;
}

announced :
    (count n : ℕ) → count ≡ 2 * suc n → n < 72057594037927936 → (try_write count).1 ≡ 2 * suc n + 1
unfolding try_write try_add
announced count n e h = ground (arith, e, h)

end_behaviour :
    (m : Slots) {a b : ℕ} {rest : List ℕ}
    → Readers m a rest (writer b)
    → next_behaviour (m (last_of a rest)) ≡ b
end_behaviour m (at_writer {a} {b} p e) = writer-next_behaviour (m a) b p e
end_behaviour m (followed p e r) = end_behaviour m r

finish_walk-Woken :
    (w : World) (c fuel : ℕ) {a : ℕ} {rest : List ℕ} {end : End}
    → Readers w.slots a rest end
    → Distinct (a ∷ rest)
    → length rest < fuel
    → (w.cowns c).read_ref_count ≡ 0
    → length rest < 72057594037927936
    → Woken w c a rest end (
        finish_walk fuel c a
          (walk_of
            (woken w.slots (last_of a rest) end)
            (is_writer end)
            (last_of a rest)
            (length rest))
          (started w c))
unfolding finish_walk
finish_walk-Woken w c fuel {a} {rest} {end = nothing} r d h e k =
    let count = counted (length rest) _ e k in
    record {
      resolved =
          ap (λ xs. w.resolved ++ xs)
            (resolves w.slots _ r (woken-Same w.slots _ nothing) d fuel h);
      slots = refl;
      read_ref_count = rw (==_self c) (omega (arith, count));
      next_writer = rw (==_self c) refl;
      rc = rw (==_self c) refl;
      last_slot = rw (==_self c) refl;
      others = λ x n. rw n refl;
    }
finish_walk-Woken w c fuel {a} {rest} {end = writer b} r d h e k =
    let count = announced _ (length rest) (counted (length rest) _ e k) k in
    record {
      resolved =
          ap (λ xs. w.resolved ++ xs)
            (resolves w.slots _ r (woken-Same w.slots _ (writer b)) d fuel h);
      slots = refl;
      read_ref_count = rw (==_self c) count;
      next_writer = rw (==_self c) (end_behaviour w.slots r);
      rc = rw (==_self c) refl;
      last_slot = rw (==_self c) refl;
      others = λ x n. rw n refl;
    }

-- A writer's slot that is followed by the readers a and rest, and is no duplicate.
pub record Followed (w : World) (s a : ℕ) (rest : List ℕ) (end : End) : Type 0 where
  pub duplicate : is_cown_duplicate (w.slots s) ≡ false
  pub writes : is_read_only (w.slots s) ≡ false
  pub pointer : Pointer a
  pub status : (w.slots s).status ≡ a + 1
  pub readers : Readers w.slots a rest end
  pub distinct : Distinct (a ∷ rest)
  pub no_readers : (w.cowns (cown (w.slots s))).read_ref_count ≡ 0

wake_readers-Woken :
    (fuel : ℕ) (w : World) (s a : ℕ) (rest : List ℕ) (end : End)
    → Followed w s a rest end
    → length rest < 72057594037927936
    → length rest < fuel
    → Returns (Woken w (cown (w.slots s)) a rest end) (wake_readers fuel s w)
unfolding wake_readers
wake_readers-Woken fuel w s a rest end f k h =
    let zero_add : 0 + length rest ≡ length rest = omega arith in
    rw
      (
        reader-next_slot (w.slots s) a f.pointer f.status,
        walked w.slots f.readers fuel 0 h,
        zero_add,
      )
      (returns (finish_walk-Woken w (cown (w.slots s)) fuel f.readers f.distinct h f.no_readers k))

-- A writer that has run and is followed by at most 2 ^ 56 readers, with no reader counted on the
-- cown and its slot no duplicate: its release ends within fuel for the number of the readers. It
-- resolves the behaviour of each of them by one, in order and of no other; the cown counts them
-- all, with the flag of a waiting writer and that writer if one stands behind them; the last one's
-- slot is made available for readers if nothing does; the cown has one more reference, and its
-- last slot and the other cowns are as they were.
pub release-Woken :
    (fuel : ℕ) (w : World) (s a : ℕ) (rest : List ℕ) (end : End)
    → Followed w s a rest end
    → length rest < 72057594037927936
    → length rest < fuel
    → Returns (Woken w (cown (w.slots s)) a rest end) (release fuel s w)
unfolding release
release-Woken fuel w s a rest end f k h =
    let answered : no_successor_response (w.slots s) ≡ false =
      ground (arith, f.status, f.pointer.0) in
    rw (f.duplicate, answered, f.writes, reader_flag (w.slots s) a f.pointer f.status)
      (wake_readers-Woken fuel w s a rest end f k h)
