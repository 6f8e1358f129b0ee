-- ===== src/Queue/Fifo.antt =====
-- The queue against the list of its elements.
use verona_rt_gc_bench.Base.{
  ℕ, zero, suc, ◌+◌, ◌≡◌, refl, true, false, List, [], ◌∷◌, ◌++◌, some, arith, ◌==◌, elem, ◌∉◌,
  Distinct, length, Returns, returns, if-either, elem-append, ap, ◌∙◌, ◌≤◌,
}
use verona_rt_gc_bench.Queue.{Queue, is_empty, link, enqueue, dequeue, length_from, length_of}

-- The elements from `p` on are linked one to the next, and `stop` is the last of them.
abbrev pub Linked : (ℕ → ℕ) → ℕ → List ℕ → ℕ → Type 0
Linked next p [] stop = p ≡ stop
Linked next p (x ∷ xs) stop = (next p ≡ x) × (((x == 0) ≡ false) × Linked next x xs stop)

abbrev pub IsQueue : Queue → List ℕ → Type 0
IsQueue q [] = (q.first ≡ 0) × (q.last ≡ 0)
IsQueue q (x ∷ xs) =
    (q.first ≡ x) × (((x == 0) ≡ false) × (Distinct (x ∷ xs) × Linked q.next x xs q.last))

last_in :
    (next : ℕ → ℕ) (xs : List ℕ) (p stop : ℕ) → Linked next p xs stop → elem stop (p ∷ xs) ≡ true
last_in next [] p stop h = ground (arith, h)
last_in next (x ∷ xs) p stop h = ground (arith, last_in next xs x stop h.1.1)

Linked-snoc :
    (next : ℕ → ℕ) (xs : List ℕ) (p stop x : ℕ)
    → Linked next p xs stop
    → Distinct (p ∷ xs)
    → (x == 0) ≡ false
    → Linked (link stop x next) p (xs ++ x ∷ []) x
Linked-snoc next [] p stop x h d n = (ground (arith, h), (n, refl))
Linked-snoc next (y ∷ xs) p stop x h d n = (
  ground (arith, h.0, d.0, last_in next xs y stop h.1.1),
  (h.1.0, Linked-snoc next xs y stop x h.1.1 d.1 n),
)

Distinct-snoc : (xs : List ℕ) (x : ℕ) → Distinct xs → x ∉ xs → Distinct (xs ++ x ∷ [])
Distinct-snoc [] x d h = (refl, tt)
Distinct-snoc (y ∷ xs) x d h =
    (ground (arith, d.0, h, elem-append y xs (x ∷ [])), Distinct-snoc xs x d.1 (ground (arith, h)))

-- enqueue puts an element that is not in the queue behind the others.
pub enqueue-IsQueue :
    (q : Queue) (xs : List ℕ) (x : ℕ)
    → IsQueue q xs
    → (x == 0) ≡ false
    → x ∉ xs
    → IsQueue (enqueue x q) (xs ++ x ∷ [])
unfolding enqueue
enqueue-IsQueue q [] x h n out =
    if-either (λ r. IsQueue r (x ∷ [])) (is_empty q) _ _ (λ e. (refl, (n, ((refl, tt), refl))))
      (λ e. absurd (ground (arith, e, h.0)))
enqueue-IsQueue q (y ∷ ys) x h n out =
    if-either (λ r. IsQueue r (y ∷ ys ++ x ∷ [])) (is_empty q) _ _
      (λ e. absurd (ground (arith, e, h.0, h.1.0)))
      (λ e. (
        h.0,
        (
          h.1.0,
          (
            Distinct-snoc (y ∷ ys) x h.1.1.0 out,
            Linked-snoc q.next ys y q.last x h.1.1.1 h.1.1.0 n,
          ),
        ),
      ))

popped-IsQueue :
    (q : Queue) (x : ℕ) (xs : List ℕ)
    → IsQueue q (x ∷ xs)
    → (q.first == q.last) ≡ false
    → IsQueue (record q { first = q.next q.first }) xs
popped-IsQueue q x [] h n = absurd (ground (arith, n, h.0, h.1.1.1))
popped-IsQueue q x (y ∷ ys) h n =
    (ap q.next h.0 ∙ h.1.1.1.0, (h.1.1.1.1.0, (h.1.1.0.1, h.1.1.1.1.1)))

single-IsQueue :
    (q : Queue) (x : ℕ) (xs : List ℕ)
    → IsQueue q (x ∷ xs)
    → (q.first == q.last) ≡ true
    → IsQueue (record q { first = 0; last = 0 }) xs
single-IsQueue q x [] h n = (refl, refl)
single-IsQueue q x (y ∷ ys) h n =
    absurd (ground (arith, n, h.0, h.1.1.0.0, last_in q.next ys y q.last h.1.1.1.1.1))

-- dequeue of a queue that is not empty returns the element in front and leaves the others in order.
pub dequeue-IsQueue :
    (q : Queue) (x : ℕ) (xs : List ℕ)
    → IsQueue q (x ∷ xs)
    → Returns (λ r. (r.0 ≡ x) × IsQueue r.1 xs) (dequeue q)
unfolding dequeue
dequeue-IsQueue q x xs h =
    if-either (Returns (λ (r : ℕ × Queue). (r.0 ≡ x) × IsQueue r.1 xs)) (is_empty q) _ _
      (λ e. absurd (ground (arith, e, h.0, h.1.0)))
      (λ e. returns (
        h.0,
        if-either (λ r. IsQueue r xs) (q.first == q.last) _ _ (single-IsQueue q x xs h)
            (popped-IsQueue q x xs h),
      ))

length_from-Linked :
    (q : Queue) (xs : List ℕ) (fuel p len : ℕ)
    → Linked q.next p xs q.last
    → Distinct (p ∷ xs)
    → suc (length xs) ≤ fuel
    → length_from fuel q p len ≡ some (len + length xs)
length_from-Linked q xs zero p len h d f = absurd (omega arith)
length_from-Linked q [] (suc fuel) p len h d f = ground (arith, h)
length_from-Linked q (x ∷ xs) (suc fuel) p len h d f =
    let rest =
      ap (λ z. length_from fuel q z (suc len)) h.0
      ∙ length_from-Linked q xs fuel x (suc len) h.1.1 d.1 (omega arith) in
    let apart : (p == q.last) ≡ false = ground (arith, d.0, last_in q.next xs x q.last h.1.1) in
    rw (apart, rest) (ap some (omega arith))

-- With fuel for every element, length_of returns the number of the elements.
pub length_of-IsQueue :
    (q : Queue) (xs : List ℕ) (fuel : ℕ)
    → IsQueue q xs
    → length xs ≤ fuel
    → length_of fuel q ≡ some (length xs)
unfolding length_of
length_of-IsQueue q [] fuel h f = ground (arith, h.0)
length_of-IsQueue q (x ∷ xs) fuel h f =
    if-either (λ o. o ≡ some (suc (length xs))) (is_empty q) _ _
      (λ e. absurd (ground (arith, e, h.0, h.1.0)))
      (λ e.
        ap (λ z. length_from fuel q z 1) h.0
        ∙ length_from-Linked q xs fuel x 1 h.1.1.1 h.1.1.0 f
        ∙ ap some (omega arith))
