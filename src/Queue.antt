-- ===== src/Queue.antt =====
-- The intrusive queue: src/rt/ds/queue.h. `next` holds the links of the elements, and 0 is null. The
-- dequeue of an empty queue fails an assertion, which is `none`, as is a walk that is out of fuel. The
-- assertions that an element is not null and that `first` and `last` are null together are left out.
pub mod Fifo
mod Tests
use verona_rt_gc_bench.Base.{ℕ, zero, suc, Bool, Option, none, some, ◌==◌, if◌then◌else◌}

pub record Queue : Type 0 where
  pub first : ℕ
  pub last : ℕ
  pub next : ℕ → ℕ

abbrev pub is_empty : Queue → Bool
is_empty q = q.first == 0

abbrev pub link : ℕ → ℕ → (ℕ → ℕ) → ℕ → ℕ
link p x next a = if p == a then x else next a

unfoldable pub enqueue : ℕ → Queue → Queue
enqueue x q =
    if is_empty q
    then record q { first = x; last = x }
    else record q { next = link q.last x q.next; last = x }

unfoldable pub dequeue : Queue → Option (ℕ × Queue)
dequeue q =
    if is_empty q
    then none
    else some (
      q.first,
      if q.first == q.last
          then record q { first = 0; last = 0 }
          else record q { first = q.next q.first },
    )

-- `while (p != last)`
abbrev pub length_from : ℕ → Queue → ℕ → ℕ → Option ℕ
length_from zero q p len = none
length_from (suc fuel) q p len =
    let rest = length_from fuel q (q.next p) (suc len) in if p == q.last then some len else rest

unfoldable pub length_of : ℕ → Queue → Option ℕ
length_of fuel q = if is_empty q then some 0 else length_from fuel q q.first 1
