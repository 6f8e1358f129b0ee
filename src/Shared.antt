-- ===== src/Shared.antt =====
-- The reference counts of a shared object, under threads that run at once: decref_shared and
-- acquire_strong_from_weak of src/rt/object/object.h, and src/rt/boc/shared.h.
-- An operation is cut where it touches an atomic: each function below does one atomic access and
-- what the thread does of its own after it. `Counts` is the object. `System` adds, for the threads,
-- how many references they have and how many are at which point of an operation; a reference that an
-- operation uses up or uses is with the thread until the operation returns.
pub mod Invariant
pub mod Safety
pub mod Settle
mod Tests
use verona_rt_gc_bench.Base.{
  ℕ, ◌+◌, ◌-◌, ◌*◌, ◌%◌, ◌≤◌, ◌<◌, Bool, true, false, leb, ◌==◌, if◌then◌else◌,
}

-- `rc` is the header: the count above the tag, which takes four bits as objects are aligned to 16.
pub record Counts : Type 0 where
  pub rc : ℕ
  pub weak_count : ℕ

abbrev pub one_rc : ℕ
one_rc = 16

-- `RegionMD::SHARED`: the tag with a count of zero
abbrev pub zero_rc : ℕ
zero_rc = 7

abbrev pub done_rc : ℕ
done_rc = 23

-- The top bit and the tag.
abbrev pub finished_rc : ℕ
finished_rc = 9223372036854775815

abbrev pub fetch_add : ℕ → ℕ → ℕ
fetch_add n k = (n + k) % 18446744073709551616

abbrev pub fetch_sub : ℕ → ℕ → ℕ
fetch_sub n k = (n + 18446744073709551616 - k) % 18446744073709551616

-- `Object::incref`
abbrev pub incref : Counts → Counts
incref o = record o { rc = fetch_add o.rc one_rc }

-- `decref_shared` up to its first return: whether the thread goes on.
unfoldable pub decref_shared : Counts → Bool × Counts
decref_shared o = (o.rc == done_rc, record o { rc = fetch_sub o.rc one_rc })

-- The exchange in `decref_shared`; false is `release_weak`.
unfoldable pub try_finish : Counts → Bool × Counts
try_finish o =
    if o.rc == zero_rc
    then (true, record { rc = finished_rc; weak_count = o.weak_count })
    else (false, o)

-- What the thread is to do after the addition in `acquire_strong_from_weak`.
pub data Promotion : Type 0 where
  failed acquired from_zero : Promotion

unfoldable pub acquire_strong_from_weak : Counts → Promotion × Counts
acquire_strong_from_weak o = (
  if leb finished_rc o.rc then failed else if o.rc == zero_rc then from_zero else acquired,
  record o { rc = fetch_add o.rc one_rc },
)

-- The store after a failure.
abbrev pub reset_rc : Counts → Counts
reset_rc o = record o { rc = finished_rc }

-- Whether this was the last weak reference, and the thread deallocates.
unfoldable pub weak_release : Counts → Bool × Counts
weak_release o = (o.weak_count == 1, record o { weak_count = fetch_sub o.weak_count 1 })

abbrev pub weak_acquire : Counts → Counts
weak_acquire o = record o { weak_count = fetch_add o.weak_count 1 }

pub record System : Type 0 where
  pub object : Counts
  -- References that the threads hold.
  pub strong : ℕ
  pub weak : ℕ
  -- Threads before the exchange of `decref_shared`, and those that have lost it.
  pub dropping : ℕ
  pub releasing : ℕ
  -- Threads before `collect`, and after it.
  pub last : ℕ
  pub collecting : ℕ
  -- Threads in `acquire_strong_from_weak`, before the weak acquisition and before the reset.
  pub reacquiring : ℕ
  pub failing : ℕ
  -- Threads before `dealloc`.
  pub freeing : ℕ
  -- How often the object has been collected and deallocated.
  pub collected : ℕ
  pub freed : ℕ

-- `Shared()`, and the reference that the constructor's caller has.
abbrev pub init : System
init = record {
  object = record { rc = done_rc; weak_count = 1 };
  strong = 1;
  weak = 0;
  dropping = 0;
  releasing = 0;
  last = 0;
  collecting = 0;
  reacquiring = 0;
  failing = 0;
  freeing = 0;
  collected = 0;
  freed = 0;
}

-- References and threads in an operation; a thread that reacquires is to have two references. Each
-- takes up memory, so that there are never 2 ^ 56.
abbrev pub load : System → ℕ
load s =
    s.strong
    + s.weak
    + 2 * s.reacquiring
    + s.failing
    + s.dropping
    + s.releasing
    + s.last
    + s.collecting

abbrev pub max_load : ℕ
max_load = 72057594037927936

-- Any thread that has a strong reference copies it.
abbrev pub acquire : System → System
acquire s = record s { object = incref s.object; strong = s.strong + 1 }

-- `release`, the subtraction.
unfoldable pub release : System → System
release s =
    let (more, o) = decref_shared s.object in
    if more
    then record s { object = o; strong = s.strong - 1; dropping = s.dropping + 1 }
    else record s { object = o; strong = s.strong - 1 }

unfoldable pub finish : System → System
finish s =
    let (won, o) = try_finish s.object in
    if won
    then record s { object = o; dropping = s.dropping - 1; last = s.last + 1 }
    else record s { object = o; dropping = s.dropping - 1; releasing = s.releasing + 1 }

-- `weak_release` by whoever gives the reference up.
unfoldable pub give_up : System → System
give_up s =
    let (none_left, o) = weak_release s.object in
    if none_left then record s { object = o; freeing = s.freeing + 1 } else record s { object = o }

abbrev pub copy_weak : System → System
copy_weak s = record s { object = weak_acquire s.object; weak = s.weak + 1 }

abbrev pub after_promotion : Promotion → Counts → System → System
after_promotion acquired o s = record s { object = o; strong = s.strong + 1 }
after_promotion from_zero o s = record s {
  object = o;
  weak = s.weak - 1;
  reacquiring = s.reacquiring + 1;
}
after_promotion failed o s = record s { object = o; weak = s.weak - 1; failing = s.failing + 1 }

-- `acquire_strong_from_weak`, the addition.
unfoldable pub promote : System → System
promote s = let (p, o) = acquire_strong_from_weak s.object in after_promotion p o s

abbrev pub reacquire : System → System
reacquire s = record s {
  object = weak_acquire s.object;
  reacquiring = s.reacquiring - 1;
  weak = s.weak + 1;
  strong = s.strong + 1;
}

-- `collect`: the finaliser, the release of what the body refers to and the destructor.
abbrev pub collect : System → System
collect s = record s {
  last = s.last - 1;
  collecting = s.collecting + 1;
  collected = s.collected + 1;
}

abbrev pub dealloc : System → System
dealloc s = record s { freeing = s.freeing - 1; freed = s.freed + 1 }

-- A failed promotion ends.
abbrev pub undo : System → System
undo s = record s { object = reset_rc s.object; failing = s.failing - 1; weak = s.weak + 1 }

-- One step of some thread.
pub data Step (s : System) : System → Type 0 where
  copied : 1 ≤ s.strong → load s < max_load → Step s (acquire s)
  released : 1 ≤ s.strong → Step s (release s)
  exchanged : 1 ≤ s.dropping → Step s (finish s)
  lost : 1 ≤ s.releasing → Step s (give_up (record s { releasing = s.releasing - 1 }))
  did_collect : 1 ≤ s.last → Step s (collect s)
  let_go : 1 ≤ s.collecting → Step s (give_up (record s { collecting = s.collecting - 1 }))
  deallocated : 1 ≤ s.freeing → Step s (dealloc s)
  weak_acquired : 1 ≤ s.strong + s.weak → load s < max_load → Step s (copy_weak s)
  weak_released : 1 ≤ s.weak → Step s (give_up (record s { weak = s.weak - 1 }))
  promoted : 1 ≤ s.weak → load s < max_load → Step s (promote s)
  reacquired : 1 ≤ s.reacquiring → Step s (reacquire s)
  undone : 1 ≤ s.failing → Step s (undo s)

-- The states that the threads can bring about.
pub data Reach : System → Type 0 where
  start : Reach init
  later : {s t : System} → Reach s → Step s t → Reach t
