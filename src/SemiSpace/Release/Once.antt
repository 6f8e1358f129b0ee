-- ===== src/SemiSpace/Release/Once.antt =====
-- A release finalises and destructs each object once.
use verona_rt_gc_bench.Base.{
  arith, ℕ, ◌+◌, ◌≡◌, refl, Bool, false, List, [], ◌∷◌, ◌++◌, ◌==◌, ◌∈◌, ◌∉◌, Distinct,
  if◌then◌else◌, Bool-cases, inl, inr, subst, eq_of_test,
}
use verona_rt_gc_bench.Object.{Mem}
use verona_rt_gc_bench.SemiSpace.{Region, Event, finalise, destructor, dealloc, from_objects}
use verona_rt_gc_bench.SemiSpace.Release.{
  finaliser_of, destructor_of, for_each, for_all, root_or_none, release_internal,
}

-- How often an event that `is` recognises occurs.
abbrev pub times : (Event → Bool) → List Event → ℕ
times is [] = 0
times is (e ∷ es) = (if is e then 1 else 0) + times is es

abbrev pub is_destructor : ℕ → Event → Bool
is_destructor a (destructor b) = b == a
is_destructor a _ = false

abbrev pub is_finaliser : ℕ → Event → Bool
is_finaliser a (finalise b) = b == a
is_finaliser a _ = false

times-append :
    (is : Event → Bool) (xs ys : List Event) → times is (xs ++ ys) ≡ times is xs + times is ys
times-append is [] ys = omega arith
times-append is (x ∷ xs) ys = omega (arith, times-append is xs ys)

for_each-append :
    (f : ℕ → List Event) (is : Event → Bool) (xs ys : List ℕ)
    → times is (for_each f (xs ++ ys)) ≡ times is (for_each f xs) + times is (for_each f ys)
unfolding for_each
for_each-append f is [] ys = omega arith
for_each-append f is (x ∷ xs) ys = omega (
  arith,
  times-append is (f x) (for_each f (xs ++ ys)),
  times-append is (f x) (for_each f xs),
  for_each-append f is xs ys,
)

-- Events that name their object: none of another object's is recognised.
module _ (f : ℕ → List Event) (is : Event → Bool) (a : ℕ)
    (apart : (b : ℕ) → (b == a) ≡ false → times is (f b) ≡ 0) where
  times-out : (xs : List ℕ) → a ∉ xs → times is (for_each f xs) ≡ 0
  unfolding for_each
  times-out [] h = refl
  times-out (b ∷ xs) h =
      ground (arith, times-append is (f b) (for_each f xs), apart b, times-out xs)

  times-in : (xs : List ℕ) → Distinct xs → a ∈ xs → times is (for_each f xs) ≡ times is (f a)
  unfolding for_each
  times-in [] d h = cc
  times-in (b ∷ xs) d h = elim (Bool-cases (b == a)) [
    | inl e ↦
        let out : a ∉ xs = subst (λ x. x ∉ xs) (eq_of_test b a e) d.0 in
        subst (λ x. times is (for_each f (b ∷ xs)) ≡ times is (f x)) (eq_of_test b a e)
          (omega (arith, times-append is (f b) (for_each f xs), times-out xs out))
    | inr n ↦ ground (arith, times-append is (f b) (for_each f xs), apart b n, times-in xs d.1)
  ]

-- The objects of the region: those of from-space, the large ones, the root.
abbrev pub all_objects : (ℕ → ℕ) → Region → Mem → List ℕ
all_objects up r m = from_objects up r m ++ (r.large_objects ++ root_or_none r)

never :
    (f : ℕ → List Event) (is : Event → Bool)
    → ((b : ℕ) → times is (f b) ≡ 0)
    → (xs : List ℕ) → times is (for_each f xs) ≡ 0
unfolding for_each
never f is h [] = refl
never f is h (b ∷ xs) = omega (arith, times-append is (f b) (for_each f xs), h b, never f is h xs)

for_all-each :
    (f : ℕ → List Event) (is : Event → Bool) (r : Region) (objs : List ℕ)
    → times is (for_all f r objs)
      ≡ times is (for_each f (objs ++ (r.large_objects ++ root_or_none r)))
unfolding for_all
for_all-each f is r objs = omega (
  arith,
  times-append is (for_each f objs) (for_each f r.large_objects ++ for_each f (root_or_none r)),
  times-append is (for_each f r.large_objects) (for_each f (root_or_none r)),
  for_each-append f is objs (r.large_objects ++ root_or_none r),
  for_each-append f is r.large_objects (root_or_none r),
)

-- An event that is recognised in the finalisers or destructors alone is counted there.
release-times :
    (is : Event → Bool) (up : ℕ → ℕ) (r : Region) (m : Mem)
    → ((b : ℕ) → is (dealloc b) ≡ false)
    → times is (release_internal up r m).0
      ≡ times is (for_each (finaliser_of m) (all_objects up r m))
        + times is (for_each (destructor_of m) (all_objects up r m))
unfolding release_internal
release-times is up r m no_dealloc =
    let objs = from_objects up r m in
    let dead = for_each (λ a. dealloc a ∷ []) in
    let last = dealloc r.from_space ∷ dealloc r.to_space ∷ [] in
    ground (
      arith,
      no_dealloc r.from_space,
      no_dealloc r.to_space,
      times-append is (for_all (finaliser_of m) r objs) (
          for_all (destructor_of m) r objs
          ++ (dead r.large_objects ++ (dead (root_or_none r) ++ last))),
      times-append is (for_all (destructor_of m) r objs)
          (dead r.large_objects ++ (dead (root_or_none r) ++ last)),
      times-append is (dead r.large_objects) (dead (root_or_none r) ++ last),
      times-append is (dead (root_or_none r)) last,
      never (λ a. dealloc a ∷ []) is (λ b. rw (no_dealloc b) refl) r.large_objects,
      never (λ a. dealloc a ∷ []) is (λ b. rw (no_dealloc b) refl) (root_or_none r),
      for_all-each (finaliser_of m) is r objs,
      for_all-each (destructor_of m) is r objs,
    )

-- The release runs the finaliser and the destructor of each object of the region once, where it has
-- them, if no object is in two of the region's lists.
pub release-once :
    (up : ℕ → ℕ) (r : Region) (m : Mem) (a : ℕ)
    → Distinct (all_objects up r m)
    → a ∈ all_objects up r m
    → let events = (release_internal up r m).0 in
      (times (is_destructor a) events ≡ (if (m a).has_destructor then 1 else 0))
      × (times (is_finaliser a) events ≡ (if (m a).has_finaliser then 1 else 0))
release-once up r m a d h =
    let xs = all_objects up r m in
    (
      ground (
        arith,
        release-times (is_destructor a) up r m (λ b. refl),
        never (finaliser_of m) (is_destructor a) (λ b. ground arith) xs,
        times-in (destructor_of m) (is_destructor a) a (λ b n. ground arith) xs d h,
      ),
      ground (
        arith,
        release-times (is_finaliser a) up r m (λ b. refl),
        never (destructor_of m) (is_finaliser a) (λ b. ground arith) xs,
        times-in (finaliser_of m) (is_finaliser a) a (λ b n. ground arith) xs d h,
      ),
    )
