-- ===== src/TraceRegion/Rings/Swap.antt =====
-- The change of a trace region's root: swap_root_internal of src/rt/region/region_trace.h.
use verona_rt_gc_bench.Base.{
  ℕ, ◌≡◌, inl, inr, refl, Bool, true, false, not, ◌||◌, List, [], ◌∷◌, ◌++◌, arith, ◌==◌, elem, ◌∈◌,
  ◌∉◌, Bool-cases, subst, eq_of_test, ◌∙◌, ap, Distinct, sym, elem-append, All-∈, All-∈_elim,
  ==_self,
}
use verona_rt_gc_bench.Object.{Mem, is_unmarked, is_trivial}
use verona_rt_gc_bench.TraceRegion.{
  Region, State, agree, relink, make_iso, before, after, last_or, rotate, swap_root_internal,
}
use verona_rt_gc_bench.TraceRegion.Collect.Heap.{members, IsRegion}
use verona_rt_gc_bench.TraceRegion.Collect.Rings.{Distinct-parts, Distinct-join, Distinct-swap}
use verona_rt_gc_bench.TraceRegion.Rings.{
  Kind, agree-eq, agree-not, relink-trivial, relink-unmarked,
}

ring_split : (n : ℕ) (ring : List ℕ) → n ∈ ring → ring ≡ before n ring ++ n ∷ after n ring
ring_split n [] i = cc i
ring_split n (p ∷ ring) i = elim (Bool-cases (p == n)) [
  | inl e ↦ rw e (ap (λ x. x ∷ ring) (eq_of_test p n e))
  | inr k ↦ rw k (ap (λ xs. p ∷ xs) (ring_split n ring (ground (arith, i, k))))
]

elem-rotate : (n : ℕ) (ring : List ℕ) → n ∈ ring → (a : ℕ) → elem a (rotate n ring) ≡ elem a ring
elem-rotate n ring i a = ground (
  arith,
  ap (elem a) (ring_split n ring i),
  elem-append a (before n ring) (n ∷ after n ring),
  elem-append a (after n ring) (before n ring),
  elem-append a (after n ring ++ before n ring) (n ∷ []),
)

Distinct-rotate : (n : ℕ) (ring : List ℕ) → n ∈ ring → Distinct ring → Distinct (rotate n ring)
Distinct-rotate n ring i d =
    Distinct-swap (n ∷ []) (after n ring ++ before n ring)
      (Distinct-swap (before n ring) (n ∷ after n ring) (subst Distinct (ring_split n ring i) d))

last_split :
    (o : ℕ) (ring : List ℕ) (n : ℕ) → n ∈ ring → (xs : List ℕ) × (ring ≡ xs ++ last_or o ring ∷ [])
last_split o [] n i = cc i
last_split o (p ∷ []) n i = ([], refl)
last_split o (p ∷ q ∷ ring) n i =
    let (xs, e) = last_split p (q ∷ ring) q (ground (arith, ==_self q)) in
    (p ∷ xs, ap (λ ys. p ∷ ys) e)

clash : (b : Bool) → b ≡ not b → ⊥
clash true e = cc e
clash false e = cc e

flip : (b c : Bool) → b ≡ not c → c ≡ not b
flip b true e = ap not (sym e)
flip b false e = ap not (sym e)

relink-Kind : (m : Mem) (o : ℕ) (b : Bool) (xs : List ℕ) → Kind m b xs → Kind (relink m o) b xs
relink-Kind m o b xs kind = All-∈ _ xs (λ a i. relink-trivial m o a ∙ All-∈_elim _ xs a kind i)

-- A relinked object keeps its kind.
relink-alike :
    (m : Mem) (o n : ℕ) (xs : List ℕ)
    → Kind m (is_trivial (m n)) xs
    → Kind (relink m o) (is_trivial (relink m o n)) xs
relink-alike m o n xs kind =
    subst (λ b. Kind (relink m o) b xs) (sym (relink-trivial m o n)) (relink-Kind m o _ xs kind)

relink-unlike :
    (m : Mem) (o n : ℕ) (xs : List ℕ)
    → Kind m (not (is_trivial (m n))) xs
    → Kind (relink m o) (not (is_trivial (relink m o n))) xs
relink-unlike m o n xs kind =
    subst (λ b. Kind (relink m o) (not b) xs) (sym (relink-trivial m o n))
      (relink-Kind m o _ xs kind)

other_than : (xs : List ℕ) (n a : ℕ) → a ∈ xs → n ∉ xs → (n == a) ≡ false
other_than xs n a j out = elim (Bool-cases (n == a)) [
  | inl e ↦ absurd (ground (arith, j, out, ap (λ z. elem z xs) (eq_of_test n a e)))
  | inr k ↦ k
]

make_iso-trivial : (m : Mem) (o a : ℕ) → is_trivial (make_iso m o a) ≡ is_trivial (m a)
make_iso-trivial m o a = elim (Bool-cases (o == a)) [
  | inl e ↦ rw e (ap (λ z. is_trivial (m z)) (eq_of_test o a e))
  | inr n ↦ rw n refl
]

make_iso-out :
    (m : Mem) (o a : ℕ)
    → (o == a) ≡ false
    → is_unmarked (m a).cls ≡ true
    → is_unmarked (make_iso m o a).cls ≡ true
make_iso-out m o a n u = rw n u

-- A ring with the new root in it, and the other ring.
module _ (r : Region) (m : Mem) (n : ℕ) (ring other : List ℕ) (i : n ∈ ring)
    (d : Distinct (ring ++ other))
    (fresh : (a : ℕ) → a ∈ (ring ++ other) → (n == a) ≡ false → is_unmarked (m a).cls ≡ true)
    (alike : Kind m (is_trivial (m n)) ring) (unlike : Kind m (not (is_trivial (m n))) other) where
  Rerooted : List ℕ → Type 0
  Rerooted ring' =
      IsRegion (record r { primary = ring'; secondary = other }) (make_iso m n) n
      × ((a : ℕ) → elem a (ring' ++ other) ≡ elem a (ring ++ other))

  at_end :
      (ring' xs : List ℕ)
      → ring' ≡ xs ++ n ∷ []
      → Distinct ring'
      → ((a : ℕ) → elem a ring' ≡ elem a ring)
      → Rerooted ring'
  unfolding Rerooted
  at_end ring' xs e d' same =
      let (dr, dother, apart) = Distinct-parts ring other d in
      let ends = Distinct-parts xs (n ∷ []) (subst Distinct e d') in
      let inside : (a : ℕ) → elem a ring' ≡ (elem a xs || (a == n)) =
        λ a. ap (elem a) e ∙ ground (arith, elem-append a xs (n ∷ [])) in
      let kept : (a : ℕ)
          → a ∈ (ring ++ other)
          → (n == a) ≡ false
          → is_unmarked (make_iso m n a).cls ≡ true =
        λ a j k. make_iso-out m n a k (fresh a j k) in
      (
        record {
          inner = xs;
          ring = e;
          distinct = Distinct-join ring' other d' dother (λ a j. apart a (sym (same a) ∙ j));
          root_iso = rw (==_self n) refl;
          fresh_inner = All-∈ _ xs (λ a j.
              kept a (ground (arith, j, inside a, same a, elem-append a ring other))
                (ground (arith, ends.2 a j)));
          fresh_secondary = All-∈ _ other (λ a j.
              kept a (ground (arith, j, elem-append a ring other))
                (other_than other n a j (apart n i)));
          alike = All-∈ _ ring' (λ a j.
              make_iso-trivial m n a
              ∙ (All-∈_elim _ ring a alike (sym (same a) ∙ j) ∙ sym (make_iso-trivial m n n)));
          unlike = All-∈ _ other (λ a j.
              make_iso-trivial m n a
              ∙ (All-∈_elim _ other a unlike j ∙ ap not (sym (make_iso-trivial m n n))));
        },
        λ a. ground (arith, same a, elem-append a ring' other, elem-append a ring other),
      )

  rotated : Rerooted (rotate n ring)
  rotated =
      at_end (rotate n ring) (after n ring ++ before n ring) refl
        (Distinct-rotate n ring i (Distinct-parts ring other d).0) (elem-rotate n ring i)

  unmoved : (xs : List ℕ) → ring ≡ xs ++ n ∷ [] → Rerooted ring
  unmoved xs e = at_end ring xs e (Distinct-parts ring other d).0 (λ a. refl)

-- What the change of the root is to leave: a region with the same objects under the new root.
abbrev pub IsRerooted : State → ℕ → State → Type 0
IsRerooted s n t =
    IsRegion t.region t.mem n × ((a : ℕ) → elem a (members t.region) ≡ elem a (members s.region))

module _ (oroot nroot : ℕ) (s : State) (valid : IsRegion s.region s.mem oroot)
    (inside : nroot ∈ members s.region) where
  others : (a : ℕ) → a ∈ members s.region → (oroot == a) ≡ false → is_unmarked (s.mem a).cls ≡ true
  others a i n = elim (Bool-cases (elem a s.region.secondary)) [
    | inl j ↦ All-∈_elim _ s.region.secondary a valid.fresh_secondary j
    | inr k ↦ All-∈_elim _ valid.inner a valid.fresh_inner (
        ground (
          arith,
          i,
          n,
          k,
          ap (elem a) valid.ring,
          elem-append a valid.inner (oroot ∷ []),
          elem-append a s.region.primary s.region.secondary,
        ))
  ]

  -- The new root stands in the ring of its kind.
  in_primary : is_trivial (s.mem oroot) ≡ is_trivial (s.mem nroot) → nroot ∈ s.region.primary
  in_primary e = elim (Bool-cases (elem nroot s.region.secondary)) [
    | inl j ↦ absurd (clash _ (e ∙ All-∈_elim _ s.region.secondary nroot valid.unlike j))
    | inr k ↦ ground (arith, inside, k, elem-append nroot s.region.primary s.region.secondary)
  ]

  in_secondary :
      is_trivial (s.mem oroot) ≡ not (is_trivial (s.mem nroot)) → nroot ∈ s.region.secondary
  in_secondary e = elim (Bool-cases (elem nroot s.region.primary)) [
    | inl j ↦
        absurd (clash _ (sym (All-∈_elim _ s.region.primary nroot valid.alike j) ∙ flip _ _ e))
    | inr k ↦ ground (arith, inside, k, elem-append nroot s.region.primary s.region.secondary)
  ]

  fresh_elsewhere : (a : ℕ) → a ∈ members s.region → is_unmarked (relink s.mem oroot a).cls ≡ true
  fresh_elsewhere a j = relink-unmarked s.mem oroot a (others a j)

  module _ (e : is_trivial (s.mem oroot) ≡ is_trivial (s.mem nroot)) where
    same-Kind : Kind s.mem (is_trivial (s.mem nroot)) s.region.primary
    same-Kind = subst (λ b. Kind s.mem b s.region.primary) e valid.alike

    other-Kind : Kind s.mem (not (is_trivial (s.mem nroot))) s.region.secondary
    other-Kind = subst (λ b. Kind s.mem (not b) s.region.secondary) e valid.unlike

  module _ (e : is_trivial (s.mem oroot) ≡ not (is_trivial (s.mem nroot))) where
    moved-Kind : Kind s.mem (is_trivial (s.mem nroot)) s.region.secondary
    moved-Kind = subst (λ b. Kind s.mem b s.region.secondary) (sym (flip _ _ e)) valid.unlike

    left-Kind : Kind s.mem (not (is_trivial (s.mem nroot))) s.region.primary
    left-Kind = subst (λ b. Kind s.mem b s.region.primary) e valid.alike

  elem-swap : (a : ℕ) → elem a (s.region.secondary ++ s.region.primary) ≡ elem a (members s.region)
  elem-swap a = ground (
    arith,
    elem-append a s.region.primary s.region.secondary,
    elem-append a s.region.secondary s.region.primary,
  )

  swapped_apart : Distinct (s.region.secondary ++ s.region.primary)
  swapped_apart = Distinct-swap s.region.primary s.region.secondary valid.distinct

  -- The new root is of the old one's kind.
  same_kind-IsRerooted :
      agree (is_trivial (s.mem oroot)) (is_trivial (s.mem nroot)) ≡ true
      → IsRerooted s nroot (swap_root_internal oroot nroot s)
  unfolding swap_root_internal Rerooted
  same_kind-IsRerooted h =
      let e = agree-eq _ _ h in
      rw h (elim (Bool-cases (oroot == nroot)) [
        | inl same ↦ rw same (
            unmoved s.region s.mem nroot s.region.primary s.region.secondary (in_primary e)
              valid.distinct (λ a j k. others a j (ground (arith, k, eq_of_test oroot nroot same)))
              (same-Kind e) (other-Kind e) valid.inner
              (valid.ring ∙ ap (λ z. valid.inner ++ z ∷ []) (eq_of_test oroot nroot same)))
        | inr n ↦ rw n (
            rotated s.region (relink s.mem oroot) nroot s.region.primary s.region.secondary
              (in_primary e) valid.distinct (λ a j k. fresh_elsewhere a j)
              (relink-alike s.mem oroot nroot s.region.primary (same-Kind e))
              (relink-unlike s.mem oroot nroot s.region.secondary (other-Kind e)))
      ])

  -- It is of the other kind, so that the rings change their places.
  module _ (e : is_trivial (s.mem oroot) ≡ not (is_trivial (s.mem nroot))) where
    abbrev moved : Mem
    moved = relink s.mem oroot

    abbrev last : ℕ
    last = last_or oroot s.region.secondary

    alike_moved : Kind moved (is_trivial (moved nroot)) s.region.secondary
    alike_moved = relink-alike s.mem oroot nroot s.region.secondary (moved-Kind e)

    unlike_moved : Kind moved (not (is_trivial (moved nroot))) s.region.primary
    unlike_moved = relink-unlike s.mem oroot nroot s.region.primary (left-Kind e)

    fresh_moved :
        (a : ℕ) → a ∈ (s.region.secondary ++ s.region.primary) → is_unmarked (moved a).cls ≡ true
    fresh_moved a j = fresh_elsewhere a (sym (elem-swap a) ∙ j)

    other_kind-IsRerooted :
        agree (is_trivial (s.mem oroot)) (is_trivial (s.mem nroot)) ≡ false
        → IsRerooted s nroot (swap_root_internal oroot nroot s)
    unfolding swap_root_internal Rerooted
    other_kind-IsRerooted h = rw h (elim (Bool-cases (last == nroot)) [
      | inl same ↦
          let (xs, ends) = last_split oroot s.region.secondary nroot (in_secondary e) in
          let done =
            unmoved s.region moved nroot s.region.secondary s.region.primary (in_secondary e)
              swapped_apart (λ a j k. fresh_moved a j) alike_moved unlike_moved xs
              (ends ∙ ap (λ z. xs ++ z ∷ []) (eq_of_test last nroot same)) in
          rw same (done.0, λ a. done.1 a ∙ elem-swap a)
      | inr n ↦
          let done =
            rotated s.region (relink moved last) nroot s.region.secondary s.region.primary
              (in_secondary e) swapped_apart
              (λ a j k. relink-unmarked moved last a (λ g. fresh_moved a j))
              (relink-alike moved last nroot s.region.secondary alike_moved)
              (relink-unlike moved last nroot s.region.primary unlike_moved) in
          rw n (done.0, λ a. done.1 a ∙ elem-swap a)
    ])

  -- A change of the root to another object of the region leaves a region with the same objects, in
  -- the rings that the new root's kind asks for.
  pub swap_root-IsRerooted : IsRerooted s nroot (swap_root_internal oroot nroot s)
  swap_root-IsRerooted =
      elim (Bool-cases (agree (is_trivial (s.mem oroot)) (is_trivial (s.mem nroot)))) [
        | inl h ↦ same_kind-IsRerooted h
        | inr h ↦ other_kind-IsRerooted (agree-not _ _ h) h
      ]
