-- ===== src/TraceRegion/Collect/Live.antt =====
-- The region after a collection: which objects it has, and in what state.
use mathlib.Core.List.{append-nil}
use verona_rt_gc_bench.Base.{
  ℕ, ◌≡◌, ◌⊎◌, ◌↔◌, inl, inr, refl, Bool, true, false, not, ◌&&◌, List, [], ◌∷◌, ◌++◌, arith, ◌==◌,
  elem, ◌∈◌, ◌∉◌, select, Returns, Returns-bind, Returns-mono, Bool-cases, subst, eq_of_test, ◌∙◌,
  ap, Distinct, sym, elem-append, All, All-∈, All-∈_elim, ==_self,
}
use verona_rt_gc_bench.Object.{Obj, Mem, mark, unmark, is_marked, is_unmarked, is_trivial}
use verona_rt_gc_bench.TraceRegion.{Region}
use verona_rt_gc_bench.TraceRegion.Collect.{Marking, Sweeping, gc}
use verona_rt_gc_bench.TraceRegion.Collect.Heap.{
  members, IsField, IsRegion, IsClosed, Reach, from_root, from_entry, from_object,
}
use verona_rt_gc_bench.TraceRegion.Collect.Mark.{
  Exact, mark_all-Exact, Reach-unmarked, unmarked_of_test, unmarked-marked,
}
use verona_rt_gc_bench.TraceRegion.Collect.Sweep.{live, swept, IsRing}
use verona_rt_gc_bench.TraceRegion.Collect.Outcome.{Outcome, sweep-Outcome}

pub elem-select : (q : ℕ → Bool) (xs : List ℕ) (a : ℕ) → elem a (select q xs) ≡ (elem a xs && q a)
elem-select q [] a = refl
elem-select q (x ∷ xs) a = elim (Bool-cases (a == x)) [
  | inl e ↦ ground (arith, eq_of_test a x e, ap q (eq_of_test a x e), elem-select q xs a)
  | inr n ↦ ground (arith, n, elem-select q xs a)
]

pub select-append :
    (q : ℕ → Bool) (xs ys : List ℕ) → select q (xs ++ ys) ≡ select q xs ++ select q ys
select-append q [] ys = refl
select-append q (x ∷ xs) ys = elim (Bool-cases (q x)) [
  | inl e ↦ rw (e, select-append q xs ys) refl
  | inr n ↦ rw (n, select-append q xs ys) refl
]

pub Distinct-select : (q : ℕ → Bool) (xs : List ℕ) → Distinct xs → Distinct (select q xs)
Distinct-select q [] d = tt
Distinct-select q (x ∷ xs) d = elim (Bool-cases (q x)) [
  | inl e ↦ rw e (ground (arith, d.0, elem-select q xs x), Distinct-select q xs d.1)
  | inr n ↦ rw n (Distinct-select q xs d.1)
]

unmark-mark : (o : Obj) → is_unmarked o.cls ≡ true → unmark (mark o) ≡ o
unmark-mark o u = ap (λ c. record o { cls = c }) (sym (unmarked_of_test o.cls u))

-- What the region of a collection is to be: its members are the root and what was reached, as they
-- were before, in two rings that keep their order.
pub record IsCollected (r : Region) (m₀ : Mem) (root : ℕ) (c : Region × Sweeping) : Type 0 where
  pub valid : IsRegion c.0 c.1.mem root
  pub closed : IsClosed c.0 c.1.mem root
  pub members_iff :
      (a : ℕ) → (a ∈ members c.0) ↔ ((a ∈ members r) × ((a ≡ root) ⊎ Reach r m₀ root a))
  pub kept : (a : ℕ) → a ∈ members c.0 → c.1.mem a ≡ m₀ a
  pub outside : (a : ℕ) → a ∉ members r → c.1.mem a ≡ m₀ a

module _ (r : Region) (m₀ : Mem) (root : ℕ) (valid : IsRegion r m₀ root)
    (closed : IsClosed r m₀ root) where
  root_member : root ∈ members r
  root_member = rw valid.ring (
      ground (
        arith,
        elem-append root valid.inner (root ∷ []),
        elem-append root (valid.inner ++ root ∷ []) r.secondary,
        ==_self root,
      ))

  -- A member is the root, or unmarked.
  member-cases : (a : ℕ) → a ∈ members r → (a ≡ root) ⊎ (is_unmarked (m₀ a).cls ≡ true)
  member-cases a h = elim (Bool-cases (elem a r.secondary)) [
    | inl i ↦ inr (All-∈_elim _ r.secondary a valid.fresh_secondary i)
    | inr n ↦ elim (Bool-cases (elem a valid.inner)) [
      | inl j ↦ inr (All-∈_elim _ valid.inner a valid.fresh_inner j)
      | inr k ↦ inl (
          eq_of_test a root (
            ground (
              arith,
              ap (elem a) valid.ring,
              elem-append a r.primary r.secondary,
              elem-append a valid.inner (root ∷ []),
            )))
    ]
  ]

  member-unmarked : (a : ℕ) → a ∈ members r → is_marked (m₀ a).cls ≡ false
  member-unmarked a h = elim (member-cases a h) [
    | inl x ↦ rw (x, valid.root_iso) refl
    | inr u ↦ rw (unmarked_of_test (m₀ a).cls u) refl
  ]

  module _ (g : Marking) (e : Exact r m₀ root valid closed g) where
    root_same : g.mem root ≡ m₀ root
    root_same = elim (e.same root) [ inl s ↦ s | inr h ↦ cc (ap is_unmarked valid.root_iso, h.1) ]

    reached_live : {a : ℕ} → Reach r m₀ root a → is_unmarked (g.mem a).cls ≡ false
    reached_live {a} reached = elim (Bool-cases (is_unmarked (g.mem a).cls)) [
      | inr n ↦ n
      | inl u ↦ absurd (
          unmarked-marked (g.mem a).cls u
            ((e.marked_iff a (Reach-unmarked r m₀ root valid closed reached)).1 reached))
    ]

    live_reached :
        (a : ℕ)
        → is_unmarked (m₀ a).cls ≡ true
        → is_unmarked (g.mem a).cls ≡ false
        → Reach r m₀ root a
    live_reached a u n = elim (e.same a) [
      | inl s ↦ cc (ap (λ (o : Obj). is_unmarked o.cls) s, u, n)
      | inr (_, _, s) ↦ (e.marked_iff a u).0 (rw s refl)
    ]

    pub live_iff :
        (a : ℕ)
        → a ∈ members r
        → (is_unmarked (g.mem a).cls ≡ false) ↔ ((a ≡ root) ⊎ Reach r m₀ root a)
    live_iff a h = (
      λ n. elim (member-cases a h) [ inl x ↦ inl x | inr u ↦ inr (live_reached a u n) ],
      λ x. elim x [
        | inl y ↦ rw (y, root_same, valid.root_iso) refl
        | inr reached ↦ reached_live reached
      ],
    )

    kept_final :
        (a : ℕ)
        → a ∈ members r
        → is_unmarked (g.mem a).cls ≡ false
        → swept (members r) g.mem a ≡ m₀ a
    kept_final a h n = elim (e.same a) [
      | inl s ↦ rw (s, member-unmarked a h) (ground arith)
      | inr (_, u, s) ↦ rw (s, h) (unmark-mark (m₀ a) u)
    ]

    module _ (c : Region × Sweeping) (o : Outcome r root g c) where
      final : (a : ℕ) → a ∈ members r → is_unmarked (g.mem a).cls ≡ false → c.1.mem a ≡ m₀ a
      final a h n = o.mem a ∙ kept_final a h n

      root_final : c.1.mem root ≡ m₀ root
      root_final = final root root_member ((live_iff root root_member).1 (inl refl))

      members_live : members c.0 ≡ live g.mem (members r)
      members_live = rw (o.primary, o.secondary) (sym (select-append _ r.primary r.secondary))

      member_of :
          (a : ℕ) → elem a (members c.0) ≡ (elem a (members r) && not (is_unmarked (g.mem a).cls))
      member_of a = ap (elem a) members_live ∙ elem-select _ (members r) a

      -- What holds of a part of the region holds of what is left of it.
      part :
          (P : Obj → Type 0) (xs : List ℕ)
          → ((a : ℕ) → a ∈ xs → a ∈ members r)
          → All (λ a. P (m₀ a)) xs
          → All (λ a. P (c.1.mem a)) (live g.mem xs)
      part P xs sub all = All-∈ _ (live g.mem xs) (λ a i.
          let here : a ∈ xs =
            ground (arith, i, elem-select (λ b. not (is_unmarked (g.mem b).cls)) xs a) in
          let n : is_unmarked (g.mem a).cls ≡ false =
            ground (arith, i, elem-select (λ b. not (is_unmarked (g.mem b).cls)) xs a) in
          subst P (sym (final a (sub a here) n)) (All-∈_elim _ xs a all here))

      first_part : (a : ℕ) → a ∈ r.primary → a ∈ members r
      first_part a h = ground (arith, h, elem-append a r.primary r.secondary)

      second_part : (a : ℕ) → a ∈ r.secondary → a ∈ members r
      second_part a h = ground (arith, h, elem-append a r.primary r.secondary)

      inner_part : (a : ℕ) → a ∈ valid.inner → a ∈ members r
      inner_part a h =
          first_part a
            (ground (arith, h, ap (elem a) valid.ring, elem-append a valid.inner (root ∷ [])))

      ring_final : c.0.primary ≡ live g.mem valid.inner ++ root ∷ []
      ring_final =
          rw
            (
              o.primary,
              valid.ring,
              select-append (λ a. not (is_unmarked (g.mem a).cls)) valid.inner (root ∷ []),
              root_same,
              valid.root_iso,
            )
            refl

      final-IsRegion : IsRegion c.0 c.1.mem root
      final-IsRegion = record {
        inner = live g.mem valid.inner;
        ring = ring_final;
        distinct = subst Distinct (sym members_live) (Distinct-select _ (members r) valid.distinct);
        root_iso = ap (λ (x : Obj). x.cls) root_final ∙ valid.root_iso;
        fresh_inner = part (λ x. is_unmarked x.cls ≡ true) valid.inner inner_part valid.fresh_inner;
        fresh_secondary =
            subst (All _) (sym o.secondary)
              (part (λ x. is_unmarked x.cls ≡ true) r.secondary second_part valid.fresh_secondary);
        alike =
            rw (o.primary, root_final)
              (part (λ x. is_trivial x ≡ is_trivial (m₀ root)) r.primary first_part valid.alike);
        unlike =
            rw (o.secondary, root_final)
              (part (λ x. is_trivial x ≡ not (is_trivial (m₀ root))) r.secondary second_part
                valid.unlike);
      }

      outside_final : (a : ℕ) → a ∉ members r → c.1.mem a ≡ m₀ a
      outside_final a h = elim (e.same a) [
        | inl s ↦ o.mem a ∙ rw (s, h) refl
        | inr (i, _, _) ↦ absurd (ground (arith, i, h))
      ]

      unmoved : (f : ℕ) → is_unmarked (m₀ f).cls ≡ false → c.1.mem f ≡ m₀ f
      unmoved f n = elim (Bool-cases (elem f (members r))) [
        | inr out ↦ outside_final f out
        | inl h ↦ elim (member-cases f h) [
          | inl x ↦ subst (λ z. c.1.mem z ≡ m₀ z) (sym x) root_final
          | inr u ↦ absurd (ground (arith, u, n))
        ]
      ]

      field_final :
          (f : ℕ)
          → IsField r m₀ f
          → (is_unmarked (m₀ f).cls ≡ true → Reach r m₀ root f)
          → IsField c.0 c.1.mem f
      field_final f (known, inside) reached = elim (Bool-cases (is_unmarked (m₀ f).cls)) [
        | inl u ↦
            let same = final f (inside u) (reached_live (reached u)) in
            rw same (known, λ v. ground (arith, inside u, reached_live (reached u), member_of f))
        | inr n ↦
            let same : c.1.mem f ≡ m₀ f = unmoved f n in
            rw same (known, λ v. absurd (ground (arith, v, n)))
      ]

      fields_final :
          (fs : List ℕ)
          → All (IsField r m₀) fs
          → ((f : ℕ) → f ∈ fs → is_unmarked (m₀ f).cls ≡ true → Reach r m₀ root f)
          → All (IsField c.0 c.1.mem) fs
      fields_final fs all reached =
          All-∈ _ fs (λ f i. field_final f (All-∈_elim _ fs f all i) (reached f i))

      final-IsClosed : IsClosed c.0 c.1.mem root
      final-IsClosed = record {
        root_fields =
            rw root_final
              (fields_final (m₀ root).fields closed.root_fields (λ f i u. from_root i u));
        entries =
            rw o.entries
              (fields_final r.additional_entry_points closed.entries (λ f i u. from_entry i u));
        fields = λ a i.
            let h : a ∈ members r = ground (arith, i, member_of a) in
            let n : is_unmarked (g.mem a).cls ≡ false = ground (arith, i, member_of a) in
            rw (final a h n) (
              fields_final (m₀ a).fields (closed.fields a h) (λ f j u. elim ((live_iff a h).0 n) [
                | inl x ↦ from_root (subst (λ z. f ∈ (m₀ z).fields) x j) u
                | inr reached ↦ from_object reached j u
              ]));
      }

      pub outcome-IsCollected : IsCollected r m₀ root c
      outcome-IsCollected = record {
        valid = final-IsRegion;
        closed = final-IsClosed;
        members_iff = λ a. (
          λ i.
              let h : a ∈ members r = ground (arith, i, member_of a) in
              (h, (live_iff a h).0 (ground (arith, i, member_of a))),
          λ (h, x). ground (arith, h, (live_iff a h).1 x, member_of a),
        );
        kept = λ a i. final a (ground (arith, i, member_of a)) (ground (arith, i, member_of a));
        outside = outside_final;
      }

    marked-IsRing :
        (ring : List ℕ)
        → ((a : ℕ) → a ∈ ring → (a ∈ members r) × (is_unmarked (m₀ a).cls ≡ true))
        → (last : List ℕ) → IsRing g.mem last
        → IsRing g.mem (ring ++ last)
    marked-IsRing [] sub last h = h
    marked-IsRing (x ∷ ring) sub last h = inl (
      elim (e.same x) [
        | inl s ↦ rw (s, (sub x (ground arith)).1) (ground arith)
        | inr (_, _, s) ↦ rw s refl
      ],
      marked-IsRing ring (λ a i. sub a (ground (arith, i))) last h,
    )

    first-IsRing : IsRing g.mem r.primary
    first-IsRing = rw valid.ring (
        marked-IsRing valid.inner
          (λ a i. (
            ground (
              arith,
              i,
              elem-append a r.primary r.secondary,
              ap (elem a) valid.ring,
              elem-append a valid.inner (root ∷ []),
            ),
            All-∈_elim _ valid.inner a valid.fresh_inner i,
          ))
          (root ∷ []) (inr (ap (λ (x : Obj). x.cls) root_same ∙ valid.root_iso, refl)))

    second-IsRing : IsRing g.mem r.secondary
    second-IsRing = subst (IsRing g.mem) (append-nil r.secondary) (
        marked-IsRing r.secondary
          (λ a i. (
            ground (arith, i, elem-append a r.primary r.secondary),
            All-∈_elim _ r.secondary a valid.fresh_secondary i,
          ))
          [] tt)

  -- What a collection leaves, for a property of the sweep's outcome.
  pub gc-Returns :
      (reports : ℕ → List ℕ) (to_class : ℕ → ℕ) (P : Region × Sweeping → Type 0)
      → ((g : Marking)
          → Exact r m₀ root valid closed g
          → (c : Region × Sweeping) → Outcome r root g c
          → P c)
      → Returns P (gc reports to_class r m₀ root)
  unfolding gc
  gc-Returns reports to_class P use_outcome =
      Returns-bind (mark_all-Exact r m₀ root valid closed) (λ g e.
        Returns-mono
          (sweep-Outcome reports to_class r root g (first-IsRing g e) (second-IsRing g e)
            valid.distinct)
          (λ c o. use_outcome g e c o))
