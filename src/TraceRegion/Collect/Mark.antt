-- ===== src/TraceRegion/Collect/Mark.antt =====
-- The marking ends, and marks exactly what is reached.
use mathlib.Core.List.{reverse, reverse-cons}
use verona_rt_gc_bench.Base.{
  ℕ, zero, suc, ◌+◌, ◌≤◌, ◌≡◌, ◌↔◌, ◌⊎◌, inl, inr, refl, true, false, not, ◌&&◌, List, [], ◌∷◌,
  ◌++◌, arith, some, ◌==◌, elem, ◌∈◌, ◌∉◌, All, All-append, length, length-append, Returns, returns,
  elem-append, Bool-cases, subst, eq_of_test, All-∈, All-∈_elim, ==_self, ◌∙◌, ap, Distinct,
  if◌then◌else◌, sym, Returns-mono,
}
use verona_rt_gc_bench.Object.{
  unmarked, marked, scc_ptr, rc, iso, shared, pending, nonatomic_rc, open_iso, RegionMd, Obj, Mem,
  write, mark, is_marked, is_unmarked,
}
use verona_rt_gc_bench.RememberedSet.{RSet}
use verona_rt_gc_bench.TraceRegion.{Region}
use verona_rt_gc_bench.TraceRegion.Collect.{Marking, mark_class, mark_loop, mark_all, pushes}
use verona_rt_gc_bench.TraceRegion.Collect.Heap.{
  is_known, members, IsField, IsRegion, IsClosed, Reach, from_root, from_entry, from_object,
}

pub unmarked_of_test : (c : RegionMd) → is_unmarked c ≡ true → c ≡ unmarked
unmarked_of_test unmarked h = refl
unmarked_of_test marked h = cc h
unmarked_of_test scc_ptr h = cc h
unmarked_of_test rc h = cc h
unmarked_of_test iso h = cc h
unmarked_of_test pending h = cc h
unmarked_of_test nonatomic_rc h = cc h
unmarked_of_test shared h = cc h
unmarked_of_test open_iso h = cc h

-- What is no unmarked object pushes nothing and writes to no object.
visit_other :
    (c : RegionMd) (p : ℕ) (g : Marking)
    → is_known c ≡ true
    → is_unmarked c ≡ false
    → (rs : RSet) × (mark_class c p g ≡ some ([], record g { rset = rs }))
visit_other unmarked p g k u = cc u
visit_other marked p g k u = (g.rset, refl)
visit_other scc_ptr p g k u = (_, refl)
visit_other rc p g k u = (_, refl)
visit_other iso p g k u = (g.rset, refl)
visit_other pending p g k u = cc k
visit_other nonatomic_rc p g k u = cc k
visit_other shared p g k u = (_, refl)
visit_other open_iso p g k u = cc k

pub unmarked-marked : (c : RegionMd) → is_unmarked c ≡ true → is_marked c ≡ true → ⊥
unmarked-marked unmarked u k = cc k
unmarked-marked marked u k = cc u
unmarked-marked scc_ptr u k = cc u
unmarked-marked rc u k = cc u
unmarked-marked iso u k = cc u
unmarked-marked pending u k = cc u
unmarked-marked nonatomic_rc u k = cc u
unmarked-marked shared u k = cc u
unmarked-marked open_iso u k = cc u

-- A field is done with: it is on the stack, or it leads to no unmarked object.
abbrev Pending : Mem → List ℕ → ℕ → Type 0
Pending m dfs f = (is_unmarked (m f).cls && not (elem f dfs)) ≡ false

-- The fields that objects without a mark would push.
abbrev waiting : Mem → List ℕ → ℕ
waiting m [] = 0
waiting m (a ∷ objs) = (if is_unmarked (m a).cls then length (m a).fields else 0) + waiting m objs

waiting-pushes : (m : Mem) (objs : List ℕ) → waiting m objs ≤ pushes m objs
waiting-pushes m [] = omega arith
waiting-pushes m (a ∷ objs) = ground (arith, waiting-pushes m objs)

waiting-out :
    (m : Mem) (p : ℕ) (o : Obj) (objs : List ℕ)
    → p ∉ objs
    → waiting (write m p o) objs ≡ waiting m objs
waiting-out m p o [] h = refl
waiting-out m p o (a ∷ objs) h = ground (arith, waiting-out m p o objs)

waiting-mark :
    (m : Mem) (p : ℕ) (objs : List ℕ)
    → Distinct objs
    → p ∈ objs
    → is_unmarked (m p).cls ≡ true
    → waiting (write m p (mark (m p))) objs + length (m p).fields ≡ waiting m objs
waiting-mark m p [] d h u = ground arith
waiting-mark m p (a ∷ objs) d h u = elim (Bool-cases (a == p)) [
  | inl e ↦
      let out : p ∉ objs = subst (λ x. x ∉ objs) (eq_of_test a p e) d.0 in
      let same : m a ≡ m p = ap m (eq_of_test a p e) in
      ground (arith, same, waiting-out m p (mark (m p)) objs)
  | inr n ↦ ground (arith, waiting-mark m p objs d.1)
]

elem-reverse : (a : ℕ) (xs : List ℕ) → elem a (reverse xs) ≡ elem a xs
elem-reverse a [] = refl
elem-reverse a (x ∷ xs) =
    rw reverse-cons (ground (arith, elem-reverse a xs, elem-append a (reverse xs) (x ∷ [])))

length-reverse : (xs : List ℕ) → length (reverse xs) ≡ length xs
length-reverse [] = refl
length-reverse (x ∷ xs) =
    rw reverse-cons (omega (arith, length-reverse xs, length-append {0} (reverse xs) (x ∷ [])))

module _ (r : Region) (m₀ : Mem) (root : ℕ) (valid : IsRegion r m₀ root)
    (closed : IsClosed r m₀ root) where
  -- The marks so far are on objects that are reached; what those refer to is marked or on the stack.
  record Inv (dfs : List ℕ) (g : Marking) : Type 0 where
    pub same :
        (a : ℕ)
        → (g.mem a ≡ m₀ a)
          ⊎ ((a ∈ members r) × (is_unmarked (m₀ a).cls ≡ true) × (g.mem a ≡ mark (m₀ a)))
    pub root_done : All (Pending g.mem dfs) (m₀ root).fields
    pub entries_done : All (Pending g.mem dfs) r.additional_entry_points
    pub done :
        (a : ℕ)
        → is_unmarked (m₀ a).cls ≡ true
        → is_marked (g.mem a).cls ≡ true
        → All (Pending g.mem dfs) (m₀ a).fields
    pub reach :
        (a : ℕ) → is_unmarked (m₀ a).cls ≡ true → is_marked (g.mem a).cls ≡ true → Reach r m₀ root a
    pub stack : All (IsField r m₀) dfs
    pub stack_reach : All (λ f. is_unmarked (m₀ f).cls ≡ true → Reach r m₀ root f) dfs

  -- The item on top of the stack, if it is no unmarked object, can go.
  pop-Pending :
      (m : Mem) (p : ℕ) (dfs fs : List ℕ)
      → is_unmarked (m p).cls ≡ false
      → All (Pending m (p ∷ dfs)) fs
      → All (Pending m dfs) fs
  pop-Pending m p dfs [] n h = tt
  pop-Pending m p dfs (f ∷ fs) n h = (ground (arith, h.0), pop-Pending m p dfs fs n h.1)

  push-Pending :
      (m : Mem) (p : ℕ) (o : Obj) (dfs more fs : List ℕ)
      → is_unmarked o.cls ≡ false
      → All (Pending m (p ∷ dfs)) fs
      → All (Pending (write m p o) (more ++ dfs)) fs
  push-Pending m p o dfs more [] n h = tt
  push-Pending m p o dfs more (f ∷ fs) n h =
      (ground (arith, h.0, elem-append f more dfs), push-Pending m p o dfs more fs n h.1)

  stacked-Pending :
      (m : Mem) (dfs all fs : List ℕ)
      → ((f : ℕ) → f ∈ fs → f ∈ all)
      → All (Pending m (reverse all ++ dfs)) fs
  stacked-Pending m dfs all [] h = tt
  stacked-Pending m dfs all (f ∷ fs) h = (
    ground (arith, h f, elem-append f (reverse all) dfs, elem-reverse f all),
    stacked-Pending m dfs all fs (λ a i. h a (ground arith)),
  )

  pop-Inv :
      (p : ℕ) (dfs : List ℕ) (g : Marking) (rs : RSet)
      → is_unmarked (g.mem p).cls ≡ false
      → Inv (p ∷ dfs) g
      → Inv dfs (record g { rset = rs })
  pop-Inv p dfs g rs n inv = record {
    same = inv.same;
    root_done = pop-Pending g.mem p dfs (m₀ root).fields n inv.root_done;
    entries_done = pop-Pending g.mem p dfs r.additional_entry_points n inv.entries_done;
    done = λ a u k. pop-Pending g.mem p dfs (m₀ a).fields n (inv.done a u k);
    reach = inv.reach;
    stack = inv.stack.1;
    stack_reach = inv.stack_reach.1;
  }

  All-reverse {κ} : (P : ℕ → Type κ) (xs : List ℕ) → All P xs → All P (reverse xs)
  All-reverse P [] h = tt
  All-reverse P (x ∷ xs) h =
      rw reverse-cons (All-append P (reverse xs) (x ∷ []) (All-reverse P xs h.1) (h.0, tt))

  -- An object that is unmarked now has not been written to.
  untouched :
      (p : ℕ) (dfs : List ℕ) (g : Marking)
      → is_unmarked (g.mem p).cls ≡ true
      → Inv dfs g
      → g.mem p ≡ m₀ p
  untouched p dfs g u inv = elim (inv.same p) [
    | inl e ↦ e
    | inr h ↦ cc (u, ap (λ o. is_unmarked o.cls) h.2)
  ]

  push-Inv :
      (p : ℕ) (dfs : List ℕ) (g : Marking)
      → is_unmarked (m₀ p).cls ≡ true
      → Inv (p ∷ dfs) g
      → Inv (reverse (m₀ p).fields ++ dfs) (record g { mem = write g.mem p (mark (m₀ p)) })
  push-Inv p dfs g u inv =
      let fields = (m₀ p).fields in
      let m' = write g.mem p (mark (m₀ p)) in
      record {
        same = λ a. elim (Bool-cases (p == a)) [
          | inl e ↦
              subst
                (λ x.
                  (m' x ≡ m₀ x)
                  ⊎ ((x ∈ members r) × (is_unmarked (m₀ x).cls ≡ true) × (m' x ≡ mark (m₀ x))))
                (eq_of_test p a e) (inr (inv.stack.0.1 u, u, rw (==_self p) refl))
          | inr n ↦ rw n (inv.same a)
        ];
        root_done = push-Pending g.mem p (mark (m₀ p)) dfs _ (m₀ root).fields refl inv.root_done;
        entries_done =
            push-Pending g.mem p (mark (m₀ p)) dfs _ r.additional_entry_points refl
              inv.entries_done;
        done = λ a ua k. elim (Bool-cases (p == a)) [
          | inl e ↦
              subst (λ x. All (Pending m' (reverse fields ++ dfs)) (m₀ x).fields) (eq_of_test p a e)
                (stacked-Pending m' dfs fields fields (λ f i. i))
          | inr n ↦
              push-Pending g.mem p (mark (m₀ p)) dfs _ (m₀ a).fields refl
                (inv.done a ua (ground (arith, k, n)))
        ];
        reach = λ a ua k. elim (Bool-cases (p == a)) [
          | inl e ↦ subst (Reach r m₀ root) (eq_of_test p a e) (inv.stack_reach.0 u)
          | inr n ↦ inv.reach a ua (ground (arith, k, n))
        ];
        stack =
            All-append _ (reverse fields) dfs
              (All-reverse _ fields (closed.fields p (inv.stack.0.1 u))) inv.stack.1;
        stack_reach =
            All-append _ (reverse fields) dfs
              (All-reverse _ fields
                (All-∈ _ fields (λ f i uf. from_object (inv.stack_reach.0 u) i uf)))
              inv.stack_reach.1;
      }

  mark_loop-Inv :
      (k : ℕ) (dfs : List ℕ) (g : Marking)
      → Inv dfs g
      → length dfs + waiting g.mem (members r) ≤ k
      → Returns (Inv []) (mark_loop k dfs g)
  unfolding mark_loop
  mark_loop-Inv zero [] g inv fuel = returns inv
  mark_loop-Inv (suc k) [] g inv fuel = returns inv
  mark_loop-Inv zero (p ∷ dfs) g inv fuel = absurd (omega arith)
  mark_loop-Inv (suc k) (p ∷ dfs) g inv fuel = elim (Bool-cases (is_unmarked (g.mem p).cls)) [
    | inr n ↦
        let known : is_known (g.mem p).cls ≡ true = elim (inv.same p) [
          | inl e ↦ rw e inv.stack.0.0
          | inr h ↦ rw h.2 refl
        ] in
        let (rs, e) = visit_other (g.mem p).cls p g known n in
        rw e (mark_loop-Inv k dfs (record g { rset = rs }) (pop-Inv p dfs g rs n inv) (omega arith))
    | inl u ↦
        let fresh = untouched p (p ∷ dfs) g u inv in
        let u₀ : is_unmarked (m₀ p).cls ≡ true = sym (ap (λ o. is_unmarked o.cls) fresh) ∙ u in
        let c : (m₀ p).cls ≡ unmarked = unmarked_of_test _ u₀ in
        let shrinks = waiting-mark g.mem p (members r) valid.distinct (inv.stack.0.1 u₀) u in
        rw (ap (λ o. o.cls) fresh ∙ c, fresh)
          (mark_loop-Inv k (reverse (m₀ p).fields ++ dfs)
            (record g { mem = write g.mem p (mark (m₀ p)) }) (push-Inv p dfs g u₀ inv)
            (omega (
              arith,
              length-append {0} (reverse (m₀ p).fields) dfs,
              length-reverse (m₀ p).fields,
              subst
                  (λ o.
                    waiting (write g.mem p (mark o)) (members r) + length o.fields
                    ≡ waiting g.mem (members r))
                  fresh shrinks,
            )))
  ]

  -- What the marking leaves.
  pub record Exact (g : Marking) : Type 0 where
    pub same :
        (a : ℕ)
        → (g.mem a ≡ m₀ a)
          ⊎ ((a ∈ members r) × (is_unmarked (m₀ a).cls ≡ true) × (g.mem a ≡ mark (m₀ a)))
    pub marked_iff :
        (a : ℕ)
        → is_unmarked (m₀ a).cls ≡ true
        → (is_marked (g.mem a).cls ≡ true) ↔ Reach r m₀ root a

  settled :
      (g : Marking) (f : ℕ)
      → Inv [] g
      → Pending g.mem [] f
      → is_unmarked (m₀ f).cls ≡ true
      → is_marked (g.mem f).cls ≡ true
  settled g f inv h u = elim (inv.same f) [
    | inl e ↦ absurd (ground (arith, h, u, ap (λ o. is_unmarked o.cls) e))
    | inr k ↦ rw k.2 refl
  ]

  pub Reach-unmarked : {a : ℕ} → Reach r m₀ root a → is_unmarked (m₀ a).cls ≡ true
  Reach-unmarked (from_root i u) = u
  Reach-unmarked (from_entry i u) = u
  Reach-unmarked (from_object reached i u) = u

  Reach-marked :
      (g : Marking) → Inv [] g → {a : ℕ} → Reach r m₀ root a → is_marked (g.mem a).cls ≡ true
  Reach-marked g inv (from_root {f} i u) =
      settled g f inv (All-∈_elim _ (m₀ root).fields f inv.root_done i) u
  Reach-marked g inv (from_entry {f} i u) =
      settled g f inv (All-∈_elim _ r.additional_entry_points f inv.entries_done i) u
  Reach-marked g inv (from_object {a} {f} reached i u) =
      let all = inv.done a (Reach-unmarked reached) (Reach-marked g inv reached) in
      settled g f inv (All-∈_elim _ (m₀ a).fields f all i) u

  Inv-Exact : (g : Marking) → Inv [] g → Exact g
  Inv-Exact g inv = record {
    same = inv.same;
    marked_iff = λ a u. (inv.reach a u, Reach-marked g inv);
  }

  entries_stacked :
      (below all fs : List ℕ)
      → ((f : ℕ) → f ∈ fs → f ∈ all)
      → All (Pending m₀ (reverse below ++ reverse all)) fs
  entries_stacked below all [] h = tt
  entries_stacked below all (f ∷ fs) h = (
    ground (arith, h f, elem-append f (reverse below) (reverse all), elem-reverse f all),
    entries_stacked below all fs (λ a i. h a (ground arith)),
  )

  start-Inv :
      Inv
        (reverse (m₀ root).fields ++ reverse r.additional_entry_points)
        (record { mem = m₀; rset = r.rset })
  start-Inv = record {
    same = λ a. inl refl;
    root_done =
        stacked-Pending m₀ (reverse r.additional_entry_points) (m₀ root).fields (m₀ root).fields
          (λ f i. i);
    entries_done =
        entries_stacked (m₀ root).fields r.additional_entry_points r.additional_entry_points
          (λ f i. i);
    done = λ a u k. absurd (unmarked-marked _ u k);
    reach = λ a u k. absurd (unmarked-marked _ u k);
    stack =
        All-append _ (reverse (m₀ root).fields) (reverse r.additional_entry_points)
          (All-reverse _ (m₀ root).fields closed.root_fields)
          (All-reverse _ r.additional_entry_points closed.entries);
    stack_reach =
        All-append _ (reverse (m₀ root).fields) (reverse r.additional_entry_points)
          (All-reverse _ (m₀ root).fields (All-∈ _ (m₀ root).fields (λ f i u. from_root i u)))
          (All-reverse _ r.additional_entry_points
            (All-∈ _ r.additional_entry_points (λ f i u. from_entry i u)));
  }

  -- The marking of a closed region ends without a failed assertion, and has marked, of the unmarked
  -- objects, those that the root or an additional entry point reaches.
  pub mark_all-Exact : Returns Exact (mark_all r m₀ root)
  unfolding mark_all
  mark_all-Exact =
      Returns-mono
        (mark_loop-Inv _ (reverse (m₀ root).fields ++ reverse r.additional_entry_points)
          (record { mem = m₀; rset = r.rset }) start-Inv
          (omega (arith, waiting-pushes m₀ (members r))))
        (λ g inv. Inv-Exact g inv)
