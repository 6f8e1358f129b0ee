-- ===== src/TraceRegion/Rings.antt =====
-- The rings of a trace region: segments that are added, and memories in which they are the same.
pub mod Adding
pub mod Swap
use mathlib.Core.List.{append_assoc, append-nil}
use verona_rt_gc_bench.Base.{
  ℕ, ◌+◌, ◌≡◌, ◌⊎◌, ◌↔◌, inl, inr, refl, Bool, true, false, not, ◌&&◌, ◌||◌, List, [], ◌∷◌, ◌++◌,
  Option, some, none, arith, ◌==◌, elem, ◌∈◌, ◌∉◌, Returns, returns, Bool-cases, subst, eq_of_test,
  ◌∙◌, ap, Distinct, if◌then◌else◌, sym, elem-append, All, All-∈, All-∈_elim, All-append, ==_self,
}
use verona_rt_gc_bench.Object.{RegionMd, unmarked, iso, Obj, Mem, write, is_unmarked, is_trivial}
use verona_rt_gc_bench.TraceRegion.{
  Region, State, agree, relink, make_iso, next_is_trivial, append, append_all, create, alloc,
  merge_internal, merge,
}
use verona_rt_gc_bench.TraceRegion.Collect.Heap.{members, IsRegion}
use verona_rt_gc_bench.TraceRegion.Collect.Rings.{Distinct-parts, Distinct-join, Distinct-swap}

abbrev pub Fresh : Mem → List ℕ → Type 0
Fresh m xs = All (λ a. is_unmarked (m a).cls ≡ true) xs

abbrev pub Kind : Mem → Bool → List ℕ → Type 0
Kind m b xs = All (λ a. is_trivial (m a) ≡ b) xs

pub next_of_ring :
    (t m : Mem)
    → ((a : ℕ) → is_trivial (t a) ≡ is_trivial (m a))
    → (b : Bool) (inner : List ℕ) (root : ℕ) → Kind m b (inner ++ root ∷ [])
    → next_is_trivial t (inner ++ root ∷ []) ≡ b
next_of_ring t m tests b [] root h = tests root ∙ h.0
next_of_ring t m tests b (x ∷ inner) root h = tests x ∙ h.0

agree-eq : (b c : Bool) → agree b c ≡ true → b ≡ c
agree-eq true true h = refl
agree-eq true false h = cc h
agree-eq false true h = cc h
agree-eq false false h = refl

agree-not : (b c : Bool) → agree b c ≡ false → b ≡ not c
agree-not true true h = cc h
agree-not true false h = refl
agree-not false true h = refl
agree-not false false h = cc h

-- The second of three parts comes first.
pub Distinct-move : (xs ys zs : List ℕ) → Distinct (xs ++ (ys ++ zs)) → Distinct (ys ++ (xs ++ zs))
Distinct-move xs ys zs d =
    let (dx, dyz, apart) = Distinct-parts xs (ys ++ zs) d in
    let (dy, dz, apart') = Distinct-parts ys zs dyz in
    Distinct-join ys (xs ++ zs) dy
      (Distinct-join xs zs dx dz (λ a h. ground (arith, apart a h, elem-append a ys zs)))
      (λ a h. ground (arith, h, apart a, apart' a, elem-append a ys zs, elem-append a xs zs))

-- A segment of one kind is added; `t` is the memory that the test reads.
module _ (t m : Mem) (tests : (a : ℕ) → is_trivial (t a) ≡ is_trivial (m a)) (root hd : ℕ)
    (seg : List ℕ) (fresh : Fresh m (hd ∷ seg)) (kind : Kind m (is_trivial (m hd)) (hd ∷ seg)) where
  to_root : (r : Region) → IsRegion r m root → next_is_trivial t r.primary ≡ is_trivial (m root)
  to_root r valid = rw valid.ring (
      next_of_ring t m tests (is_trivial (m root)) valid.inner root
        (subst (Kind m (is_trivial (m root))) valid.ring valid.alike))

  pub append-IsRegion :
      (r : Region)
      → IsRegion r m root
      → Distinct ((hd ∷ seg) ++ members r)
      → IsRegion (append t hd (hd ∷ seg) r) m root
  append-IsRegion r valid d =
      elim (Bool-cases (agree (is_trivial (t hd)) (next_is_trivial t r.primary))) [
        | inl e ↦
            let same : is_trivial (m hd) ≡ is_trivial (m root) =
              sym (tests hd) ∙ (agree-eq _ _ e ∙ to_root r valid) in
            rw e (record {
              inner = (hd ∷ seg) ++ valid.inner;
              ring =
                  ap (λ xs. (hd ∷ seg) ++ xs) valid.ring
                  ∙ sym (append_assoc (hd ∷ seg) valid.inner (root ∷ []));
              distinct = subst Distinct (sym (append_assoc (hd ∷ seg) r.primary r.secondary)) d;
              root_iso = valid.root_iso;
              fresh_inner = All-append _ (hd ∷ seg) valid.inner fresh valid.fresh_inner;
              fresh_secondary = valid.fresh_secondary;
              alike =
                  All-append _ (hd ∷ seg) r.primary (subst (λ b. Kind m b (hd ∷ seg)) same kind)
                    valid.alike;
              unlike = valid.unlike;
            })
        | inr n ↦
            let differs : is_trivial (m hd) ≡ not (is_trivial (m root)) =
              sym (tests hd) ∙ (agree-not _ _ n ∙ ap not (to_root r valid)) in
            rw n (record {
              inner = valid.inner;
              ring = valid.ring;
              distinct = Distinct-move (hd ∷ seg) r.primary r.secondary d;
              root_iso = valid.root_iso;
              fresh_inner = valid.fresh_inner;
              fresh_secondary = All-append _ (hd ∷ seg) r.secondary fresh valid.fresh_secondary;
              alike = valid.alike;
              unlike =
                  All-append _ (hd ∷ seg) r.secondary
                    (subst (λ b. Kind m b (hd ∷ seg)) differs kind) valid.unlike;
            })
      ]

module _ (t m : Mem) (tests : (a : ℕ) → is_trivial (t a) ≡ is_trivial (m a)) (root : ℕ) where
  pub append_all-IsRegion :
      (b : Bool) (seg : List ℕ) (r : Region)
      → Fresh m seg
      → Kind m b seg
      → IsRegion r m root
      → Distinct (seg ++ members r)
      → IsRegion (append_all t seg r) m root
  append_all-IsRegion b [] r fresh kind valid d = valid
  append_all-IsRegion b (hd ∷ seg) r fresh kind valid d =
      append-IsRegion t m tests root hd seg fresh
        (subst (λ c. Kind m c (hd ∷ seg)) (sym kind.0) kind) r valid d

pub append_all-size :
    (t : Mem) (seg : List ℕ) (r : Region) → (append_all t seg r).region_size ≡ r.region_size
append_all-size t [] r = refl
append_all-size t (hd ∷ seg) r =
    elim (Bool-cases (agree (is_trivial (t hd)) (next_is_trivial t r.primary))) [
      | inl e ↦ rw e refl
      | inr n ↦ rw n refl
    ]

pub elem-append_segment :
    (t : Mem) (hd : ℕ) (seg : List ℕ) (r : Region) (a : ℕ)
    → elem a (members (append t hd seg r)) ≡ (elem a seg || elem a (members r))
elem-append_segment t hd seg r a =
    elim (Bool-cases (agree (is_trivial (t hd)) (next_is_trivial t r.primary))) [
      | inl e ↦ rw e (
          ground (
            arith,
            elem-append a r.primary r.secondary,
            elem-append a seg r.primary,
            elem-append a (seg ++ r.primary) r.secondary,
          ))
      | inr n ↦ rw n (
          ground (
            arith,
            elem-append a r.primary r.secondary,
            elem-append a seg r.secondary,
            elem-append a r.primary (seg ++ r.secondary),
          ))
    ]

pub elem-append_all :
    (t : Mem) (seg : List ℕ) (r : Region) (a : ℕ)
    → elem a (members (append_all t seg r)) ≡ (elem a seg || elem a (members r))
elem-append_all t [] r a = refl
elem-append_all t (hd ∷ seg) r a = elem-append_segment t hd (hd ∷ seg) r a

-- Another memory in which the objects of a region are as they were.
module _ (m m' : Mem) where
  carry :
      (P : Obj → Type 0) (xs : List ℕ)
      → ((a : ℕ) → a ∈ xs → m' a ≡ m a)
      → All (λ a. P (m a)) xs
      → All (λ a. P (m' a)) xs
  carry P xs same all = All-∈ _ xs (λ a i. subst P (sym (same a i)) (All-∈_elim _ xs a all i))

  pub carry-IsRegion :
      (r : Region) (root : ℕ)
      → ((a : ℕ) → a ∈ members r → m' a ≡ m a)
      → IsRegion r m root
      → IsRegion r m' root
  carry-IsRegion r root same valid =
      let ringed : (a : ℕ) → elem a r.primary ≡ (elem a valid.inner || (a == root)) =
        λ a. ap (elem a) valid.ring ∙ ground (arith, elem-append a valid.inner (root ∷ [])) in
      let first : (a : ℕ) → a ∈ r.primary → m' a ≡ m a =
        λ a i. same a (ground (arith, i, elem-append a r.primary r.secondary)) in
      let second : (a : ℕ) → a ∈ r.secondary → m' a ≡ m a =
        λ a i. same a (ground (arith, i, elem-append a r.primary r.secondary)) in
      let at_root : m' root ≡ m root = first root (ground (arith, ringed root, ==_self root)) in
      record {
        inner = valid.inner;
        ring = valid.ring;
        distinct = valid.distinct;
        root_iso = ap (λ (o : Obj). o.cls) at_root ∙ valid.root_iso;
        fresh_inner =
            carry (λ o. is_unmarked o.cls ≡ true) valid.inner
              (λ a i. first a (ground (arith, i, ringed a))) valid.fresh_inner;
        fresh_secondary =
            carry (λ o. is_unmarked o.cls ≡ true) r.secondary second valid.fresh_secondary;
        alike =
            rw at_root
              (carry (λ o. is_trivial o ≡ is_trivial (m root)) r.primary first valid.alike);
        unlike =
            rw at_root (
              carry (λ o. is_trivial o ≡ not (is_trivial (m root))) r.secondary second
                valid.unlike);
      }

-- Only the rings count.
pub rings-IsRegion :
    (r r' : Region) (m : Mem) (root : ℕ)
    → r'.primary ≡ r.primary
    → r'.secondary ≡ r.secondary
    → IsRegion r m root
    → IsRegion r' m root
rings-IsRegion r r' m root p q valid = record {
  inner = valid.inner;
  ring = p ∙ valid.ring;
  distinct = rw (p, q) valid.distinct;
  root_iso = valid.root_iso;
  fresh_inner = valid.fresh_inner;
  fresh_secondary = rw q valid.fresh_secondary;
  alike = rw p valid.alike;
  unlike = rw q valid.unlike;
}

pub relink-trivial : (m : Mem) (o a : ℕ) → is_trivial (relink m o a) ≡ is_trivial (m a)
relink-trivial m o a = elim (Bool-cases (o == a)) [
  | inl e ↦ rw e (ap (λ z. is_trivial (m z)) (eq_of_test o a e))
  | inr n ↦ rw n refl
]

pub relink-unmarked :
    (m : Mem) (o a : ℕ)
    → ((o == a) ≡ false → is_unmarked (m a).cls ≡ true)
    → is_unmarked (relink m o a).cls ≡ true
relink-unmarked m o a u = elim (Bool-cases (o == a)) [ inl e ↦ rw e refl | inr n ↦ rw n (u n) ]
