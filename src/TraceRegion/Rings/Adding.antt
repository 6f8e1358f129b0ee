-- ===== src/TraceRegion/Rings/Adding.antt =====
-- New trace regions, new objects and merges: create, alloc and merge of
-- src/rt/region/region_trace.h leave the rings as they are to be.
use verona_rt_gc_bench.Base.{
  ℕ, ◌+◌, ◌≡◌, inl, inr, refl, Bool, true, ◌||◌, List, [], ◌∷◌, ◌++◌, arith, ◌==◌, elem, ◌∈◌, ◌∉◌,
  Returns, returns, Bool-cases, eq_of_test, ◌∙◌, ap, Distinct, sym, elem-append, All-∈, All-∈_elim,
  ==_self,
}
use verona_rt_gc_bench.Object.{unmarked, Obj, Mem, write, is_unmarked}
use verona_rt_gc_bench.TraceRegion.{
  Region, State, relink, append, append_all, create, alloc, merge_internal, merge, size_t,
}
use verona_rt_gc_bench.TraceRegion.Collect.Heap.{members, IsRegion}
use verona_rt_gc_bench.TraceRegion.Collect.Rings.{Distinct-parts, Distinct-join, Distinct-swap}
use verona_rt_gc_bench.TraceRegion.Rings.{
  relink-trivial, relink-unmarked, Fresh, Kind, append-IsRegion, append_all-IsRegion,
  append_all-size, elem-append_segment, elem-append_all, carry-IsRegion, rings-IsRegion,
}

-- A new region has its root as its one object.
pub create-IsRegion :
    (o : ℕ) (d : Obj) (m : Mem) → IsRegion (create o d m).region (create o d m).mem o
unfolding create
create-IsRegion o d m = record {
  inner = [];
  ring = refl;
  distinct = (refl, tt);
  root_iso = rw (==_self o) refl;
  fresh_inner = tt;
  fresh_secondary = tt;
  alike = (refl, tt);
  unlike = tt;
}

write_apart :
    (m : Mem) (o : ℕ) (d : Obj) (xs : List ℕ) (a : ℕ) → o ∉ xs → a ∈ xs → write m o d a ≡ m a
write_apart m o d xs a out i = elim (Bool-cases (o == a)) [
  | inl e ↦ absurd (ground (arith, out, i, ap (λ z. elem z xs) (eq_of_test o a e)))
  | inr n ↦ rw n refl
]

-- An allocation in a region leaves a region, with the new object besides those it had.
pub alloc-IsRegion :
    (o : ℕ) (d : Obj) (s : State) (root : ℕ)
    → IsRegion s.region s.mem root
    → o ∉ members s.region
    → IsRegion (alloc o d s).region (alloc o d s).mem root
      × ((a : ℕ) → elem a (members (alloc o d s).region) ≡ ((o == a) || elem a (members s.region)))
unfolding alloc
alloc-IsRegion o d s root valid out =
    let m : Mem = write s.mem o (record d { cls = unmarked }) in
    let same : (a : ℕ) → a ∈ members s.region → m a ≡ s.mem a =
      λ a i. write_apart s.mem o (record d { cls = unmarked }) (members s.region) a out i in
    let fresh : is_unmarked (m o).cls ≡ true = rw (==_self o) refl in
    (
      rings-IsRegion (append m o (o ∷ []) s.region) _ m root refl refl (
          append-IsRegion m m (λ a. refl) root o [] (fresh, tt) (refl, tt) s.region
            (carry-IsRegion s.mem m s.region root same valid) (out, valid.distinct)),
      λ a. elem-append_segment m o (o ∷ []) s.region a ∙ ground arith,
    )

-- What a merge is to leave: a region with the objects of both.
abbrev pub IsMerged : State → Region → ℕ → State → Type 0
IsMerged s other root t =
    IsRegion t.region t.mem root
    × ((a : ℕ) → elem a (members t.region) ≡ (elem a (members s.region) || elem a (members other)))
    × (t.region.region_size ≡ size_t (s.region.region_size + other.region_size))

module _ (to_class from_class : ℕ → ℕ) (o : ℕ) (other : Region) (s : State) (root : ℕ)
    (valid : IsRegion s.region s.mem root) (valid' : IsRegion other s.mem o)
    (apart : Distinct (members s.region ++ members other)) where
  abbrev relinked : Mem
  relinked = relink s.mem o

  root_inside : o ∈ members other
  root_inside = ground (
    arith,
    ap (elem o) valid'.ring,
    elem-append o valid'.inner (o ∷ []),
    elem-append o other.primary other.secondary,
    ==_self o,
  )

  first-Fresh : Fresh relinked other.primary
  first-Fresh = All-∈ _ other.primary (λ a i. relink-unmarked s.mem o a (λ n.
      All-∈_elim _ valid'.inner a valid'.fresh_inner
        (ground (arith, i, n, ap (elem a) valid'.ring, elem-append a valid'.inner (o ∷ [])))))

  second-Fresh : Fresh relinked other.secondary
  second-Fresh = All-∈ _ other.secondary (λ a i.
      relink-unmarked s.mem o a (λ n. All-∈_elim _ other.secondary a valid'.fresh_secondary i))

  relinked-Kind : (b : Bool) (xs : List ℕ) → Kind s.mem b xs → Kind relinked b xs
  relinked-Kind b xs kind = All-∈ _ xs (λ a i. relink-trivial s.mem o a ∙ All-∈_elim _ xs a kind i)

  left-Distinct : Distinct (members s.region)
  left-Distinct = (Distinct-parts (members s.region) (members other) apart).0

  kept_left : (a : ℕ) → a ∈ members s.region → relinked a ≡ s.mem a
  kept_left a i =
      write_apart s.mem o _ (members s.region) a
        ((Distinct-parts (members other) (members s.region)
            (Distinct-swap (members s.region) (members other) apart)).2
          o root_inside)
        i

  abbrev first : Region
  first = append_all s.mem other.primary s.region

  first-IsRegion : IsRegion first relinked root
  first-IsRegion =
      let swapped = Distinct-swap (members s.region) (members other) apart in
      let (others, mine, out) = Distinct-parts (members other) (members s.region) swapped in
      append_all-IsRegion s.mem relinked (λ a. sym (relink-trivial s.mem o a)) root _ other.primary
        s.region first-Fresh (relinked-Kind _ other.primary valid'.alike)
        (carry-IsRegion s.mem relinked s.region root kept_left valid)
        (Distinct-join other.primary (members s.region)
          (Distinct-parts other.primary other.secondary valid'.distinct).0 mine
          (λ a i. out a (ground (arith, i, elem-append a other.primary other.secondary))))

  abbrev both : Region
  both = append_all relinked other.secondary first

  both-IsRegion : IsRegion both relinked root
  both-IsRegion =
      let swapped = Distinct-swap (members s.region) (members other) apart in
      let (others, mine, out) = Distinct-parts (members other) (members s.region) swapped in
      let (one, two, rings) = Distinct-parts other.primary other.secondary valid'.distinct in
      append_all-IsRegion relinked relinked (λ a. refl) root _ other.secondary first second-Fresh
        (relinked-Kind _ other.secondary valid'.unlike) first-IsRegion
        (Distinct-join other.secondary (members first) two first-IsRegion.distinct (λ a i. ground (
          arith,
          i,
          out a,
          rings a,
          elem-append a other.primary other.secondary,
          elem-append_all s.mem other.primary s.region a,
        )))

  merge_internal-IsMerged : IsMerged s other root (merge_internal to_class from_class o other s)
  unfolding merge_internal
  merge_internal-IsMerged = (
    rings-IsRegion both _ relinked root refl refl both-IsRegion,
    λ a. ground (
      arith,
      elem-append_all relinked other.secondary first a,
      elem-append_all s.mem other.primary s.region a,
      elem-append a other.primary other.secondary,
    ),
    ap (λ n. size_t (n + other.region_size))
        (append_all-size relinked other.secondary first
          ∙ append_all-size s.mem other.primary s.region),
  )

  -- The merge of a region without additional roots into another one leaves a region with the objects
  -- of both, under the root of the latter.
  pub merge-IsMerged :
      other.additional_entry_points ≡ []
      → Returns (IsMerged s other root) (merge to_class from_class o other s)
  unfolding merge merge_internal
  merge-IsMerged h = rw h (
      returns (
        rings-IsRegion (merge_internal to_class from_class o other s).region _ _ root refl refl
            merge_internal-IsMerged.0,
        merge_internal-IsMerged.1,
        merge_internal-IsMerged.2,
      ))
