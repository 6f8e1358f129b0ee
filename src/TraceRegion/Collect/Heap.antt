-- ===== src/TraceRegion/Collect/Heap.antt =====
-- What a collection of a trace region relies on, and what the root reaches.
use verona_rt_gc_bench.Base.{
  ℕ, ◌≡◌, Bool, true, false, not, List, [], ◌∷◌, ◌++◌, ◌∈◌, All, Distinct,
}
use verona_rt_gc_bench.Object.{
  unmarked, marked, scc_ptr, rc, iso, shared, RegionMd, Mem, is_unmarked, is_trivial,
}
use verona_rt_gc_bench.TraceRegion.{Region}

-- The classes that the marking knows.
abbrev pub is_known : RegionMd → Bool
is_known iso = true
is_known marked = true
is_known unmarked = true
is_known scc_ptr = true
is_known rc = true
is_known shared = true
is_known _ = false

abbrev pub members : Region → List ℕ
members r = r.primary ++ r.secondary

-- A field leads to an object of the region, to the root of a region, to an immutable or to a cown.
abbrev pub IsField : Region → Mem → ℕ → Type 0
IsField r m f = (is_known (m f).cls ≡ true) × (is_unmarked (m f).cls ≡ true → f ∈ members r)

-- The root is the last object of the primary ring, which holds the objects as trivial as it is; no
-- object but the root bears another class than unmarked.
pub record IsRegion (r : Region) (m : Mem) (root : ℕ) : Type 0 where
  pub inner : List ℕ
  pub ring : r.primary ≡ inner ++ root ∷ []
  pub distinct : Distinct (r.primary ++ r.secondary)
  pub root_iso : (m root).cls ≡ iso
  pub fresh_inner : All (λ a. is_unmarked (m a).cls ≡ true) inner
  pub fresh_secondary : All (λ a. is_unmarked (m a).cls ≡ true) r.secondary
  pub alike : All (λ a. is_trivial (m a) ≡ is_trivial (m root)) r.primary
  pub unlike : All (λ a. is_trivial (m a) ≡ not (is_trivial (m root))) r.secondary

pub record IsClosed (r : Region) (m : Mem) (root : ℕ) : Type 0 where
  pub root_fields : All (IsField r m) (m root).fields
  pub entries : All (IsField r m) r.additional_entry_points
  pub fields : (a : ℕ) → a ∈ members r → All (IsField r m) (m a).fields

-- What the root and the additional entry points reach through unmarked objects.
pub data Reach (r : Region) (m : Mem) (root : ℕ) : ℕ → Type 0 where
  from_root : {f : ℕ} → f ∈ (m root).fields → is_unmarked (m f).cls ≡ true → Reach r m root f
  from_entry :
      {f : ℕ} → f ∈ r.additional_entry_points → is_unmarked (m f).cls ≡ true → Reach r m root f
  from_object :
      {a f : ℕ}
      → Reach r m root a
      → f ∈ (m a).fields
      → is_unmarked (m f).cls ≡ true
      → Reach r m root f
