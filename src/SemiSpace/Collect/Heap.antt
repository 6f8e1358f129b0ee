-- ===== src/SemiSpace/Collect/Heap.antt =====
-- What a collection relies on: the heap that it finds, the objects that it is to keep, and the
-- copies that it has made.
use verona_rt_gc_bench.Base.{ℕ, ◌+◌, ◌≤◌, ◌≡◌, true, false, List, [], ◌∷◌, ◌∈◌, All}
use verona_rt_gc_bench.Object.{unmarked, iso, Mem, is_marked, init_next, set_forwarding_pointer}
use verona_rt_gc_bench.SemiSpace.{Region, is_in_space}
use verona_rt_gc_bench.SemiSpace.Layout.{Tiled}

-- A field leads to an object of from-space or out of both spaces.
abbrev pub IsField : Region → List ℕ → ℕ → Type 0
IsField r objs f =
    (is_in_space f r.to_space r.semispace_size ≡ false)
    × (is_in_space f r.from_space r.semispace_size ≡ true → f ∈ objs)

-- The objects `objs` fill from-space, none bears a mark, and the fields lead where they may.
pub record IsHeap (up : ℕ → ℕ) (r : Region) (m : Mem) (root : ℕ) (objs : List ℕ) : Type 0 where
  pub tiled : Tiled up m r.from_space r.alloc_ptr objs
  pub within : r.alloc_ptr ≤ r.from_space + r.semispace_size
  pub fresh : (a : ℕ) → a ∈ objs → (m a).cls ≡ unmarked
  pub apart :
      (a : ℕ)
      → is_in_space a r.from_space r.semispace_size ≡ true
      → is_in_space a r.to_space r.semispace_size ≡ false
  pub fields : (a : ℕ) → a ∈ objs → All (IsField r objs) (m a).fields
  pub root_fields : All (IsField r objs) (m root).fields
  pub root_from : is_in_space root r.from_space r.semispace_size ≡ false
  pub root_to : is_in_space root r.to_space r.semispace_size ≡ false
  pub root_iso : (m root).cls ≡ iso

-- An object of from-space that the root reaches by fields of the root and of objects of from-space.
pub data Reach (m : Mem) (root : ℕ) (objs : List ℕ) : ℕ → Type 0 where
  from_root : {f : ℕ} → f ∈ (m root).fields → f ∈ objs → Reach m root objs f
  from_object : {a f : ℕ} → Reach m root objs a → f ∈ (m a).fields → f ∈ objs → Reach m root objs f

-- The objects `olds` have copies one behind the other from `q` to `stop`, and forward to them.
abbrev pub Copied : (ℕ → ℕ) → List ℕ → (m₀ m : Mem) → List ℕ → (q stop : ℕ) → Type 0
Copied up objs m₀ m [] q stop = q ≡ stop
Copied up objs m₀ m (p ∷ rest) q stop =
    (m q ≡ init_next (m₀ p) 0)
    × (m p ≡ set_forwarding_pointer (m₀ p) q)
    × (p ∈ objs)
    × Copied up objs m₀ m rest (q + up (m₀ p).size) stop

abbrev pub Handled : List ℕ → Mem → ℕ → Type 0
Handled objs m f = f ∈ objs → is_marked (m f).cls ≡ true
