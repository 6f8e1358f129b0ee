-- ===== src/SemiSpace/Collect/Trace/Defs.antt =====
-- The invariant of phases 1 and 2, and its lemmas on the copies.
use verona_rt_gc_bench.Base.{
  ℕ, ◌+◌, ◌≤◌, ◌<◌, ◌≡◌, ◌⊎◌, refl, true, false, ◌||◌, List, [], ◌∷◌, ◌++◌, arith, elem, ◌∈◌, ◌∉◌,
  All, length, ◌∙◌,
}
use verona_rt_gc_bench.Object.{unmarked, Mem, is_marked, mark}
use verona_rt_gc_bench.SemiSpace.{Region, is_in_space}
use verona_rt_gc_bench.SemiSpace.Layout.{total, unmarked_bytes, unmarked_one}
use verona_rt_gc_bench.SemiSpace.Collect.{Gc}
use verona_rt_gc_bench.SemiSpace.Collect.Heap.{Reach, Copied, Handled}

-- The copies of `done` have been scanned, those of `todo` have not.
pub record Inv (up : ℕ → ℕ) (r : Region) (m₀ : Mem) (root : ℕ) (objs done todo : List ℕ) (scan : ℕ)
    (g : Gc) : Type 0 where
  pub scanned : Copied up objs m₀ g.mem done r.to_space scan
  pub waiting : Copied up objs m₀ g.mem todo scan g.free
  pub known :
      (a : ℕ) → a ∈ objs → is_marked (g.mem a).cls ≡ true → (elem a done || elem a todo) ≡ true
  pub kept : (a : ℕ) → a ∈ objs → is_marked (g.mem a).cls ≡ false → g.mem a ≡ m₀ a
  pub outside :
      (a : ℕ)
      → a ∉ objs
      → is_in_space a r.to_space r.semispace_size ≡ false
      → (g.mem a ≡ m₀ a) ⊎ (((m₀ a).cls ≡ unmarked) × (g.mem a ≡ mark (m₀ a)))
  pub room : g.free + total (unmarked_bytes up) g.mem objs ≤ r.to_space + r.semispace_size
  pub closed : (a : ℕ) → a ∈ done → All (Handled objs g.mem) (m₀ a).fields
  pub reach : (a : ℕ) → (elem a done || elem a todo) ≡ true → Reach m₀ root objs a

-- What the visit of a field, or of several, leaves: more copies to scan.
pub record Visited (up : ℕ → ℕ) (r : Region) (m₀ : Mem) (root : ℕ) (objs done todo : List ℕ)
    (scan : ℕ) (g g' : Gc) : Type 0 where
  pub extra : List ℕ
  pub inv : Inv up r m₀ root objs done (todo ++ extra) scan g'
  pub grow : (a : ℕ) → a ∈ objs → is_marked (g.mem a).cls ≡ true → is_marked (g'.mem a).cls ≡ true
  pub count : total unmarked_one g'.mem objs + length extra ≡ total unmarked_one g.mem objs

module _ (up : ℕ → ℕ) (objs : List ℕ) (m₀ : Mem)
    (positive : (a : ℕ) → a ∈ objs → 0 < up (m₀ a).size) where
  pub Copied-le : (m : Mem) (ps : List ℕ) (q stop : ℕ) → Copied up objs m₀ m ps q stop → q ≤ stop
  Copied-le m [] q stop c = omega arith
  Copied-le m (p ∷ rest) q stop c = omega (arith, Copied-le m rest (q + up (m₀ p).size) stop c.3)

  -- Writes elsewhere leave the copies.
  pub Copied-frame :
      (m m' : Mem) (ps : List ℕ) (q stop : ℕ)
      → ((a : ℕ) → q ≤ a → a < stop → m' a ≡ m a)
      → ((a : ℕ) → a ∈ objs → is_marked (m a).cls ≡ true → m' a ≡ m a)
      → Copied up objs m₀ m ps q stop
      → Copied up objs m₀ m' ps q stop
  Copied-frame m m' [] q stop new old c = c
  Copied-frame m m' (p ∷ rest) q stop new old c =
      let le = Copied-le m rest (q + up (m₀ p).size) stop c.3 in
      let pos = positive p c.2 in
      (
        new q (omega arith) (omega arith) ∙ c.0,
        old p c.2 (rw c.1 refl) ∙ c.1,
        c.2,
        Copied-frame m m' rest (q + up (m₀ p).size) stop (λ a h. new a (omega arith)) old c.3,
      )

  pub Copied-snoc :
      (m : Mem) (ps : List ℕ) (p q mid stop : ℕ)
      → Copied up objs m₀ m ps q mid
      → Copied up objs m₀ m (p ∷ []) mid stop
      → Copied up objs m₀ m (ps ++ p ∷ []) q stop
  Copied-snoc m [] p q mid stop c d = rw c d
  Copied-snoc m (a ∷ rest) p q mid stop c d =
      (c.0, c.1, c.2, Copied-snoc m rest p (q + up (m₀ a).size) mid stop c.3 d)
