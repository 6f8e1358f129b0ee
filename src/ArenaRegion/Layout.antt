-- ===== src/ArenaRegion/Layout.antt =====
-- Well-formed arena regions: which objects an arena and a region have, and what a write elsewhere
-- leaves of that.
use verona_rt_gc_bench.Base.{
  ℕ, ◌+◌, ◌≡◌, ◌≤◌, ◌<◌, ◌⊎◌, inl, inr, refl, sym, ap, ◌∙◌, Bool, true, false, ◌==◌, List, [], ◌∷◌,
  ◌++◌, arith, All, length, All-append,
}
use verona_rt_gc_bench.Object.{Obj, Mem, write, is_trivial}
use verona_rt_gc_bench.ArenaRegion.{Arena, Region, arena_size, non_trivial_end}

-- The objects ps lie one behind the other from a to b.
abbrev pub Tiles : Mem → ℕ → List ℕ → ℕ → Type 0
Tiles m a [] b = a ≡ b
Tiles m a (p ∷ ps) b = (p ≡ a) × (1 ≤ (m p).size) × Tiles m (p + (m p).size) ps b

-- The objects of an arena.
pub record Content : Type 0 where
  pub trivials : List ℕ
  pub non_trivials : List ℕ

abbrev pub Kind : Mem → Bool → List ℕ → Type 0
Kind m b ps = All (λ p. is_trivial (m p) ≡ b) ps

pub record IsArena (m : Mem) (a : Arena) (c : Content) : Type 0 where
  pub trivial_tiles : Tiles m a.objects_begin c.trivials a.objects_end
  pub gap : a.objects_end ≤ a.non_trivial_begin
  pub non_trivial_tiles : Tiles m a.non_trivial_begin c.non_trivials (non_trivial_end a)
  pub trivial_kind : Kind m true c.trivials
  pub non_trivial_kind : Kind m false c.non_trivials

abbrev pub IsArenas : Mem → List Arena → List Content → Type 0
IsArenas m [] [] = Unit
IsArenas m (a ∷ rest) (c ∷ cs) = IsArena m a c × IsArenas m rest cs
IsArenas m _ _ = ⊥

-- The address p is outside of the arena's block.
abbrev pub Outside : ℕ → Arena → Type 0
Outside p a = (p < a.objects_begin) ⊎ (non_trivial_end a ≤ p)

abbrev pub Apart : Arena → Arena → Type 0
Apart a b = (non_trivial_end a ≤ b.objects_begin) ⊎ (non_trivial_end b ≤ a.objects_begin)

abbrev pub PairwiseApart : List Arena → Type 0
PairwiseApart [] = Unit
PairwiseApart (a ∷ rest) = All (Apart a) rest × PairwiseApart rest

abbrev pub contained : List Content → List ℕ
contained [] = []
contained (c ∷ cs) = c.trivials ++ c.non_trivials ++ contained cs

abbrev pub sizes : Mem → List ℕ → ℕ
sizes m [] = 0
sizes m (p ∷ ps) = (m p).size + sizes m ps

abbrev pub objects : List Content → Region → List ℕ
objects cs r = contained cs ++ r.large

-- A region whose arenas have the contents cs.
pub record IsRegion (m : Mem) (r : Region) (cs : List Content) : Type 0 where
  pub arenas : IsArenas m r.arenas cs
  pub apart : PairwiseApart r.arenas
  pub large_outside : All (λ p. All (Outside p) r.arenas) r.large
  pub large_size : All (λ p. arena_size < (m p).size) r.large
  pub memory : r.current_memory_used ≡ sizes m (objects cs r)
  pub number : r.region_size ≡ length (objects cs r)

-- The memories agree on the objects.
abbrev pub Agree : Mem → Mem → List ℕ → Type 0
Agree m t ps = All (λ p. t p ≡ m p) ps

Agree-Tiles : (m t : Mem) (ps : List ℕ) (a b : ℕ) → Agree m t ps → Tiles m a ps b → Tiles t a ps b
Agree-Tiles m t [] a b g h = h
Agree-Tiles m t (p ∷ ps) a b g h =
    rw (g.0) (h.0, h.1, Agree-Tiles m t ps (p + (m p).size) b g.1 h.2)

Agree-Kind : (m t : Mem) (k : Bool) (ps : List ℕ) → Agree m t ps → Kind m k ps → Kind t k ps
Agree-Kind m t k [] g h = tt
Agree-Kind m t k (p ∷ ps) g h = (ap is_trivial g.0 ∙ h.0, Agree-Kind m t k ps g.1 h.1)

pub Agree-sizes : (m t : Mem) (ps : List ℕ) → Agree m t ps → sizes t ps ≡ sizes m ps
Agree-sizes m t [] g = refl
Agree-sizes m t (p ∷ ps) g = rw (g.0, Agree-sizes m t ps g.1) refl

-- The objects that lie one behind the other end at or behind their start.
pub Tiles-le : (m : Mem) (ps : List ℕ) (a b : ℕ) → Tiles m a ps b → a ≤ b
Tiles-le m [] a b h = omega (arith, h)
Tiles-le m (p ∷ ps) a b h = omega (arith, h.0, h.1, Tiles-le m ps (p + (m p).size) b h.2)

apart : (p q a b n : ℕ) → q ≡ a → 1 ≤ n → q + n ≤ b → ((p < a) ⊎ (b ≤ p)) → (p == q) ≡ false
apart p q a b n e h k (inl l) = ground (arith, e, l)
apart p q a b n e h k (inr l) = ground (arith, e, l, h, k)

farther : (p q a b n : ℕ) → q ≡ a → ((p < a) ⊎ (b ≤ p)) → (p < q + n) ⊎ (b ≤ p)
farther p q a b n e (inl l) = inl (omega (arith, e, l))
farther p q a b n e (inr l) = inr l

-- A write at a place below or above the objects.
pub write-Agree :
    (m : Mem) (p : ℕ) (o : Obj) (ps : List ℕ) (a b : ℕ)
    → Tiles m a ps b
    → ((p < a) ⊎ (b ≤ p))
    → Agree m (write m p o) ps
write-Agree m p o [] a b h out = tt
write-Agree m p o (q ∷ ps) a b h out =
    let end = Tiles-le m ps (q + (m q).size) b h.2 in
    let other : (p == q) ≡ false = apart p q a b (m q).size h.0 h.1 end out in
    (
      rw other refl,
      write-Agree m p o ps (q + (m q).size) b h.2 (farther p q a b (m q).size h.0 out),
    )

pub Tiles-snoc :
    (m : Mem) (ps : List ℕ) (a b : ℕ)
    → Tiles m a ps b
    → 1 ≤ (m b).size
    → Tiles m a (ps ++ b ∷ []) (b + (m b).size)
Tiles-snoc m [] a b h k = (sym h, k, refl)
Tiles-snoc m (p ∷ ps) a b h k = (h.0, h.1, Tiles-snoc m ps (p + (m p).size) b h.2 k)

pub sizes-append : (m : Mem) (xs ys : List ℕ) → sizes m (xs ++ ys) ≡ sizes m xs + sizes m ys
sizes-append m [] ys = omega arith
sizes-append m (x ∷ xs) ys = omega (arith, sizes-append m xs ys)

-- A write at a place in the arena's free space, or outside of its block.
pub IsArena-Agree :
    (m : Mem) (p : ℕ) (o : Obj) (a : Arena) (c : Content)
    → IsArena m a c
    → ((a.objects_end ≤ p) × (p < a.non_trivial_begin)) ⊎ Outside p a
    → Agree m (write m p o) c.trivials × Agree m (write m p o) c.non_trivials
IsArena-Agree m p o a c i (inl (l, h)) = (
  write-Agree m p o c.trivials _ _ i.trivial_tiles (inr l),
  write-Agree m p o c.non_trivials _ _ i.non_trivial_tiles (inl h),
)
IsArena-Agree m p o a c i (inr (inl h)) =
    let low = Tiles-le m c.trivials _ _ i.trivial_tiles in
    (
      write-Agree m p o c.trivials _ _ i.trivial_tiles (inl h),
      write-Agree m p o c.non_trivials _ _ i.non_trivial_tiles (inl (omega (arith, h, low, i.gap))),
    )
IsArena-Agree m p o a c i (inr (inr h)) =
    let high = Tiles-le m c.non_trivials _ _ i.non_trivial_tiles in
    (
      write-Agree m p o c.trivials _ _ i.trivial_tiles (inr (omega (arith, h, high, i.gap))),
      write-Agree m p o c.non_trivials _ _ i.non_trivial_tiles (inr h),
    )

pub IsArena-write :
    (m : Mem) (p : ℕ) (o : Obj) (a : Arena) (c : Content)
    → IsArena m a c
    → ((a.objects_end ≤ p) × (p < a.non_trivial_begin)) ⊎ Outside p a
    → IsArena (write m p o) a c
IsArena-write m p o a c i w =
    let (t, n) = IsArena-Agree m p o a c i w in
    record {
      trivial_tiles = Agree-Tiles m _ c.trivials _ _ t i.trivial_tiles;
      gap = i.gap;
      non_trivial_tiles = Agree-Tiles m _ c.non_trivials _ _ n i.non_trivial_tiles;
      trivial_kind = Agree-Kind m _ true c.trivials t i.trivial_kind;
      non_trivial_kind = Agree-Kind m _ false c.non_trivials n i.non_trivial_kind;
    }

pub IsArenas-write :
    (m : Mem) (p : ℕ) (o : Obj) (arenas : List Arena) (cs : List Content)
    → IsArenas m arenas cs
    → All (Outside p) arenas
    → IsArenas (write m p o) arenas cs × Agree m (write m p o) (contained cs)
IsArenas-write m p o [] [] i h = (tt, tt)
IsArenas-write m p o [] (c ∷ cs) i h = absurd i
IsArenas-write m p o (a ∷ rest) [] i h = absurd i
IsArenas-write m p o (a ∷ rest) (c ∷ cs) i h =
    let (t, n) = IsArena-Agree m p o a c i.0 (inr h.0) in
    let (after, same) = IsArenas-write m p o rest cs i.1 h.1 in
    (
      (IsArena-write m p o a c i.0 (inr h.0), after),
      All-append _ (c.trivials ++ c.non_trivials) _ (All-append _ c.trivials _ t n) same,
    )
