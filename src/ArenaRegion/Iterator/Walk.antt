-- ===== src/ArenaRegion/Iterator/Walk.antt =====
-- A walk of the iterator of an arena region over the ring, and over the objects of one kind in an arena.
use verona_rt_gc_bench.Base.{
  ℕ, zero, suc, ◌+◌, ◌≡◌, ◌≤◌, ◌<◌, inl, inr, refl, sym, true, false, ◌==◌, if◌then◌else◌, List, [],
  ◌∷◌, ◌++◌, arith, Bool-cases, All, length, select,
}
use verona_rt_gc_bench.Object.{Mem}
use verona_rt_gc_bench.SemiSpace.Iterator.{IteratorType, matches_filter}
use verona_rt_gc_bench.ArenaRegion.{Arena}
use verona_rt_gc_bench.ArenaRegion.Layout.{Tiles, Tiles-le}
use verona_rt_gc_bench.ArenaRegion.Iterator.{
  Position, after_object, in_ring, init_for_arena_or_ring, next, visited,
}

module _ (type : IteratorType) (align_up : ℕ → ℕ) (m : Mem) where
  -- From s on the iterator visits the objects ps, and needs fuel for n of them.
  abbrev pub Yields : ℕ → Position → List ℕ → Type 0
  Yields n s ps = (k : ℕ) → n ≤ k → visited type align_up m k s ≡ ps

  pub visit_end : (s : Position) → s.ptr ≡ 0 → Yields 0 s []
  unfolding visited
  visit_end s e zero h = refl
  visit_end s e (suc k) h = rw e refl

  pub visit_one :
      (n : ℕ) (s : Position) (ps : List ℕ)
      → (s.ptr == 0) ≡ false
      → Yields n (next type align_up m s) ps
      → Yields (suc n) s (s.ptr ∷ ps)
  unfolding visited
  visit_one n s ps e v zero h = absurd (omega (arith, h))
  visit_one n s ps e v (suc k) h = rw (e, v k (omega (arith, h))) refl

  pub ring_visits :
      (ring : List ℕ)
      → All (λ p. 1 ≤ p) ring
      → Yields
          (length ring)
          (in_ring type align_up m ring)
          (select (λ p. matches_filter type (m p)) ring)
  unfolding next
  ring_visits [] h = visit_end _ refl
  ring_visits (q ∷ ring) h = elim (Bool-cases (matches_filter type (m q))) [
    | inl e ↦ rw e (
        visit_one (length ring) (record { arenas = []; ring = ring; ptr = q }) _
          (ground (arith, h.0)) (ring_visits ring h.1))
    | inr e ↦ rw e (λ k l. ring_visits ring h.1 k (omega (arith, l)))
  ]

  -- The position in the arena a, or behind it.
  abbrev pub at_object : Arena → List Arena → List ℕ → ℕ → Position
  at_object a rest ring q =
      if q == 0
      then init_for_arena_or_ring type align_up m rest ring
      else record { arenas = a ∷ rest; ring = ring; ptr = q }

  abbrev pub Aligned : List ℕ → Type 0
  Aligned ps = All (λ p. align_up (m p).size ≡ (m p).size) ps

  -- The objects of an arena from p on, up to the end e of their kind.
  pub walk_visits :
      (a : Arena) (rest : List Arena) (ring : List ℕ) (n : ℕ) (after : List ℕ) (low e : ℕ)
      → ((q : ℕ) → low < q → q < e → after_object type align_up m a q ≡ q)
      → Yields n (at_object a rest ring (after_object type align_up m a e)) after
      → (p : ℕ) (ps : List ℕ) → Tiles m p (p ∷ ps) e
      → Aligned (p ∷ ps)
      → 1 ≤ p
      → low ≤ p
      → Yields
          (length (p ∷ ps) + n)
          (record { arenas = a ∷ rest; ring = ring; ptr = p })
          ((p ∷ ps) ++ after)
  unfolding next
  walk_visits a rest ring n after low e inner end p [] t l h k = λ j b.
      visit_one n (record { arenas = a ∷ rest; ring = ring; ptr = p }) after (ground (arith, h))
        (rw (l.0, t.2) end) j (omega (arith, b))
  walk_visits a rest ring n after low e inner end p (x ∷ ps) t l h k =
      let there : x ≡ p + (m p).size = t.2.0 in
      let below = Tiles-le m ps (x + (m x).size) e t.2.2 in
      let stays : after_object type align_up m a x ≡ x =
        inner x (omega (arith, there, t.1, k)) (omega (arith, below, t.2.1)) in
      let more =
        walk_visits a rest ring n after low e inner end x ps (refl, t.2.1, t.2.2) l.1
          (omega (arith, there, h)) (omega (arith, there, k)) in
      let nonzero : (x == 0) ≡ false = ground (arith, there, h) in
      λ j b.
        visit_one (length (x ∷ ps) + n) (record { arenas = a ∷ rest; ring = ring; ptr = p })
          ((x ∷ ps) ++ after) (ground (arith, h)) (rw (l.0, sym there, stays, nonzero) more) j
          (omega (arith, b))

  -- The two parts of an arena, empty or not.
  pub empty_part : (a b : ℕ) → Tiles m a [] b → (a == b) ≡ true
  empty_part a b t = ground (arith, t)

  pub full_part :
      (a b p : ℕ) (ps : List ℕ) → Tiles m a (p ∷ ps) b → ((a == b) ≡ false) × (p ≡ a) × (a < b)
  full_part a b p ps t =
      let below = Tiles-le m ps (p + (m p).size) b t.2 in
      (ground (arith, t.0, t.1, below), t.0, omega (arith, t.0, t.1, below))
