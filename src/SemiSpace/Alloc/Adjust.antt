-- ===== src/SemiSpace/Alloc/Adjust.antt =====
-- What growth does to the objects: they move with from-space, and every pointer to them with them.
use verona_rt_gc_bench.Base.{
  arith, ℕ, ◌||◌, ◌+◌, ◌-◌, ◌≤◌, ◌<◌, ◌≡◌, refl, true, false, List, [], ◌∷◌, map, ◌==◌, elem, ◌∈◌,
  ◌∉◌, Distinct, if◌then◌else◌, ap, subst,
}
use verona_rt_gc_bench.Object.{Mem, write}
use verona_rt_gc_bench.SemiSpace.{is_in_space, objects, relocate}
use verona_rt_gc_bench.SemiSpace.Layout.{
  Tiled, Tiled-within, Tiled-le, Tiled-Distinct, Tiled-sizes, objects-Tiled,
}
use verona_rt_gc_bench.SemiSpace.Alloc.{adjust_all, adjust_for_grow, memcpy, grow, State}

adjust_all-at :
    (f : ℕ → ℕ) (xs : List ℕ) (m : Mem) (a : ℕ)
    → Distinct xs
    → adjust_all f xs m a ≡ (if elem a xs then relocate f (m a) else m a)
unfolding adjust_all
adjust_all-at f [] m a d = refl
adjust_all-at f (x ∷ xs) m a d = ground (arith, adjust_all-at f xs (write m x (relocate f (m x))) a)

-- Where growth puts the object at `a`.
abbrev pub shift : (from new_from : ℕ) → ℕ → ℕ
shift from new_from a = a + new_from - from

elem-shift :
    (from new_from : ℕ) (xs : List ℕ) (a : ℕ)
    → a ∈ xs
    → shift from new_from a ∈ map (shift from new_from) xs
elem-shift from new_from [] a h = cc
elem-shift from new_from (x ∷ xs) a h = ground (arith, elem-shift from new_from xs a)

module _ (up : ℕ → ℕ) (grows : (n : ℕ) → n ≤ up n) (m : Mem) (from new_from stop : ℕ) where
  memcpy-at :
      (a : ℕ)
      → from ≤ a
      → a < stop
      → memcpy new_from from (stop - from) m (shift from new_from a) ≡ m a
  unfolding memcpy
  memcpy-at a lo hi =
      let inside : is_in_space (shift from new_from a) new_from (stop - from) ≡ true =
        ground arith in
      rw inside (ap m (omega arith))

  pub Tiled-memcpy :
      (objs : List ℕ) (p : ℕ)
      → from ≤ p
      → Tiled up m p stop objs
      → Tiled up
          (memcpy new_from from (stop - from) m)
          (shift from new_from p)
          (shift from new_from stop)
          (map (shift from new_from) objs)
  Tiled-memcpy [] p lo t = ap (shift from new_from) t
  Tiled-memcpy (a ∷ rest) p lo t =
      let end = Tiled-le up grows m rest (p + up (m a).size) stop t.2 in
      let same = memcpy-at a (omega arith) (omega (arith, grows (m a).size)) in
      (
        ap (shift from new_from) t.0,
        rw same t.1,
        rw same (
            subst
              (λ q.
                Tiled up (memcpy new_from from (stop - from) m) q (shift from new_from stop)
                  (map (shift from new_from) rest))
              (omega arith) (Tiled-memcpy rest (p + up (m a).size) (omega arith) t.2)),
      )

-- Growth finds its new space apart from the root and the large objects.
pub record Apart (s : State) (new_from : ℕ) : Type 0 where
  pub elsewhere : (new_from == s.region.from_space) ≡ false
  pub root_there : (s.region.pinned_iso == 0) ≡ false
  pub root_apart :
      is_in_space s.region.pinned_iso new_from (s.region.alloc_ptr - s.region.from_space) ≡ false
  pub root_large : s.region.pinned_iso ∉ s.region.large_objects
  pub large_apart :
      (a : ℕ)
      → a ∈ s.region.large_objects
      → is_in_space a new_from (s.region.alloc_ptr - s.region.from_space) ≡ false
  pub large_distinct : Distinct s.region.large_objects

module _ (up : ℕ → ℕ) (grows : (n : ℕ) → n ≤ up n) (new_from new_to needed : ℕ) (s : State)
    (objs : List ℕ) (tiled : Tiled up s.mem s.region.from_space s.region.alloc_ptr objs)
    (apart : Apart s new_from) where
  abbrev used : ℕ
  used = s.region.alloc_ptr - s.region.from_space

  abbrev moved : List ℕ
  moved = map (shift s.region.from_space new_from) objs

  abbrev copied : Mem
  copied = memcpy new_from s.region.from_space used s.mem

  abbrev adjust : ℕ → ℕ
  adjust = adjust_for_grow s.region.from_space used new_from

  start_le : s.region.from_space ≤ s.region.alloc_ptr
  start_le = Tiled-le up grows s.mem objs s.region.from_space s.region.alloc_ptr tiled

  moved-Tiled : Tiled up copied new_from (new_from + used) moved
  moved-Tiled =
      subst (λ q. Tiled up copied q (new_from + used) moved) (omega arith)
        (subst
          (λ q. Tiled up copied (shift s.region.from_space new_from s.region.from_space) q moved)
          (omega (arith, start_le))
          (Tiled-memcpy up grows s.mem s.region.from_space new_from s.region.alloc_ptr objs
            s.region.from_space (omega arith) tiled))

  moved_in : (a : ℕ) → a ∈ moved → is_in_space a new_from used ≡ true
  moved_in a h =
      let place = Tiled-within up grows copied moved new_from (new_from + used) a moved-Tiled h in
      ground (arith, place, grows (copied a).size)

  walk : objects up used copied new_from (new_from + used) ≡ moved
  walk =
      objects-Tiled up grows copied used moved new_from (new_from + used) moved-Tiled (omega arith)

  -- The memory after growth, address by address: every object once through the adjustment.
  pub grow-at :
      (a : ℕ)
      → (grow up new_from new_to needed s).mem a ≡ (
          if (elem a moved || elem a s.region.large_objects) || (s.region.pinned_iso == a)
          then relocate adjust (copied a)
          else copied a)
  unfolding grow
  grow-at a =
      let m₁ = adjust_all adjust moved copied in
      let m₂ = adjust_all adjust s.region.large_objects m₁ in
      let distinct = Tiled-Distinct up grows copied moved new_from (new_from + used) moved-Tiled in
      rw (apart.elsewhere, apart.root_there, walk)
        (ground (
          arith,
          adjust_all-at adjust (s.region.pinned_iso ∷ []) m₂ a (refl, tt),
          adjust_all-at adjust s.region.large_objects m₁ a apart.large_distinct,
          adjust_all-at adjust moved copied a distinct,
          moved_in a,
          apart.root_apart,
          apart.root_large,
          apart.large_apart a,
        ))

  pub grow-moves :
      let m' = (grow up new_from new_to needed s).mem in
      ((a : ℕ) → a ∈ objs → m' (shift s.region.from_space new_from a) ≡ relocate adjust (s.mem a))
      × ((a : ℕ) → a ∈ s.region.large_objects → m' a ≡ relocate adjust (s.mem a))
      × (m' s.region.pinned_iso ≡ relocate adjust (s.mem s.region.pinned_iso))
      × Tiled up m' new_from (new_from + used) moved
  unfolding memcpy
  grow-moves = (
    λ a h.
        let place =
          Tiled-within up grows s.mem objs s.region.from_space s.region.alloc_ptr a tiled h in
        let here = elem-shift s.region.from_space new_from objs a h in
        let same =
          memcpy-at up grows s.mem s.region.from_space new_from s.region.alloc_ptr a place.0
            (omega (arith, place, grows (s.mem a).size)) in
        rw (grow-at (shift s.region.from_space new_from a), here) (ap (relocate adjust) same),
    λ a h. let out = apart.large_apart a h in ground (arith, grow-at a, h, out),
    ground (arith, grow-at s.region.pinned_iso, apart.root_apart),
    Tiled-sizes up copied (grow up new_from new_to needed s).mem moved new_from (new_from + used)
        (λ a h. ground (arith, grow-at a, h)) moved-Tiled,
  )
