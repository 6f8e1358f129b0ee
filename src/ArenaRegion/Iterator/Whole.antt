-- ===== src/ArenaRegion/Iterator/Whole.antt =====
-- A walk of the iterator of an arena region over one arena.
use verona_rt_gc_bench.Base.{
  ℕ, ◌+◌, ◌≡◌, ◌≤◌, inl, inr, refl, ap, ◌∙◌, false, not, ◌==◌, if◌then◌else◌, List, [], ◌∷◌, ◌++◌,
  arith, Bool-cases, length, subst, ==_self,
}
use verona_rt_gc_bench.Object.{Mem}
use verona_rt_gc_bench.SemiSpace.Iterator.{trivial, non_trivial, all_objects}
use verona_rt_gc_bench.ArenaRegion.{Arena, non_trivial_end}
use verona_rt_gc_bench.ArenaRegion.Layout.{Tiles, Tiles-le, Content, IsArena}
use verona_rt_gc_bench.ArenaRegion.Iterator.{init_for_arena_or_ring, visited}
use verona_rt_gc_bench.ArenaRegion.Iterator.Walk.{
  Yields, at_object, Aligned, walk_visits, empty_part, full_part,
}

module _ (align_up : ℕ → ℕ) (m : Mem) (a : Arena) (rest : List Arena) (ring : List ℕ) (n : ℕ)
    (after : List ℕ) (one : 1 ≤ a.objects_begin) where
  pub trivial_visits :
      (ps : List ℕ)
      → Tiles m a.objects_begin ps a.objects_end
      → Aligned trivial align_up m ps
      → Yields trivial align_up m n (init_for_arena_or_ring trivial align_up m rest ring) after
      → Yields trivial align_up m
          (length ps + n)
          (init_for_arena_or_ring trivial align_up m (a ∷ rest) ring)
          (ps ++ after)
  trivial_visits [] t l v = rw (empty_part trivial align_up m _ _ t) (λ j b. v j (omega (arith, b)))
  trivial_visits (p ∷ ps) t l v =
      let (differ, same, less) = full_part trivial align_up m _ _ p ps t in
      let nonzero : (a.objects_begin == 0) ≡ false = ground (arith, one) in
      rw (differ, nonzero)
        (subst
          (λ q.
            Yields trivial align_up m (length (p ∷ ps) + n)
              (record { arenas = a ∷ rest; ring = ring; ptr = q }) ((p ∷ ps) ++ after))
          same
          (walk_visits trivial align_up m a rest ring n after p a.objects_end
            (λ q h k. ground (arith, k)) (rw (==_self a.objects_end) v) p ps (refl, t.1, t.2) l
            (omega (arith, same, one)) (omega arith)))

  pub non_trivial_visits :
      (ps : List ℕ)
      → a.objects_begin ≤ a.non_trivial_begin
      → Tiles m a.non_trivial_begin ps (non_trivial_end a)
      → Aligned non_trivial align_up m ps
      → Yields non_trivial align_up m n
          (init_for_arena_or_ring non_trivial align_up m rest ring)
          after
      → Yields non_trivial align_up m
          (length ps + n)
          (init_for_arena_or_ring non_trivial align_up m (a ∷ rest) ring)
          (ps ++ after)
  non_trivial_visits [] o t l v =
      rw (empty_part non_trivial align_up m _ _ t) (λ j b. v j (omega (arith, b)))
  non_trivial_visits (p ∷ ps) o t l v =
      let (differ, same, less) = full_part non_trivial align_up m _ _ p ps t in
      let nonzero : (a.non_trivial_begin == 0) ≡ false = ground (arith, one, o) in
      rw (differ, nonzero)
        (subst
          (λ q.
            Yields non_trivial align_up m (length (p ∷ ps) + n)
              (record { arenas = a ∷ rest; ring = ring; ptr = q }) ((p ∷ ps) ++ after))
          same
          (walk_visits non_trivial align_up m a rest ring n after p (non_trivial_end a)
            (λ q h k. ground (arith, k)) (rw (==_self (non_trivial_end a)) v) p ps (refl, t.1, t.2)
            l (omega (arith, same, one, o)) (omega arith)))

  -- For all objects: from the end of the trivial ones on.
  back_visits :
      (ps : List ℕ)
      → a.objects_end ≤ a.non_trivial_begin
      → 1 ≤ a.non_trivial_begin
      → Tiles m a.non_trivial_begin ps (non_trivial_end a)
      → Aligned all_objects align_up m ps
      → Yields all_objects align_up m n
          (init_for_arena_or_ring all_objects align_up m rest ring)
          after
      → Yields all_objects align_up m
          (length ps + n)
          (at_object all_objects align_up m a rest ring
            (if not (a.non_trivial_begin == non_trivial_end a) then a.non_trivial_begin else 0))
          (ps ++ after)
  back_visits [] o s t l v =
      rw (empty_part all_objects align_up m _ _ t) (λ j b. v j (omega (arith, b)))
  back_visits (p ∷ ps) o s t l v =
      let (differ, same, less) = full_part all_objects align_up m _ _ p ps t in
      let nonzero : (a.non_trivial_begin == 0) ≡ false = ground (arith, s) in
      let other : (non_trivial_end a == a.objects_end) ≡ false = ground (arith, less, o) in
      rw (differ, nonzero)
        (subst
          (λ q.
            Yields all_objects align_up m (length (p ∷ ps) + n)
              (record { arenas = a ∷ rest; ring = ring; ptr = q }) ((p ∷ ps) ++ after))
          same
          (walk_visits all_objects align_up m a rest ring n after p (non_trivial_end a)
            (λ q h k. ground (arith, k, h, same, o)) (rw (==_self (non_trivial_end a), other) v) p
            ps (refl, t.1, t.2) l (omega (arith, same, s)) (omega arith)))

  no_front :
      Tiles m a.objects_begin [] a.objects_end
      → a.objects_end ≤ a.non_trivial_begin
      → init_for_arena_or_ring all_objects align_up m (a ∷ rest) ring
        ≡ at_object all_objects align_up m a rest ring
            (if not (a.non_trivial_begin == non_trivial_end a) then a.non_trivial_begin else 0)
  no_front t g =
      let nonzero : (a.non_trivial_begin == 0) ≡ false = ground (arith, one, t, g) in
      elim (Bool-cases (a.non_trivial_begin == non_trivial_end a)) [
        | inl e ↦ rw (empty_part all_objects align_up m _ _ t, e) refl
        | inr e ↦ rw (empty_part all_objects align_up m _ _ t, e, nonzero) refl
      ]

  pub all_visits :
      (c : Content)
      → IsArena m a c
      → Aligned all_objects align_up m c.trivials
      → Aligned all_objects align_up m c.non_trivials
      → Yields all_objects align_up m n
          (init_for_arena_or_ring all_objects align_up m rest ring)
          after
      → Yields all_objects align_up m
          (length c.trivials + (length c.non_trivials + n))
          (init_for_arena_or_ring all_objects align_up m (a ∷ rest) ring)
          (c.trivials ++ (c.non_trivials ++ after))
  all_visits c i l k v =
      let low = Tiles-le m c.trivials _ _ i.trivial_tiles in
      let some_place : 1 ≤ a.non_trivial_begin = omega (arith, one, low, i.gap) in
      let high = Tiles-le m c.non_trivials _ _ i.non_trivial_tiles in
      let back = back_visits c.non_trivials i.gap some_place i.non_trivial_tiles k v in
      front_visits c.trivials (c.non_trivials ++ after) (length c.non_trivials + n) i.gap high
        i.trivial_tiles l back
    where
      front_visits :
          (ps : List ℕ) (later : List ℕ) (j : ℕ)
          → a.objects_end ≤ a.non_trivial_begin
          → a.non_trivial_begin ≤ non_trivial_end a
          → Tiles m a.objects_begin ps a.objects_end
          → Aligned all_objects align_up m ps
          → Yields all_objects align_up m j
              (at_object all_objects align_up m a rest ring
                (if not (a.non_trivial_begin == non_trivial_end a) then a.non_trivial_begin else 0))
              later
          → Yields all_objects align_up m
              (length ps + j)
              (init_for_arena_or_ring all_objects align_up m (a ∷ rest) ring)
              (ps ++ later)
      front_visits [] later j g h t l v =
          λ x b. ap (visited all_objects align_up m x) (no_front t g) ∙ v x (omega (arith, b))
      front_visits (p ∷ ps) later j g h t l v =
          let (differ, same, less) = full_part all_objects align_up m _ _ p ps t in
          let nonzero : (a.objects_begin == 0) ≡ false = ground (arith, one) in
          rw (differ, nonzero)
            (subst
              (λ q.
                Yields all_objects align_up m (length (p ∷ ps) + j)
                  (record { arenas = a ∷ rest; ring = ring; ptr = q }) ((p ∷ ps) ++ later))
              same
              (walk_visits all_objects align_up m a rest ring j later p a.objects_end
                (λ q u k. ground (arith, k, g, h)) (rw (==_self a.objects_end) v) p ps
                (refl, t.1, t.2) l (omega (arith, same, one)) (omega arith)))
