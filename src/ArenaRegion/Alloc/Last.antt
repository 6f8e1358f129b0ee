-- ===== src/ArenaRegion/Alloc/Last.antt =====
-- Allocations in the last arena of an arena region.
use verona_rt_gc_bench.Base.{
  ℕ, ◌+◌, ◌≡◌, ◌≤◌, ◌<◌, inl, inr, ap, false, ◌==◌, List, [], ◌∷◌, ◌++◌, arith, All, All-append,
  elem-append, length-append,
}
use verona_rt_gc_bench.Object.{Obj, Mem, is_trivial, init_next}
use verona_rt_gc_bench.ArenaRegion.{Arena, Region, arena_size, non_trivial_end, register_object}
use verona_rt_gc_bench.ArenaRegion.Layout.{
  Content, Outside, Apart, contained, IsRegion, Agree, Agree-sizes, Tiles-le, sizes-append,
  IsArena-Agree, IsArenas-write,
}
use verona_rt_gc_bench.ArenaRegion.Alloc.{
  Placed, Grown, add_object, held, write_here, added_sizes, added_length, added_elem, others_agree,
  disjoint_inside, inside_other,
}

-- A change of the head arena that keeps its block.
same_blocks :
    (a b : Arena) (rest : List Arena)
    → b.objects_begin ≡ a.objects_begin
    → All (Apart a) rest
    → All (Apart b) rest
same_blocks a b [] e h = tt
same_blocks a b (x ∷ rest) e (inl k, h) = (inl (omega (arith, k, e)), same_blocks a b rest e h)
same_blocks a b (x ∷ rest) e (inr k, h) = (inr (omega (arith, k, e)), same_blocks a b rest e h)

moved_large :
    (a b : Arena) (rest : List Arena) (large : List ℕ)
    → b.objects_begin ≡ a.objects_begin
    → All (λ p. All (Outside p) (a ∷ rest)) large
    → All (λ p. All (Outside p) (b ∷ rest)) large
moved_large a b rest [] e h = tt
moved_large a b rest (p ∷ ps) e ((inl k, l), h) =
    ((inl (omega (arith, k, e)), l), moved_large a b rest ps e h)
moved_large a b rest (p ∷ ps) e ((inr k, l), h) =
    ((inr (omega (arith, k, e)), l), moved_large a b rest ps e h)

large_elsewhere :
    (p : ℕ) (a : Arena) (rest : List Arena) (large : List ℕ)
    → a.objects_begin ≤ p
    → p < non_trivial_end a
    → All (λ q. All (Outside q) (a ∷ rest)) large
    → All (λ q. (p == q) ≡ false) large
large_elsewhere p a rest [] l k h = tt
large_elsewhere p a rest (q ∷ qs) l k h =
    (inside_other p a q l k h.0.0, large_elsewhere p a rest qs l k h.1)

pub large_sizes :
    (m t : Mem) (large : List ℕ)
    → Agree m t large
    → All (λ p. arena_size < (m p).size) large
    → All (λ p. arena_size < (t p).size) large
large_sizes m t [] g h = tt
large_sizes m t (p ∷ ps) g h = (rw g.0 h.0, large_sizes m t ps g.1 h.1)

abbrev pub region_of : List Arena → List ℕ → ℕ → ℕ → Region
region_of arenas large memory number = record {
  arenas = arenas;
  large = large;
  current_memory_used = memory;
  region_size = number;
}

-- The allocation in the last arena.
module _ (m : Mem) (o : Obj) (a : Arena) (rest : List Arena) (large : List ℕ) (c : Content)
    (cs : List Content) (memory number : ℕ)
    (i : IsRegion m (region_of (a ∷ rest) large memory number) (c ∷ cs)) where
  pub Placed-Grown :
      (p : ℕ) (b : Arena)
      → Placed m o a c p b
      → Grown m
          (region_of (a ∷ rest) large memory number)
          (c ∷ cs)
          o
          p
          (region_of (b ∷ rest) large (memory + o.size) (number + 1))
          (add_object (is_trivial o) p c ∷ cs)
  Placed-Grown p b l =
      let t = register_object p o m in
      let start = i.arenas.0 in
      let low : a.objects_begin ≤ p =
        omega (arith, l.free.0, Tiles-le m c.trivials _ _ start.trivial_tiles) in
      let high : p < non_trivial_end a =
        omega (arith, l.free.1, Tiles-le m c.non_trivials _ _ start.non_trivial_tiles) in
      let others =
        IsArenas-write m p (init_next o 0) rest cs i.arenas.1
          (disjoint_inside p a rest low high i.apart.0) in
      let (same_trivials, same_non_trivials) =
        IsArena-Agree m p (init_next o 0) a c start (inl l.free) in
      let same_large =
        others_agree m p (init_next o 0) large
          (large_elsewhere p a rest large low high i.large_outside) in
      let same_held = All-append _ c.trivials c.non_trivials same_trivials same_non_trivials in
      let kept =
        All-append _ (held c ++ contained cs) large
          (All-append _ (held c) (contained cs) same_held others.1) same_large in
      let size : (t p).size ≡ o.size = ap (λ x. x.size) (write_here m p (init_next o 0)) in
      let d = add_object (is_trivial o) p c in
      record {
        region = record {
          arenas = (l.arena, others.0);
          apart = (same_blocks a b rest l.same_block i.apart.0, i.apart.1);
          large_outside = moved_large a b rest large l.same_block i.large_outside;
          large_size = large_sizes m t large same_large i.large_size;
          memory = omega (
            arith,
            i.memory,
            size,
            added_sizes t (is_trivial o) p c,
            Agree-sizes m t (held c) same_held,
            Agree-sizes m t (contained cs) others.1,
            Agree-sizes m t large same_large,
            sizes-append t (held d ++ contained cs) large,
            sizes-append t (held d) (contained cs),
            sizes-append m (held c ++ contained cs) large,
            sizes-append m (held c) (contained cs),
          );
          number = omega (
            arith,
            i.number,
            added_length (is_trivial o) p c,
            length-append (held d ++ contained cs) large,
            length-append (held d) (contained cs),
            length-append (held c ++ contained cs) large,
            length-append (held c) (contained cs),
          );
        };
        added = λ q. ground (
          arith,
          added_elem (is_trivial o) p c q,
          elem-append q (held d ++ contained cs) large,
          elem-append q (held d) (contained cs),
          elem-append q (held c ++ contained cs) large,
          elem-append q (held c) (contained cs),
        );
        kept = kept;
      }
