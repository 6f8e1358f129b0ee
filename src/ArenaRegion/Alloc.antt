-- ===== src/ArenaRegion/Alloc.antt =====
-- An allocation in an arena region.
pub mod Last
pub mod Keeps
use verona_rt_gc_bench.Base.{
  ℕ, ◌+◌, ◌-◌, ◌≡◌, ◌≤◌, ◌<◌, ◌⊎◌, inl, inr, refl, sym, ap, ◌∙◌, Bool, true, false, not, ltb, ◌||◌,
  ◌==◌, if◌then◌else◌, List, [], ◌∷◌, ◌++◌, arith, Bool-cases, eq_of_test, All, All-append, elem,
  elem-append, length, length-append, ==_self, ltb→lt, subst,
}
use verona_rt_gc_bench.Object.{Obj, Mem, write, is_trivial, init_next}
use verona_rt_gc_bench.ArenaRegion.{
  Arena, Region, arena_size, non_trivial_end, new_arena, free_space, alloc_obj, alloc_in,
  alloc_internal, alloc, needs_arena, register_object,
}
use verona_rt_gc_bench.ArenaRegion.Layout.{
  Tiles, Content, IsArena, IsArenas, Outside, Apart, PairwiseApart, contained, sizes, objects,
  IsRegion, Agree, Kind, Agree-sizes, Tiles-le, Tiles-snoc, sizes-append, IsArena-Agree,
  IsArena-write, IsArenas-write,
}

abbrev pub add_object : Bool → ℕ → Content → Content
add_object true p c = record c { trivials = c.trivials ++ p ∷ [] }
add_object false p c = record c { non_trivials = p ∷ c.non_trivials }

-- What an allocation at p leaves of an arena: room for the object, and the object in its place.
pub record Placed (m : Mem) (o : Obj) (a : Arena) (c : Content) (p : ℕ) (b : Arena) : Type 0 where
  pub free : (a.objects_end ≤ p) × (p < a.non_trivial_begin)
  pub same_block : b.objects_begin ≡ a.objects_begin
  pub arena : IsArena (register_object p o m) b (add_object (is_trivial o) p c)

pub write_here : (m : Mem) (p : ℕ) (o : Obj) → write m p o p ≡ o
write_here m p o = rw (==_self p) refl

module _ (m : Mem) (o : Obj) (a : Arena) (c : Content) (i : IsArena m a c) (h : 1 ≤ o.size)
    (k : o.size ≤ free_space a) where
  at_start :
      is_trivial o ≡ true
      → Placed m o a c a.objects_end (record a { objects_end = a.objects_end + o.size })
  at_start e =
      let p = a.objects_end in
      let free : (a.objects_end ≤ p) × (p < a.non_trivial_begin) =
        (omega arith, omega (arith, h, k)) in
      let j = IsArena-write m p (init_next o 0) a c i (inl free) in
      let here = write_here m p (init_next o 0) in
      let size : (register_object p o m p).size ≡ o.size = ap (λ x. x.size) here in
      let after : IsArena (register_object p o m)
          (record a { objects_end = a.objects_end + o.size }) (add_object true p c) =
        record {
          trivial_tiles =
              subst
                (λ n. Tiles (register_object p o m) a.objects_begin (c.trivials ++ p ∷ []) (p + n))
                size
                (Tiles-snoc (register_object p o m) c.trivials a.objects_begin p j.trivial_tiles
                  (omega (arith, h, size)));
          gap = omega (arith, k, h);
          non_trivial_tiles = j.non_trivial_tiles;
          trivial_kind =
              All-append _ c.trivials (p ∷ []) j.trivial_kind (ap is_trivial here ∙ e, tt);
          non_trivial_kind = j.non_trivial_kind;
        } in
      record {
        free = free;
        same_block = refl;
        arena =
            subst
              (λ b.
                IsArena (register_object p o m) (record a { objects_end = a.objects_end + o.size })
                  (add_object b p c))
              (sym e) after;
      }

  at_far_end :
      is_trivial o ≡ false
      → (let p = a.non_trivial_begin - o.size in
          Placed m o a c p (record a { non_trivial_begin = p }))
  at_far_end e =
      let p = a.non_trivial_begin - o.size in
      let free : (a.objects_end ≤ p) × (p < a.non_trivial_begin) =
        (omega (arith, k, i.gap), omega (arith, h, k)) in
      let j = IsArena-write m p (init_next o 0) a c i (inl free) in
      let here = write_here m p (init_next o 0) in
      let size : (register_object p o m p).size ≡ o.size = ap (λ x. x.size) here in
      let after : IsArena (register_object p o m) (record a { non_trivial_begin = p })
          (add_object false p c) =
        record {
          trivial_tiles = j.trivial_tiles;
          gap = free.0;
          non_trivial_tiles = (
            refl,
            omega (arith, h, size),
            subst (λ n. Tiles (register_object p o m) n c.non_trivials (non_trivial_end a))
                (omega (arith, size, k, h)) j.non_trivial_tiles,
          );
          trivial_kind = j.trivial_kind;
          non_trivial_kind = (ap is_trivial here ∙ e, j.non_trivial_kind);
        } in
      record {
        free = free;
        same_block = refl;
        arena =
            subst
              (λ b.
                IsArena (register_object p o m) (record a { non_trivial_begin = p })
                  (add_object b p c))
              (sym e) after;
      }

  pub alloc_obj-Placed : (let (p, b) = alloc_obj o a in Placed m o a c p b)
  unfolding alloc_obj
  alloc_obj-Placed = elim (Bool-cases (is_trivial o)) [
    | inl e ↦ rw e (at_start e)
    | inr e ↦ rw e (at_far_end e)
  ]

abbrev pub held : Content → List ℕ
held c = c.trivials ++ c.non_trivials

pub added_sizes :
    (t : Mem) (b : Bool) (p : ℕ) (c : Content)
    → sizes t (held (add_object b p c)) ≡ (t p).size + sizes t (held c)
added_sizes t true p c = omega (
  arith,
  sizes-append t (c.trivials ++ p ∷ []) c.non_trivials,
  sizes-append t c.trivials (p ∷ []),
  sizes-append t c.trivials c.non_trivials,
)
added_sizes t false p c = omega (
  arith,
  sizes-append t c.trivials (p ∷ c.non_trivials),
  sizes-append t c.trivials c.non_trivials,
)

pub added_length :
    (b : Bool) (p : ℕ) (c : Content) → length (held (add_object b p c)) ≡ length (held c) + 1
added_length true p c = omega (
  arith,
  length-append (c.trivials ++ p ∷ []) c.non_trivials,
  length-append c.trivials (p ∷ []),
  length-append c.trivials c.non_trivials,
)
added_length false p c =
    omega (
      arith,
      length-append c.trivials (p ∷ c.non_trivials),
      length-append c.trivials c.non_trivials,
    )

pub added_elem :
    (b : Bool) (p : ℕ) (c : Content) (q : ℕ)
    → elem q (held (add_object b p c)) ≡ ((q == p) || elem q (held c))
added_elem true p c q = ground (
  arith,
  elem-append q (c.trivials ++ p ∷ []) c.non_trivials,
  elem-append q c.trivials (p ∷ []),
  elem-append q c.trivials c.non_trivials,
)
added_elem false p c q =
    ground (
      arith,
      elem-append q c.trivials (p ∷ c.non_trivials),
      elem-append q c.trivials c.non_trivials,
    )

-- The region s with the contents ds has the object o at p besides those of r.
pub record Grown (m : Mem) (r : Region) (cs : List Content) (o : Obj) (p : ℕ) (s : Region)
    (ds : List Content) : Type 0 where
  pub region : IsRegion (register_object p o m) s ds
  pub added : (q : ℕ) → elem q (objects ds s) ≡ ((q == p) || elem q (objects cs r))
  pub kept : Agree m (register_object p o m) (objects cs r)

pub others_agree :
    (m : Mem) (p : ℕ) (o : Obj) (ps : List ℕ)
    → All (λ q. (p == q) ≡ false) ps
    → Agree m (write m p o) ps
others_agree m p o [] h = tt
others_agree m p o (q ∷ ps) h = (rw h.0 refl, others_agree m p o ps h.1)

-- An address inside an arena's block is outside of the other blocks, and is no large object.
pub disjoint_inside :
    (p : ℕ) (a : Arena) (rest : List Arena)
    → a.objects_begin ≤ p
    → p < non_trivial_end a
    → All (Apart a) rest
    → All (Outside p) rest
disjoint_inside p a [] h k f = tt
disjoint_inside p a (b ∷ rest) h k (inl e, f) =
    (inl (omega (arith, e, k)), disjoint_inside p a rest h k f)
disjoint_inside p a (b ∷ rest) h k (inr e, f) =
    (inr (omega (arith, e, h)), disjoint_inside p a rest h k f)

pub inside_other :
    (p : ℕ) (a : Arena) (q : ℕ)
    → a.objects_begin ≤ p
    → p < non_trivial_end a
    → Outside q a
    → (p == q) ≡ false
inside_other p a q h k (inl e) = ground (arith, e, h)
inside_other p a q h k (inr e) = ground (arith, e, k)
