-- ===== src/SemiSpace/Alloc/Keeps.antt =====
-- The region's invariant: the layout of from-space, and the counts of objects and bytes.
use verona_rt_gc_bench.Base.{
  arith, ℕ, ◌||◌, ◌+◌, ◌-◌, ◌≤◌, ◌<◌, ◌≡◌, refl, true, false, List, [], ◌∷◌, ◌++◌, map, ◌==◌, elem,
  ◌∈◌, ◌∉◌, Bool-cases, inl, inr, ltb, length, length-append, ap, sym, subst, elem-append, Bool,
}
use verona_rt_gc_bench.Object.{Obj, Mem, write, init_next}
use verona_rt_gc_bench.RememberedSet.{RSet}
use verona_rt_gc_bench.SemiSpace.{is_in_space, large_object_threshold}
use verona_rt_gc_bench.SemiSpace.Layout.{
  Tiled, total, Tiled-within, Tiled-le, Tiled-sizes, total-write_out,
}
use verona_rt_gc_bench.SemiSpace.Alloc.{
  State, head_or_null, grown_size, grow, alloc_internal, create,
}
use verona_rt_gc_bench.SemiSpace.Alloc.Size.{grow-room}
use verona_rt_gc_bench.SemiSpace.Alloc.Adjust.{Apart, shift, grow-moves}

abbrev pub size_of : Obj → ℕ
size_of o = o.size

-- The objects `objs` fill from-space up to the bump pointer, and the counts are those of the root,
-- `objs` and the large objects, with `n` more objects and `b` more bytes.
pub record IsRegion (up : ℕ → ℕ) (s : State) (objs : List ℕ) (n b : ℕ) : Type 0 where
  pub tiled : Tiled up s.mem s.region.from_space s.region.alloc_ptr objs
  pub bump : s.region.alloc_ptr ≤ s.region.alloc_end
  pub ends : s.region.alloc_end ≡ s.region.from_space + s.region.semispace_size
  pub room : 0 < s.region.semispace_size
  pub objects : s.region.region_size ≡ 1 + length objs + length s.region.large_objects + n
  pub bytes :
      s.region.current_memory_used
      ≡ (s.mem s.region.pinned_iso).size
        + total size_of s.mem objs
        + total size_of s.mem s.region.large_objects
        + b
  pub root_out : is_in_space s.region.pinned_iso s.region.from_space s.region.semispace_size ≡ false
  pub large_out :
      (a : ℕ)
      → a ∈ s.region.large_objects
      → is_in_space a s.region.from_space s.region.semispace_size ≡ false

-- A new region is valid and has its root for its only object.
pub create-IsRegion :
    (up : ℕ → ℕ) (reg from_space to_space root : ℕ) (d : Obj) (rset : RSet) (m : Mem)
    → is_in_space root from_space 1048576 ≡ false
    → IsRegion up (create reg from_space to_space root d rset m) [] 0 0
unfolding create
create-IsRegion up reg from_space to_space root d rset m out = record {
  tiled = refl;
  bump = omega arith;
  ends = refl;
  room = omega arith;
  objects = refl;
  bytes = ground arith;
  root_out = out;
  large_out = λ a h. cc;
}

Tiled-snoc :
    (up : ℕ → ℕ) (m : Mem) (xs : List ℕ) (p q : ℕ)
    → Tiled up m p q xs
    → 0 < (m q).size
    → Tiled up m p (q + up (m q).size) (xs ++ q ∷ [])
Tiled-snoc up m [] p q t pos = (sym t, pos, ap (λ x. x + up (m q).size) t)
Tiled-snoc up m (a ∷ rest) p q t pos =
    (t.0, t.1, Tiled-snoc up m rest (p + up (m a).size) q t.2 pos)

total-append :
    (w : Obj → ℕ) (m : Mem) (xs ys : List ℕ) → total w m (xs ++ ys) ≡ total w m xs + total w m ys
total-append w m [] ys = omega arith
total-append w m (x ∷ xs) ys = omega (arith, total-append w m xs ys)

total-same :
    (w : Obj → ℕ) (m m' : Mem) (xs : List ℕ)
    → ((a : ℕ) → a ∈ xs → w (m' a) ≡ w (m a))
    → total w m' xs ≡ total w m xs
total-same w m m' [] same = refl
total-same w m m' (x ∷ xs) same =
    ground (arith, same x, total-same w m m' xs (λ a h. same a (ground arith)))

total-map :
    (w : Obj → ℕ) (m m' : Mem) (f : ℕ → ℕ) (xs : List ℕ)
    → ((a : ℕ) → a ∈ xs → w (m' (f a)) ≡ w (m a))
    → total w m' (map f xs) ≡ total w m xs
total-map w m m' f [] same = refl
total-map w m m' f (x ∷ xs) same =
    ground (arith, same x, total-map w m m' f xs (λ a h. same a (ground arith)))

length-map : (f : ℕ → ℕ) (xs : List ℕ) → length (map f xs) ≡ length xs
length-map f [] = refl
length-map f (x ∷ xs) = omega (arith, length-map f xs)

elem_last : (xs : List ℕ) (a : ℕ) (b : Bool) → (elem a (xs ++ a ∷ []) || b) ≡ true
elem_last xs a b = ground (arith, elem-append a xs (a ∷ []))

module _ (up : ℕ → ℕ) (grows : (n : ℕ) → n ≤ up n) where
  -- Growth keeps the invariant, with the objects where it has put them.
  pub grow-IsRegion :
      (new_from new_to needed : ℕ) (s : State) (objs : List ℕ) {n b : ℕ}
      → IsRegion up s objs n b
      → Apart s new_from
      → (let size = (grow up new_from new_to needed s).region.semispace_size in
          (is_in_space s.region.pinned_iso new_from size ≡ false)
          × ((a : ℕ) → a ∈ s.region.large_objects → is_in_space a new_from size ≡ false))
      → IsRegion up
          (grow up new_from new_to needed s)
          (map (shift s.region.from_space new_from) objs)
          n
          b
  unfolding grow
  grow-IsRegion new_from new_to needed s objs v apart out =
      let (objs_move, large_move, root_move, tiled') =
        grow-moves up grows new_from new_to needed s objs v.tiled apart in
      let fits = grow-room up new_from new_to needed s v.room in
      let m' = (grow up new_from new_to needed s).mem in
      record {
        tiled = tiled';
        bump = omega (arith, fits);
        ends = refl;
        room = omega (arith, fits.2);
        objects = rw length-map v.objects;
        bytes = omega (
          arith,
          v.bytes,
          ap size_of root_move,
          total-map size_of s.mem m' (shift s.region.from_space new_from) objs
              (λ a h. ap size_of (objs_move a h)),
          total-same size_of s.mem m' s.region.large_objects (λ a h. ap size_of (large_move a h)),
        );
        root_out = out.0;
        large_out = out.1;
      }

  -- An address of from-space that no object has.
  outside :
      (s : State) (objs : List ℕ) {n b : ℕ} (v : IsRegion up s objs n b)
      → s.region.alloc_ptr < s.region.alloc_end
      → ((s.region.pinned_iso == s.region.alloc_ptr) ≡ false)
        × (s.region.alloc_ptr ∉ s.region.large_objects)
        × (s.region.alloc_ptr ∉ objs)
  outside s objs v free =
      let q = s.region.alloc_ptr in
      let start = Tiled-le up grows s.mem objs s.region.from_space q v.tiled in
      let inside : is_in_space q s.region.from_space s.region.semispace_size ≡ true =
        ground (arith, start, v.ends) in
      (
        ground (arith, inside, v.root_out),
        (elim (Bool-cases (elem q s.region.large_objects)) [
          | inl i ↦ cc (inside, v.large_out q i)
          | inr o ↦ o
        ]),
        (elim (Bool-cases (elem q objs)) [
          | inl i ↦ absurd (
              omega (
                arith,
                Tiled-within up grows s.mem objs s.region.from_space q q v.tiled i,
                grows (s.mem q).size,
              ))
          | inr o ↦ o
        ]),
      )

  -- The bump allocation of an object that has been counted.
  place-IsRegion :
      (d : Obj) (s : State) (objs : List ℕ)
      → IsRegion up s objs 1 d.size
      → 0 < d.size
      → s.region.alloc_ptr + up d.size ≤ s.region.alloc_end
      → IsRegion up
          (record {
            region = record (s.region) { alloc_ptr = s.region.alloc_ptr + up d.size };
            mem = write s.mem s.region.alloc_ptr (init_next d 0);
          })
          (objs ++ s.region.alloc_ptr ∷ [])
          0
          0
  place-IsRegion d s objs v pos fits =
      let q = s.region.alloc_ptr in
      let (not_root, not_large, not_object) = outside s objs v (omega (arith, grows d.size)) in
      let m' : Mem = write s.mem q (init_next d 0) in
      let here : (m' q).size ≡ d.size = ground arith in
      record {
        tiled =
            subst (λ k. Tiled up m' s.region.from_space (q + up k) (objs ++ q ∷ [])) here
              (Tiled-snoc up m' objs s.region.from_space q
                (Tiled-sizes up s.mem m' objs s.region.from_space q
                  (λ a h. ground (arith, not_object)) v.tiled)
                (rw here pos));
        bump = fits;
        ends = v.ends;
        room = v.room;
        objects = omega (arith, v.objects, length-append objs (q ∷ []));
        bytes = ground (
          arith,
          v.bytes,
          here,
          not_root,
          total-append size_of m' objs (q ∷ []),
          total-write_out size_of s.mem q (init_next d 0) objs not_object,
          total-write_out size_of s.mem q (init_next d 0) s.region.large_objects not_large,
        );
        root_out = v.root_out;
        large_out = v.large_out;
      }

  -- A large object goes to the head of the list.
  large-IsRegion :
      (d : Obj) (large next : ℕ) (s : State) (objs : List ℕ)
      → IsRegion up s objs 1 d.size
      → is_in_space large s.region.from_space s.region.semispace_size ≡ false
      → (large == s.region.pinned_iso) ≡ false
      → large ∉ s.region.large_objects
      → IsRegion up
          (record {
            region = record (s.region) { large_objects = large ∷ s.region.large_objects };
            mem = write s.mem large (init_next d next);
          })
          objs
          0
          0
  large-IsRegion d large next s objs v out not_root not_large =
      let m' : Mem = write s.mem large (init_next d next) in
      let not_object : large ∉ objs = elim (Bool-cases (elem large objs)) [
        | inl i ↦
            let place =
              Tiled-within up grows s.mem objs s.region.from_space s.region.alloc_ptr large v.tiled
                i in
            ground (arith, out, place, v.bump, v.ends, grows (s.mem large).size)
        | inr o ↦ o
      ] in
      record {
        tiled =
            Tiled-sizes up s.mem m' objs s.region.from_space s.region.alloc_ptr
              (λ a h. ground (arith, not_object)) v.tiled;
        bump = v.bump;
        ends = v.ends;
        room = v.room;
        objects = omega (arith, v.objects);
        bytes = ground (
          arith,
          v.bytes,
          not_root,
          total-write_out size_of s.mem large (init_next d next) objs not_object,
          total-write_out size_of s.mem large (init_next d next) s.region.large_objects not_large,
        );
        root_out = v.root_out;
        large_out = λ a h. ground (arith, v.large_out a, out);
      }

-- What the allocator is relied on for: the new spaces, at the size that growth would give them, and
-- the place of a large object lie apart from what the region has.
pub record Fresh (up : ℕ → ℕ) (large new_from : ℕ) (d : Obj) (s : State) : Type 0 where
  pub apart : Apart s new_from
  pub root_new :
      is_in_space s.region.pinned_iso new_from
        (grown_size (s.region.alloc_ptr - s.region.from_space + up d.size) s.region.semispace_size)
      ≡ false
  pub large_new :
      (a : ℕ)
      → a ∈ s.region.large_objects
      → is_in_space a new_from (
          grown_size (s.region.alloc_ptr - s.region.from_space + up d.size) s.region.semispace_size)
        ≡ false
  pub large_out : is_in_space large s.region.from_space s.region.semispace_size ≡ false
  pub large_root : (large == s.region.pinned_iso) ≡ false
  pub large_distinct : large ∉ s.region.large_objects

module _ (up : ℕ → ℕ) (grows : (n : ℕ) → n ≤ up n) (large new_from new_to : ℕ) (d : Obj) (s : State)
    (objs : List ℕ) (v : IsRegion up s objs 0 0) (pos : 0 < d.size)
    (fresh : Fresh up large new_from d s) where
  abbrev counted : State
  counted = record s {
    region = record (s.region) {
      current_memory_used = s.region.current_memory_used + d.size;
      region_size = s.region.region_size + 1;
    };
  }

  counted-IsRegion : IsRegion up counted objs 1 d.size
  counted-IsRegion = record {
    tiled = v.tiled;
    bump = v.bump;
    ends = v.ends;
    room = v.room;
    objects = omega (arith, v.objects);
    bytes = omega (arith, v.bytes);
    root_out = v.root_out;
    large_out = v.large_out;
  }

  counted-Apart : Apart counted new_from
  counted-Apart = record {
    elsewhere = fresh.apart.elsewhere;
    root_there = fresh.apart.root_there;
    root_apart = fresh.apart.root_apart;
    root_large = fresh.apart.root_large;
    large_apart = fresh.apart.large_apart;
    large_distinct = fresh.apart.large_distinct;
  }

  grown-IsRegion :
      IsRegion up
        (grow up new_from new_to (up d.size) counted)
        (map (shift s.region.from_space new_from) objs)
        1
        d.size
  unfolding grow
  grown-IsRegion =
      grow-IsRegion up grows new_from new_to (up d.size) counted objs counted-IsRegion counted-Apart
        (fresh.root_new, fresh.large_new)

  -- `alloc_internal` keeps the invariant of a region, the counts included, whether the object is
  -- large, fits behind the bump pointer, or makes the spaces grow; and the object that it returns is
  -- one of the region's.
  pub alloc_internal-IsRegion :
      let (o, s') = alloc_internal up large new_from new_to d s in
      (objs' : List ℕ) × IsRegion up s' objs' 0 0
      × ((elem o objs' || elem o s'.region.large_objects) ≡ true)
  unfolding alloc_internal
  alloc_internal-IsRegion = elim (Bool-cases (ltb large_object_threshold (up d.size))) [
    | inl big ↦ rw big (
      objs,
      large-IsRegion up grows d large (head_or_null s.region.large_objects) counted objs
          counted-IsRegion fresh.large_out fresh.large_root fresh.large_distinct,
      ground arith,
    )
    | inr small ↦ elim (Bool-cases (ltb s.region.alloc_end (s.region.alloc_ptr + up d.size))) [
      | inl full ↦
          rw (small, full)
            (
              map (shift s.region.from_space new_from) objs
                  ++ (grow up new_from new_to (up d.size) counted).region.alloc_ptr ∷ [],
              place-IsRegion up grows d (grow up new_from new_to (up d.size) counted)
                  (map (shift s.region.from_space new_from) objs) grown-IsRegion pos
                  (grow-room up new_from new_to (up d.size) counted v.room).0,
              elem_last (map (shift s.region.from_space new_from) objs) _ _,
            )
      | inr room ↦
          rw (small, room)
            (
              objs ++ s.region.alloc_ptr ∷ [],
              place-IsRegion up grows d counted objs counted-IsRegion pos (ground arith),
              elem_last objs _ _,
            )
    ]
  ]
