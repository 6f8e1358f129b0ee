-- ===== src/SemiSpace/Collect/Trace/Copy.antt =====
-- `copy_object` on an object of from-space without a mark: there is room, and the invariant holds.
use verona_rt_gc_bench.Base.{
  ℕ, ◌+◌, ◌≤◌, ◌<◌, ◌≡◌, inl, inr, refl, true, false, List, [], ◌∷◌, ◌++◌, arith, ◌==◌, elem, ◌∈◌,
  ◌∉◌, All-map, some, Returns, returns, ltb, elem-append, Distinct, Bool-cases, subst, eq_of_test,
}
use verona_rt_gc_bench.Object.{
  unmarked, Obj, Mem, write, is_marked, init_next, set_forwarding_pointer,
}
use verona_rt_gc_bench.SemiSpace.{Region, is_in_space}
use verona_rt_gc_bench.SemiSpace.Layout.{
  total, unmarked_bytes, unmarked_one, total-write, total-write_out, le-total, Tiled-within,
  Tiled-Distinct,
}
use verona_rt_gc_bench.SemiSpace.Collect.{Gc, copy_object}
use verona_rt_gc_bench.SemiSpace.Collect.Heap.{IsHeap, Reach, Copied, Handled}
use verona_rt_gc_bench.SemiSpace.Collect.Trace.Defs.{
  Inv, Visited, Copied-le, Copied-frame, Copied-snoc,
}

-- Memory after the copy of the object at `f` to `q`.
abbrev copied_mem : Mem → (f q : ℕ) → Mem
copied_mem m f q = write (write m q (init_next (m f) 0)) f (set_forwarding_pointer (m f) q)

module _ (up : ℕ → ℕ) (grows : (n : ℕ) → n ≤ up n) (r : Region) (m₀ : Mem) (root : ℕ)
    (objs : List ℕ) (heap : IsHeap up r m₀ root objs) where
  open heap use {tiled, within, apart}

  -- Objects of from-space are not empty, and lie in from-space and so out of to-space.
  pub object_place :
      (a : ℕ)
      → a ∈ objs
      → (0 < up (m₀ a).size)
        × (is_in_space a r.from_space r.semispace_size ≡ true)
        × (is_in_space a r.to_space r.semispace_size ≡ false)
  object_place a h =
      let place = Tiled-within up grows m₀ objs r.from_space r.alloc_ptr a tiled h in
      let inside : is_in_space a r.from_space r.semispace_size ≡ true =
        ground (arith, place, grows (m₀ a).size, within) in
      (omega (arith, place, grows (m₀ a).size), inside, apart a inside)

  pub objects-Distinct : Distinct objs
  objects-Distinct = Tiled-Distinct up grows m₀ objs r.from_space r.alloc_ptr tiled

  module _ (done todo : List ℕ) (scan : ℕ) (g : Gc) (inv : Inv up r m₀ root objs done todo scan g)
      (f : ℕ) (is_object : f ∈ objs) (new : (g.mem f).cls ≡ unmarked) where
    abbrev m' : Mem
    m' = copied_mem g.mem f g.free

    original : g.mem f ≡ m₀ f
    original = inv.kept f is_object (rw new refl)

    positive : (a : ℕ) → a ∈ objs → 0 < up (m₀ a).size
    positive a h = (object_place a h).0

    -- There is room for the copy behind the copies, in to-space.
    free_place :
        (r.to_space ≤ scan)
        × (scan ≤ g.free)
        × (g.free + up (m₀ f).size ≤ r.to_space + r.semispace_size)
        × (is_in_space g.free r.to_space r.semispace_size ≡ true)
    free_place = ground (
      arith,
      original,
      positive f is_object,
      Copied-le up objs m₀ positive g.mem done r.to_space scan inv.scanned,
      Copied-le up objs m₀ positive g.mem todo scan g.free inv.waiting,
      inv.room,
      le-total (unmarked_bytes up) g.mem f objs is_object,
    )

    free_out : g.free ∉ objs
    free_out = elim (Bool-cases (elem g.free objs)) [
      | inl i ↦ cc (free_place.3, (object_place g.free i).2)
      | inr o ↦ o
    ]

    free_ne : (g.free == f) ≡ false
    free_ne = ground (arith, free_out, is_object)

    weigh :
        (w : Obj → ℕ)
        → w (set_forwarding_pointer (m₀ f) g.free) ≡ 0
        → total w m' objs + w (m₀ f) ≡ total w g.mem objs
    weigh w none_left =
        let mid : Mem = write g.mem g.free (init_next (g.mem f) 0) in
        ground (
          arith,
          original,
          free_ne,
          total-write w mid f (set_forwarding_pointer (g.mem f) g.free) objs objects-Distinct
              is_object,
          total-write_out w g.mem g.free (init_next (g.mem f) 0) objs free_out,
        )

    -- The object at `f` takes its bytes out of those without a mark.
    totals :
        (total (unmarked_bytes up) m' objs + up (m₀ f).size ≡ total (unmarked_bytes up) g.mem objs)
        × (total unmarked_one m' objs + 1 ≡ total unmarked_one g.mem objs)
    totals = ground (arith, original, weigh (unmarked_bytes up) refl, weigh unmarked_one refl)

    else_same : (a : ℕ) → (a == f) ≡ false → (a == g.free) ≡ false → m' a ≡ g.mem a
    else_same a h k = ground arith

    at_free : m' g.free ≡ init_next (m₀ f) 0
    at_free = ground (arith, free_ne, original)

    at_object : m' f ≡ set_forwarding_pointer (m₀ f) g.free
    at_object = ground (arith, original)

    object_ne_free : (a : ℕ) → a ∈ objs → (a == g.free) ≡ false
    object_ne_free a h = ground (arith, free_out)

    to_ne_object : (a : ℕ) → r.to_space ≤ a → a < g.free → (a == f) ≡ false
    to_ne_object a lo hi = ground (arith, (object_place f is_object).2, free_place)

    marked_same : (a : ℕ) → a ∈ objs → is_marked (g.mem a).cls ≡ true → m' a ≡ g.mem a
    marked_same a h k = else_same a (ground (arith, new)) (object_ne_free a h)

    grow : (a : ℕ) → a ∈ objs → is_marked (g.mem a).cls ≡ true → is_marked (m' a).cls ≡ true
    grow a h k = rw (marked_same a h k) k

    scanned : Copied up objs m₀ m' done r.to_space scan
    scanned =
        Copied-frame up objs m₀ positive g.mem m' done r.to_space scan
          (λ a lo hi.
            else_same a (to_ne_object a lo (omega (arith, free_place)))
              (ground (arith, free_place)))
          marked_same inv.scanned

    waiting : Copied up objs m₀ m' (todo ++ f ∷ []) scan (g.free + up (m₀ f).size)
    waiting =
        Copied-snoc up objs m₀ positive m' todo f scan g.free (g.free + up (m₀ f).size)
          (Copied-frame up objs m₀ positive g.mem m' todo scan g.free
            (λ a lo hi. else_same a (to_ne_object a (omega (arith, free_place)) hi) (ground arith))
            marked_same inv.waiting)
          (at_free, at_object, is_object, refl)

    copy-Inv :
        Reach m₀ root objs f
        → Inv up r m₀ root objs done
            (todo ++ f ∷ [])
            scan
            (record g { mem = m'; free = g.free + up (m₀ f).size })
    copy-Inv reached = record {
      scanned = scanned;
      waiting = waiting;
      known =
          λ a h k. ground (arith, elem-append a todo (f ∷ []), inv.known a h, object_ne_free a h);
      kept = λ a h k. ground (arith, inv.kept a h, object_ne_free a h);
      outside = λ a h k. ground (arith, inv.outside a h k, is_object, free_place);
      room = omega (arith, totals, inv.room);
      closed = λ a h.
          All-map (Handled objs g.mem) (Handled objs m') (m₀ a).fields (λ x was i. grow x i (was i))
            (inv.closed a h);
      reach = λ a h. elim (Bool-cases (f == a)) [
        | inl e ↦ subst (Reach m₀ root objs) (eq_of_test f a e) reached
        | inr n ↦ inv.reach a (ground (arith, elem-append a todo (f ∷ [])))
      ];
    }

    copy_object_lem :
        copy_object up g f (r.to_space + r.semispace_size)
        ≡ some (record g { mem = m'; free = g.free + up (m₀ f).size })
    unfolding copy_object
    copy_object_lem =
        let fits : ltb (r.to_space + r.semispace_size) (g.free + up (g.mem f).size) ≡ false =
          ground (arith, original, free_place) in
        let read : write g.mem g.free (init_next (g.mem f) 0) f ≡ g.mem f =
          ground (arith, free_ne) in
        rw (fits, read, original)

    -- The copy succeeds; the object is marked, and its copy waits to be scanned.
    pub copy_object-Visited :
        Reach m₀ root objs f
        → Returns
            (λ g'.
              Visited up r m₀ root objs done todo scan g g' × (is_marked (g'.mem f).cls ≡ true))
            (copy_object up g f (r.to_space + r.semispace_size))
    copy_object-Visited reached = rw copy_object_lem (
        returns (
          record { extra = f ∷ []; inv = copy-Inv reached; grow = grow; count = totals.1 },
          rw at_object refl,
        ))
