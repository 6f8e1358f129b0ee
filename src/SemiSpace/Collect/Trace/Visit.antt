-- ===== src/SemiSpace/Collect/Trace/Visit.antt =====
-- The `switch` on a field, and the loop over the fields of an object, keep the invariant.
use mathlib.Core.List.{append-nil, append_assoc}
use verona_rt_gc_bench.Base.{
  ℕ, ◌+◌, ◌≤◌, ◌<◌, ◌≡◌, inl, inr, refl, false, List, [], ◌∷◌, ◌++◌, arith, elem, ◌∈◌, ◌∉◌, All,
  All-map, ◌∙◌, Returns, returns, Bool-cases, length-append, Returns-bind, Returns-mono,
}
use verona_rt_gc_bench.Object.{
  RegionMd, unmarked, marked, scc_ptr, rc, iso, pending, nonatomic_rc, shared, open_iso, Mem, write,
  is_marked, is_unmarked, mark,
}
use verona_rt_gc_bench.RememberedSet.{RSet}
use verona_rt_gc_bench.SemiSpace.{Region, is_in_space}
use verona_rt_gc_bench.SemiSpace.Layout.{unmarked_bytes, unmarked_one, total-write_out}
use verona_rt_gc_bench.SemiSpace.Collect.{Gc, visit_class, visit, visit_all}
use verona_rt_gc_bench.SemiSpace.Collect.Heap.{IsHeap, IsField, Reach, Handled}
use verona_rt_gc_bench.SemiSpace.Collect.Trace.Defs.{Inv, Visited, Copied-le, Copied-frame}
use verona_rt_gc_bench.SemiSpace.Collect.Trace.Copy.{object_place, copy_object-Visited}

module _ (up : ℕ → ℕ) (grows : (n : ℕ) → n ≤ up n) (r : Region) (m₀ : Mem) (root : ℕ)
    (objs : List ℕ) (heap : IsHeap up r m₀ root objs) (done : List ℕ) (scan : ℕ) where
  positive : (a : ℕ) → a ∈ objs → 0 < up (m₀ a).size
  positive a h = (object_place up grows r m₀ root objs heap a h).0

  module _ (todo : List ℕ) (g : Gc) (inv : Inv up r m₀ root objs done todo scan g) where
    -- A change of the remembered set alone.
    rset-Visited : (s : RSet) → Visited up r m₀ root objs done todo scan g (record g { rset = s })
    rset-Visited s = record {
      extra = [];
      inv = rw append-nil (record {
        scanned = inv.scanned;
        waiting = inv.waiting;
        known = inv.known;
        kept = inv.kept;
        outside = inv.outside;
        room = inv.room;
        closed = inv.closed;
        reach = inv.reach;
      });
      grow = λ a h k. k;
      count = omega arith;
    }

    module _ (f : ℕ) (field : IsField r objs f) where
      not_object : is_in_space f r.from_space r.semispace_size ≡ false → f ∉ objs
      not_object out = elim (Bool-cases (elem f objs)) [
        | inl i ↦ cc (out, (object_place up grows r m₀ root objs heap f i).1)
        | inr o ↦ o
      ]

      -- An object of from-space has no other classes than these two.
      object_class : f ∈ objs → is_marked (g.mem f).cls ≡ false → (g.mem f).cls ≡ unmarked
      object_class i h = rw (inv.kept f i h) (heap.fresh f i)

      -- A large object gains its mark.
      mark-Visited :
          (g.mem f).cls ≡ unmarked
          → f ∉ objs
          → Visited up r m₀ root objs done todo scan g
              (record g { mem = write g.mem f (mark (g.mem f)) })
      mark-Visited new out =
          let m' : Mem = write g.mem f (mark (g.mem f)) in
          let bounds : (r.to_space ≤ scan) × (scan ≤ g.free) = (
            Copied-le up objs m₀ positive g.mem done r.to_space scan inv.scanned,
            Copied-le up objs m₀ positive g.mem todo scan g.free inv.waiting,
          ) in
          let below : g.free ≤ r.to_space + r.semispace_size = omega (arith, inv.room) in
          let same : (a : ℕ) → a ∈ objs → m' a ≡ g.mem a = λ a h. ground (arith, out) in
          let near : (a : ℕ) → r.to_space ≤ a → a < g.free → m' a ≡ g.mem a =
            λ a lo hi. ground (arith, field.0, below) in
          record {
            extra = [];
            inv = rw append-nil (record {
              scanned =
                  Copied-frame up objs m₀ positive g.mem m' done r.to_space scan
                    (λ a lo hi. near a lo (omega (arith, bounds))) (λ a h k. same a h) inv.scanned;
              waiting =
                  Copied-frame up objs m₀ positive g.mem m' todo scan g.free
                    (λ a lo hi. near a (omega (arith, bounds)) hi) (λ a h k. same a h) inv.waiting;
              known = λ a h k. inv.known a h (rw (← same a h) k);
              kept = λ a h k. same a h ∙ inv.kept a h (rw (← same a h) k);
              outside = λ a h k. ground (arith, inv.outside a h k);
              room = omega (
                arith,
                inv.room,
                total-write_out (unmarked_bytes up) g.mem f (mark (g.mem f)) objs out,
              );
              closed = λ a h.
                  All-map (Handled objs g.mem) (Handled objs m') (m₀ a).fields
                    (λ x was i. rw (same x i) (was i)) (inv.closed a h);
              reach = inv.reach;
            });
            grow = λ a h k. rw (same a h) k;
            count = omega (arith, total-write_out unmarked_one g.mem f (mark (g.mem f)) objs out);
          }

      abbrev Done : Gc → Type 0
      Done g' = Visited up r m₀ root objs done todo scan g g' × Handled objs g'.mem f

      -- A field of a class that no unmarked object of from-space has.
      other : is_unmarked (g.mem f).cls ≡ false → (s : RSet) → Done (record g { rset = s })
      other h s = (
        rset-Visited s,
        λ i. elim (Bool-cases (is_marked (g.mem f).cls)) [
          | inl y ↦ y
          | inr n ↦ cc (object_class i n)
        ],
      )

      visit_class-Done :
          (c : RegionMd)
          → (g.mem f).cls ≡ c
          → (f ∈ objs → Reach m₀ root objs f)
          → Returns Done (visit_class up r c g f)
      unfolding visit_class
      visit_class-Done unmarked e reached =
          elim (Bool-cases (is_in_space f r.from_space r.semispace_size)) [
            | inl i ↦ rw i (
                Returns-mono
                  (copy_object-Visited up grows r m₀ root objs heap done todo scan g inv f
                    (field.1 i) e (reached (field.1 i)))
                  (λ g' (v, k). (v, λ _. k)))
            | inr o ↦
                rw (o, field.0) (returns (mark-Visited e (not_object o), λ i. cc (not_object o)))
          ]
      visit_class-Done scc_ptr e reached = returns (other (rw e refl) _)
      visit_class-Done rc e reached = returns (other (rw e refl) _)
      visit_class-Done shared e reached = returns (other (rw e refl) _)
      visit_class-Done marked e reached = returns (other (rw e refl) g.rset)
      visit_class-Done iso e reached = returns (other (rw e refl) g.rset)
      visit_class-Done pending e reached = returns (other (rw e refl) g.rset)
      visit_class-Done nonatomic_rc e reached = returns (other (rw e refl) g.rset)
      visit_class-Done open_iso e reached = returns (other (rw e refl) g.rset)

      pub visit-Done : (f ∈ objs → Reach m₀ root objs f) → Returns Done (visit up r g f)
      unfolding visit
      visit-Done reached = visit_class-Done (g.mem f).cls refl reached

  -- The extra copies of two visits, one behind the other.
  Visited-trans :
      (todo : List ℕ) (g g₁ g₂ : Gc) (v : Visited up r m₀ root objs done todo scan g g₁)
      → Visited up r m₀ root objs done (todo ++ v.extra) scan g₁ g₂
      → Visited up r m₀ root objs done todo scan g g₂
  Visited-trans todo g g₁ g₂ v w = record {
    extra = v.extra ++ w.extra;
    inv = rw (← append_assoc) w.inv;
    grow = λ a h k. w.grow a h (v.grow a h k);
    count = omega (arith, v.count, w.count, length-append v.extra w.extra);
  }

  -- All fields of a stack are handled.
  pub visit_all-Visited :
      (fs todo : List ℕ) (g : Gc)
      → Inv up r m₀ root objs done todo scan g
      → All (IsField r objs) fs
      → All (λ f. f ∈ objs → Reach m₀ root objs f) fs
      → Returns
          (λ g'. Visited up r m₀ root objs done todo scan g g' × All (Handled objs g'.mem) fs)
          (visit_all up r fs g)
  unfolding visit_all
  visit_all-Visited [] todo g inv ok reached = returns (rset-Visited todo g inv g.rset, tt)
  visit_all-Visited (f ∷ fs) todo g inv ok reached =
      Returns-bind (visit-Done todo g inv f ok.0 reached.0) λ g₁ (v, here).
        Returns-mono (visit_all-Visited fs (todo ++ v.extra) g₁ v.inv ok.1 reached.1)
          λ g₂ (w, rest). (Visited-trans todo g g₁ g₂ v w, (λ i. w.grow f i (here i), rest))
