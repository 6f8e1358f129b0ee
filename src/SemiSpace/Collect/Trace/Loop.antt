-- ===== src/SemiSpace/Collect/Trace/Loop.antt =====
-- Phases 1 and 2 end, and mark exactly what the root reaches.
use mathlib.Core.List.{reverse, reverse-cons, reverse-reverse}
use verona_rt_gc_bench.Base.{
  ℕ, zero, suc, ◌+◌, ◌≤◌, ◌<◌, ◌≡◌, ◌↔◌, inl, inr, refl, true, false, List, [], ◌∷◌, ◌++◌, arith,
  ◌==◌, ◌∈◌, All, All-append, All-map, ◌-◌, length, Returns, returns, ltb, elem-append, Bool-cases,
  length-append, Returns-bind, Returns-mono, All-∈, subst, eq_of_test, All-∈_elim,
}
use verona_rt_gc_bench.Object.{Obj, Mem, is_marked, init_next}
use verona_rt_gc_bench.SemiSpace.{Region, from_objects}
use verona_rt_gc_bench.SemiSpace.Layout.{total, unmarked_one, Tiled-total, objects-Tiled}
use verona_rt_gc_bench.SemiSpace.Collect.{Gc, trace_object, scan_loop, trace_all}
use verona_rt_gc_bench.SemiSpace.Collect.Heap.{
  IsHeap, IsField, Reach, from_root, from_object, Handled,
}
use verona_rt_gc_bench.SemiSpace.Collect.Trace.Defs.{Inv, Visited, Copied-le, Copied-snoc}
use verona_rt_gc_bench.SemiSpace.Collect.Trace.Copy.{object_place}
use verona_rt_gc_bench.SemiSpace.Collect.Trace.Visit.{visit_all-Visited}

All-reverse {κ} : (P : ℕ → Type κ) (xs : List ℕ) → All P xs → All P (reverse xs)
All-reverse P [] h = tt
All-reverse P (x ∷ xs) h =
    rw reverse-cons (All-append P (reverse xs) (x ∷ []) (All-reverse P xs h.1) (h.0, tt))

All-of-reverse {κ} : (P : ℕ → Type κ) (xs : List ℕ) → All P (reverse xs) → All P xs
All-of-reverse P xs h = subst (All P) (reverse-reverse xs) (All-reverse P (reverse xs) h)

module _ (up : ℕ → ℕ) (grows : (n : ℕ) → n ≤ up n) (r : Region) (m₀ : Mem) (root : ℕ)
    (objs : List ℕ) (heap : IsHeap up r m₀ root objs) where
  positive : (a : ℕ) → a ∈ objs → 0 < up (m₀ a).size
  positive a h = (object_place up grows r m₀ root objs heap a h).0

  -- The object under the scan pointer has been traced.
  shift-Inv :
      (done rest : List ℕ) (p scan : ℕ) (g : Gc)
      → Inv up r m₀ root objs done (p ∷ rest) scan g
      → All (Handled objs g.mem) (m₀ p).fields
      → Inv up r m₀ root objs (done ++ p ∷ []) rest (scan + up (m₀ p).size) g
  shift-Inv done rest p scan g inv handled =
      let (copy, forward, is_object, later) = inv.waiting in
      record {
        scanned =
            Copied-snoc up objs m₀ positive g.mem done p r.to_space scan _ inv.scanned
              (copy, forward, is_object, refl);
        waiting = later;
        known = λ a h k. ground (arith, elem-append a done (p ∷ []), inv.known a h);
        kept = inv.kept;
        outside = inv.outside;
        room = inv.room;
        closed = λ a h. elim (Bool-cases (p == a)) [
          | inl e ↦ subst (λ x. All (Handled objs g.mem) (m₀ x).fields) (eq_of_test p a e) handled
          | inr n ↦ inv.closed a (ground (arith, elem-append a done (p ∷ [])))
        ];
        reach = λ a h. inv.reach a (ground (arith, elem-append a done (p ∷ [])));
      }

  trace_object-Visited :
      (o : Obj) (done todo : List ℕ) (scan : ℕ) (g : Gc)
      → Inv up r m₀ root objs done todo scan g
      → All (IsField r objs) o.fields
      → All (λ f. f ∈ objs → Reach m₀ root objs f) o.fields
      → Returns
          (λ g'. Visited up r m₀ root objs done todo scan g g' × All (Handled objs g'.mem) o.fields)
          (trace_object up r o g)
  unfolding trace_object
  trace_object-Visited o done todo scan g inv ok reached =
      Returns-mono
        (visit_all-Visited up grows r m₀ root objs heap done scan (reverse o.fields) todo g inv
          (All-reverse _ o.fields ok) (All-reverse _ o.fields reached))
        (λ g' (v, h). (v, All-of-reverse _ o.fields h))

  -- What the scan loop has done when it ends: no copy waits.
  pub record Traced (g g' : Gc) : Type 0 where
    pub olds : List ℕ
    pub inv : Inv up r m₀ root objs olds [] g'.free g'
    pub grow : (a : ℕ) → a ∈ objs → is_marked (g.mem a).cls ≡ true → is_marked (g'.mem a).cls ≡ true

  -- Fuel for the objects that are unmarked or wait is enough.
  scan_loop-Traced :
      (k : ℕ) (done todo : List ℕ) (scan : ℕ) (g : Gc)
      → Inv up r m₀ root objs done todo scan g
      → total unmarked_one g.mem objs + length todo < k
      → Returns (Traced g) (scan_loop up r k scan g)
  unfolding scan_loop
  scan_loop-Traced zero done todo scan g inv fuel = absurd (omega arith)
  scan_loop-Traced (suc k) done [] scan g inv fuel =
      let stop : ltb scan g.free ≡ false = ground (arith, inv.waiting) in
      rw stop (
        returns (record {
          olds = done;
          inv = subst (λ q. Inv up r m₀ root objs done [] q g) inv.waiting inv;
          grow = λ a h m. m;
        }))
  scan_loop-Traced (suc k) done (p ∷ rest) scan g inv fuel =
      let (copy, forward, is_object, later) = inv.waiting in
      let more : ltb scan g.free ≡ true = ground (
        arith,
        positive p is_object,
        Copied-le up objs m₀ positive g.mem rest (scan + up (m₀ p).size) g.free later,
      ) in
      let reached : Reach m₀ root objs p = inv.reach p (ground arith) in
      rw (more, copy)
        (Returns-bind
          (trace_object-Visited (init_next (m₀ p) 0) done (p ∷ rest) scan g inv
            (heap.fields p is_object) (All-∈ _ (m₀ p).fields (λ f i j. from_object reached i j)))
          λ g₁ (v, handled).
            Returns-mono
              (scan_loop-Traced k (done ++ p ∷ []) (rest ++ v.extra) (scan + up (m₀ p).size) g₁
                (shift-Inv done (rest ++ v.extra) p scan g₁ v.inv handled)
                (omega (arith, v.count, length-append rest v.extra)))
              λ g₂ t. record {
                olds = t.olds;
                inv = t.inv;
                grow = λ a h m. t.grow a h (v.grow a h m);
              })

  start-Inv :
      Inv up r m₀ root objs [] [] r.to_space (record { mem = m₀; free = r.to_space; rset = r.rset })
  start-Inv = record {
    scanned = refl;
    waiting = refl;
    known = λ a h k. cc (heap.fresh a h);
    kept = λ a h k. refl;
    outside = λ a h k. inl refl;
    room =
        omega
          (arith, heap.within, Tiled-total up grows m₀ objs r.from_space r.alloc_ptr heap.tiled);
    closed = λ a h. cc;
    reach = λ a h. cc;
  }

  -- The objects with a mark are those that the root reaches, each with its copy among the copies.
  pub record Exact (g : Gc) : Type 0 where
    pub olds : List ℕ
    pub inv : Inv up r m₀ root objs olds [] g.free g
    pub root_closed : All (Handled objs g.mem) (m₀ root).fields
    pub marked_iff : (a : ℕ) → a ∈ objs → (is_marked (g.mem a).cls ≡ true) ↔ Reach m₀ root objs a

  pub Reach-object : {a : ℕ} → Reach m₀ root objs a → a ∈ objs
  Reach-object (from_root i j) = j
  Reach-object (from_object reached i j) = j

  Reach-marked :
      (olds : List ℕ) (g : Gc)
      → Inv up r m₀ root objs olds [] g.free g
      → All (Handled objs g.mem) (m₀ root).fields
      → {a : ℕ} → Reach m₀ root objs a
      → is_marked (g.mem a).cls ≡ true
  Reach-marked olds g inv closed (from_root {f} i j) = All-∈_elim _ (m₀ root).fields f closed i j
  Reach-marked olds g inv closed (from_object {a} {f} reached i j) =
      let marked_a = Reach-marked olds g inv closed reached in
      let known : a ∈ olds = ground (arith, inv.known a (Reach-object reached) marked_a) in
      All-∈_elim _ (m₀ a).fields f (inv.closed a known) i j

  few : (m : Mem) (xs : List ℕ) → total unmarked_one m xs ≤ length xs
  few m [] = omega arith
  few m (a ∷ rest) = ground (arith, few m rest)

  -- The walk of from-space meets the objects of the heap.
  pub from_objects-objs : from_objects up r m₀ ≡ objs
  from_objects-objs =
      objects-Tiled up grows m₀ (r.alloc_ptr - r.from_space) objs r.from_space r.alloc_ptr
        heap.tiled (omega arith)

  -- On a well-formed heap phases 1 and 2 end, no copy runs out of space, and what they mark is
  -- exactly what the root reaches through objects of from-space.
  pub trace_all-Exact : Returns Exact (trace_all up r m₀ root)
  unfolding trace_all
  trace_all-Exact =
      let g : Gc = record { mem = m₀; free = r.to_space; rset = r.rset } in
      rw from_objects-objs (
        Returns-bind
          (trace_object-Visited (m₀ root) [] [] r.to_space g start-Inv heap.root_fields
            (All-∈ _ (m₀ root).fields (λ f i j. from_root i j)))
          λ g₁ (v, handled).
            Returns-mono
              (scan_loop-Traced (suc (length objs)) [] v.extra r.to_space g₁ v.inv
                (omega (arith, v.count, few m₀ objs)))
              λ g₂ t.
                let closed =
                  All-map (Handled objs g₁.mem) (Handled objs g₂.mem) (m₀ root).fields
                    (λ f h i. t.grow f i (h i)) handled in
                record {
                  olds = t.olds;
                  inv = t.inv;
                  root_closed = closed;
                  marked_iff = λ a h.
                      (λ m. t.inv.reach a (t.inv.known a h m), Reach-marked t.olds g₂ t.inv closed);
                })
