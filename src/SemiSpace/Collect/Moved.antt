-- ===== src/SemiSpace/Collect/Moved.antt =====
-- The collection as a whole: what becomes of the objects that the root reaches.
use mathlib.Core.Option
use verona_rt_gc_bench.Base.{
  Option, ℕ, ◌+◌, ◌-◌, ◌≤◌, ◌<◌, ◌≡◌, true, false, List, arith, ◌==◌, elem, ◌∈◌, ◌∉◌, Bool-cases,
  if◌then◌else◌, ◌∙◌, ap, inl, inr, sym, ==_self, All-∈, subst, eq_of_test,
}
use verona_rt_gc_bench.Object.{Mem, is_marked, init_next, set_forwarding_pointer}
use verona_rt_gc_bench.SemiSpace.{Region, is_in_space, forward_if_moved, relocate, objects}
use verona_rt_gc_bench.SemiSpace.Layout.{Tiled, Tiled-within, Tiled-Distinct, objects-Tiled}
use verona_rt_gc_bench.SemiSpace.Collect.{Gc, Collected, update_object, update_all_pointers, finish}
use verona_rt_gc_bench.SemiSpace.Collect.Heap.{IsHeap, Reach, Copied}
use verona_rt_gc_bench.SemiSpace.Collect.Targets.{targets, Copied-Tiled, Copied-target}
use verona_rt_gc_bench.SemiSpace.Collect.Trace.Copy.{object_place}
use verona_rt_gc_bench.SemiSpace.Collect.Trace.Loop.{Exact, Reach-object}
use verona_rt_gc_bench.SemiSpace.Collect.Update.{
  NotFrom, SameFrom, update_object-SameFrom, update_all_pointers-at, sweep_large-out,
}

-- The heap after a collection, seen through the map `forward` from old addresses to new ones.
pub record Moved (up : ℕ → ℕ) (r : Region) (m₀ : Mem) (root : ℕ) (objs : List ℕ) (c : Collected)
    : Type 0 where
  pub forward : ℕ → ℕ
  pub stays : (f : ℕ) → is_in_space f r.from_space r.semispace_size ≡ false → forward f ≡ f
  pub root_moved : c.mem root ≡ relocate forward (m₀ root)
  pub copied :
      (a : ℕ) → Reach m₀ root objs a → c.mem (forward a) ≡ relocate forward (init_next (m₀ a) 0)
  pub placed :
      (a : ℕ)
      → Reach m₀ root objs a
      → (c.region.from_space ≤ forward a)
        × (forward a + up (m₀ a).size ≤ c.region.alloc_ptr)
        × (c.region.alloc_ptr ≤ c.region.from_space + c.region.semispace_size)
  pub injective :
      (a b : ℕ) → Reach m₀ root objs a → Reach m₀ root objs b → forward a ≡ forward b → a ≡ b

module _ (up : ℕ → ℕ) (grows : (n : ℕ) → n ≤ up n) (r : Region) (m₀ : Mem) (root : ℕ)
    (objs : List ℕ) (heap : IsHeap up r m₀ root objs)
    (large_out : (a : ℕ)
      → a ∈ r.large_objects
      → (is_in_space a r.from_space r.semispace_size ≡ false)
        × (is_in_space a r.to_space r.semispace_size ≡ false)
        × ((a == root) ≡ false)) where
  positive : (a : ℕ) → a ∈ objs → 0 < up (m₀ a).size
  positive a h = (object_place up grows r m₀ root objs heap a h).0

  module _ (g : Gc) (e : Exact up grows r m₀ root objs heap g) where
    abbrev pub qs : List ℕ
    qs = targets up m₀ e.olds r.to_space

    abbrev pub forward : ℕ → ℕ
    forward = forward_if_moved r.from_space r.semispace_size g.mem

    abbrev pub result : Collected
    result = finish up r root g

    copies : Copied up objs m₀ g.mem e.olds r.to_space g.free
    copies = e.inv.scanned

    pub qs-Tiled : Tiled up g.mem r.to_space g.free qs
    qs-Tiled = Copied-Tiled up grows r m₀ root objs heap g.mem e.olds r.to_space g.free copies

    -- What the walk of to-space in phase 3 meets.
    pub walk : objects up (g.free - r.to_space) g.mem r.to_space g.free ≡ qs
    walk =
        objects-Tiled up grows g.mem (g.free - r.to_space) qs r.to_space g.free qs-Tiled
          (omega arith)

    pub target_in :
        (q : ℕ)
        → q ∈ qs
        → (r.to_space ≤ q) × (q + up (g.mem q).size ≤ g.free) × (0 < (g.mem q).size)
    target_in q h = Tiled-within up grows g.mem qs r.to_space g.free q qs-Tiled h

    pub free_le : g.free ≤ r.to_space + r.semispace_size
    free_le = omega (arith, e.inv.room)

    pub target_to : (q : ℕ) → q ∈ qs → is_in_space q r.to_space r.semispace_size ≡ true
    target_to q h = ground (arith, target_in q h, free_le, grows (g.mem q).size)

    pub target_out : (q : ℕ) → q ∈ qs → NotFrom r q
    target_out q h = elim (Bool-cases (is_in_space q r.from_space r.semispace_size)) [
      | inl i ↦ cc (heap.apart q i, target_to q h)
      | inr o ↦ o
    ]

    abbrev updated : Mem
    updated = update_all_pointers r qs g.mem

    pub updated_at :
        (a : ℕ) → updated a ≡ (if elem a qs then update_object r g.mem (g.mem a) else g.mem a)
    updated_at =
        update_all_pointers-at r qs g.mem
          (Tiled-Distinct up grows g.mem qs r.to_space g.free qs-Tiled)
          (All-∈ (NotFrom r) qs target_out)

    updated-SameFrom : SameFrom r updated g.mem
    updated-SameFrom a h = elim (Bool-cases (elem a qs)) [
      | inl i ↦ cc (target_out a i)
      | inr o ↦ rw (updated_at a, o)
    ]

    -- The memory after phases 3 and 4 at an address that no large object has.
    pub final_at :
        (a : ℕ)
        → a ∉ r.large_objects
        → result.mem a ≡ (if root == a then update_object r g.mem (updated root) else updated a)
    unfolding finish
    final_at a h = rw walk (
        sweep_large-out r r.large_objects _ a h
        ∙ ap (λ o. if root == a then o else updated a)
            (update_object-SameFrom r updated g.mem (updated root) updated-SameFrom))

    -- The headers of from-space are as phases 1 and 2 have left them.
    pub final_from :
        (a : ℕ) → is_in_space a r.from_space r.semispace_size ≡ true → result.mem a ≡ g.mem a
    final_from a h = elim (Bool-cases (elem a r.large_objects)) [
      | inl i ↦ cc (h, (large_out a i).0)
      | inr o ↦
          let not_root : (root == a) ≡ false = elim (Bool-cases (root == a)) [
            | inl i ↦ cc (
              heap.root_from,
              subst (λ x. is_in_space x r.from_space r.semispace_size ≡ true)
                  (sym (eq_of_test root a i)) h,
            )
            | inr n ↦ n
          ] in
          final_at a o ∙ rw not_root (updated-SameFrom a h)
    ]

    root_out : root ∉ objs
    root_out = elim (Bool-cases (elem root objs)) [
      | inl i ↦ cc (heap.root_from, (object_place up grows r m₀ root objs heap root i).1)
      | inr o ↦ o
    ]

    pub root_not_target : root ∉ qs
    root_not_target = elim (Bool-cases (elem root qs)) [
      | inl i ↦ cc (heap.root_to, target_to root i)
      | inr o ↦ o
    ]

    root_not_large : root ∉ r.large_objects
    root_not_large = elim (Bool-cases (elem root r.large_objects)) [
      | inl i ↦ cc ((large_out root i).2, ==_self root)
      | inr o ↦ o
    ]

    root_kept : g.mem root ≡ m₀ root
    root_kept = elim (e.inv.outside root root_out heap.root_to) [
      | inl same ↦ same
      | inr large ↦ cc (large.0, heap.root_iso)
    ]

    pub root_final : result.mem root ≡ relocate forward (m₀ root)
    root_final =
        rw (final_at root root_not_large, ==_self root, updated_at root, root_not_target, root_kept)

    module _ (a : ℕ) (reached : Reach m₀ root objs a) where
      is_object : a ∈ objs
      is_object = Reach-object up grows r m₀ root objs heap reached

      marked_a : is_marked (g.mem a).cls ≡ true
      marked_a = (e.marked_iff a is_object).1 reached

      in_olds : a ∈ e.olds
      in_olds = ground (arith, e.inv.known a is_object marked_a)

      pub forward_a : forward a ≡ (g.mem a).payload
      forward_a = rw ((object_place up grows r m₀ root objs heap a is_object).1, marked_a)

      pub target :
          ((g.mem a).payload ∈ qs)
          × (g.mem (g.mem a).payload ≡ init_next (m₀ a) 0)
          × (g.mem a ≡ set_forwarding_pointer (m₀ a) (g.mem a).payload)
      target =
          Copied-target up grows r m₀ root objs heap g.mem e.olds r.to_space g.free a copies in_olds

      not_root : (root == (g.mem a).payload) ≡ false
      not_root = elim (Bool-cases (root == (g.mem a).payload)) [
        | inl i ↦ cc (root_not_target, subst (λ x. x ∈ qs) (sym (eq_of_test _ _ i)) target.0)
        | inr o ↦ o
      ]
