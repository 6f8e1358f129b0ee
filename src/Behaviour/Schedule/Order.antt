-- ===== src/Behaviour/Schedule/Order.antt =====
-- The order in which the chains are acquired.
use verona_rt_gc_bench.Base.{
  ℕ, ◌≡◌, ◌≤◌, ◌<◌, refl, ap, ◌∙◌, sym, false, ◌==◌, List, [], ◌∷◌, map, arith, Bool-cases, inl,
  inr, eq_of_test, subst,
}
use verona_rt_gc_bench.Behaviour.Slot.{cown}
use verona_rt_gc_bench.Behaviour.Schedule.{Slots, Request, compare, prepare}
use verona_rt_gc_bench.Behaviour.Schedule.Chains.{Group, groups, chain_of, insert_front}
use verona_rt_gc_bench.Behaviour.Schedule.Loop.{Separate}
use verona_rt_gc_bench.Behaviour.Schedule.Prepare.{prepare-groups}

-- What std::sort promises: no request is to stand before the one before it.
abbrev Follows : Slots → Request → List Request → Type 0
Follows m r [] = Unit
Follows m r (q ∷ rs) = (compare m q r ≡ false) × Follows m q rs

abbrev pub Sorted : Slots → List Request → Type 0
Sorted m [] = Unit
Sorted m (r ∷ rs) = Follows m r rs

abbrev Above : ℕ → List ℕ → Type 0
Above n [] = Unit
Above n (x ∷ xs) = (n < x) × Above x xs

abbrev pub Ascending : List ℕ → Type 0
Ascending [] = Unit
Ascending (x ∷ xs) = Above x xs

compare-cown :
    (m : Slots) (r q : Request) → compare m q r ≡ false → cown (m r.slot) ≤ cown (m q.slot)
compare-cown m r q h = ground arith

module _ (m : Slots) where
  abbrev keys : List Group → List ℕ
  keys gs = map (λ g. cown (m g.first.slot)) gs

  abbrev AtMost : ℕ → List ℕ → Type 0
  AtMost n [] = Unit
  AtMost n (x ∷ xs) = n ≤ x

  insert_front-AtMost :
      (n : ℕ) (q : Request) (gs : List Group)
      → n ≤ cown (m q.slot)
      → AtMost n (keys (insert_front m q gs))
  insert_front-AtMost n q [] h = h
  insert_front-AtMost n q (g ∷ gs) h =
      elim (Bool-cases (cown (m q.slot) == cown (m g.first.slot))) [
        | inl e ↦ rw e h
        | inr e ↦ rw e h
      ]

  insert_front-Ascending :
      (r : Request) (gs : List Group)
      → AtMost (cown (m r.slot)) (keys gs)
      → Ascending (keys gs)
      → Ascending (keys (insert_front m r gs))
  insert_front-Ascending r [] h a = tt
  insert_front-Ascending r (g ∷ gs) h a =
      elim (Bool-cases (cown (m r.slot) == cown (m g.first.slot))) [
        | inl e ↦ rw e (subst (λ n. Above n (keys gs)) (sym (eq_of_test _ _ e)) a)
        | inr e ↦ rw e (ground (arith, e, h), a)
      ]

  groups-Ascending : (rs : List Request) → Sorted m rs → Ascending (keys (groups m rs))
  groups-Ascending [] s = tt
  groups-Ascending (r ∷ []) s = tt
  groups-Ascending (r ∷ q ∷ rs) s =
      insert_front-Ascending r (insert_front m q (groups m rs))
        (insert_front-AtMost _ q (groups m rs) (compare-cown m r q s.0))
        (groups-Ascending (q ∷ rs) s.1)

  chain_keys :
      (bodies : ℕ → ℕ) (gs : List Group) → map (λ c. c.cown) (map (chain_of bodies m) gs) ≡ keys gs
  chain_keys bodies [] = refl
  chain_keys bodies (g ∷ gs) = ap (λ x. cown (m g.first.slot) ∷ x) (chain_keys bodies gs)

  -- When the requests are sorted by the source's comparison and no two have the same slot, the
  -- chains stand in strictly ascending order of their cowns: the order in which they are acquired,
  -- with at most one chain for a cown.
  pub prepare-Ascending :
      (bodies : ℕ → ℕ) (rs : List Request)
      → Sorted m rs
      → Separate rs
      → Ascending (map (λ c. c.cown) (prepare bodies m rs).chain_info)
  prepare-Ascending bodies rs s d =
      subst Ascending
        (sym
          (ap (map (λ c. c.cown)) (prepare-groups bodies m rs d) ∙ chain_keys bodies (groups m rs)))
        (groups-Ascending rs s)
