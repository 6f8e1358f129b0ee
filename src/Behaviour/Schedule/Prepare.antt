-- ===== src/Behaviour/Schedule/Prepare.antt =====
-- The prepare loop of schedule_many, run by run of requests for one cown.
use verona_rt_gc_bench.Base.{
  ℕ, ◌+◌, ◌≡◌, refl, sym, ap, ◌∙◌, true, false, ◌&&◌, ◌==◌, if◌then◌else◌, List, [], ◌∷◌, ◌++◌, map,
  arith, Bool-cases, inl, inr, All, eq_of_test,
}
use mathlib.Core.List.{append_assoc}
use verona_rt_gc_bench.Behaviour.Slot.{cown, is_move}
use verona_rt_gc_bench.Behaviour.Schedule.{
  Slots, Request, Preparing, Prepared, info, open_chain, extend, close_chain, prepare_next,
  prepare_rest, prepare,
}
use verona_rt_gc_bench.Behaviour.Schedule.Chains.{
  groups, chain_of, absorbed, info-finished, absorbed-extended, absorbed-opened, absorbed-closed,
  extended-cown, extended-body,
}
use verona_rt_gc_bench.Behaviour.Schedule.Loop.{
  Good, Separate, extend-Good, open_chain-Good, close_chain-Good, open_chain-opened,
  extend-extended, extend-chain_info, extend-ec,
}

module _ (bodies : ℕ → ℕ) (m : Slots) where
  -- The requests of the body i that follow a request of the same body for the same cown.
  abbrev pub repeats_after : ℕ → (c b : ℕ) → List Request → ℕ
  repeats_after i c b [] = 0
  repeats_after i c b (r ∷ rs) =
      (if (c == cown (m r.slot)) && ((bodies r.body == b) && (r.body == i)) then 1 else 0)
      + repeats_after i (cown (m r.slot)) (bodies r.body) rs

  abbrev pub repeats : ℕ → List Request → ℕ
  repeats i [] = 0
  repeats i (r ∷ rs) = repeats_after i (cown (m r.slot)) (bodies r.body) rs

  close_chain-chain_info :
      (p : Preparing) → (close_chain p).chain_info ≡ p.chain_info ++ (info p.chain ∷ [])
  unfolding close_chain
  close_chain-chain_info p = refl

  open_chain-chain_info :
      (r : Request) (p : Prepared) → (open_chain bodies r p).chain_info ≡ p.chain_info
  unfolding open_chain
  open_chain-chain_info r p = refl

  first-ec : (r : Request) (p : Prepared) (i : ℕ) → (open_chain bodies r p).ec i ≡ p.ec i
  unfolding open_chain
  first-ec r p i = refl

  open_chain-ec :
      (r : Request) (p : Preparing) (i : ℕ) → (open_chain bodies r (close_chain p)).ec i ≡ p.ec i
  unfolding open_chain close_chain
  open_chain-ec r p i = refl

  next_extends :
      (r : Request) (p : Preparing)
      → (p.chain.cown == cown (p.slots r.slot)) ≡ true
      → prepare_next bodies r p ≡ extend bodies r p
  unfolding prepare_next
  next_extends r p e = rw e refl

  next_opens :
      (r : Request) (p : Preparing)
      → (p.chain.cown == cown (p.slots r.slot)) ≡ false
      → prepare_next bodies r p ≡ open_chain bodies r (close_chain p)
  unfolding prepare_next
  next_opens r p e = rw e refl

  rest-absorbed :
      (rs : List Request) (p : Preparing)
      → Good m p.slots rs
      → Separate rs
      → (prepare_rest bodies p rs).chain_info
        ≡ p.chain_info ++ absorbed bodies m p.chain (groups m rs)
  rest-absorbed [] p g d =
      close_chain-chain_info p ∙ ap (λ x. p.chain_info ++ (x ∷ [])) (info-finished bodies m p.chain)
  rest-absorbed (r ∷ rs) p g d =
      let kept = (g.keeps r.slot).0 in
      elim (Bool-cases (p.chain.cown == cown (p.slots r.slot))) [
        | inl e ↦
            ap (λ q. (prepare_rest bodies q rs).chain_info) (next_extends r p e)
            ∙ (rest-absorbed rs (extend bodies r p) (extend-Good bodies m r rs d.0 p g) d.1
                ∙ rw
                    (
                      extend-chain_info bodies r p,
                      extend-extended bodies m r p (g.keeps r.slot) g.fresh.0,
                      absorbed-extended bodies m p.chain r (groups m rs)
                          (sym (ap (λ n. p.chain.cown == n) kept) ∙ e),
                    )
                    refl)
        | inr e ↦
            let q = close_chain p in
            let h = close_chain-Good m p (r ∷ rs) g in
            ap (λ q. (prepare_rest bodies q rs).chain_info) (next_opens r p e)
            ∙ (rest-absorbed rs (open_chain bodies r q) (open_chain-Good bodies m r rs d.0 q h) d.1
                ∙ rw
                    (
                      open_chain-opened bodies m r q (h.keeps r.slot) h.fresh.0,
                      open_chain-chain_info r q,
                      close_chain-chain_info p,
                      absorbed-opened bodies m r (groups m rs),
                      absorbed-closed bodies m p.chain r (groups m rs)
                          (sym (ap (λ n. p.chain.cown == n) kept) ∙ e),
                    )
                    (append_assoc p.chain_info (info p.chain ∷ []) _))
      ]

  rest-ec :
      (i : ℕ) (rs : List Request) (p : Preparing)
      → Good m p.slots rs
      → Separate rs
      → (prepare_rest bodies p rs).ec i ≡ p.ec i + repeats_after i p.chain.cown p.chain.body rs
  unfolding close_chain
  rest-ec i [] p g d = omega arith
  rest-ec i (r ∷ rs) p g d =
      let kept = (g.keeps r.slot).0 in
      elim (Bool-cases (p.chain.cown == cown (p.slots r.slot))) [
        | inl e ↦
            let q = extend bodies r p in
            let same = sym (ap (λ n. p.chain.cown == n) kept) ∙ e in
            let chain = extend-extended bodies m r p (g.keeps r.slot) g.fresh.0 in
            let c : q.chain.cown ≡ cown (m r.slot) =
              ap (λ x. x.cown) chain ∙ extended-cown bodies m p.chain r ∙ eq_of_test _ _ same in
            let b : q.chain.body ≡ bodies r.body =
              ap (λ x. x.body) chain ∙ extended-body bodies m p.chain r in
            let h : (prepare_rest bodies q rs).ec i
                ≡ q.ec i + repeats_after i (cown (m r.slot)) (bodies r.body) rs =
              rest-ec i rs q (extend-Good bodies m r rs d.0 p g) d.1
              ∙ ap (λ x. q.ec i + x) (rw (c, b) refl) in
            ap (λ q. (prepare_rest bodies q rs).ec i) (next_extends r p e)
            ∙ rw same (omega (arith, h, extend-ec bodies r p i))
        | inr e ↦
            let q = open_chain bodies r (close_chain p) in
            let other = sym (ap (λ n. p.chain.cown == n) kept) ∙ e in
            let closed = close_chain-Good m p (r ∷ rs) g in
            let chain =
              open_chain-opened bodies m r (close_chain p) (closed.keeps r.slot) closed.fresh.0 in
            let c : q.chain.cown ≡ cown (m r.slot) = ap (λ x. x.cown) chain in
            let b : q.chain.body ≡ bodies r.body = ap (λ x. x.body) chain in
            let h : (prepare_rest bodies q rs).ec i
                ≡ q.ec i + repeats_after i (cown (m r.slot)) (bodies r.body) rs =
              rest-ec i rs q (open_chain-Good bodies m r rs d.0 (close_chain p) closed) d.1
              ∙ ap (λ x. q.ec i + x) (rw (c, b) refl) in
            ap (λ q. (prepare_rest bodies q rs).ec i) (next_opens r p e)
            ∙ rw other (omega (arith, h, open_chain-ec r p i))
      ]

  started : (rs : List Request) → Good m m rs
  started rs = record { keeps = λ a. (refl, refl); fresh = all_same rs }
    where
      all_same : (rs : List Request) → All (λ r. is_move (m r.slot) ≡ is_move (m r.slot)) rs
      all_same [] = tt
      all_same (r ∷ rs) = (refl, all_same rs)

  -- When no two requests have the same slot, the prepare phase records exactly one chain for each
  -- run of requests for one cown, in order. A chain goes from the first request of the run to the
  -- last one that is not a body's repeated request; its transfer count is the number of the run's
  -- slots with the move flag; its first writer and its number of leading readers are those of the
  -- run without the repeated requests.
  pub prepare-groups :
      (rs : List Request)
      → Separate rs
      → (prepare bodies m rs).chain_info ≡ map (chain_of bodies m) (groups m rs)
  unfolding prepare
  prepare-groups [] d = refl
  prepare-groups (r ∷ rs) d =
      let p : Prepared = record { slots = m; ec = λ i. 1; chain_info = [] } in
      let g = started (r ∷ rs) in
      rest-absorbed rs (open_chain bodies r p) (open_chain-Good bodies m r rs d.0 p g) d.1
      ∙ rw (open_chain-opened bodies m r p (refl, refl) refl, open_chain-chain_info r p)
          (absorbed-opened bodies m r (groups m rs))

  -- When no two requests have the same slot, the count that a body is to resolve after the prepare
  -- phase is 1 and the number of its requests that follow another of its own requests for the same
  -- cown.
  pub prepare-ec :
      (rs : List Request) → Separate rs → (i : ℕ) → (prepare bodies m rs).ec i ≡ 1 + repeats i rs
  unfolding prepare
  prepare-ec [] d i = omega arith
  prepare-ec (r ∷ rs) d i =
      let p : Prepared = record { slots = m; ec = λ i. 1; chain_info = [] } in
      let g = started (r ∷ rs) in
      rest-ec i rs (open_chain bodies r p) (open_chain-Good bodies m r rs d.0 p g) d.1
      ∙ rw (open_chain-opened bodies m r p (refl, refl) refl)
          (ap (λ n. n + repeats i (r ∷ rs)) (first-ec r p i))
