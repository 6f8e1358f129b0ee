-- ===== src/Behaviour/Cowns/Readers.antt =====
-- The counts that the process phase raises for the readers at a chain's start.
use verona_rt_gc_bench.Base.{
  ℕ, zero, suc, ◌+◌, ◌≡◌, ◌≤◌, ◌<◌, ◌↔◌, refl, sym, ap, ◌∙◌, true, ◌==◌, if◌then◌else◌, List, [],
  ◌∷◌, arith, Bool-cases, inl, inr, eq_of_test, length, subst,
}
use verona_rt_gc_bench.Behaviour.Slot.{is_read_only}
use verona_rt_gc_bench.Behaviour.Schedule.{Slots, Request, raise}
use verona_rt_gc_bench.Behaviour.Schedule.Chains.{Group, firsts, chain_of, leading_readers}
use verona_rt_gc_bench.Behaviour.Cowns.{raise_from}

-- One for each of the bodies.
abbrev pub raise_each : List ℕ → (ℕ → ℕ) → ℕ → ℕ
raise_each [] ec = ec
raise_each (b ∷ bs) ec = raise_each bs (raise ec b)

abbrev pub Above : ℕ → List ℕ → Type 0
Above b [] = Unit
Above b (c ∷ cs) = (b < c) × Above c cs

abbrev pub Ascending : List ℕ → Type 0
Ascending [] = Unit
Ascending (b ∷ bs) = Above b bs

abbrev Successors : ℕ → List ℕ → Type 0
Successors b [] = Unit
Successors b (c ∷ cs) = (c ≡ b + 1) × Successors c cs

abbrev pub Consecutive : List ℕ → Type 0
Consecutive [] = Unit
Consecutive (b ∷ bs) = Successors b bs

raise_from-below : (b n : ℕ) (ec : ℕ → ℕ) (i : ℕ) → i < b → raise_from b n ec i ≡ ec i
raise_from-below b zero ec i h = refl
raise_from-below b (suc n) ec i h =
    raise_from-below (b + 1) n (raise ec b) i (omega (arith, h)) ∙ ground (arith, h)

raise_each-below :
    (bs : List ℕ) (ec : ℕ → ℕ) (i b : ℕ) → i ≤ b → Above b bs → raise_each bs ec i ≡ ec i
raise_each-below [] ec i b h k = refl
raise_each-below (c ∷ cs) ec i b h k =
    raise_each-below cs (raise ec c) i c (omega (arith, h, k.0)) k.1 ∙ ground (arith, h, k.0)

raises_right :
    (b : ℕ) (bs : List ℕ) (ec : ℕ → ℕ)
    → Successors b bs
    → (i : ℕ) → raise_from b (suc (length bs)) ec i ≡ raise_each (b ∷ bs) ec i
raises_right b [] ec h i = refl
raises_right b (c ∷ cs) ec h i =
    ap (λ d. raise_from d (suc (length cs)) (raise ec b) i) (sym h.0)
    ∙ raises_right c cs (raise ec b) h.1 i

right_only :
    (b : ℕ) (bs : List ℕ) (ec : ℕ → ℕ)
    → Above b bs
    → ((i : ℕ) → raise_from b (suc (length bs)) ec i ≡ raise_each (b ∷ bs) ec i)
    → Successors b bs
right_only b [] ec h f = tt
right_only b (c ∷ cs) ec h f = elim (Bool-cases (c == b + 1)) [
  | inl e ↦
      let same = eq_of_test c (b + 1) e in
      (
        same,
        right_only c cs (raise ec b) h.1
            (λ i. ap (λ d. raise_from d (suc (length cs)) (raise ec b) i) same ∙ f i),
      )
  | inr e ↦
      let here =
        raise_from-below (b + 1 + 1) (length cs) (raise (raise ec b) (b + 1)) (b + 1)
          (omega arith) in
      let there =
        raise_each-below (c ∷ cs) (raise ec b) (b + 1) (b + 1) (omega arith)
          (ground (arith, e, h.0), h.1) in
      absurd (ground (arith, here, there, f (b + 1)))
]

module _ (bodies : ℕ → ℕ) (m : Slots) where
  -- The bodies of the readers at the start.
  abbrev pub reader_bodies : List Request → List ℕ
  reader_bodies [] = []
  reader_bodies (r ∷ rs) =
      let later = reader_bodies rs in if is_read_only (m r.slot) then r.body ∷ later else []

  length-reader_bodies :
      (rs : List Request) → length (reader_bodies rs) ≡ leading_readers bodies m rs
  length-reader_bodies [] = refl
  length-reader_bodies (r ∷ rs) = elim (Bool-cases (is_read_only (m r.slot))) [
    | inl e ↦ rw e (ap suc (length-reader_bodies rs))
    | inr e ↦ rw e refl
  ]

  first_reader :
      (r : Request) (rs : List Request)
      → is_read_only (m r.slot) ≡ true
      → reader_bodies (r ∷ rs) ≡ r.body ∷ reader_bodies rs
  first_reader r rs h = rw h refl

  -- For a run of requests that starts with a reader, and whose leading readers stand in ascending
  -- order of their bodies: the increments of the process phase, from the first body's count on,
  -- give each of those bodies one, and no other body any, exactly if the bodies are consecutive.
  pub raises-Consecutive :
      (g : Group) (ec : ℕ → ℕ)
      → is_read_only (m g.first.slot) ≡ true
      → Ascending (reader_bodies (g.first ∷ firsts bodies m (bodies g.first.body) g.rest))
      → (let readers = reader_bodies (g.first ∷ firsts bodies m (bodies g.first.body) g.rest) in
          let i = chain_of bodies m g in
          ((j : ℕ)
            → raise_from i.first_body_index i.first_consecutive_readers_count ec j
              ≡ raise_each readers ec j)
          ↔ Consecutive readers)
  raises-Consecutive g ec h a =
      let after = firsts bodies m (bodies g.first.body) g.rest in
      let above = subst Ascending (first_reader g.first after h) a in
      rw (h, sym (length-reader_bodies after))
        (
          right_only g.first.body (reader_bodies after) ec above,
          raises_right g.first.body (reader_bodies after) ec,
        )
