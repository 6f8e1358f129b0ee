-- ===== src/ArenaRegion/Merge.antt =====
-- The merge of two arena regions, with what it does to the headers of the objects.
use verona_rt_gc_bench.Base.{
  ℕ, ◌+◌, ◌≡◌, ◌<◌, refl, sym, ap, ◌∙◌, Bool, true, false, leb, ◌||◌, ◌==◌, List, [], ◌∷◌, ◌++◌,
  arith, Bool-cases, inl, inr, eq_of_test, All, All-append, All-map, elem, elem-append,
  length-append,
}
use mathlib.Core.List.{append_assoc}
use verona_rt_gc_bench.Object.{Obj, Mem, write, is_trivial}
use verona_rt_gc_bench.TraceRegion.{last_or}
use verona_rt_gc_bench.ArenaRegion.{Arena, Region, arena_size, merge_internal, merge, relink_tail}
use verona_rt_gc_bench.ArenaRegion.Layout.{
  Tiles, Content, IsArenas, Outside, Apart, PairwiseApart, contained, sizes, objects, IsRegion,
  Kind, sizes-append,
}

-- The memories differ in headers only.
abbrev pub SameBodies : Mem → Mem → Type 0
SameBodies m t = (p : ℕ) → ((t p).size ≡ (m p).size) × (is_trivial (t p) ≡ is_trivial (m p))

SameBodies-Tiles :
    (m t : Mem) → SameBodies m t → (ps : List ℕ) (a b : ℕ) → Tiles m a ps b → Tiles t a ps b
SameBodies-Tiles m t e [] a b h = h
SameBodies-Tiles m t e (p ∷ ps) a b h =
    rw (e p).0 (h.0, h.1, SameBodies-Tiles m t e ps (p + (m p).size) b h.2)

SameBodies-Kind :
    (m t : Mem) → SameBodies m t → (k : Bool) (ps : List ℕ) → Kind m k ps → Kind t k ps
SameBodies-Kind m t e k [] h = tt
SameBodies-Kind m t e k (p ∷ ps) h = ((e p).1 ∙ h.0, SameBodies-Kind m t e k ps h.1)

SameBodies-IsArenas :
    (m t : Mem)
    → SameBodies m t
    → (arenas : List Arena) (cs : List Content) → IsArenas m arenas cs
    → IsArenas t arenas cs
SameBodies-IsArenas m t e [] [] i = tt
SameBodies-IsArenas m t e [] (c ∷ cs) i = absurd i
SameBodies-IsArenas m t e (a ∷ rest) [] i = absurd i
SameBodies-IsArenas m t e (a ∷ rest) (c ∷ cs) i = (
  record {
    trivial_tiles = SameBodies-Tiles m t e c.trivials _ _ i.0.trivial_tiles;
    gap = i.0.gap;
    non_trivial_tiles = SameBodies-Tiles m t e c.non_trivials _ _ i.0.non_trivial_tiles;
    trivial_kind = SameBodies-Kind m t e true c.trivials i.0.trivial_kind;
    non_trivial_kind = SameBodies-Kind m t e false c.non_trivials i.0.non_trivial_kind;
  },
  SameBodies-IsArenas m t e rest cs i.1,
)

SameBodies-sizes : (m t : Mem) → SameBodies m t → (ps : List ℕ) → sizes t ps ≡ sizes m ps
SameBodies-sizes m t e [] = refl
SameBodies-sizes m t e (p ∷ ps) = omega (arith, (e p).0, SameBodies-sizes m t e ps)

pub SameBodies-IsRegion :
    (m t : Mem) (r : Region) (cs : List Content)
    → SameBodies m t
    → IsRegion m r cs
    → IsRegion t r cs
SameBodies-IsRegion m t r cs e i = record {
  arenas = SameBodies-IsArenas m t e r.arenas cs i.arenas;
  apart = i.apart;
  large_outside = i.large_outside;
  large_size =
      All-map (λ p. arena_size < (m p).size) (λ p. arena_size < (t p).size) r.large
        (λ p h. rw (e p).0 h) i.large_size;
  memory = i.memory ∙ sym (SameBodies-sizes m t e (objects cs r));
  number = i.number;
}

pub write-SameBodies :
    (m t : Mem) (p : ℕ) (o : Obj)
    → SameBodies m t
    → o.size ≡ (t p).size
    → is_trivial o ≡ is_trivial (t p)
    → SameBodies m (write t p o)
write-SameBodies m t p o e h k q = elim (Bool-cases (p == q)) [
  | inl same ↦ rw same (
    h ∙ ap (λ x. (t x).size) (eq_of_test p q same) ∙ (e q).0,
    k ∙ ap (λ x. is_trivial (t x)) (eq_of_test p q same) ∙ (e q).1,
  )
  | inr other ↦ rw other (e q)
]

relink_tail-SameBodies : (ring : List ℕ) (m : Mem) → SameBodies m (relink_tail ring m)
relink_tail-SameBodies [] m = λ q. (refl, refl)
relink_tail-SameBodies (p ∷ ring) m =
    write-SameBodies m m (last_or p ring) _ (λ q. (refl, refl)) refl refl

pub merge-SameBodies :
    (align_up : ℕ → ℕ) (o : ℕ) (other : Region) (m : Mem) (r : Region)
    → SameBodies m (merge align_up o other m r).0
unfolding merge
merge-SameBodies align_up o other m r =
    let joined = relink_tail other.large m in
    elim (Bool-cases (leb (align_up (m o).size) arena_size)) [
      | inl e ↦
          rw e (write-SameBodies m joined o _ (relink_tail-SameBodies other.large m) refl refl)
      | inr e ↦ rw e (relink_tail-SameBodies other.large m)
    ]

-- The blocks of the two regions.
pub record Disjoint (other r : Region) : Type 0 where
  pub arenas : All (λ a. All (Apart a) r.arenas) other.arenas
  pub other_large : All (λ p. All (Outside p) r.arenas) other.large
  pub large : All (λ p. All (Outside p) other.arenas) r.large

IsArenas-append :
    (m : Mem) (xs : List Arena) (ys : List Arena) (cs ds : List Content)
    → IsArenas m xs cs
    → IsArenas m ys ds
    → IsArenas m (xs ++ ys) (cs ++ ds)
IsArenas-append m [] ys [] ds i j = j
IsArenas-append m [] ys (c ∷ cs) ds i j = absurd i
IsArenas-append m (a ∷ rest) ys [] ds i j = absurd i
IsArenas-append m (a ∷ rest) ys (c ∷ cs) ds i j = (i.0, IsArenas-append m rest ys cs ds i.1 j)

PairwiseApart-append :
    (xs ys : List Arena)
    → PairwiseApart xs
    → PairwiseApart ys
    → All (λ a. All (Apart a) ys) xs
    → PairwiseApart (xs ++ ys)
PairwiseApart-append [] ys h k x = k
PairwiseApart-append (a ∷ rest) ys h k x =
    (All-append (Apart a) rest ys h.0 x.0, PairwiseApart-append rest ys h.1 k x.1)

kept_elsewhere :
    (xs ys : List Arena) (ps : List ℕ)
    → All (λ p. All (Outside p) xs) ps
    → All (λ p. All (Outside p) ys) ps
    → All (λ p. All (Outside p) (xs ++ ys)) ps
kept_elsewhere xs ys [] h k = tt
kept_elsewhere xs ys (p ∷ ps) h k =
    (All-append (Outside p) xs ys h.0 k.0, kept_elsewhere xs ys ps h.1 k.1)

contained-append : (cs ds : List Content) → contained (cs ++ ds) ≡ contained cs ++ contained ds
contained-append [] ds = refl
contained-append (c ∷ cs) ds =
    ap (λ x. c.trivials ++ c.non_trivials ++ x) (contained-append cs ds)
    ∙ sym (append_assoc (c.trivials ++ c.non_trivials) (contained cs) (contained ds))

-- The merge of two well-formed arena regions, whose blocks are disjoint, leaves a well-formed
-- region in the memory that it leaves: it has the objects of both, and exact counts of them and of
-- their memory.
pub merge-IsRegion :
    (align_up : ℕ → ℕ) (o : ℕ) (other : Region) (ds : List Content) (m : Mem) (r : Region)
    (cs : List Content)
    → IsRegion m r cs
    → IsRegion m other ds
    → Disjoint other r
    → (let (t, s) = merge align_up o other m r in
        IsRegion t s (ds ++ cs)
        × ((q : ℕ)
            → elem q (objects (ds ++ cs) s) ≡ (elem q (objects ds other) || elem q (objects cs r))))
unfolding merge merge_internal
merge-IsRegion align_up o other ds m r cs i j d =
    let join = contained-append ds cs in
    let s = merge_internal other r in
    let merged : IsRegion m s (ds ++ cs) = record {
      arenas = IsArenas-append m other.arenas r.arenas ds cs j.arenas i.arenas;
      apart = PairwiseApart-append other.arenas r.arenas j.apart i.apart d.arenas;
      large_outside =
          All-append _ other.large r.large
            (kept_elsewhere other.arenas r.arenas other.large j.large_outside d.other_large)
            (kept_elsewhere other.arenas r.arenas r.large d.large i.large_outside);
      large_size = All-append _ other.large r.large j.large_size i.large_size;
      memory = rw join (
          omega (
            arith,
            i.memory,
            j.memory,
            sizes-append m (contained ds ++ contained cs) (other.large ++ r.large),
            sizes-append m (contained ds) (contained cs),
            sizes-append m other.large r.large,
            sizes-append m (contained ds) other.large,
            sizes-append m (contained cs) r.large,
          ));
      number = rw join (
          omega (
            arith,
            i.number,
            j.number,
            length-append (contained ds ++ contained cs) (other.large ++ r.large),
            length-append (contained ds) (contained cs),
            length-append other.large r.large,
            length-append (contained ds) other.large,
            length-append (contained cs) r.large,
          ));
    } in
    (
      SameBodies-IsRegion m _ s (ds ++ cs) (merge-SameBodies align_up o other m r) merged,
      λ q. rw join (
          ground (
            arith,
            elem-append q (contained ds ++ contained cs) (other.large ++ r.large),
            elem-append q (contained ds) (contained cs),
            elem-append q other.large r.large,
            elem-append q (contained ds) other.large,
            elem-append q (contained cs) r.large,
          )),
    )
