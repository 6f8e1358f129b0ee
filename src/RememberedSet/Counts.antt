-- ===== src/RememberedSet/Counts.antt =====
-- The set owns one reference count of each of its entries: what each operation does to the counts.
use verona_rt_gc_bench.Base.{
  ℕ, ◌+◌, ◌<◌, ◌≡◌, refl, true, false, [], ◌∷◌, arith, ◌==◌, if◌then◌else◌,
}
use verona_rt_gc_bench.RememberedSet.{
  Entries, RSet, contains, decref, add_entry, mark_entry, yes_transfer, insert, mark, merge_entries,
  merge, swept, released, sweep, discarded, discard,
}

-- The counts that a set of these entries owns.
abbrev pub held : ℕ → Entries → ℕ
held o [] = 0
held o ((a, _) ∷ es) = (if a == o then 1 else 0) + held o es

abbrev pub IsUnique : Entries → Type 0
IsUnique [] = Unit
IsUnique ((a, _) ∷ es) = (contains a es ≡ false) × IsUnique es

-- Every count is at least what the entries own.
abbrev pub Covers : (ℕ → ℕ) → Entries → Type 0
Covers c es = (o : ℕ) → held o es < c o + 1

held-absent : (o : ℕ) (es : Entries) → contains o es ≡ false → held o es ≡ 0
held-absent o [] h = refl
held-absent o ((a, b) ∷ es) h = ground (arith, held-absent o es)

held-present : (o : ℕ) (es : Entries) → contains o es ≡ true → 0 < held o es
held-present o [] h = ground arith
held-present o ((a, b) ∷ es) h = ground (arith, held-present o es)

held-mark_entry : (o x : ℕ) (es : Entries) → held x (mark_entry o es) ≡ held x es
held-mark_entry o x [] = refl
held-mark_entry o x ((a, b) ∷ es) = ground (arith, held-mark_entry o x es)

-- `mark` takes one count of an object that was not in the set, and none of one that was.
pub mark-balance :
    (s : RSet) (o x : ℕ)
    → (mark o s).count x + held x s.entries ≡ s.count x + held x (mark o s).entries
unfolding mark
mark-balance s o x = ground (
  arith,
  held-mark_entry o x s.entries,
  held-mark_entry o x (add_entry o s.entries),
  held-absent o s.entries,
)

-- A transfer hands the caller's count of `o` over: it stays with a new entry, and is given up where
-- the set had one already.
pub insert-transfer :
    (s : RSet) (o x : ℕ)
    → Covers s.count s.entries
    → let s' = insert yes_transfer o s in
      s'.count x + held x s.entries + (if o == x then 1 else 0) ≡ s.count x + held x s'.entries
unfolding insert
insert-transfer s o x covers =
    ground (arith, covers x, covers o, held-present o s.entries, held-absent o s.entries)

released-balance :
    (es : Entries) (c : ℕ → ℕ) (x : ℕ)
    → held x es < c x + 1
    → released es c x + held x es ≡ c x + held x (swept es)
unfolding released swept
released-balance [] c x h = refl
released-balance ((a, true) ∷ es) c x h = omega (arith, released-balance es c x (omega arith))
released-balance ((a, false) ∷ es) c x h = ground (arith, released-balance es (decref c a) x)

-- `sweep` gives up one count for each entry that it drops, and none besides.
pub sweep-balance :
    (s : RSet) (x : ℕ)
    → Covers s.count s.entries
    → (sweep s).count x + held x s.entries ≡ s.count x + held x (sweep s).entries
unfolding sweep
sweep-balance s x covers = released-balance s.entries s.count x (covers x)

merge_entries-balance :
    (es : Entries) (s : RSet) (x : ℕ)
    → held x s.entries + held x es < s.count x + 1
    → ((merge_entries es s).count x + held x s.entries + held x es
        ≡ s.count x + held x (merge_entries es s).entries)
unfolding merge_entries
merge_entries-balance [] s x h = omega arith
merge_entries-balance ((e, b) ∷ es) s x h = ground (
  arith,
  held-present e s.entries,
  held-absent e s.entries,
  merge_entries-balance es (record s { count = decref s.count e }) x,
  merge_entries-balance es (record s { entries = add_entry e s.entries }) x,
)

-- `merge` moves the counts of the other set's entries to this set, and gives up those of the entries
-- that this set had already.
pub merge-balance :
    (s : RSet) (that : Entries) (x : ℕ)
    → held x s.entries + held x that < s.count x + 1
    → (merge s that).count x + held x s.entries + held x that
      ≡ s.count x + held x (merge s that).entries
unfolding merge
merge-balance s that x h = merge_entries-balance that s x h

discarded-balance :
    (es : Entries) (c : ℕ → ℕ) (x : ℕ) → held x es < c x + 1 → discarded es c x + held x es ≡ c x
unfolding discarded
discarded-balance [] c x h = omega arith
discarded-balance ((a, b) ∷ es) c x h = ground (arith, discarded-balance es (decref c a) x)

pub discard-balance :
    (s : RSet) (x : ℕ)
    → Covers s.count s.entries
    → ((discard true s).count x + held x s.entries ≡ s.count x)
      × (contains x (discard true s).entries ≡ false)
unfolding discard
discard-balance s x covers = (discarded-balance s.entries s.count x (covers x), refl)
