-- ===== src/RememberedSet.antt =====
-- The set of immutables and cowns that a region holds on to: src/rt/region/rememberedset.h.
-- The hash set is the list of its entries, each an address with its mark bit, in an order that the
-- operations fix and the hash map leaves open. Every count that `incref`, `decref` and `release`
-- change is a value of the function `count`.
pub mod Counts
pub mod Marks
mod Tests
use verona_rt_gc_bench.Base.{
  ℕ, ◌+◌, ◌-◌, Bool, true, false, ◌||◌, List, [], ◌∷◌, ◌==◌, if◌then◌else◌,
}

abbrev pub Entries : Type 0
Entries = List (ℕ × Bool)

pub record RSet : Type 0 where
  pub entries : Entries
  pub count : ℕ → ℕ

pub data Transfer : Type 0 where
  no_transfer yes_transfer : Transfer

abbrev pub contains : ℕ → Entries → Bool
contains o [] = false
contains o ((a, _) ∷ es) = (a == o) || contains o es

abbrev pub incref : (ℕ → ℕ) → ℕ → ℕ → ℕ
incref c o a = if o == a then c a + 1 else c a

-- `decref`, and the release of one count
abbrev pub decref : (ℕ → ℕ) → ℕ → ℕ → ℕ
decref c o a = if o == a then c a - 1 else c a

-- `hash_set->insert(o)`: an entry that is there stays as it is.
abbrev pub add_entry : ℕ → Entries → Entries
add_entry o es = if contains o es then es else (o, false) ∷ es

-- `r.second.mark()`
abbrev pub mark_entry : ℕ → Entries → Entries
mark_entry o [] = []
mark_entry o ((a, b) ∷ es) = (a, if a == o then true else b) ∷ mark_entry o es

unfoldable pub insert : Transfer → ℕ → RSet → RSet
insert no_transfer o s = record s { entries = add_entry o s.entries; count = incref s.count o }
insert yes_transfer o s =
    if contains o s.entries
    then record s { count = decref s.count o }
    else record s { entries = add_entry o s.entries }

unfoldable pub mark : ℕ → RSet → RSet
mark o s =
    if contains o s.entries
    then record s { entries = mark_entry o s.entries }
    else record { entries = mark_entry o (add_entry o s.entries); count = incref s.count o }

-- The entries of `that`, one by one, into this set.
merge_entries : Entries → RSet → RSet
merge_entries [] s = s
merge_entries ((e, _) ∷ es) s = merge_entries es (
    if contains e s.entries
    then record s { count = decref s.count e }
    else record s { entries = add_entry e s.entries })

pub merge : RSet → Entries → RSet
unfolding merge_entries
merge s that = merge_entries that s

swept : Entries → Entries
swept [] = []
swept ((a, true) ∷ es) = (a, false) ∷ swept es
swept ((a, false) ∷ es) = swept es

released : Entries → (ℕ → ℕ) → ℕ → ℕ
released [] c = c
released ((a, true) ∷ es) c = released es c
released ((a, false) ∷ es) c = released es (decref c a)

unfoldable pub sweep : RSet → RSet
unfolding swept released
sweep s = record { entries = swept s.entries; count = released s.entries s.count }

discarded : Entries → (ℕ → ℕ) → ℕ → ℕ
discarded [] c = c
discarded ((a, _) ∷ es) c = discarded es (decref c a)

pub discard : Bool → RSet → RSet
unfolding discarded
discard release s = record {
  entries = [];
  count = if release then discarded s.entries s.count else s.count;
}
