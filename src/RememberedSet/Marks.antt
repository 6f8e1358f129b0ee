-- ===== src/RememberedSet/Marks.antt =====
-- A collection marks what it meets and then sweeps: which entries are left.
use verona_rt_gc_bench.Base.{ℕ, ◌≡◌, refl, Bool, false, ◌&&◌, ◌||◌, List, [], ◌∷◌, arith, ◌==◌}
use verona_rt_gc_bench.RememberedSet.{Entries, RSet, contains, mark_entry, mark}

abbrev pub mark_all : List ℕ → RSet → RSet
mark_all [] s = s
mark_all (o ∷ os) s = mark_all os (mark o s)

abbrev pub has_mark : ℕ → Entries → Bool
has_mark x [] = false
has_mark x ((a, b) ∷ es) = ((a == x) && b) || has_mark x es

contains-mark_entry : (x o : ℕ) (es : Entries) → contains x (mark_entry o es) ≡ contains x es
contains-mark_entry x o [] = refl
contains-mark_entry x o ((a, b) ∷ es) = ground (arith, contains-mark_entry x o es)
