-- ===== src/Stack/Tests.antt =====
-- Concrete stacks, and the theorems at them.
use verona_rt_gc_bench.Base.{[], ◌∷◌, none, some, ◌≡◌, refl, arith, Returns}
use verona_rt_gc_bench.Stack.{Stack, heap_alloc, backup_alloc, pop, entries, remove}
use verona_rt_gc_bench.Stack.Order.{IsFresh, IsStack}
use verona_rt_gc_bench.Stack.Pop.{pop-entries}
use verona_rt_gc_bench.Stack.Remove.Refill.{IsRemoved}
use verona_rt_gc_bench.Stack.Remove.Total.{remove-IsRemoved}
use verona_rt_gc_bench.Stack.Remove.Freed.{remove-freed}

abbrev two : Stack
two = record {
  blocks = record { address = 64; slots = 5 ∷ 4 ∷ [] } ∷ [];
  alloc = backup_alloc (some 128);
}

two-IsStack : IsStack 0 two
two-IsStack = record {
  null_aligned = refl;
  chain = (refl, (omega arith, (omega arith, (refl, (refl, (tt, tt))))));
  pool = λ backup e. record {
    aligned = ground (arith, e);
    other = ground (arith, e);
    unused = ground (arith, e);
  };
}

heap_block : IsFresh 0 192 two
heap_block = record { aligned = refl; other = refl; unused = refl }

pop-entries_example :
    Returns (λ r. (r.0 ∷ entries r.1.blocks ≡ 5 ∷ 4 ∷ []) × IsStack 0 r.1) (pop two)
pop-entries_example = pop-entries 0 two two-IsStack refl

abbrev single : Stack
single = record { blocks = record { address = 64; slots = 5 ∷ [] } ∷ []; alloc = heap_alloc }

-- The top block has one entry, the one that is removed: it is written after it has been freed.
freed : remove 0 5 single ≡ none
unfolding remove pop
freed = refl

remove-IsRemoved_example : Returns (IsRemoved 0 4 (5 ∷ 4 ∷ [])) (remove 0 4 two)
remove-IsRemoved_example = remove-IsRemoved 0 4 two two-IsStack (λ e. cc e) refl

single-IsStack : IsStack 0 single
single-IsStack = record {
  null_aligned = refl;
  chain = (refl, (omega arith, (omega arith, (refl, (refl, (tt, tt))))));
  pool = λ backup e. cc e;
}

remove-freed_example : remove 0 5 single ≡ none
remove-freed_example = remove-freed 0 5 64 [] single-IsStack
