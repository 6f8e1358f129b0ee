-- ===== src/Lib.antt =====
-- Verification library of the Verona runtime with its region collectors (src/rt).
--
-- The program: objects live in regions, each with one root. A region has its own collector: trace,
-- arena, reference counting, semi-space. A region's remembered set keeps the immutables and cowns that
-- its objects refer to alive. A cown guards a region; a behaviour names the cowns that it needs, for
-- reading or for writing, and is scheduled once it has them all: each cown has a queue of slots.
--
-- The modules and the code:
-- - Object: src/rt/object/object.h. Memory is a function from addresses to objects (Mem). A header's
--   bits are the tag `cls` and the rest `payload`; an address is that of the header, so real_start and
--   object_start are the identity. The trace function of a descriptor is the list `fields`.
-- - RememberedSet: src/rt/region/rememberedset.h. The hash set is a list of entries with mark bits,
--   and `count` holds the reference counts that the operations change. Children: Counts and Marks prove.
-- - SemiSpace: src/rt/region/region_semispace.h. `Region` has the fields of RegionSemiSpace. Alloc has
--   create, alloc_internal, ensure_available, grow and swap_root; Collect has gc, phase by phase
--   (trace_all for phases 1 and 2, finish for 3 to 6); Release has release_internal; Iterator the
--   iterator. A walk of a space is the list of addresses that `objects` computes; the large objects,
--   which the source links through their headers, are a list of addresses.
--   Collect/Heap says what a well-formed heap is, Collect/Trace proves phases 1 and 2, Collect/Update
--   and Collect/Moved phases 3 and 4, Collect/Destroyed phase 5, Collect/Again the heap that is left.
-- - Benchmark: src/rt/util/gc_benchmark.h. The collector of measurements is in Benchmark, the harness in
--   Benchmark/Harness; the test, the clock and the floating-point index of a percentile are arguments.
-- - Stack: src/rt/ds/stack.h. The chain of aligned blocks is a list of blocks with their addresses, and
--   the allocator says which block it keeps for later.
-- - Queue: src/rt/ds/queue.h. The links of the elements are a function; `length` is length_of, on fuel.
-- - TraceRegion: src/rt/region/region_trace.h. A ring is the list of its objects in the order of the
--   links, the root last in the primary one; TraceRegion/Collect has mark, sweep and gc, which leave
--   events (finalise, destructor, dealloc) behind, TraceRegion/Rings what the other operations do to
--   the rings, TraceRegion/Iterator the iterator. The mark loop has fuel for every push that a `trace`
--   can do. Of a finaliser only the sub-regions that it reports are known, as an argument.
-- - Shared: the two counts of src/rt/boc/shared.h, with decref_shared and acquire_strong_from_weak of
--   src/rt/object/object.h. Each atomic access is a step of its own, and a state tells how many threads
--   are at which point of an operation; so the steps are those of any number of threads in any order.
--   The bound of 2 ^ 56 on references and threads keeps the counts below their top bit.
-- - ReadRefCount: the readers' count of src/rt/boc/cown.h in the same way, with one writer at a time.
-- - Behaviour: src/rt/boc/behaviourcore.h. Slot has class Slot, whose two words are numbers with the
--   flags in the lowest bits, and Slot/Race the load and the exchange of a reader and its successor.
--   Schedule has the prepare phase of schedule_many over the sorted requests, with std::sort as an
--   argument, and Cowns the three phases after it; Release has what a behaviour does when it has run.
--   These run for a thread that nothing interrupts: where the source spins, the result is `none`. A
--   walk over readers has fuel for their number. Resolve has the count of a behaviour with any number
--   of threads.
-- - ArenaRegion: src/rt/region/region_arena.h. An arena is the address of its block with the two
--   pointers that move, and the ring of large objects a list; Layout says which objects lie where,
--   Alloc, Merge and Swap prove what the operations leave, and Iterator has the iterator. The blocks that
--   heap::alloc returns are arguments.
--
-- Conventions. What the allocator returns and snmalloc's align_up are arguments; the theorems ask of
-- align_up only that it does not shrink its argument, and for the arena's iterator that it leaves the
-- sizes of objects. A failed assertion and a loop out of fuel are `none`, except that Behaviour and
-- ArenaRegion leave assertions out. Fuel: the scan loop has a round for each object of from-space and
-- one more; a walk has one for each byte; the doubling loop has one for each byte of the request; the
-- theorems show that this is enough. Sizes are unbounded numbers except where `size_mod` is written:
-- nothing is claimed of a region near the end of the address space.
--
-- Not modelled: logging, systematic testing, the compression of chains of SCC pointers, the
-- release of the sub-regions that finalisers report, the external reference table of a region, the
-- body of `collect` and the thread-local queue of queue_collect, interrupted acquire and release
-- phases of behaviours and what follows when a cown's count reaches zero in them, the release of an
-- arena region, and the parts of the runtime that the module list does not name.
pub mod Base
pub mod Object
pub mod RememberedSet
pub mod SemiSpace
pub mod Benchmark
pub mod Stack
pub mod Queue
pub mod TraceRegion
pub mod Shared
pub mod ReadRefCount
pub mod Behaviour
pub mod ArenaRegion
