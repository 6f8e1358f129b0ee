-- ===== src/ReadRefCount/Tests.antt =====
-- The count of readers on concrete runs.
use verona_rt_gc_bench.Base.{◌≡◌, refl, arith}
use verona_rt_gc_bench.ReadRefCount.{
  writing, System, init, add_read, release_read, try_add, join, leave, wake, load, announce, left,
  woke, joined, reader, asked, announced, Reach, start, later,
}
use verona_rt_gc_bench.ReadRefCount.Exclusion.{writer_alone, Leavings, waiting_woken}

-- Two readers, and a writer that is to wait.
abbrev waited : System
waited = announce (load (join 2 init))

waited-Reach : Reach waited
unfolding join add_read announce try_add
waited-Reach =
    later (later (later start (joined 2 (omega arith) (omega arith) refl)) (asked refl))
      (announced refl)

-- The readers have left.
abbrev handed : System
handed = leave (leave waited)

handed-Reach : Reach handed
unfolding join add_read announce try_add leave release_read
handed-Reach =
    later (later waited-Reach (reader (left (omega arith)))) (reader (left (omega arith)))

abbrev wrote : System
wrote = wake handed

wrote-Reach : Reach wrote
unfolding join add_read announce try_add leave release_read
wrote-Reach = later handed-Reach (reader (woke (omega arith)))

writer_alone_example : (wrote.readers ≡ 0) × (wrote.handing ≡ 0)
writer_alone_example = writer_alone wrote-Reach refl

waiting_woken_example : (t : System) × Leavings waited t × (t.writer ≡ writing) × (t.readers ≡ 0)
unfolding announce try_add join add_read
waiting_woken_example = waiting_woken waited-Reach refl
