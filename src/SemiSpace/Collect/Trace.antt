-- ===== src/SemiSpace/Collect/Trace.antt =====
-- Phases 1 and 2 of the collection: the copies are those of the objects that the root reaches.
pub mod Defs
pub mod Copy
pub mod Visit
pub mod Loop
