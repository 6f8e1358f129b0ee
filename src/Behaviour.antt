-- ===== src/Behaviour.antt =====
-- Behaviours and the cowns they wait for: src/rt/boc/behaviourcore.h.
pub mod Slot
pub mod Schedule
pub mod Resolve
pub mod Cowns
pub mod Release
mod Tests
