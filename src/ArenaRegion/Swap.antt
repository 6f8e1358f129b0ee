-- ===== src/ArenaRegion/Swap.antt =====
-- A change of the root of an arena region.
