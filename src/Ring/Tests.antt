-- ===== src/Ring/Tests.antt =====
-- The order and the slab at small sizes.
