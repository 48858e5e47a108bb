-- ===== src/Tests/Available.antt =====
-- The database in memory is up, and how a call on the small ledger ends.
