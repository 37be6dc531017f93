-- ===== src/Commands/Values.antt =====
-- The numbers that commands take from their arguments.
