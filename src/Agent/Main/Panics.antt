-- ===== src/Agent/Main/Panics.antt =====
-- The start of the agent does not panic.
