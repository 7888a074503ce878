-- ===== src/Python/Restored.antt =====
-- Closing a module after loading it.
