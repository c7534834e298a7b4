-- ===== src/Examples/Escape.antt =====
-- The theorems on escaping at a concrete text.
