-- ===== src/Memory/Recall.antt =====
-- Recall returns the best of the shortlist.
use ace.Prelude.{List}
