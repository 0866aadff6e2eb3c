-- ===== src/Coordinator/Window.antt =====
-- schema.sql: the bounds of the window that a run digests.
