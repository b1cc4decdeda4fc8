-- ===== src/Worker.antt =====
-- internal/worker: the handler of delivered events and the reconciler.
pub mod Handler
pub mod Reconciler
