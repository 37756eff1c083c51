-- ===== src/Eval.antt =====
-- internal/eval: the admission of evaluations, and the resolution of imports.
pub mod Semaphore
pub mod Importer
