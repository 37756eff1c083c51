-- ===== src/Storage.antt =====
-- internal/storage: the artifact store.
pub mod Key
pub mod Prune
pub mod FileSystem
pub mod Archive
pub mod Store
pub mod Sweep
