-- ===== src/Sources.antt =====
-- internal/sources/sources.go: what the fetcher takes out of a downloaded tarball.
pub mod Clean
pub mod Entry
pub mod Extract
pub mod Capped
pub mod Digest
