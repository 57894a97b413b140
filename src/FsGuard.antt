-- ===== src/FsGuard.antt =====
-- The read-before-write guard of pkg/tools/fsguard: line ranges, and the guard over a file system.
pub mod Ranges
pub mod Guard
