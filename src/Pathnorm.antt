-- ===== src/Pathnorm.antt =====
-- internal/pathnorm: canonical keys, and their names on disk.
pub mod Slash
pub mod Canonical
pub mod Windows
pub mod OsPath
mod Tests
