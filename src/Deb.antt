-- ===== src/Deb.antt =====
-- Debian package metadata.
pub mod Control
pub mod Depend
pub mod Version
