-- ===== src/Tar.antt =====
-- TAR archives: src/tar_write.c writes them, src/tar.c walks over them.
pub mod Octal
pub mod Name
pub mod NameFields
pub mod Header
pub mod HeaderFields
pub mod Entry
pub mod Write
pub mod Walk
pub mod Archive
pub mod WalkRun
pub mod WriteRun
pub mod FileRun
pub mod RoundTrip
mod Tests
pub mod Checksum
