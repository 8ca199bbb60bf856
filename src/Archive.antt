-- ===== src/Archive.antt =====
-- app/core/archive.py: safe unpacking of ZIP, TAR and gzip packages. The children follow the
-- file from top to bottom: the errors and limits, member paths, the disk, the ZIP directory,
-- the members, and the loops that unpack them.
pub mod Errors
pub mod MemberPath
pub mod PathSafety
pub mod Disk
pub mod Target
pub mod Members
pub mod Unpack
pub mod ZipDirectory
pub mod Packages
pub mod Gzip
mod Tests
