-- ===== src/Packages.antt =====
-- kernel/src/package: versions, and the resolution of dependencies. A package is named by a number,
-- in the order of the names.
pub mod Version
pub mod Resolver
pub mod Conflicts
pub mod Cycles
