-- ===== src/Capability.antt =====
-- kernel/src/capability: tokens that carry capabilities, and the checks against them.
pub mod Token
pub mod Predefined
pub mod Permission
pub mod Manager
