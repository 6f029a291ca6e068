-- ===== src/Access/Laws.antt =====
-- What the access rules guarantee.
pub mod Profiles
pub mod Isolation
pub mod Guards
pub mod Plans
