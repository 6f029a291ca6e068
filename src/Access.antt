-- ===== src/Access.antt =====
-- Who may do what, and in which church: src/auth, src/decorators, src/planos.
pub mod Roles
pub mod Tenant
pub mod Database
pub mod Vinculos
pub mod Guards
pub mod Modulos
pub mod Visibility
pub mod Laws
mod Tests
