-- ===== src/Senha/Laws.antt =====
-- What the recovery of a password (src/auth/password-reset/password-reset.service.ts) keeps.
pub mod Unicos
pub mod Passos
pub mod Tentativas
pub mod Recuperacao
