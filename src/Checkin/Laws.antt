-- ===== src/Checkin/Laws.antt =====
-- Proofs on the check-in.
pub mod Carimbos
pub mod Passos
pub mod Vagas
pub mod Desfeito
