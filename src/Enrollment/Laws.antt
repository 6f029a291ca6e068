-- ===== src/Enrollment/Laws.antt =====
-- Proofs on registration in an event.
pub mod Pedinte
pub mod Loop
pub mod Contagem
pub mod Vagas
pub mod Atendimento
pub mod Contrato
pub mod Trocas
pub mod Saidas
pub mod Subida
