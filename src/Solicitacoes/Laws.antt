-- ===== src/Solicitacoes/Laws.antt =====
-- What the decisions of src/solicitacoes/solicitacoes.service.ts keep.
pub mod Coerencia
pub mod Ordem
