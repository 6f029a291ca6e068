-- ===== src/Tesouraria/Laws.antt =====
-- What the ledger of src/tesouraria keeps.
pub mod Sugestao
pub mod Pares
pub mod Sugeridos
pub mod Somas
pub mod Totais
pub mod Alteracoes
pub mod Importados
