-- ===== src/Store/Laws.antt =====
-- What the store guarantees.
pub mod Estoque
pub mod Voltam
pub mod Pedido
