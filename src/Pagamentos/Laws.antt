-- ===== src/Pagamentos/Laws.antt =====
-- The rules on payments (src/payment/payment.service.ts).
pub mod Casa
pub mod Avisos
pub mod Painel
