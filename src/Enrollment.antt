-- ===== src/Enrollment.antt =====
-- Registration in an event: src/event/event-groups.ts, src/utils/age.ts, `idadeDoTermo` of
-- src/event/event-terms.ts, and the transactions of src/event/event.service.ts that register, move
-- and remove people.
pub mod Janela
pub mod Cadastro
pub mod Pedinte
pub mod Inscricao
pub mod Mudancas
pub mod Laws
mod Tests
mod PedinteTests
