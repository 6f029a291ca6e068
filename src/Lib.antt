-- ===== src/Lib.antt =====
-- Verification of the backend of the church system: the rules that decide who may do what, who gets
-- a seat or the last shirt, when a login is blocked and what a checkout charges.
--
-- The parts, with paths from the repository's root:
--   Common      tests on numbers, lists, and exceptions as values.
--   Access      src/auth/roles.ts, bloqueio.ts, tenant.ts, admin-do-evento.ts and
--               tesoureiro-do-evento.ts (Roles, Tenant, Vinculos), the guards of src/decorators
--               (Guards), src/planos and recalcularPerfis of src/church/church.service.ts (Modulos),
--               src/event/event-visibility.ts (Visibility). Database holds the tables they read. The
--               guards call Tenant and Vinculos, and ModuloGuard reads the same request as they.
--   PdfQueue    src/pdf/fila.ts: the module's variables as one record, naFilaDePdf cut at its two
--               suspension points into entrar, desistir, continuar and terminar, and situacaoNaFila.
--   Pricing     src/gateways/core/discount.ts and src/payment/amount-check.ts.
--   Login       src/auth/protecao-de-login.ts and validateUser, situacao and registrarTentativa of
--               src/auth/auth.service.ts; the table of attempts is a log, newest first.
--   Store       src/event/event-products.ts, and in Compra _comprarProdutosTx, vendidosPorVariante and
--               ingressoQueAceitaProdutos of src/event/event.service.ts; Reativacao is reativarCompras.
--   Enrollment  src/event/event-groups.ts, src/utils/age.ts and idadeDoTermo (Janela), the tables
--               (Cadastro), _registerUserInEventTx (Inscricao), and in Mudancas registerUserInEvent,
--               updateUserFromEvent, removeRelation, removeUserFromEvent,
--               removeUserFromEventWaitlist and movedUserFromWaitlistToEvent. Pedinte is
--               assertPodeInscrever, which runs before. It uses the payment statuses of Pricing, the
--               maps of Store and the profiles of Access.
--   Checkin     src/checkin/checkin.service.ts: the rows and their steps (Checkin), the bedrooms
--               (Quartos), and the operations on several rows (Balcao). An operation runs as a whole.
--   Solicitacoes  src/solicitacoes/solicitacoes.service.ts: criar, papel and mudarStatus, cut
--               between its read and its write, which no lock joins, and in
--               Decisao decidir, on one row and on the table. It asks Access for the church's plan.
--   Noticias    src/news/agendamento.ts, and of src/news/news.service.ts saveSchedules and
--               dispararVencidos (Disparo) and calendar (Calendario). The loop's body in
--               dispararVencidos is a function of its own, so that rounds can overlap.
--   Tesouraria  src/tesouraria: sugerirPares of conciliacao.ts (Sugestao), conciliacao.service.ts
--               (Conciliacao), and of lancamentos.service.ts, with categorias.ts, the operations on
--               one entry and the totals (Lancamentos).
--   Senha       src/auth/password-reset/password-reset.service.ts and conferirSenhaAtual of
--               src/auth/senha.ts, over the table of tokens and the map of wrong tries.
--   Pagamentos  of src/payment/payment.service.ts, the notices of the gateways (filtroDaCasa,
--               updatePaymentWebhook, updatePaymentCheckoutWebhook) and the panel's updatePaymentStatus,
--               refundPayment and updateProductsDelivery. It uses conferirValorPago of Pricing and
--               reativarCompras of Store.
-- Names are the source's in snake_case: perfilEfetivo is perfil_efetivo.
--
-- Conventions. A table is the list of its rows, a query the search that its where describes, a
-- join a row that carries the joined one. A transaction is a function from the tables to the new
-- tables or an exception; transactions follow each other, as the serializable level that most of
-- the source's ask for makes them. Ids are numbers and empty ones do not occur, so the tests for
-- empty strings have no counterpart. Times are milliseconds, money is whole cents, both natural
-- numbers, where the source keeps amounts in reais and rounds them to cents before it computes.
-- Enumerations are compared for equality only. Functions are by recursion on a list, with two
-- exceptions: proximaExecucao looks at eight days, and the loop of calendar has the milliseconds
-- left of the period as fuel, which is enough since each run is later than the one before.
-- JavaScript's numbers hold every amount and time exactly up to 2 ^ 53, which the model does not
-- bound.
--
-- Code that is not in the repository is a parameter: the answer of bcrypt.compare and of the
-- captcha service are Booleans (Senha takes bcrypt.compare and SHA-256 as functions), the clock is
-- an argument, and the floating-point scaling of a price by a discount is a function of which
-- nothing is assumed; the sort of the bedrooms by name is a function that a theorem may assume to
-- return members of its list.
--
-- Not modelled: the creation of checkouts, the registers of people, the import of bank statements
-- and the treasuries of events and congregations, occupancy of bedrooms, teams and transport
-- outside the check-in, and of the registration assertEventIsVisible and the acceptance of the
-- event's terms, which are next; HTTP clients of the gateways, mail, WhatsApp, PDF rendering, logs,
-- notifications and reports, which are input and output; the Prisma client and the Nest modules,
-- which are libraries and wiring.
mod Common
pub mod Access
pub mod PdfQueue
pub mod Pricing
pub mod Login
pub mod Store
pub mod Enrollment
pub mod Checkin
pub mod Solicitacoes
pub mod Noticias
pub mod Tesouraria
pub mod Senha
pub mod Pagamentos
