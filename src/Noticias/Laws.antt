-- ===== src/Noticias/Laws.antt =====
-- What the schedules of src/news promise.
pub mod Proxima
pub mod Disparo
pub mod Corrida
pub mod Rodada
pub mod Vencidos
pub mod Calendario
pub mod Formulario
