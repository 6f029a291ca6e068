-- ===== src/Noticias.antt =====
-- src/news/agendamento.ts: when a scheduled dispatch of a news item runs next, and the check of the
-- form. Times are milliseconds UTC from 1970 on; Brasília is three hours behind. A time of day is
-- the hour and the minute that the text `HH:mm` shows, and `none` for any other text.
use sistema_iccv_backend.Common.{
  ℕ, zero, suc, ◌+◌, ◌-◌, ◌*◌, ◌/◌, ◌%◌, Bool, true, false, not, ◌&&◌, ◌||◌, Option, none, some,
  List, [], ◌∷◌, ltb, leb, ◌==◌, if◌then◌else◌, any, is_empty, includes, nat_eq, Result, ok, err,
  ◌>>◌, ◌>>=◌, require, or_throw,
}
pub mod Disparo
pub mod Calendario
pub mod Laws
mod Tests

abbrev pub fuso_ms : ℕ
fuso_ms = 3 * 60 * 60 * 1000

abbrev pub dia_ms : ℕ
dia_ms = 24 * 60 * 60 * 1000

abbrev pub maximo_de_agendamentos : ℕ
maximo_de_agendamentos = 20

abbrev pub tolerancia_de_atraso_ms : ℕ
tolerancia_de_atraso_ms = 60 * 60 * 1000

pub data NewsScheduleKind : Type 0 where
  once weekly : NewsScheduleKind

pub record Horario : Type 0 where
  pub hora : ℕ
  pub minuto : ℕ

pub record Agendamento : Type 0 where
  pub kind : NewsScheduleKind
  pub run_at : Option ℕ
  pub weekdays : List ℕ
  pub time : Option Horario

abbrev pub no_dia : Horario → ℕ
no_dia h = (h.hora * 60 + h.minuto) * 60 * 1000

-- `getUTCDay` of JavaScript's dates: 1970 began on a Thursday.
abbrev pub get_utc_day : ℕ → ℕ
get_utc_day t = (t / dia_ms + 4) % 7

-- Midnight of today in Brasília.
unfoldable pub inicio_do_dia : ℕ → ℕ
inicio_do_dia depois_de =
    let agora_local = depois_de - fuso_ms in agora_local - agora_local % dia_ms + fuso_ms

-- One round of the loop over the days.
abbrev pub serve : List ℕ → (depois_de dia candidato : ℕ) → Bool
serve dias depois_de dia candidato =
    includes (get_utc_day (dia + fuso_ms)) dias && ltb depois_de candidato

-- The loop: `faltam` days are left to look at, the first one begins at `dia`.
unfoldable pub procurar : Horario → List ℕ → (depois_de faltam dia : ℕ) → Option ℕ
procurar h dias depois_de zero dia = none
procurar h dias depois_de (suc faltam) dia =
    let candidato = dia + no_dia h in
    let resto = procurar h dias depois_de faltam (dia + dia_ms) in
    if serve dias depois_de dia candidato then some candidato else resto

abbrev pub se_futuro : Option ℕ → ℕ → Option ℕ
se_futuro none depois_de = none
se_futuro (some quando) depois_de = if ltb depois_de quando then some quando else none

-- Without a time of day every candidate is an invalid date, and none compares as later.
unfoldable pub proxima_execucao : Agendamento → ℕ → Option ℕ
unfolding inicio_do_dia procurar
proxima_execucao a depois_de = elim a.kind [
  | once ↦ se_futuro a.run_at depois_de
  | weekly ↦ elim a.time [
    | none ↦ none
    | some h ↦ procurar h a.weekdays depois_de 8 (inicio_do_dia depois_de)
  ]
]

pub data AgendamentoError : Type 0 where
  -- 400
  sem_data data_passada sem_dia sem_horario demais : AgendamentoError
  -- 404
  noticia_inexistente : AgendamentoError

-- What is saved: the schedule and its next run.
pub record Pronto : Type 0 where
  pub agendamento : Agendamento
  pub next_run_at : Option ℕ

-- `[...new Set(dias)].sort()`, on days of one digit.
unfoldable pub inserir_dia : ℕ → List ℕ → List ℕ
inserir_dia d [] = d ∷ []
inserir_dia d (x ∷ xs) =
    if d == x then x ∷ xs else if ltb d x then d ∷ x ∷ xs else x ∷ inserir_dia d xs

unfoldable pub sem_repetir : List ℕ → List ℕ
unfolding inserir_dia
sem_repetir [] = []
sem_repetir (d ∷ dias) = inserir_dia d (sem_repetir dias)

-- `HORARIO`, on the hour and the minute.
abbrev pub horario_valido : Option Horario → Bool
horario_valido none = false
horario_valido (some h) = ltb h.hora 24 && ltb h.minuto 60

abbrev pub validar_uma_vez : Agendamento → ℕ → Result AgendamentoError Pronto
validar_uma_vez entrada agora = do
  run_at ← or_throw entrada.run_at sem_data
  require (ltb agora run_at) data_passada
  ok (record {
    agendamento = record { kind = once; run_at = some run_at; weekdays = []; time = none };
    next_run_at = some run_at;
  })

abbrev pub validar_semanal : Agendamento → ℕ → Result AgendamentoError Pronto
validar_semanal entrada agora = do
  let weekdays : List ℕ = sem_repetir entrada.weekdays
  require (not (is_empty weekdays || any (λ dia. ltb 6 dia) weekdays)) sem_dia
  require (horario_valido entrada.time) sem_horario
  let pronto : Agendamento = record {
    kind = weekly;
    run_at = none;
    weekdays = weekdays;
    time = entrada.time;
  }
  ok (record { agendamento = pronto; next_run_at = proxima_execucao pronto agora })

unfoldable pub validar_agendamento : Agendamento → ℕ → Result AgendamentoError Pronto
validar_agendamento entrada agora = elim entrada.kind [
  | once ↦ validar_uma_vez entrada agora
  | weekly ↦ validar_semanal entrada agora
]
