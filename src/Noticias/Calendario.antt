-- ===== src/Noticias/Calendario.antt =====
-- The future part of `calendar` of src/news/news.service.ts: the occurrences of every schedule within
-- a period. The dispatches already made and the sort are not modelled.
use sistema_iccv_backend.Common.{
  ℕ, zero, suc, ◌+◌, ◌-◌, ◌*◌, ◌&&◌, Option, none, some, List, [], ◌∷◌, ◌++◌, map, ltb, leb,
  if◌then◌else◌, Result, ok, ◌>>◌, require,
}
use sistema_iccv_backend.Noticias.{Agendamento, proxima_execucao, dia_ms}
use sistema_iccv_backend.Noticias.Disparo.{NewsSchedule}

abbrev pub periodo_maximo_do_calendario_ms : ℕ
periodo_maximo_do_calendario_ms = 62 * dia_ms

abbrev pub teto_de_ocorrencias : ℕ
teto_de_ocorrencias = 100

-- The loop over one schedule; `n` is the length of the list so far. The next run is always later,
-- so the milliseconds left until `ate` are fuel enough.
unfoldable pub ocorrencias : Agendamento → (de ate fuel n : ℕ) → Option ℕ → List ℕ
ocorrencias a de ate zero n quando = []
ocorrencias a de ate (suc fuel) n none = []
ocorrencias a de ate (suc fuel) n (some quando) =
    let dentro = leb de quando in
    let resto =
      ocorrencias a de ate fuel (if dentro then n + 1 else n) (proxima_execucao a quando) in
    if ltb quando ate && ltb n teto_de_ocorrencias
    then (if dentro then quando ∷ resto else resto)
    else []

abbrev pub combustivel : (ate : ℕ) → Option ℕ → ℕ
combustivel ate none = 0
combustivel ate (some quando) = suc (ate - quando)

pub record Agendado : Type 0 where
  pub schedule_id : ℕ
  pub at : ℕ

unfoldable pub agendados : (de ate : ℕ) → List NewsSchedule → List Agendado
unfolding ocorrencias
agendados de ate [] = []
agendados de ate (r ∷ schedules) =
    map (λ quando. record { schedule_id = r.id; at = quando })
      (ocorrencias r.agendamento de ate (combustivel ate r.next_run_at) 0 r.next_run_at)
    ++ agendados de ate schedules

pub data CalendarError : Type 0 where
  periodo_invalido periodo_longo : CalendarError

unfoldable pub calendar : (de ate : ℕ) → List NewsSchedule → Result CalendarError (List Agendado)
unfolding agendados
calendar de ate schedules =
    require (ltb de ate) periodo_invalido
    >> (require (leb (ate - de) periodo_maximo_do_calendario_ms) periodo_longo
        >> ok (agendados de ate schedules))
