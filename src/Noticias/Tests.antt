-- ===== src/Noticias/Tests.antt =====
-- A weekly schedule of src/news, its calendar, and a round of the clock.
use sistema_iccv_backend.Common.{
  ℕ, ◌+◌, ◌*◌, ◌/◌, ◌≡◌, refl, ◌↔◌, true, none, some, [], ◌∷◌, Memᴰ, arith, All, nat_eq,
}
use sistema_iccv_backend.Access.Database.{Database}
use sistema_iccv_backend.Noticias.{
  fuso_ms, dia_ms, weekly, Horario, Agendamento, inicio_do_dia, procurar, proxima_execucao,
  inserir_dia, sem_repetir, validar_agendamento,
}
use sistema_iccv_backend.Noticias.Disparo.{
  NewsSchedule, Noticia, Mural, Vencido, iteracao, disparar_vencidos, dispara, passar, tem_modulo,
  linhas, save_schedules, validar_todos, salvar_linhas,
}
use sistema_iccv_backend.Noticias.Calendario.{combustivel, ocorrencias}
use sistema_iccv_backend.Noticias.Laws.Proxima.{IsSlot, IsNext, proxima_execucao-IsNext}
use sistema_iccv_backend.Noticias.Laws.Disparo.{IsOnce}
use sistema_iccv_backend.Noticias.Laws.Corrida.{Step, itera, salva, start, next, Reach-IsOnce}
use sistema_iccv_backend.Noticias.Laws.Vencidos.{NotDue, disparar_vencidos-NotDue}
use sistema_iccv_backend.Noticias.Laws.Calendario.{Shown, ocorrencias_iff}

-- Tuesdays at noon.
abbrev meio_dia : Horario
meio_dia = record { hora = 12; minuto = 0 }

abbrev terca : Agendamento
terca = record { kind = weekly; run_at = none; weekdays = 2 ∷ []; time = some meio_dia }

-- Sunday 1970-01-11 at midnight in Brasília, and the Tuesday that follows at noon.
abbrev domingo : ℕ
domingo = 10 * dia_ms + fuso_ms

abbrev terca_12h : ℕ
terca_12h = 12 * dia_ms + fuso_ms + dia_ms / 2

proxima_execucao-IsNext_example :
    (r : ℕ) × (proxima_execucao terca domingo ≡ some r) × IsNext meio_dia (2 ∷ []) domingo r
proxima_execucao-IsNext_example =
    proxima_execucao-IsNext terca meio_dia 2 domingo refl refl (omega arith) (omega arith) refl
      (omega arith)

na_terca : proxima_execucao terca domingo ≡ some terca_12h
unfolding proxima_execucao inicio_do_dia procurar
na_terca = refl

na_outra_terca : proxima_execucao terca terca_12h ≡ some (terca_12h + 7 * dia_ms)
unfolding proxima_execucao inicio_do_dia procurar
na_outra_terca = refl

noon_run : IsSlot meio_dia (2 ∷ []) terca_12h
noon_run = record { depois_de_1970 = omega arith; na_hora = refl; no_dia_certo = refl }

ocorrencias_iff_example :
    Memᴰ (terca_12h + 7 * dia_ms) (
      ocorrencias terca domingo
        (domingo + 30 * dia_ms)
        (combustivel (domingo + 30 * dia_ms) (some terca_12h))
        0
        (some terca_12h))
    ↔ Shown terca meio_dia domingo (domingo + 30 * dia_ms) terca_12h (terca_12h + 7 * dia_ms)
ocorrencias_iff_example =
    ocorrencias_iff terca meio_dia 2
      (record {
        kind_is = refl;
        time_is = refl;
        time_of_day = omega arith;
        some_day = omega arith;
        has_day = refl;
      })
      domingo (domingo + 30 * dia_ms) terca_12h (terca_12h + 7 * dia_ms) (omega arith) noon_run

abbrev vazio : Database
vazio = record {
  users = [];
  churches = [];
  events = [];
  event_admins = [];
  event_treasurers = [];
  payments = [];
  news = [];
}

abbrev aviso : Noticia
aviso = record { id = 3; is_published = true; published_at = some 0; church_id = none }

abbrev mural : Mural
mural = record { schedules = []; noticias = aviso ∷ []; envios = [] }

abbrev ids : ℕ → ℕ
ids n = 40 + n

abbrev da_terca : NewsSchedule
da_terca = record {
  id = 40;
  news_id = 3;
  agendamento = terca;
  next_run_at = some terca_12h;
  last_run_at = none;
}

abbrev com_terca : Mural
com_terca = record mural { schedules = da_terca ∷ [] }

salvo : Step mural com_terca
unfolding save_schedules validar_todos salvar_linhas linhas validar_agendamento sem_repetir
    inserir_dia proxima_execucao inicio_do_dia procurar
salvo =
    salva 3 (terca ∷ []) domingo ids
      (record { apart = λ i j same. omega arith; unused = λ i. tt; never_fired = λ i. tt }) refl

abbrev lida : Vencido
lida = record { id = 40; agendamento = terca; marcado = terca_12h; news = aviso }

-- Two rounds read the same row; the first one dispatches it.
abbrev uma_rodada : Mural
unfolding iteracao
uma_rodada = (iteracao vazio (terca_12h + 1) lida [] com_terca).0

abbrev duas_rodadas : Mural
unfolding iteracao
duas_rodadas = (iteracao vazio (terca_12h + 2) lida [] uma_rodada).0

Reach-IsOnce_example : IsOnce duas_rodadas.envios
unfolding iteracao
Reach-IsOnce_example = Reach-IsOnce (
    next (next (next (start refl refl) salvo) (itera vazio (terca_12h + 1) lida [] (omega arith)))
      (itera vazio (terca_12h + 2) lida [] (omega arith)))

um_envio_so :
    duas_rodadas.envios ≡ record { schedule_id = 40; news_id = 3; marcado = terca_12h } ∷ []
unfolding iteracao passar dispara tem_modulo proxima_execucao inicio_do_dia procurar
um_envio_so = refl

disparar_vencidos-NotDue_example :
    All (NotDue vazio terca_12h) (disparar_vencidos vazio terca_12h com_terca).schedules
disparar_vencidos-NotDue_example = disparar_vencidos-NotDue vazio terca_12h com_terca (refl, tt)
