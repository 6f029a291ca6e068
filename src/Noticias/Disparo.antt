-- ===== src/Noticias/Disparo.antt =====
-- `saveSchedules` and `dispararVencidos` of src/news/news.service.ts. Rounds of the clock may
-- overlap, so the loop's body is a function of its own: what it does with one row read earlier.
use sistema_iccv_backend.Common.{
  ℕ, ◌+◌, ◌-◌, Bool, true, false, not, ◌&&◌, Option, none, some, List, [], ◌∷◌, ◌++◌, map, ltb, leb,
  ◌==◌, if◌then◌else◌, filter, any, find?, length, includes, nat_eq, Result, ok, ◌>>◌, ◌>>=◌,
  require, or_throw,
}
use sistema_iccv_backend.Access.Database.{Database, news, find_church}
use sistema_iccv_backend.Access.Modulos.{modulos_da, module_eq}
use sistema_iccv_backend.Noticias.{
  maximo_de_agendamentos, tolerancia_de_atraso_ms, NewsScheduleKind, once, weekly, Agendamento,
  AgendamentoError, demais, noticia_inexistente, Pronto, proxima_execucao, validar_agendamento,
}

pub record NewsSchedule : Type 0 where
  pub id : ℕ
  pub news_id : ℕ
  pub agendamento : Agendamento
  pub next_run_at : Option ℕ
  pub last_run_at : Option ℕ

pub record Noticia : Type 0 where
  pub id : ℕ
  pub is_published : Bool
  pub published_at : Option ℕ
  pub church_id : Option ℕ

-- A dispatch that was started, with the moment the schedule had been marked for.
pub record Envio : Type 0 where
  pub schedule_id : ℕ
  pub news_id : ℕ
  pub marcado : ℕ

-- The tables, and the dispatches started so far, newest first.
pub record Mural : Type 0 where
  pub schedules : List NewsSchedule
  pub noticias : List Noticia
  pub envios : List Envio

abbrev pub e_uma_vez : NewsScheduleKind → Bool
e_uma_vez once = true
e_uma_vez weekly = false

abbrev pub e_nulo : Option ℕ → Bool
e_nulo none = true
e_nulo (some t) = false

-- `{ kind: ONCE, nextRunAt: null }`: done, and kept as history.
abbrev pub ja_saiu : NewsSchedule → Bool
ja_saiu r = e_uma_vez r.agendamento.kind && e_nulo r.next_run_at

-- The rows of the form; `ids` are the ids that the table gives them, one for each.
unfoldable pub linhas : (news_id : ℕ) → List Pronto → (ids : ℕ → ℕ) → (n : ℕ) → List NewsSchedule
linhas news_id [] ids n = []
linhas news_id (p ∷ prontos) ids n =
    record {
      id = ids n;
      news_id = news_id;
      agendamento = p.agendamento;
      next_run_at = p.next_run_at;
      last_run_at = none;
    }
    ∷ linhas news_id prontos ids (n + 1)

unfoldable pub validar_todos : List Agendamento → ℕ → Result AgendamentoError (List Pronto)
validar_todos [] agora = ok []
validar_todos (e ∷ entradas) agora = do
  p ← validar_agendamento e agora
  prontos ← validar_todos entradas agora
  ok (p ∷ prontos)

-- The transaction: the pending schedules of the item give way to those of the form.
unfoldable pub salvar_linhas : (id : ℕ) → List Pronto → (ids : ℕ → ℕ) → Mural → Mural
unfolding linhas
salvar_linhas id prontos ids s = record s {
  schedules =
      filter (λ r. not (r.news_id == id && not (ja_saiu r))) s.schedules ++ linhas id prontos ids 0;
}

-- After the check that the news item is of the requester's church.
unfoldable pub save_schedules :
    (id : ℕ)
    → List Agendamento
    → (agora : ℕ) → (ids : ℕ → ℕ) → Mural
    → Result AgendamentoError Mural
unfolding validar_todos salvar_linhas
save_schedules id entradas agora ids s = do
  _ ← or_throw (find? (λ n. n.id == id) s.noticias) noticia_inexistente
  require (not (ltb maximo_de_agendamentos (length entradas))) demais
  prontos ← validar_todos entradas agora
  ok (salvar_linhas id prontos ids s)

-- A row that was due when the round read it, with its news item.
pub record Vencido : Type 0 where
  pub id : ℕ
  pub agendamento : Agendamento
  pub marcado : ℕ
  pub news : Noticia

abbrev vencido_de : List Noticia → (agora : ℕ) → NewsSchedule → Option Vencido
vencido_de noticias agora r = elim r.next_run_at [
  | none ↦ none
  | some marcado ↦
      if leb marcado agora
      then elim (find? (λ n. n.id == r.news_id) noticias) [
        | none ↦ none
        | some n ↦
            some (record { id = r.id; agendamento = r.agendamento; marcado = marcado; news = n })
      ]
      else none
]

unfoldable pub vencidos : List Noticia → (agora : ℕ) → List NewsSchedule → List Vencido
vencidos noticias agora [] = []
vencidos noticias agora (r ∷ schedules) =
    let resto = vencidos noticias agora schedules in
    elim (vencido_de noticias agora r) [ none ↦ resto | some v ↦ v ∷ resto ]

-- `where: { id, nextRunAt: marcado }`.
abbrev pub da_vez : Vencido → NewsSchedule → Bool
da_vez v r = r.id == v.id && elim r.next_run_at [ none ↦ false | some t ↦ t == v.marcado ]

abbrev pub atrasado : (agora marcado : ℕ) → Bool
atrasado agora marcado = ltb tolerancia_de_atraso_ms (agora - marcado)

unfoldable pub passar : (agora : ℕ) → Vencido → NewsSchedule → NewsSchedule
passar agora v r = record r {
  next_run_at = proxima_execucao v.agendamento agora;
  last_run_at = if atrasado agora v.marcado then r.last_run_at else some agora;
}

-- The church of the news item has the module; news of the system have no church.
unfoldable pub tem_modulo : Database → Noticia → Bool
unfolding find_church modulos_da
tem_modulo db n = elim n.church_id [
  | none ↦ true
  | some c ↦ includes news (modulos_da (find_church db c))
]

-- Whether this round starts a dispatch, once the row was its own to pass on.
unfoldable pub dispara : Database → (agora : ℕ) → (disparadas : List ℕ) → Vencido → Bool
unfolding tem_modulo
dispara db agora disparadas v =
    not (atrasado agora v.marcado)
    && v.news.is_published
    && tem_modulo db v.news
    && not (includes v.news.id disparadas)

-- The body of the loop: the tables, and the news items dispatched in this round.
unfoldable pub iteracao :
    Database → (agora : ℕ) → Vencido → (disparadas : List ℕ) → Mural → Mural × List ℕ
unfolding passar dispara
iteracao db agora v disparadas s =
    let com_vez = record s {
      schedules = map (λ r. if da_vez v r then passar agora v r else r) s.schedules;
    } in
    if not (any (da_vez v) s.schedules)
    then (s, disparadas)
    else if not (dispara db agora disparadas v)
    then (com_vez, disparadas)
    else (
      record com_vez {
        noticias =
            map (λ n. if n.id == v.news.id then record n { published_at = some agora } else n)
              s.noticias;
        envios = record { schedule_id = v.id; news_id = v.news.id; marcado = v.marcado } ∷ s.envios;
      },
      v.news.id ∷ disparadas,
    )

unfoldable pub rodada :
    Database → (agora : ℕ) → List Vencido → (disparadas : List ℕ) → Mural → Mural
unfolding iteracao
rodada db agora [] disparadas s = s
rodada db agora (v ∷ vs) disparadas s =
    let depois = iteracao db agora v disparadas s in rodada db agora vs depois.1 depois.0

-- One round with nothing between its queries.
unfoldable pub disparar_vencidos : Database → (agora : ℕ) → Mural → Mural
unfolding vencidos rodada
disparar_vencidos db agora s = rodada db agora (vencidos s.noticias agora s.schedules) [] s
