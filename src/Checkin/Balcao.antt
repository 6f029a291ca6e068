-- ===== src/Checkin/Balcao.antt =====
-- The operations of src/checkin/checkin.service.ts that touch more than one row: the badge with its
-- bedroom, the next of the queue, and the ways back.
use sistema_iccv_backend.Common.{
  ℕ, Bool, true, false, not, ◌&&◌, Option, none, some, List, [], ◌∷◌, ◌++◌, ltb, ◌==◌,
  if◌then◌else◌, filter, any, find?, Result, ok, err, ◌>>◌, ◌>>=◌, require, or_throw,
}
use sistema_iccv_backend.Checkin.{
  pending, queued, in_progress, done, same_status, Checkin, CheckinError, cracha_ja_entregue,
  nada_a_desfazer, sem_entrega, inscricao_inexistente, fila_vazia, da_inscricao, find_checkin,
  update_many, entregar, desfazer, reverter, com_status, call,
}
use sistema_iccv_backend.Checkin.Quartos.{Quarto, Ocupacao, allocate_bedroom}

-- `EventOnUsers`, with the names of the groups of the person's roles.
pub record Participante : Type 0 where
  pub user_id : ℕ
  pub event_id : ℕ
  pub grupos : List ℕ

-- The tables; `com_quartos` are the events with the bedrooms module.
pub record Recepcao : Type 0 where
  pub participantes : List Participante
  pub checkins : List Checkin
  pub quartos : List Quarto
  pub ocupacoes : List Ocupacao
  pub com_quartos : List ℕ

unfoldable pub find_registration : Recepcao → (event_id user_id : ℕ) → Option Participante
find_registration s event_id user_id =
    find? (λ p. p.user_id == user_id && p.event_id == event_id) s.participantes

abbrev pub novo_checkin : (event_id user_id operator agora : ℕ) → Checkin
novo_checkin event_id user_id operator agora = record {
  user_id = user_id;
  event_id = event_id;
  status = queued;
  badge_delivered_at = some agora;
  badge_delivered_by = some operator;
  called_at = none;
  called_by = none;
  done_at = none;
  done_by = none;
  notes = none;
  auto_bedroom_id = none;
}

-- The row of the delivery: created, or taken out of `PENDING`.
unfoldable pub entregar_cracha :
    (event_id user_id operator agora : ℕ) → List Checkin → Result CheckinError (List Checkin)
unfolding find_checkin update_many entregar
entregar_cracha event_id user_id operator agora rows = elim (find_checkin rows event_id user_id) [
  | none ↦ ok (rows ++ novo_checkin event_id user_id operator agora ∷ [])
  | some c ↦
      let where_ = com_status event_id user_id (pending ∷ []) in
      if any where_ rows
      then ok (update_many where_ (entregar operator agora) rows)
      else err cracha_ja_entregue
]

unfoldable pub marcar_quarto : (event_id user_id : ℕ) → Option ℕ → List Checkin → List Checkin
unfolding update_many
marcar_quarto event_id user_id none rows = rows
marcar_quarto event_id user_id (some id) rows =
    update_many (da_inscricao event_id user_id) (λ c. record c { auto_bedroom_id = some id }) rows

module _ (por_nome : List Quarto → List Quarto) where
  unfoldable pub deliver_badge :
      (event_id user_id operator agora : ℕ) → Recepcao → Result CheckinError Recepcao
  unfolding find_registration entregar_cracha allocate_bedroom marcar_quarto
  deliver_badge event_id user_id operator agora s = do
    registration ← or_throw (find_registration s event_id user_id) inscricao_inexistente
    rows ← entregar_cracha event_id user_id operator agora s.checkins
    let modulo = any (λ e. e == event_id) s.com_quartos
    let alocado =
        allocate_bedroom por_nome modulo s.quartos event_id user_id registration.grupos s.ocupacoes
    ok (record s {
      checkins = marcar_quarto event_id user_id alocado.0 rows;
      ocupacoes = alocado.1;
    })

-- Delivered earlier; a missing time comes last.
abbrev pub antes : Option ℕ → Option ℕ → Bool
antes none b = false
antes (some a) none = true
antes (some a) (some b) = ltb a b

-- The first of the queue, by the time of the badge.
unfoldable pub primeiro : List Checkin → Option Checkin
primeiro [] = none
primeiro (c ∷ cs) = elim (primeiro cs) [
  | none ↦ some c
  | some d ↦ if antes d.badge_delivered_at c.badge_delivered_at then some d else some c
]

-- With one operator at a time the first candidate is still in the queue, so the loop over the five
-- candidates stops at it.
unfoldable pub call_next :
    (event_id operator agora : ℕ) → List Checkin → Result CheckinError (List Checkin)
unfolding primeiro call
call_next event_id operator agora rows = do
  c ←
      or_throw (primeiro (filter (λ c. c.event_id == event_id && same_status c.status queued) rows))
        fila_vazia
  call event_id c.user_id operator agora rows

-- `releaseAutoBedroom`: the bedroom that the delivery gave, and only it.
unfoldable pub release_auto_bedroom : (event_id user_id : ℕ) → Option ℕ → Recepcao → Recepcao
unfolding update_many
release_auto_bedroom event_id user_id none s = s
release_auto_bedroom event_id user_id (some id) s = record s {
  ocupacoes = filter (λ o. not (o.user_id == user_id && o.bedroom_id == id)) s.ocupacoes;
  checkins =
      update_many (da_inscricao event_id user_id) (λ c. record c { auto_bedroom_id = none })
        s.checkins;
}

unfoldable pub undo : (event_id user_id : ℕ) → Recepcao → Result CheckinError Recepcao
unfolding find_checkin update_many desfazer release_auto_bedroom
undo event_id user_id s = do
  atual ← or_throw (find_checkin s.checkins event_id user_id) nada_a_desfazer
  require (not (same_status atual.status pending)) nada_a_desfazer
  let s' = record s {
    checkins = update_many (com_status event_id user_id (atual.status ∷ [])) desfazer s.checkins;
  }
  ok (
      if same_status atual.status queued
      then release_auto_bedroom event_id user_id atual.auto_bedroom_id s'
      else s')

unfoldable pub undo_badge_delivery :
    (event_id user_id : ℕ) → Recepcao → Result CheckinError Recepcao
unfolding find_registration find_checkin update_many reverter release_auto_bedroom
undo_badge_delivery event_id user_id s = do
  registration ← or_throw (find_registration s event_id user_id) inscricao_inexistente
  antes_dela ← or_throw (find_checkin s.checkins event_id user_id) sem_entrega
  let where_ = com_status event_id user_id (queued ∷ in_progress ∷ done ∷ [])
  require (any where_ s.checkins) sem_entrega
  ok (
      release_auto_bedroom event_id user_id antes_dela.auto_bedroom_id
        (record s { checkins = update_many where_ reverter s.checkins }))
