-- ===== src/Checkin.antt =====
-- src/checkin/checkin.service.ts: the reception of an event, from the badge to the photo. An operation
-- runs as a whole: its one update with the status in its `where` is what the source relies on between
-- operators, so the conflicts it answers when another operator comes in between have no counterpart.
pub mod Quartos
pub mod Balcao
pub mod Laws
mod Tests
use sistema_iccv_backend.Common.{
  ℕ, Bool, true, false, not, ◌&&◌, ◌||◌, Option, none, some, List, [], ◌∷◌, ◌++◌, map, ◌==◌,
  if◌then◌else◌, filter, any, find?, is_empty, Result, ok, err, ◌>>◌, ◌>>=◌, require, or_throw,
}

pub data CheckinStatus : Type 0 where
  pending queued in_progress done : CheckinStatus

abbrev pub same_status : CheckinStatus → CheckinStatus → Bool
same_status pending pending = true
same_status queued queued = true
same_status in_progress in_progress = true
same_status done done = true
same_status _ _ = false

-- A row of `Checkin`. Times, people and notes are numbers.
pub record Checkin : Type 0 where
  pub user_id : ℕ
  pub event_id : ℕ
  pub status : CheckinStatus
  pub badge_delivered_at : Option ℕ
  pub badge_delivered_by : Option ℕ
  pub called_at : Option ℕ
  pub called_by : Option ℕ
  pub done_at : Option ℕ
  pub done_by : Option ℕ
  pub notes : Option ℕ
  pub auto_bedroom_id : Option ℕ

pub data CheckinError : Type 0 where
  -- 409
  cracha_ja_entregue cracha_nao_retirado ja_chamado ja_concluido nada_a_desfazer : CheckinError
  sem_entrega : CheckinError
  -- 404
  inscricao_inexistente fila_vazia : CheckinError

abbrev pub da_inscricao : (event_id user_id : ℕ) → Checkin → Bool
da_inscricao event_id user_id c = c.user_id == user_id && c.event_id == event_id

-- `findUnique` by person and event.
unfoldable pub find_checkin : List Checkin → (event_id user_id : ℕ) → Option Checkin
find_checkin rows event_id user_id = find? (da_inscricao event_id user_id) rows

-- `updateMany`: whether a row was found, and the rows after it.
unfoldable pub update_many : (Checkin → Bool) → (Checkin → Checkin) → List Checkin → List Checkin
update_many where_ f [] = []
update_many where_ f (c ∷ cs) = (if where_ c then f c else c) ∷ update_many where_ f cs

-- The changes of one row.
unfoldable pub entregar : (operator agora : ℕ) → Checkin → Checkin
entregar operator agora c = record c {
  status = queued;
  badge_delivered_at = some agora;
  badge_delivered_by = some operator;
  called_at = none;
  called_by = none;
  done_at = none;
  done_by = none;
}

unfoldable pub chamar : (operator agora : ℕ) → Checkin → Checkin
chamar operator agora c = record c {
  status = in_progress;
  called_at = some agora;
  called_by = some operator;
}

abbrev or_kept : Option ℕ → Option ℕ → Option ℕ
or_kept none kept = kept
or_kept (some n) kept = some n

unfoldable pub concluir : (operator agora : ℕ) → (notes : Option ℕ) → Checkin → Checkin
concluir operator agora notes c = record c {
  status = done;
  done_at = some agora;
  done_by = some operator;
  notes = or_kept notes c.notes;
}

-- One step back, by the status.
unfoldable pub desfazer : Checkin → Checkin
desfazer c = elim c.status [
  | done ↦ record c { status = in_progress; done_at = none; done_by = none }
  | in_progress ↦ record c { status = queued; called_at = none; called_by = none }
  | queued ↦ record c { status = pending; badge_delivered_at = none; badge_delivered_by = none }
  | pending ↦ c
]

unfoldable pub reverter : Checkin → Checkin
reverter c = record c {
  status = pending;
  badge_delivered_at = none;
  badge_delivered_by = none;
  called_at = none;
  called_by = none;
  done_at = none;
  done_by = none;
  auto_bedroom_id = none;
}

abbrev pub com_status : (event_id user_id : ℕ) → List CheckinStatus → Checkin → Bool
com_status event_id user_id statuses c =
    da_inscricao event_id user_id c && any (same_status c.status) statuses

-- What the answer to an update that found no row says.
abbrev recusa_de_chamada : Option Checkin → CheckinError
recusa_de_chamada none = cracha_nao_retirado
recusa_de_chamada (some c) = elim c.status [
  | pending ↦ cracha_nao_retirado
  | done ↦ ja_concluido
  | queued ↦ ja_chamado
  | in_progress ↦ ja_chamado
]

abbrev recusa_de_conclusao : Option Checkin → CheckinError
recusa_de_conclusao none = cracha_nao_retirado
recusa_de_conclusao (some c) = elim c.status [
  | pending ↦ cracha_nao_retirado
  | done ↦ ja_concluido
  | queued ↦ ja_concluido
  | in_progress ↦ ja_concluido
]

unfoldable pub call :
    (event_id user_id operator agora : ℕ) → List Checkin → Result CheckinError (List Checkin)
unfolding find_checkin update_many chamar
call event_id user_id operator agora rows =
    let where_ = com_status event_id user_id (queued ∷ []) in
    if any where_ rows
    then ok (update_many where_ (chamar operator agora) rows)
    else err (recusa_de_chamada (find_checkin rows event_id user_id))

unfoldable pub complete :
    (event_id user_id operator agora : ℕ)
    → (notes : Option ℕ) → List Checkin
    → Result CheckinError (List Checkin)
unfolding find_checkin update_many concluir
complete event_id user_id operator agora notes rows =
    let where_ = com_status event_id user_id (queued ∷ in_progress ∷ []) in
    if any where_ rows
    then ok (update_many where_ (concluir operator agora notes) rows)
    else err (recusa_de_conclusao (find_checkin rows event_id user_id))
