-- ===== src/Enrollment/Janela.antt =====
-- src/event/event-groups.ts: when a group takes registrations; src/utils/age.ts and `idadeDoTermo`:
-- who is a minor at the event. Times are milliseconds.
use sistema_iccv_backend.Common.{
  ℕ, ◌-◌, ◌≤◌, ◌<◌, ◌≡◌, ◌↔◌, Bool, true, false, not, ◌&&◌, ◌||◌, Option, none, some, arith, ltb,
  leb, ◌==◌, if◌then◌else◌, Result, ok, err,
}

-- `JanelaDoGrupo`, without the name, which only the messages use.
pub record JanelaDoGrupo : Type 0 where
  pub active : Bool
  pub opens_at : Option ℕ
  pub closes_at : Option ℕ

-- Why a group takes no registration now; the times are those of the messages.
pub data Fechado : Type 0 where
  desligado : Fechado
  abre_em encerrou_em : ℕ → Fechado

abbrev pub coalesce : Option ℕ → Option ℕ → Option ℕ
coalesce none b = b
coalesce (some a) b = some a

abbrev antes_de : ℕ → Option ℕ → Option ℕ
antes_de agora none = none
antes_de agora (some abre) = if ltb agora abre then some abre else none

abbrev depois_de : ℕ → Option ℕ → Option Fechado
depois_de agora none = none
depois_de agora (some fecha) = if leb fecha agora then some (encerrou_em fecha) else none

unfoldable pub grupo_fechado :
    JanelaDoGrupo → (agora : ℕ) → (fim_do_evento : Option ℕ) → Option Fechado
grupo_fechado grupo agora fim_do_evento =
    if not grupo.active then some desligado else elim (antes_de agora grupo.opens_at) [
      | some abre ↦ some (abre_em abre)
      | none ↦ depois_de agora (coalesce grupo.closes_at fim_do_evento)
    ]

-- A date of the form: absent (leave as it is), empty (erase), or a date.
pub data Campo : Type 0 where
  ausente vazio : Campo
  data_em : ℕ → Campo

pub record JanelaRecebida : Type 0 where
  pub active : Option Bool
  pub opens_at : Campo
  pub closes_at : Campo

pub data JanelaError : Type 0 where
  encerra_antes_de_abrir : JanelaError

abbrev fora_de_ordem : Campo → Campo → Bool
fora_de_ordem (data_em abre) (data_em fecha) = leb fecha abre
fora_de_ordem _ _ = false

unfoldable pub janela_recebida : JanelaRecebida → Result JanelaError JanelaRecebida
janela_recebida grupo =
    if fora_de_ordem grupo.opens_at grupo.closes_at then err encerra_antes_de_abrir else ok grupo

-- The window in words: switched on, not before the opening, and before the closing, which is the
-- group's or else the event's end.
abbrev pub After : Option ℕ → ℕ → Type 0
After none agora = Unit
After (some abre) agora = abre ≤ agora

abbrev pub Before : Option ℕ → ℕ → Type 0
Before none agora = Unit
Before (some fecha) agora = agora < fecha

-- A group takes registrations exactly when it is switched on, its opening (if any) has come, and its
-- closing has not, where a group without one closes when the event ends, if that is set.
pub grupo_fechado-none_iff :
    (grupo : JanelaDoGrupo) (agora : ℕ) (fim : Option ℕ)
    → (grupo_fechado grupo agora fim ≡ none) ↔ (
        (grupo.active ≡ true)
        × After grupo.opens_at agora
        × Before (coalesce grupo.closes_at fim) agora)
unfolding grupo_fechado
grupo_fechado-none_iff grupo agora fim = (λ h. ground arith, λ h. ground arith)

-- A date as `getFullYear`, `getMonth` and `getDate` read it.
pub record Data : Type 0 where
  pub year : ℕ
  pub month : ℕ
  pub day : ℕ

abbrev before_birthday : Data → Data → Bool
before_birthday birthday at_date =
    ltb at_date.month birthday.month
    || at_date.month == birthday.month && ltb at_date.day birthday.day

-- The age is compared with a positive limit only, so the subtraction of ℕ, which stops at 0 for a
-- birthday after the date, changes no answer.
unfoldable pub calculate_age : Data → Data → ℕ
calculate_age birthday at_date =
    let age = at_date.year - birthday.year in
    if before_birthday birthday at_date then age - 1 else age

-- `data.minorAgeLimit`, if the event has one that is a number.
unfoldable pub idade_do_termo : Option ℕ → ℕ
idade_do_termo none = 16
idade_do_termo (some limit) = if limit == 18 then 18 else 16
