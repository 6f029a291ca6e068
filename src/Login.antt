-- ===== src/Login.antt =====
-- src/auth/protecao-de-login.ts, and the password login of src/auth/auth.service.ts: the brake on
-- repeated wrong passwords. Times are milliseconds.
pub mod Laws
mod Tests
use sistema_iccv_backend.Common.{
  ℕ, zero, suc, ◌+◌, ◌-◌, ◌*◌, Bool, true, false, not, ◌&&◌, ◌||◌, Option, none, some, List, [],
  ◌∷◌, map, ltb, leb, ◌==◌, if◌then◌else◌, filter, find?, length, Result, ok, err,
}
use sistema_iccv_backend.Pricing.{max}

abbrev pub falhas_para_captcha : ℕ
falhas_para_captcha = 2

abbrev pub falhas_para_bloqueio : ℕ
falhas_para_bloqueio = 5

abbrev pub janela_ms : ℕ
janela_ms = 900000

pub record SituacaoDoLogin : Type 0 where
  pub bloqueado_ate : Option ℕ
  pub exige_captcha : Bool

-- `falhas.filter((falha) => falha > t - JANELA_MS).length`, with the window moved to the other side:
-- `-` on ℕ would stop at 0.
abbrev pub na_janela : ℕ → List ℕ → ℕ
na_janela t falhas = length (filter (λ falha. ltb t (falha + janela_ms)) falhas)

abbrev sem_bloqueio : List ℕ → ℕ → SituacaoDoLogin
sem_bloqueio falhas agora = record {
  bloqueado_ate = none;
  exige_captcha = leb falhas_para_captcha (na_janela agora falhas);
}

-- The failures come newest first.
unfoldable pub situacao_do_login : List ℕ → ℕ → SituacaoDoLogin
situacao_do_login [] agora = sem_bloqueio [] agora
situacao_do_login (ultima ∷ antes) agora =
    if leb falhas_para_bloqueio (na_janela ultima (ultima ∷ antes))
      && ltb agora (ultima + janela_ms)
    then record { bloqueado_ate = some (ultima + janela_ms); exige_captcha = true }
    else sem_bloqueio (ultima ∷ antes) agora

-- `captchaValido`: `secret` and `token` say whether there is one, and `resposta` is what the service
-- answered, `none` if it did not.
unfoldable pub captcha_valido : (secret token : Bool) → (resposta : Option Bool) → Bool
captcha_valido false token resposta = true
captcha_valido true false resposta = false
captcha_valido true true none = false
captcha_valido true true (some success) = success

pub data Motivo : Type 0 where
  user_not_found wrong_password bloqueada : Motivo

-- A row of `LoginAttempt`; a success has no reason.
pub record Tentativa : Type 0 where
  pub document : ℕ
  pub motivo : Option Motivo
  pub created_at : ℕ

pub record Conta : Type 0 where
  pub document : ℕ
  pub blocked : Bool
  pub password_changed_at : Option ℕ

abbrev success : Option Motivo → Bool
success none = true
success (some m) = false

abbrev wrong : Option Motivo → Bool
wrong none = false
wrong (some user_not_found) = false
wrong (some wrong_password) = true
wrong (some bloqueada) = false

abbrev pub or_zero : Option ℕ → ℕ
or_zero none = 0
or_zero (some n) = n

-- The time of the newest row found, and 0 for none (`?.createdAt.getTime() ?? 0`).
unfoldable pub mais_recente : List Tentativa → ℕ
mais_recente [] = 0
mais_recente (t ∷ ts) = max t.created_at (mais_recente ts)

unfoldable pub acertos : List Tentativa → ℕ → ℕ → List Tentativa
acertos log document desde =
    filter (λ t. t.document == document && success t.motivo && leb desde t.created_at) log

unfoldable pub senhas_erradas : List Tentativa → ℕ → ℕ → List ℕ
senhas_erradas log document marco =
    map (λ t. t.created_at)
      (filter (λ t. t.document == document && wrong t.motivo && ltb marco t.created_at) log)

-- What a wrong password is counted since: two windows ago, the last success in them, the last change
-- of password.
unfoldable pub marco_de : List Tentativa → ℕ → Option ℕ → ℕ → ℕ
unfolding acertos mais_recente
marco_de log document changed agora =
    let desde = agora - 2 * janela_ms in
    max desde (max (mais_recente (acertos log document desde)) (or_zero changed))

pub record Situacao : Type 0 where
  pub login : SituacaoDoLogin
  pub falhas : ℕ

abbrev changed_at : Option Conta → Option ℕ
changed_at none = none
changed_at (some conta) = conta.password_changed_at

unfoldable pub find_by_document : List Conta → ℕ → Option Conta
find_by_document contas document = find? (λ c. c.document == document) contas

-- `situacao`. The log is kept newest first, the order in which the query asks for it.
unfoldable pub situacao : List Conta → List Tentativa → ℕ → ℕ → Situacao
unfolding marco_de senhas_erradas situacao_do_login find_by_document
situacao contas log document agora =
    let changed = changed_at (find_by_document contas document) in
    let datas = senhas_erradas log document (marco_de log document changed agora) in
    record { login = situacao_do_login datas agora; falhas = na_janela agora datas }

pub data LoginError : Type 0 where
  -- 429, and until when
  login_bloqueado : ℕ → LoginError
  -- 401
  falta_captcha : LoginError
  credenciais_invalidas : (captcha_required : Bool) → LoginError
  -- 404
  usuario_nao_encontrado : LoginError
  -- 403
  conta_bloqueada : LoginError

abbrev registrar : List Tentativa → ℕ → Option Motivo → ℕ → List Tentativa
registrar log document motivo agora =
    record { document = document; motivo = motivo; created_at = agora } ∷ log

-- What happens once the password was compared.
unfoldable pub conferir_senha :
    List Tentativa
    → Conta
    → ℕ
    → Situacao
    → (confere : Bool) → ℕ
    → List Tentativa × Result LoginError (Unit {0})
conferir_senha log conta document sit true agora =
    if conta.blocked
    then (registrar log document (some bloqueada) agora, err conta_bloqueada)
    else (registrar log document none agora, ok tt)
conferir_senha log conta document sit false agora =
    let novo = registrar log document (some wrong_password) agora in
    let falhas = sit.falhas + 1 in
    if leb falhas_para_bloqueio falhas
    then (novo, err (login_bloqueado (agora + janela_ms)))
    else (novo, err (credenciais_invalidas (leb falhas_para_captcha falhas)))

-- `validateUser`: the new log, and the answer. `captcha` is what `captchaValido` says and `confere`
-- what `bcrypt.compare` says, where they are asked.
unfoldable pub validate_user :
    List Conta
    → List Tentativa
    → (document : ℕ) → (captcha confere : Bool) → (agora : ℕ)
    → List Tentativa × Result LoginError (Unit {0})
unfolding situacao conferir_senha
validate_user contas log document captcha confere agora =
    let sit = situacao contas log document agora in
    elim sit.login.bloqueado_ate [
      | some ate ↦ (log, err (login_bloqueado ate))
      | none ↦
          if sit.login.exige_captcha && not captcha
          then (log, err falta_captcha)
          else elim (find_by_document contas document) [
            | none ↦
                (registrar log document (some user_not_found) agora, err usuario_nao_encontrado)
            | some conta ↦ conferir_senha log conta document sit confere agora
          ]
    ]
