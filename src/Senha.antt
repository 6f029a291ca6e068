-- ===== src/Senha.antt =====
-- src/auth/password-reset/password-reset.service.ts and src/auth/senha.ts: the recovery of a
-- password by a code sent by e-mail, and its change by who is logged in. Each request runs as a
-- whole. `confere` is bcrypt.compare and `sha256` the digest of a ticket; what bcrypt.hash gives, the
-- ids and the tickets drawn are arguments. Times are milliseconds.
use sistema_iccv_backend.Common.{
  ℕ, ◌+◌, ◌*◌, Bool, true, false, not, ◌&&◌, ◌||◌, Option, none, some, List, [], ◌∷◌, ltb, leb,
  ◌==◌, if◌then◌else◌, filter, any, find?, Result, ok, err,
}
pub mod Laws
mod Tests

abbrev pub token_type_password_reset : ℕ
token_type_password_reset = 0

abbrev pub code_ttl_minutes : ℕ
code_ttl_minutes = 60

abbrev pub ticket_ttl_minutes : ℕ
ticket_ttl_minutes = 15

abbrev pub max_code_attempts : ℕ
max_code_attempts = 5

abbrev pub resend_cooldown_seconds : ℕ
resend_cooldown_seconds = 60

abbrev pub erros_tolerados : ℕ
erros_tolerados = 5

abbrev pub trava_ms : ℕ
trava_ms = 15 * 60000

-- A row of `UserToken`.
pub record UserToken : Type 0 where
  pub id : ℕ
  pub user_id : ℕ
  pub kind : ℕ
  pub code_hash : ℕ
  pub ticket_hash : Option ℕ
  pub attempts : ℕ
  pub expires_at : ℕ
  pub created_at : ℕ

-- A row of `User`; an empty e-mail is `none`.
pub record User : Type 0 where
  pub id : ℕ
  pub cpf : ℕ
  pub email : Option ℕ
  pub password : ℕ
  pub password_changed_at : Option ℕ

-- An entry of the map `errosDeSenhaAtual`.
pub record ErrosDeSenha : Type 0 where
  pub user_id : ℕ
  pub quantos : ℕ
  pub travado_ate : Option ℕ

-- The tables and the map of the process. Tokens stand newest first, the order that the queries ask
-- for.
pub record Estado : Type 0 where
  pub users : List User
  pub tokens : List UserToken
  pub erros : List ErrosDeSenha

pub data ResetError : Type 0 where
  -- 400
  codigo_invalido senha_atual_incorreta senha_repetida : ResetError
  -- 401
  ticket_invalido sessao_invalida : ResetError
  -- 429
  muitas_tentativas : ResetError
  -- 500: `ticketHash` is unique
  ticket_repetido : ResetError

unfoldable pub minutes_from : (agora minutes : ℕ) → ℕ
minutes_from agora minutes = agora + minutes * 60000

abbrev pub find_by_cpf : List User → ℕ → Option User
find_by_cpf users document = find? (λ u. u.cpf == document) users

-- `where: { userId, type: TOKEN_TYPE_PASSWORD_RESET }`.
abbrev pub de_redefinicao : ℕ → UserToken → Bool
de_redefinicao user_id t = t.user_id == user_id && t.kind == token_type_password_reset

unfoldable pub token_de : List UserToken → ℕ → Option UserToken
token_de tokens user_id = find? (de_redefinicao user_id) tokens

-- `deleteMany` of the person's reset tokens.
unfoldable pub sem_tokens : ℕ → List UserToken → List UserToken
sem_tokens user_id tokens = filter (λ t. not (de_redefinicao user_id t)) tokens

unfoldable pub discard : ℕ → List UserToken → List UserToken
discard id tokens = filter (λ t. not (t.id == id)) tokens

-- `userToken.update`, by the id, which is unique.
unfoldable pub gravar : UserToken → List UserToken → List UserToken
gravar n [] = []
gravar n (x ∷ xs) = let rest = gravar n xs in if x.id == n.id then n ∷ xs else x ∷ rest

abbrev pub tem_ticket : ℕ → UserToken → Bool
tem_ticket digest t = elim t.ticket_hash [ none ↦ false | some h ↦ h == digest ]

abbrev pub em_espera : ℕ → Option UserToken → Bool
em_espera agora none = false
em_espera agora (some active) = ltb agora (active.created_at + resend_cooldown_seconds * 1000)

-- The new tables, and the address that the code is sent to, if it is. The answer is the same text
-- in every case.
unfoldable pub request_reset : (document id code_hash agora : ℕ) → Estado → Estado × Option ℕ
unfolding token_de sem_tokens minutes_from
request_reset document id code_hash agora s = elim (find_by_cpf s.users document) [
  | none ↦ (s, none)
  | some user ↦ elim user.email [
    | none ↦ (s, none)
    | some email ↦ if em_espera agora (token_de s.tokens user.id) then (s, none) else (
      record s {
        tokens =
            record {
              id = id;
              user_id = user.id;
              kind = token_type_password_reset;
              code_hash = code_hash;
              ticket_hash = none;
              attempts = 0;
              expires_at = minutes_from agora code_ttl_minutes;
              created_at = agora;
            }
            ∷ sem_tokens user.id s.tokens;
      },
      some email,
    )
  ]
]

-- The token after its code was compared.
unfoldable pub conferir_codigo :
    (sha256 : ℕ → ℕ) (ticket agora : ℕ)
    → UserToken
    → (certo : Bool) → List UserToken
    → List UserToken × Result ResetError ℕ
unfolding discard gravar minutes_from
conferir_codigo sha256 ticket agora token false tokens =
    if leb max_code_attempts (token.attempts + 1)
    then (discard token.id tokens, err codigo_invalido)
    else (gravar (record token { attempts = token.attempts + 1 }) tokens, err codigo_invalido)
conferir_codigo sha256 ticket agora token true tokens =
    if any (λ t. not (t.id == token.id) && tem_ticket (sha256 ticket) t) tokens
    then (tokens, err ticket_repetido)
    else (
      gravar
          (record token {
            ticket_hash = some (sha256 ticket);
            attempts = 0;
            expires_at = minutes_from agora ticket_ttl_minutes;
          })
          tokens,
      ok ticket,
    )

-- `verifyCode`, on the table of tokens; the answer is the ticket.
unfoldable pub verify_code :
    (confere : ℕ → ℕ → Bool) (sha256 : ℕ → ℕ) (document code ticket agora : ℕ)
    → List User
    → List UserToken
    → List UserToken × Result ResetError ℕ
unfolding token_de discard conferir_codigo
verify_code confere sha256 document code ticket agora users tokens =
    elim (find_by_cpf users document) [
      | none ↦ (tokens, err codigo_invalido)
      | some user ↦ elim (token_de tokens user.id) [
        | none ↦ (tokens, err codigo_invalido)
        | some token ↦
            if leb token.expires_at agora || leb max_code_attempts token.attempts
            then (discard token.id tokens, err codigo_invalido)
            else conferir_codigo sha256 ticket agora token (confere code token.code_hash) tokens
      ]
    ]

-- `user.update` of the password.
unfoldable pub com_senha : (user_id password_hash agora : ℕ) → List User → List User
com_senha user_id password_hash agora [] = []
com_senha user_id password_hash agora (u ∷ users) =
    let rest = com_senha user_id password_hash agora users in
    if u.id == user_id
    then record u { password = password_hash; password_changed_at = some agora } ∷ users
    else u ∷ rest

abbrev pub trocar_senha : (user_id password_hash agora : ℕ) → Estado → Estado
trocar_senha user_id password_hash agora s = record s {
  users = com_senha user_id password_hash agora s.users;
  tokens = sem_tokens user_id s.tokens;
}

abbrev pub token_do_ticket : List UserToken → ℕ → Option UserToken
token_do_ticket tokens digest =
    find? (λ t. tem_ticket digest t && t.kind == token_type_password_reset) tokens

unfoldable pub reset_password :
    (sha256 : ℕ → ℕ) (ticket password_hash agora : ℕ)
    → Estado
    → Estado × Result ResetError (Unit {0})
unfolding discard
reset_password sha256 ticket password_hash agora s =
    elim (token_do_ticket s.tokens (sha256 ticket)) [
      | none ↦ (s, err ticket_invalido)
      | some token ↦
          if leb token.expires_at agora
          then (record s { tokens = discard token.id s.tokens }, err ticket_invalido)
          else (trocar_senha token.user_id password_hash agora s, ok tt)
    ]

abbrev pub registro_de : List ErrosDeSenha → ℕ → Option ErrosDeSenha
registro_de erros user_id = find? (λ e. e.user_id == user_id) erros

abbrev sem_registro : List ErrosDeSenha → ℕ → List ErrosDeSenha
sem_registro erros user_id = filter (λ e. not (e.user_id == user_id)) erros

abbrev pub travado : ℕ → Option ErrosDeSenha → Bool
travado agora none = false
travado agora (some r) = elim r.travado_ate [ none ↦ false | some ate ↦ ltb agora ate ]

-- A lock that is over starts the count again.
abbrev pub anteriores : Option ErrosDeSenha → ℕ
anteriores none = 0
anteriores (some r) = elim r.travado_ate [ none ↦ r.quantos | some ate ↦ 0 ]

-- `conferirSenhaAtual`: the new map, and the answer. `certa` is whether a password was sent and it is
-- the account's.
unfoldable pub conferir_senha_atual :
    (user_id : ℕ) (certa : Bool) (agora : ℕ)
    → List ErrosDeSenha
    → List ErrosDeSenha × Result ResetError (Unit {0})
conferir_senha_atual user_id certa agora erros =
    if travado agora (registro_de erros user_id)
    then (erros, err muitas_tentativas)
    else if certa
    then (sem_registro erros user_id, ok tt)
    else let quantos = anteriores (registro_de erros user_id) + 1 in
      (
        record {
          user_id = user_id;
          quantos = quantos;
          travado_ate = if leb erros_tolerados quantos then some (agora + trava_ms) else none;
        }
            ∷ sem_registro erros user_id,
        err senha_atual_incorreta,
      )

-- After the current password was checked.
abbrev pub com_conferencia :
    (repetida : Bool) (user_id password_hash agora : ℕ)
    → Estado
    → List ErrosDeSenha × Result ResetError (Unit {0})
    → Estado × Result ResetError (Unit {0})
com_conferencia repetida user_id password_hash agora s (erros, err e) =
    (record s { erros = erros }, err e)
com_conferencia repetida user_id password_hash agora s (erros, ok u) =
    if repetida
    then (record s { erros = erros }, err senha_repetida)
    else (trocar_senha user_id password_hash agora (record s { erros = erros }), ok tt)

unfoldable pub change_password :
    (confere : ℕ → ℕ → Bool) (user_id : ℕ) (atual : Option ℕ) (nova password_hash agora : ℕ)
    → Estado
    → Estado × Result ResetError (Unit {0})
unfolding conferir_senha_atual
change_password confere user_id atual nova password_hash agora s =
    elim (find? (λ u. u.id == user_id) s.users) [
      | none ↦ (s, err sessao_invalida)
      | some user ↦
          let certa : Bool = elim atual [
            | none ↦ false
            | some senha ↦ confere senha user.password
          ] in
          com_conferencia (confere nova user.password) user_id password_hash agora s
            (conferir_senha_atual user_id certa agora s.erros)
    ]
