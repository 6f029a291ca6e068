-- ===== src/Login/Laws.antt =====
-- What the brake on wrong passwords guarantees.
use sistema_iccv_backend.Common.{
  ℕ, ◌+◌, ◌-◌, ◌*◌, ◌≤◌, ◌<◌, ◌≡◌, refl, ◌↔◌, Bool, false, Option, none, some, List, [], ◌∷◌, arith,
  ==_refl, length, err, All,
}
use sistema_iccv_backend.Login.{
  janela_ms, falhas_para_bloqueio, na_janela, situacao_do_login, Tentativa, Conta, wrong_password,
  acertos, mais_recente, senhas_erradas, marco_de, changed_at, find_by_document, situacao,
  login_bloqueado, or_zero, conferir_senha, validate_user,
}

-- With failures on record, newest first, the login is blocked exactly when five of them lie within
-- the window that ends at the newest and that newest one is less than a window ago; the block then
-- ends one window after it.
pub situacao_do_login-blocked_iff :
    (ultima : ℕ) (antes : List ℕ) (agora ate : ℕ)
    → ((situacao_do_login (ultima ∷ antes) agora).bloqueado_ate ≡ some ate) ↔ (
        (falhas_para_bloqueio ≤ na_janela ultima (ultima ∷ antes))
        × (agora < ultima + janela_ms)
        × (ate ≡ ultima + janela_ms))
unfolding situacao_do_login
situacao_do_login-blocked_iff ultima antes agora ate = (λ h. ground arith, λ h. ground arith)

na_janela-le-length : (t : ℕ) (falhas : List ℕ) → na_janela t falhas ≤ length falhas
na_janela-le-length t [] = omega arith
na_janela-le-length t (x ∷ xs) = ground (arith, na_janela-le-length t xs)

-- While the login is blocked no password is compared and no captcha asked: whatever they would
-- say, the answer is the refusal until the same moment, and nothing is added to the log.
pub validate_user_blocked :
    (contas : List Conta) (log : List Tentativa) (document agora ate : ℕ) (captcha confere : Bool)
    → (situacao contas log document agora).login.bloqueado_ate ≡ some ate
    → validate_user contas log document captcha confere agora ≡ (log, err (login_bloqueado ate))
unfolding validate_user
validate_user_blocked contas log document agora ate captcha confere h = ground arith

mais_recente-acertos_mono :
    (log : List Tentativa) (document d d' : ℕ)
    → d ≤ d'
    → mais_recente (acertos log document d') ≤ mais_recente (acertos log document d)
unfolding mais_recente acertos
mais_recente-acertos_mono [] document d d' h = omega arith
mais_recente-acertos_mono (r ∷ log) document d d' h =
    ground (arith, mais_recente-acertos_mono log document d d' h)

-- Everything on record happened before `t`.
abbrev pub IsBefore : ℕ → List Tentativa → Type 0
IsBefore t log = All (λ r. r.created_at < t) log

mais_recente-lt :
    (log : List Tentativa) (document d t : ℕ)
    → 0 < t
    → IsBefore t log
    → mais_recente (acertos log document d) < t
unfolding mais_recente acertos
mais_recente-lt [] document d t pos h = pos
mais_recente-lt (r ∷ log) document d t pos h =
    ground (arith, mais_recente-lt log document d t pos h.1)

-- Failures of the window that ends at `t` stay counted under a later mark that none of them reaches.
na_janela_mono :
    (log : List Tentativa) (document t m m' : ℕ)
    → ((f : ℕ) → m < f → t < f + janela_ms → m' < f)
    → na_janela t (senhas_erradas log document m) ≤ na_janela t (senhas_erradas log document m')
unfolding senhas_erradas
na_janela_mono [] document t m m' h = omega arith
na_janela_mono (r ∷ log) document t m m' h =
    ground (arith, h r.created_at, na_janela_mono log document t m m' h)

-- A wrong password at `t` on top of the log.
abbrev pub com_falha : List Tentativa → ℕ → ℕ → List Tentativa
com_falha log document t =
    record { document = document; motivo = some wrong_password; created_at = t } ∷ log

module _ (log : List Tentativa) (document t later : ℕ) (changed : Option ℕ) where
  marco_later :
      later < t + janela_ms
      → t ≤ later
      → (f : ℕ) → marco_de log document changed t < f
      → t < f + janela_ms
      → marco_de (com_falha log document t) document changed later < f
  unfolding marco_de acertos
  marco_later soon after f newer inside =
      ground
        (arith, mais_recente-acertos_mono log document (t - 2 * janela_ms) (later - 2 * janela_ms))

  marco_before :
      0 < t
      → IsBefore t log
      → or_zero changed < t
      → later < t + janela_ms
      → marco_de (com_falha log document t) document changed later < t
  unfolding marco_de acertos
  marco_before pos before old soon =
      ground (arith, mais_recente-lt log document (later - 2 * janela_ms) t pos before)

module _ (contas : List Conta) (log : List Tentativa) (document t later : ℕ) where
  changed : Option ℕ
  changed = changed_at (find_by_document contas document)

  falhas_depois : List ℕ
  falhas_depois =
      senhas_erradas log document (marco_de (com_falha log document t) document changed later)

  datas_depois :
      marco_de (com_falha log document t) document changed later < t
      → senhas_erradas
          (com_falha log document t)
          document
          (marco_de (com_falha log document t) document changed later)
        ≡ t ∷ falhas_depois
  unfolding falhas_depois senhas_erradas
  datas_depois newer = ground (arith, ==_refl document)

  quinta :
      0 < t
      → IsBefore t log
      → or_zero changed < t
      → 4 ≤ (situacao contas log document t).falhas
      → t ≤ later
      → later < t + janela_ms
      → (situacao contas (com_falha log document t) document later).login.bloqueado_ate
        ≡ some (t + janela_ms)
  unfolding situacao changed falhas_depois
  quinta pos before old four after soon =
      let newer = marco_before log document t later changed pos before old soon in
      let kept =
        na_janela_mono log document t (marco_de log document changed t)
          (marco_de (com_falha log document t) document changed later)
          (marco_later log document t later changed soon after) in
      rw (datas_depois newer) (
        (situacao_do_login-blocked_iff t falhas_depois later (t + janela_ms)).1
          (ground arith, soon, refl))

quinta_inversion :
    (contas : List Conta) (log : List Tentativa) (document t : ℕ) (captcha : Bool)
    → (situacao contas log document t).login.bloqueado_ate ≡ none
    → (validate_user contas log document captcha false t).1 ≡ err (login_bloqueado (t + janela_ms))
    → (4 ≤ (situacao contas log document t).falhas)
      × ((validate_user contas log document captcha false t).0 ≡ com_falha log document t)
unfolding validate_user conferir_senha
quinta_inversion contas log document t captcha open' h = ground arith

-- The wrong password that trips the brake at time `t`, with everything on record and the last change
-- of password before `t`, locks the account for a whole window: every login at a time from `t` until
-- a window after it is refused, until that same moment, whatever the password and the captcha,
-- although older failures leave the counting window meanwhile.
pub validate_user-locks :
    (contas : List Conta) (log : List Tentativa) (document t later : ℕ)
    (captcha captcha' confere : Bool)
    → 0 < t
    → IsBefore t log
    → or_zero (changed_at (find_by_document contas document)) < t
    → (situacao contas log document t).login.bloqueado_ate ≡ none
    → (validate_user contas log document captcha false t).1 ≡ err (login_bloqueado (t + janela_ms))
    → t ≤ later
    → later < t + janela_ms
    → let after = (validate_user contas log document captcha false t).0 in
      validate_user contas after document captcha' confere later
      ≡ (after, err (login_bloqueado (t + janela_ms)))
unfolding changed
validate_user-locks contas log document t later captcha captcha' confere pos before old open' h
      after soon =
    let (four, same) = quinta_inversion contas log document t captcha open' h in
    rw same (
      validate_user_blocked contas (com_falha log document t) document later (t + janela_ms)
        captcha' confere (quinta contas log document t later pos before old four after soon))
