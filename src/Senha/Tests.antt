-- ===== src/Senha/Tests.antt =====
-- A person who forgets a password (src/auth/password-reset/password-reset.service.ts). The hash of a
-- code is the code itself here, and the digest of a ticket the next number.
use sistema_iccv_backend.Common.{
  ℕ, ◌+◌, ◌≡◌, refl, Bool, none, some, List, [], ◌∷◌, arith, ◌==◌, ok, err,
}
use sistema_iccv_backend.Senha.{
  UserToken, User, Estado, codigo_invalido, ticket_invalido, token_de, sem_tokens, minutes_from,
  request_reset, verify_code, reset_password, trocar_senha,
}
use sistema_iccv_backend.Senha.Laws.Unicos.{IsSound}
use sistema_iccv_backend.Senha.Laws.Passos.{Step, Reach, Reach-IsSound}
use sistema_iccv_backend.Senha.Laws.Tentativas.{Tentativa, tentar, tentar-locks}
use sistema_iccv_backend.Senha.Laws.Recuperacao.{SenhaTrocada, recuperacao, reset_password-twice}

abbrev confere : ℕ → ℕ → Bool
confere code hash = code == hash

abbrev sha256 : ℕ → ℕ
sha256 ticket = ticket + 1

abbrev ana : User
ana = record { id = 1; cpf = 111; email = some 9; password = 42; password_changed_at = none }

abbrev no_comeco : Estado
no_comeco = record { users = ana ∷ []; tokens = []; erros = [] }

abbrev token : UserToken
token = record {
  id = 5;
  user_id = 1;
  kind = 0;
  code_hash = 12345678;
  ticket_hash = none;
  attempts = 0;
  expires_at = 3600000;
  created_at = 0;
}

abbrev pedido : Reach confere sha256 (ana ∷ []) (record no_comeco { tokens = token ∷ [] })
unfolding request_reset sem_tokens minutes_from token_de
pedido = Reach.after Reach.start (Step.pede 111 5 12345678 0 refl)

Reach-IsSound_example : IsSound (token ∷ [])
Reach-IsSound_example = Reach-IsSound pedido

abbrev errada : ℕ → Tentativa
errada n = record { code = n; ticket = 70; agora = n }

abbrev cinco : List Tentativa
cinco = errada 1 ∷ errada 2 ∷ errada 3 ∷ errada 4 ∷ errada 5 ∷ []

tentar-locks_example :
    verify_code confere sha256 111 12345678 70 6
      (ana ∷ [])
      (tentar confere sha256 111 (ana ∷ []) cinco (token ∷ []))
    ≡ (tentar confere sha256 111 (ana ∷ []) cinco (token ∷ []), err codigo_invalido)
unfolding token_de
tentar-locks_example =
    tentar-locks confere sha256 111 (ana ∷ []) {user = ana} refl cinco (token ∷ []) {t = token}
      (record { code = 12345678; ticket = 70; agora = 6 }) (Reach-IsSound pedido) refl
      (refl, (refl, (refl, (refl, (refl, tt))))) (omega arith)

recuperacao_example :
    let pediu = request_reset 111 5 12345678 0 no_comeco in
    let verificou = verify_code confere sha256 111 12345678 70 1000 pediu.0.users pediu.0.tokens in
    (pediu.1 ≡ some 9)
    × (verificou.1 ≡ ok 70)
    × (depois : Estado) × (reset_password sha256 70 43 2000
          (record pediu.0 { tokens = verificou.0 })
        ≡ (depois, ok tt))
    × SenhaTrocada ana 43 2000 no_comeco depois
unfolding token_de
recuperacao_example =
    recuperacao confere sha256 111 5 12345678 12345678 70 43 0 1000 2000 no_comeco {user = ana} refl
      refl refl refl refl refl (omega arith) (omega arith)

abbrev com_ticket : Estado
com_ticket = record no_comeco {
  tokens = record token { ticket_hash = some 71; expires_at = 901000 } ∷ [];
}

abbrev verificado : Reach confere sha256 (ana ∷ []) com_ticket
unfolding verify_code token_de minutes_from
verificado = Reach.after pedido (Step.confirma 111 12345678 70 1000)

reset_password-twice_example :
    reset_password sha256 70 44 3000 (trocar_senha 1 43 2000 com_ticket)
    ≡ (trocar_senha 1 43 2000 com_ticket, err ticket_invalido)
unfolding reset_password
reset_password-twice_example =
    reset_password-twice sha256 70 43 2000 44 3000 com_ticket (Reach-IsSound verificado) refl
