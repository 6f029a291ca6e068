-- ===== src/Login/Tests.antt =====
-- An account under attack: four wrong passwords on record, and the fifth (src/auth/auth.service.ts).
use sistema_iccv_backend.Common.{
  ℕ, ◌+◌, ◌≡◌, refl, true, false, none, some, List, [], ◌∷◌, err, arith,
}
use sistema_iccv_backend.Login.{
  janela_ms, Tentativa, Conta, wrong_password, login_bloqueado, situacao, validate_user,
  find_by_document,
}
use sistema_iccv_backend.Login.Laws.{validate_user-locks, IsBefore}

abbrev conta : Conta
conta = record { document = 7; blocked = false; password_changed_at = none }

abbrev falha : ℕ → Tentativa
falha t = record { document = 7; motivo = some wrong_password; created_at = t }

abbrev quatro : List Tentativa
quatro = falha 2000000 ∷ falha 1900000 ∷ falha 1800000 ∷ falha 1700000 ∷ []

quatro-IsBefore : IsBefore 2100000 quatro
quatro-IsBefore = (omega arith, (omega arith, (omega arith, (omega arith, tt))))

validate_user-locks_example :
    let after = (validate_user (conta ∷ []) quatro 7 true false 2100000).0 in
    validate_user (conta ∷ []) after 7 true true 2900000
    ≡ (after, err (login_bloqueado (2100000 + janela_ms)))
unfolding validate_user situacao find_by_document
validate_user-locks_example =
    validate_user-locks (conta ∷ []) quatro 7 2100000 2900000 true true true (omega arith)
      quatro-IsBefore (omega arith) refl refl (omega arith) (omega arith)
