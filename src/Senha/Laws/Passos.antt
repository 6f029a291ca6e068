-- ===== src/Senha/Laws/Passos.antt =====
-- What any sequence of requests to src/auth/password-reset/password-reset.service.ts keeps of the
-- table of tokens.
use sistema_iccv_backend.Common.{
  ok, err, ℕ, ◌+◌, ◌≡◌, refl, Bool, true, false, not, ◌&&◌, ◌||◌, Option, none, List, [], arith,
  ◌==◌, any, All, All-mem, Memᴰ, Result, leb, mem_of_find?, mem_of_filter, Bool-cases, Option-cases,
  inl, inr, find?,
}
use sistema_iccv_backend.Senha.{
  UserToken, User, ErrosDeSenha, Estado, token_type_password_reset, max_code_attempts, find_by_cpf,
  de_redefinicao, token_de, sem_tokens, tem_ticket, request_reset, conferir_codigo, verify_code,
  reset_password, change_password, ResetError, com_conferencia, em_espera, token_do_ticket,
}
use sistema_iccv_backend.Senha.Laws.Unicos.{
  Apart, IsSound, discard-IsSound, sem_tokens-IsSound, gravar-IsSound, com_erro-Apart,
  com_ticket-Apart, any-All, All-of-mem, Apart-mem,
}

conferir_codigo-IsSound :
    (sha256 : ℕ → ℕ) (ticket agora : ℕ) (t : UserToken) (certo : Bool) (xs : List UserToken)
    → Memᴰ t xs
    → IsSound xs
    → IsSound (conferir_codigo sha256 ticket agora t certo xs).0
unfolding conferir_codigo
conferir_codigo-IsSound sha256 ticket agora t false xs m w =
    elim (Bool-cases (leb max_code_attempts (t.attempts + 1))) [
      | inl e ↦ rw e (discard-IsSound t.id xs w)
      | inr e ↦ rw e (
          gravar-IsSound (record t { attempts = t.attempts + 1 }) xs (ground arith)
            (λ y my d.
              com_erro-Apart {t = t} {y = y} (t.attempts + 1) (Apart-mem xs w.apart m my d))
            w)
    ]
conferir_codigo-IsSound sha256 ticket agora t true xs m w =
    elim (Bool-cases (any (λ y. not (y.id == t.id) && tem_ticket (sha256 ticket) y) xs)) [
      | inl e ↦ rw e w
      | inr e ↦ rw e (
          gravar-IsSound _ xs (omega arith)
            (λ y my d.
              let livre =
                All-mem (λ y. (not (y.id == t.id) && tem_ticket (sha256 ticket) y) ≡ false) xs
                  (any-All _ xs e) my in
              com_ticket-Apart {t = t} {y = y} (sha256 ticket) _ (ground (arith, d, livre))
                (Apart-mem xs w.apart m my d))
            w)
    ]

pub verify_code-IsSound :
    (confere : ℕ → ℕ → Bool) (sha256 : ℕ → ℕ) (document code ticket agora : ℕ) (users : List User)
    (xs : List UserToken)
    → IsSound xs
    → IsSound (verify_code confere sha256 document code ticket agora users xs).0
unfolding verify_code token_de
verify_code-IsSound confere sha256 document code ticket agora users xs w =
    elim (Option-cases (find_by_cpf users document)) [
      | inl e ↦ rw (verify_code, e) w
      | inr (user, e) ↦
          rw (verify_code, e)
            (elim (Option-cases (token_de xs user.id)) [
              | inl e' ↦ rw e' w
              | inr (t, e') ↦
                  rw e'
                    (elim (Bool-cases
                      (leb t.expires_at agora || leb max_code_attempts t.attempts)) [
                        | inl e'' ↦ rw e'' (discard-IsSound t.id xs w)
                        | inr e'' ↦ rw e'' (
                            conferir_codigo-IsSound sha256 ticket agora t (confere code t.code_hash)
                              xs (mem_of_find? (de_redefinicao user.id) xs e').0 w)
                      ])
            ])
    ]

-- A new token is apart from those of other people.
novo-Apart :
    (user_id id code_hash agora expires : ℕ) (xs : List UserToken)
    → any (λ t. t.id == id) xs ≡ false
    → All
        (Apart (record {
          id = id;
          user_id = user_id;
          kind = token_type_password_reset;
          code_hash = code_hash;
          ticket_hash = none;
          attempts = 0;
          expires_at = expires;
          created_at = agora;
        }))
        (sem_tokens user_id xs)
unfolding sem_tokens
novo-Apart user_id id code_hash agora expires xs fresh = All-of-mem _ _ λ y m.
    let (my, outro) = mem_of_filter (λ t. not (de_redefinicao user_id t)) xs m in
    let livre = All-mem (λ t. (t.id == id) ≡ false) xs (any-All _ xs fresh) my in
    record { ids = ground arith; owners = λ u. ground arith; tickets = λ h. refl }

request_reset-IsSound :
    (document id code_hash agora : ℕ) (s : Estado)
    → any (λ t. t.id == id) s.tokens ≡ false
    → IsSound s.tokens
    → IsSound (request_reset document id code_hash agora s).0.tokens
unfolding request_reset
request_reset-IsSound document id code_hash agora s fresh w =
    elim (Option-cases (find_by_cpf s.users document)) [
      | inl e ↦ rw (request_reset, e) w
      | inr (user, e) ↦
          rw (request_reset, e)
            (elim (Option-cases user.email) [
              | inl e' ↦ rw e' w
              | inr (email, e') ↦
                  rw e' (elim (Bool-cases (em_espera agora (token_de s.tokens user.id))) [
                    | inl e'' ↦ rw e'' w
                    | inr e'' ↦ rw e'' (
                        let rest = sem_tokens-IsSound user.id s.tokens w in
                        record {
                          apart =
                              (novo-Apart user.id id code_hash agora _ s.tokens fresh, rest.apart);
                          tries = (omega arith, rest.tries);
                        })
                  ])
            ])
    ]

reset_password-IsSound :
    (sha256 : ℕ → ℕ) (ticket password_hash agora : ℕ) (s : Estado)
    → IsSound s.tokens
    → IsSound (reset_password sha256 ticket password_hash agora s).0.tokens
unfolding reset_password
reset_password-IsSound sha256 ticket password_hash agora s w =
    elim (Option-cases (token_do_ticket s.tokens (sha256 ticket))) [
      | inl e ↦ rw (reset_password, e) w
      | inr (t, e) ↦
          rw (reset_password, e)
            (elim (Bool-cases (leb t.expires_at agora)) [
              | inl e' ↦ rw e' (discard-IsSound t.id s.tokens w)
              | inr e' ↦ rw e' (sem_tokens-IsSound t.user_id s.tokens w)
            ])
    ]

com_conferencia-IsSound :
    (repetida : Bool) (user_id password_hash agora : ℕ) (s : Estado)
    (r : List ErrosDeSenha × Result ResetError (Unit {0}))
    → IsSound s.tokens
    → IsSound (com_conferencia repetida user_id password_hash agora s r).0.tokens
com_conferencia-IsSound repetida user_id password_hash agora s (erros, err e) w = w
com_conferencia-IsSound true user_id password_hash agora s (erros, ok u) w = w
com_conferencia-IsSound false user_id password_hash agora s (erros, ok u) w =
    sem_tokens-IsSound user_id s.tokens w

change_password-IsSound :
    (confere : ℕ → ℕ → Bool) (user_id : ℕ) (atual : Option ℕ) (nova password_hash agora : ℕ)
    (s : Estado)
    → IsSound s.tokens
    → IsSound (change_password confere user_id atual nova password_hash agora s).0.tokens
unfolding change_password
change_password-IsSound confere user_id atual nova password_hash agora s w =
    elim (Option-cases (find? (λ u. u.id == user_id) s.users)) [
      | inl e ↦ rw (change_password, e) w
      | inr (u, e) ↦
          rw (change_password, e)
            (com_conferencia-IsSound (confere nova u.password) user_id password_hash agora s _ w)
    ]

-- One request, whoever sends it and however it ends; the id of a new token is not taken.
pub data Step (confere : ℕ → ℕ → Bool) (sha256 : ℕ → ℕ) : Estado → Estado → Type 0 where
  pede :
      {s : Estado} (document id code_hash agora : ℕ)
      → any (λ t. t.id == id) s.tokens ≡ false
      → Step confere sha256 s (request_reset document id code_hash agora s).0
  confirma :
      {s : Estado} (document code ticket agora : ℕ)
      → Step confere sha256 s (record s {
        tokens = (verify_code confere sha256 document code ticket agora s.users s.tokens).0;
      })
  redefine :
      {s : Estado} (ticket password_hash agora : ℕ)
      → Step confere sha256 s (reset_password sha256 ticket password_hash agora s).0
  troca :
      {s : Estado} (user_id : ℕ) (atual : Option ℕ) (nova password_hash agora : ℕ)
      → Step confere sha256 s (change_password confere user_id atual nova password_hash agora s).0

pub data Reach (confere : ℕ → ℕ → Bool) (sha256 : ℕ → ℕ) (users : List User) : Estado → Type 0 where
  start : Reach confere sha256 users (record { users = users; tokens = []; erros = [] })
  after :
      {s t : Estado}
      → Reach confere sha256 users s
      → Step confere sha256 s t
      → Reach confere sha256 users t

module _ {confere : ℕ → ℕ → Bool} {sha256 : ℕ → ℕ} where
  Step-IsSound : {s t : Estado} → Step confere sha256 s t → IsSound s.tokens → IsSound t.tokens
  Step-IsSound (pede {s} document id code_hash agora fresh) w =
      request_reset-IsSound document id code_hash agora s fresh w
  Step-IsSound (confirma {s} document code ticket agora) w =
      verify_code-IsSound confere sha256 document code ticket agora s.users s.tokens w
  Step-IsSound (redefine {s} ticket password_hash agora) w =
      reset_password-IsSound sha256 ticket password_hash agora s w
  Step-IsSound (troca {s} user_id atual nova password_hash agora) w =
      change_password-IsSound confere user_id atual nova password_hash agora s w

  -- Along any sequence of requests for a code, tries, new passwords and changes of password, each
  -- run as a whole, from a table without tokens, whatever bcrypt and the digest answer: no two tokens
  -- on record are reset tokens of one person, have one id or hold one ticket, and the count of wrong
  -- tries on record, which a right code sets back to zero, is below five in every token.
  pub Reach-IsSound :
      {users : List User} {s : Estado} → Reach confere sha256 users s → IsSound s.tokens
  Reach-IsSound start = record { apart = tt; tries = tt }
  Reach-IsSound (after r step) = Step-IsSound step (Reach-IsSound r)
