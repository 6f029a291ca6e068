-- ===== src/Senha/Laws/Recuperacao.antt =====
-- A recovery from the request to the new password, and the single use of its ticket
-- (src/auth/password-reset/password-reset.service.ts).
use sistema_iccv_backend.Common.{
  ℕ, ◌+◌, ◌*◌, ◌<◌, ◌≡◌, ◌∙◌, refl, ap, subst, Bool, true, false, not, ◌&&◌, ◌||◌, none, some, List,
  [], ◌∷◌, arith, ◌==◌, filter, any, All, leb, ok, err, Bool-cases, Option, Option-cases, find?,
  Removed, filter-Removed, inl, inr, ==_refl,
}
use sistema_iccv_backend.Senha.{
  UserToken, User, Estado, code_ttl_minutes, ticket_ttl_minutes, token_type_password_reset,
  em_espera, minutes_from, find_by_cpf, de_redefinicao, token_de, sem_tokens, gravar, tem_ticket,
  com_senha, conferir_codigo, verify_code, request_reset, reset_password, ticket_invalido,
  token_do_ticket, trocar_senha,
}
use sistema_iccv_backend.Senha.Laws.Unicos.{Apart, IsSound, AreApart}

filter-filter : (p : UserToken → Bool) (xs : List UserToken) → filter p (filter p xs) ≡ filter p xs
filter-filter p [] = refl
filter-filter p (x ∷ xs) = elim (Bool-cases (p x)) [
  | inl e ↦ rw (e, e) (ap (λ r. x ∷ r) (filter-filter p xs))
  | inr e ↦ rw e (filter-filter p xs)
]

any-filter :
    (q p : UserToken → Bool) (xs : List UserToken) → any q xs ≡ false → any q (filter p xs) ≡ false
any-filter q p [] h = refl
any-filter q p (x ∷ xs) h = ground (arith, any-filter q p xs (ground arith))

any-weaken :
    (q p : UserToken → Bool) (xs : List UserToken)
    → any q xs ≡ false
    → any (λ t. p t && q t) xs ≡ false
any-weaken q p [] h = refl
any-weaken q p (x ∷ xs) h = ground (arith, any-weaken q p xs (ground arith))

-- The token of a request.
abbrev novo : (user_id id code_hash agora : ℕ) → UserToken
novo user_id id code_hash agora = record {
  id = id;
  user_id = user_id;
  kind = token_type_password_reset;
  code_hash = code_hash;
  ticket_hash = none;
  attempts = 0;
  expires_at = minutes_from agora code_ttl_minutes;
  created_at = agora;
}

abbrev com_ticket : (digest agora : ℕ) → UserToken → UserToken
com_ticket digest agora t = record t {
  ticket_hash = some digest;
  attempts = 0;
  expires_at = minutes_from agora ticket_ttl_minutes;
}

request_reset-pede :
    (document id code_hash agora : ℕ) (s : Estado) {user : User} {email : ℕ}
    → find_by_cpf s.users document ≡ some user
    → user.email ≡ some email
    → em_espera agora (token_de s.tokens user.id) ≡ false
    → request_reset document id code_hash agora s ≡ (
      record s { tokens = novo user.id id code_hash agora ∷ sem_tokens user.id s.tokens },
      some email,
    )
unfolding request_reset
request_reset-pede document id code_hash agora s known has waited =
    rw (request_reset, known, has, waited) refl

verify_code-entrega :
    (confere : ℕ → ℕ → Bool) (sha256 : ℕ → ℕ) (document code ticket agora : ℕ) (users : List User)
    (t : UserToken) (rest : List UserToken) {user : User}
    → find_by_cpf users document ≡ some user
    → de_redefinicao user.id t ≡ true
    → t.attempts ≡ 0
    → agora < t.expires_at
    → confere code t.code_hash ≡ true
    → any (tem_ticket (sha256 ticket)) (t ∷ rest) ≡ false
    → verify_code confere sha256 document code ticket agora users (t ∷ rest)
      ≡ (com_ticket (sha256 ticket) agora t ∷ rest, ok ticket)
unfolding verify_code conferir_codigo token_de gravar
verify_code-entrega confere sha256 document code ticket agora users t rest known owner none_yet live
      right free =
    let open_ : (leb t.expires_at agora || leb 5 t.attempts) ≡ false =
      ground (arith, live, none_yet) in
    let lone = any-weaken (tem_ticket (sha256 ticket)) (λ y. not (y.id == t.id)) (t ∷ rest) free in
    rw (verify_code, known, owner, open_, right) (rw (conferir_codigo, lone, ==_refl t.id) refl)

reset_password-grava :
    (sha256 : ℕ → ℕ) (ticket password_hash agora : ℕ) (s : Estado) (t : UserToken)
    → token_do_ticket s.tokens (sha256 ticket) ≡ some t
    → agora < t.expires_at
    → reset_password sha256 ticket password_hash agora s
      ≡ (trocar_senha t.user_id password_hash agora s, ok tt)
unfolding reset_password
reset_password-grava sha256 ticket password_hash agora s t found live =
    let open_ : leb t.expires_at agora ≡ false = ground (arith, live) in
    rw (reset_password, found, open_) refl

-- No other row has the ticket of x.
find?-ticket :
    (d : ℕ) (p : UserToken → Bool) (x : UserToken) (xs : List UserToken)
    → tem_ticket d x ≡ true
    → All (Apart x) xs
    → token_do_ticket (filter p xs) d ≡ none
find?-ticket d p x [] h a = refl
find?-ticket d p x (y ∷ xs) h a =
    let free : tem_ticket d y ≡ false = ground (arith, a.0.tickets d, h) in
    elim (Bool-cases (p y)) [
      | inl e ↦ rw (e, free) (find?-ticket d p x xs h a.1)
      | inr e ↦ rw e (find?-ticket d p x xs h a.1)
    ]

-- The row with the ticket goes with its owner's.
token_do_ticket-sem_tokens :
    (d : ℕ) (xs : List UserToken) {t : UserToken}
    → AreApart xs
    → token_do_ticket xs d ≡ some t
    → token_do_ticket (sem_tokens t.user_id xs) d ≡ none
unfolding sem_tokens
token_do_ticket-sem_tokens d [] a found = refl
token_do_ticket-sem_tokens d (x ∷ xs) {t} a found =
    elim (Bool-cases (tem_ticket d x && x.kind == token_type_password_reset)) [
      | inl e ↦
          let same : x ≡ t = ground (arith, found, e) in
          let owned : de_redefinicao x.user_id x ≡ true = ground (arith, e, ==_refl x.user_id) in
          subst (λ y. token_do_ticket (sem_tokens y.user_id (x ∷ xs)) d ≡ none) same
            (rw owned
              (find?-ticket d (λ y. not (de_redefinicao x.user_id y)) x xs (ground (arith, e)) a.0))
      | inr e ↦
          let later : token_do_ticket xs d ≡ some t = ground (arith, found, e) in
          elim (Bool-cases (de_redefinicao t.user_id x)) [
            | inl gone ↦ rw gone (token_do_ticket-sem_tokens d xs a.1 later)
            | inr kept ↦ rw kept (rw e (token_do_ticket-sem_tokens d xs a.1 later))
          ]
    ]

abbrev outro_id : ℕ → User → Bool
outro_id id u = not (u.id == id)

-- The row with the id is written, and the others stay.
com_senha-troca :
    (id password_hash agora : ℕ) (users : List User) {user : User}
    → find? (λ u. u.id == id) users ≡ some user
    → (find? (λ u. u.id == id) (com_senha id password_hash agora users)
        ≡ some (record user { password = password_hash; password_changed_at = some agora }))
      × (filter (outro_id id) (com_senha id password_hash agora users) ≡ filter (outro_id id) users)
unfolding com_senha
com_senha-troca id password_hash agora [] found = cc
com_senha-troca id password_hash agora (u ∷ users) {user} found = elim (Bool-cases (u.id == id)) [
  | inl e ↦
      let same : u ≡ user = ground (arith, found, e) in
      let nova : User → Option User =
        λ x. some (record x { password = password_hash; password_changed_at = some agora }) in
      rw e (rw e (ap nova same, refl))
  | inr e ↦
      let (written, kept) =
        com_senha-troca id password_hash agora users {user = user} (ground (arith, found, e)) in
      rw e (rw e (written, ap (λ us. u ∷ us) kept))
]

-- A reset token of the person.
abbrev pub do_usuario : ℕ → UserToken → Bool
do_usuario id t = t.kind == 0 && t.user_id == id

sem_tokens-Removed :
    (id : ℕ) (tokens : List UserToken) → Removed (do_usuario id) tokens (sem_tokens id tokens)
unfolding sem_tokens
sem_tokens-Removed id tokens =
    filter-Removed (do_usuario id) (de_redefinicao id) tokens (λ t. ground arith)

-- A person's password was set: in their row the password and its date are new and nothing else, the
-- other rows are as they were, the person has no reset token left, and the other tokens and the map
-- of wrong tries are as they were.
pub record SenhaTrocada (user : User) (password_hash agora : ℕ) (antes depois : Estado)
    : Type 0 where
  pub gravada :
      find? (λ u. u.id == user.id) depois.users
      ≡ some (record user { password = password_hash; password_changed_at = some agora })
  pub outros :
      filter (λ u. not (u.id == user.id)) depois.users
      ≡ filter (λ u. not (u.id == user.id)) antes.users
  pub sem_tickets : Removed (do_usuario user.id) antes.tokens depois.tokens
  pub erros : depois.erros ≡ antes.erros

trocar_senha-SenhaTrocada :
    (user : User) (password_hash agora : ℕ) (s : Estado)
    → find? (λ u. u.id == user.id) s.users ≡ some user
    → SenhaTrocada user password_hash agora s (trocar_senha user.id password_hash agora s)
trocar_senha-SenhaTrocada user password_hash agora s found =
    let (written, kept) = com_senha-troca user.id password_hash agora s.users {user = user} found in
    record {
      gravada = written;
      outros = kept;
      sem_tickets = sem_tokens-Removed user.id s.tokens;
      erros = refl;
    }

-- Whoever knows the code that was sent gets a new password. The person is on record, found by
-- the CPF and by the id, with an e-mail, has no reset token younger than a minute, and bcrypt recognises the code in its hash; the ticket
-- drawn is not of another token. Then a request sends the e-mail, the code within the hour is
-- exchanged for the ticket, and the ticket within the quarter of an hour after that sets the
-- password in the person's row, with its date: the other rows and other people's tokens are then as
-- before the request, and the person's reset tokens are gone.
pub recuperacao :
    (confere : ℕ → ℕ → Bool) (sha256 : ℕ → ℕ)
    (document id code code_hash ticket password_hash pedido verificado redefinido : ℕ) (s : Estado)
    {user : User} {email : ℕ}
    → find_by_cpf s.users document ≡ some user
    → find? (λ u. u.id == user.id) s.users ≡ some user
    → user.email ≡ some email
    → em_espera pedido (token_de s.tokens user.id) ≡ false
    → confere code code_hash ≡ true
    → any (tem_ticket (sha256 ticket)) s.tokens ≡ false
    → verificado < pedido + code_ttl_minutes * 60000
    → redefinido < verificado + ticket_ttl_minutes * 60000
    → let pediu = request_reset document id code_hash pedido s in
      let verificou =
        verify_code confere sha256 document code ticket verificado pediu.0.users pediu.0.tokens in
      (pediu.1 ≡ some email)
      × (verificou.1 ≡ ok ticket)
      × (depois : Estado) × (reset_password sha256 ticket password_hash redefinido
            (record pediu.0 { tokens = verificou.0 })
          ≡ (depois, ok tt))
      × SenhaTrocada user password_hash redefinido s depois
unfolding minutes_from sem_tokens
recuperacao confere sha256 document id code code_hash ticket password_hash pedido verificado
      redefinido s {user} {email} known by_id has waited right free in_time soon =
    let sent = request_reset-pede document id code_hash pedido s known has waited in
    let t = novo user.id id code_hash pedido in
    let rest = sem_tokens user.id s.tokens in
    let got =
      verify_code-entrega confere sha256 document code ticket verificado s.users t rest known
        (rw (==_refl user.id) refl) refl in_time right (any-filter _ _ s.tokens free) in
    let t' = com_ticket (sha256 ticket) verificado t in
    let done =
      reset_password-grava sha256 ticket password_hash redefinido (record s { tokens = t' ∷ rest })
        t' (rw (==_refl (sha256 ticket)) refl) soon in
    let gone : sem_tokens user.id (t' ∷ rest) ≡ rest =
      rw (==_refl user.id) (filter-filter (λ y. not (de_redefinicao user.id y)) s.tokens) in
    rw (sent, got)
      (
        refl,
        refl,
        trocar_senha user.id password_hash redefinido s,
        done
            ∙ ap
                (λ ts. (
                  record s {
                    users = com_senha user.id password_hash redefinido s.users;
                    tokens = ts;
                  },
                  ok tt,
                ))
                gone,
        trocar_senha-SenhaTrocada user password_hash redefinido s by_id,
      )

-- A ticket is good once: after it set a password, it is refused, whenever it comes back and with
-- whatever password, and nothing changes.
pub reset_password-twice :
    (sha256 : ℕ → ℕ) (ticket password_hash agora outra depois : ℕ) (s : Estado) {after : Estado}
    → IsSound s.tokens
    → reset_password sha256 ticket password_hash agora s ≡ (after, ok tt)
    → reset_password sha256 ticket outra depois after ≡ (after, err ticket_invalido)
unfolding reset_password
reset_password-twice sha256 ticket password_hash agora outra depois s {after} w did =
    elim (Option-cases (token_do_ticket s.tokens (sha256 ticket))) [
      | inl e ↦ absurd (ground (arith, did, e))
      | inr (t, e) ↦
          let same : trocar_senha t.user_id password_hash agora s ≡ after =
            ground (arith, did, e) in
          subst (λ a. reset_password sha256 ticket outra depois a ≡ (a, err ticket_invalido)) same
            (rw (reset_password, token_do_ticket-sem_tokens (sha256 ticket) s.tokens w.apart e)
              refl)
    ]
