-- ===== src/Senha/Laws/Tentativas.antt =====
-- Guessing the code of src/auth/password-reset/password-reset.service.ts (`verifyCode`).
use sistema_iccv_backend.Common.{
  ℕ, ◌+◌, ◌≤◌, ◌≡◌, refl, sym, ap, subst, Bool, true, false, not, ◌||◌, none, some, List, [], ◌∷◌,
  arith, ◌==◌, filter, All, All-mem, Memᴰ, leb, length, err, mem_of_find?, Bool-cases, inl, inr,
  find?, ==_refl, ◌⊎◌,
}
use sistema_iccv_backend.Senha.{
  UserToken, User, max_code_attempts, find_by_cpf, de_redefinicao, token_de, discard, gravar,
  conferir_codigo, verify_code, codigo_invalido,
}
use sistema_iccv_backend.Senha.Laws.Unicos.{Apart, IsSound, AreApart, HasTriesLeft}
use sistema_iccv_backend.Senha.Laws.Passos.{verify_code-IsSound}

-- One call of `verifyCode`: the code tried, the ticket drawn, the time.
pub record Tentativa : Type 0 where
  pub code : ℕ
  pub ticket : ℕ
  pub agora : ℕ

-- Nobody but x is the owner of a reset token of u.
not_de :
    (u : ℕ) {x y : UserToken} → de_redefinicao u x ≡ true → Apart x y → de_redefinicao u y ≡ false
not_de u d p = ground (arith, p.owners u)

find?-outros :
    (u : ℕ) (p : UserToken → Bool) (x : UserToken) (xs : List UserToken)
    → de_redefinicao u x ≡ true
    → All (Apart x) xs
    → find? (de_redefinicao u) (filter p xs) ≡ none
find?-outros u p x [] d h = refl
find?-outros u p x (y ∷ xs) d h = elim (Bool-cases (p y)) [
  | inl e ↦ rw (e, not_de u d h.0) (find?-outros u p x xs d h.1)
  | inr e ↦ rw e (find?-outros u p x xs d h.1)
]

-- The token discarded was the only one.
token_de-discard :
    (u : ℕ) (xs : List UserToken) {t : UserToken}
    → AreApart xs
    → token_de xs u ≡ some t
    → token_de (discard t.id xs) u ≡ none
unfolding token_de discard
token_de-discard u [] h found = refl
token_de-discard u (x ∷ xs) {t} h found = elim (Bool-cases (de_redefinicao u x)) [
  | inl e ↦
      let same : x ≡ t = ground (arith, found, e) in
      subst (λ a. find? (de_redefinicao u) (discard a.id (x ∷ xs)) ≡ none) same
        (rw (==_refl x.id) (find?-outros u (λ y. not (y.id == x.id)) x xs e h.0))
  | inr e ↦
      let later : find? (de_redefinicao u) xs ≡ some t = ground (arith, found, e) in
      elim (Bool-cases (x.id == t.id)) [
        | inl same ↦ rw same (token_de-discard u xs h.1 later)
        | inr other ↦ rw (other, e) (token_de-discard u xs h.1 later)
      ]
]

pub token_de-gravar :
    (u : ℕ) (n : UserToken) (xs : List UserToken) {t : UserToken}
    → AreApart xs
    → token_de xs u ≡ some t
    → n.id ≡ t.id
    → de_redefinicao u n ≡ true
    → token_de (gravar n xs) u ≡ some n
unfolding token_de gravar
token_de-gravar u n [] h found same d = cc
token_de-gravar u n (x ∷ xs) {t} h found same d = elim (Bool-cases (de_redefinicao u x)) [
  | inl e ↦
      let here : x ≡ t = ground (arith, found, e) in
      let at_head : (x.id == n.id) ≡ true = ground (arith, same, ap (λ a. a.id) here) in
      rw at_head (rw d refl)
  | inr e ↦
      let later : find? (de_redefinicao u) xs ≡ some t = ground (arith, found, e) in
      let other = (All-mem (Apart x) xs h.0 (mem_of_find? (de_redefinicao u) xs later).0).ids in
      let behind : (x.id == n.id) ≡ false = ground (arith, same, other) in
      rw behind (rw e (token_de-gravar u n xs h.1 later same d))
]

module _ (confere : ℕ → ℕ → Bool) (sha256 : ℕ → ℕ) (document : ℕ) (users : List User) where
  abbrev pub tentar : List Tentativa → List UserToken → List UserToken
  tentar [] tokens = tokens
  tentar (p ∷ ps) tokens =
      tentar ps (verify_code confere sha256 document p.code p.ticket p.agora users tokens).0

  module _ {user : User} (known : find_by_cpf users document ≡ some user) where
    verify_code-none :
        (p : Tentativa) (xs : List UserToken)
        → token_de xs user.id ≡ none
        → verify_code confere sha256 document p.code p.ticket p.agora users xs
          ≡ (xs, err codigo_invalido)
    unfolding verify_code
    verify_code-none p xs gone = rw (verify_code, known, gone) refl

    tentar-none :
        (ps : List Tentativa) (xs : List UserToken)
        → token_de xs user.id ≡ none
        → token_de (tentar ps xs) user.id ≡ none
    tentar-none [] xs gone = gone
    tentar-none (p ∷ ps) xs gone = tentar-none ps _ (
        subst (λ a. token_de a user.id ≡ none) (sym (ap (λ r. r.0) (verify_code-none p xs gone)))
          gone)

    mem_of_token_de :
        (xs : List UserToken) {t : UserToken} → token_de xs user.id ≡ some t → Memᴰ t xs
    unfolding token_de
    mem_of_token_de xs found = (mem_of_find? (de_redefinicao user.id) xs found).0

    -- A wrong code: the token is gone, or it has one wrong try more.
    verify_code-errado :
        (p : Tentativa) (xs : List UserToken) {t : UserToken}
        → AreApart xs
        → token_de xs user.id ≡ some t
        → confere p.code t.code_hash ≡ false
        → let after = (verify_code confere sha256 document p.code p.ticket p.agora users xs).0 in
          (token_de after user.id ≡ none)
          ⊎ ((token_de after user.id ≡ some (record t { attempts = t.attempts + 1 }))
              × (leb max_code_attempts (t.attempts + 1) ≡ false))
    unfolding verify_code conferir_codigo
    verify_code-errado p xs {t} w found wrong =
        rw (verify_code, known, found, wrong)
          (elim (Bool-cases (leb t.expires_at p.agora || leb max_code_attempts t.attempts)) [
            | inl e ↦ rw e (inl (token_de-discard user.id xs w found))
            | inr e ↦
                rw (conferir_codigo, e)
                  (elim (Bool-cases (leb max_code_attempts (t.attempts + 1))) [
                    | inl last ↦ rw last (inl (token_de-discard user.id xs w found))
                    | inr more ↦ rw more (
                        inr (
                          token_de-gravar user.id (record t { attempts = t.attempts + 1 }) xs w
                              found refl (mem_of_find? (de_redefinicao user.id) xs found).1,
                          refl,
                        ))
                  ])
          ])

    -- Nothing is left after enough wrong codes.
    tentar-esgota :
        (ps : List Tentativa) (xs : List UserToken) {t : UserToken}
        → IsSound xs
        → token_de xs user.id ≡ some t
        → All (λ p. confere p.code t.code_hash ≡ false) ps
        → max_code_attempts ≤ t.attempts + length ps
        → token_de (tentar ps xs) user.id ≡ none
    tentar-esgota [] xs w found wrong many =
        let few = All-mem HasTriesLeft xs w.tries (mem_of_token_de xs found) in
        absurd (omega (arith, few, many))
    tentar-esgota (p ∷ ps) xs {t} w found wrong many =
        let w' = verify_code-IsSound confere sha256 document p.code p.ticket p.agora users xs w in
        elim (verify_code-errado p xs w.apart found wrong.0) [
          | inl gone ↦ tentar-none ps _ gone
          | inr (kept, more) ↦
              tentar-esgota ps _ {t = record t { attempts = t.attempts + 1 }} w' kept wrong.1
                (omega (arith, many))
        ]

    -- From a sound table of tokens: once the person's token has had five wrong tries, those on record
    -- and these together, at whatever times, verifyCode refuses every code for that person, the right
    -- one too.
    pub tentar-locks :
        (ps : List Tentativa) (tokens : List UserToken) {t : UserToken} (p : Tentativa)
        → IsSound tokens
        → token_de tokens user.id ≡ some t
        → All (λ p. confere p.code t.code_hash ≡ false) ps
        → max_code_attempts ≤ t.attempts + length ps
        → verify_code confere sha256 document p.code p.ticket p.agora users (tentar ps tokens)
          ≡ (tentar ps tokens, err codigo_invalido)
    tentar-locks ps tokens p w found wrong many =
        verify_code-none p _ (tentar-esgota ps tokens w found wrong many)
