-- ===== src/Senha/Laws/Unicos.antt =====
-- When no two rows of the table of tokens (`UserToken`) conflict, and the changes of the table that
-- keep it so.
use sistema_iccv_backend.Common.{
  ℕ, ◌<◌, ◌≡◌, refl, sym, ap, subst, Bool, false, not, ◌&&◌, some, List, [], ◌∷◌, arith, ◌==◌,
  filter, any, All, All-mem, Memᴰ, Bool-cases, inl, inr, ==_iff,
}
use sistema_iccv_backend.Senha.{
  UserToken, max_code_attempts, de_redefinicao, sem_tokens, discard, gravar, tem_ticket,
}

-- Two rows: their ids differ, they are not both reset tokens of one person, and they do not hold the
-- same ticket.
pub record Apart (a b : UserToken) : Type 0 where
  pub ids : (a.id == b.id) ≡ false
  pub owners : (u : ℕ) → (de_redefinicao u a && de_redefinicao u b) ≡ false
  pub tickets : (h : ℕ) → (tem_ticket h a && tem_ticket h b) ≡ false

abbrev pub AreApart : List UserToken → Type 0
AreApart [] = Unit
AreApart (x ∷ xs) = All (Apart x) xs × AreApart xs

abbrev pub HasTriesLeft : UserToken → Type 0
HasTriesLeft t = t.attempts < max_code_attempts

pub record IsSound (tokens : List UserToken) : Type 0 where
  pub apart : AreApart tokens
  pub tries : All HasTriesLeft tokens

Apart-sym : {a b : UserToken} → Apart a b → Apart b a
Apart-sym {a} {b} p = record {
  ids = ground (arith, p.ids);
  owners = λ u. ground (arith, p.owners u);
  tickets = λ h. ground (arith, p.tickets h);
}

pub All-filter :
    (P : UserToken → Type 0) (p : UserToken → Bool) (xs : List UserToken)
    → All P xs
    → All P (filter p xs)
All-filter P p [] h = tt
All-filter P p (x ∷ xs) h = elim (Bool-cases (p x)) [
  | inl e ↦ rw e (h.0, All-filter P p xs h.1)
  | inr e ↦ rw e (All-filter P p xs h.1)
]

AreApart-filter :
    (p : UserToken → Bool) (xs : List UserToken) → AreApart xs → AreApart (filter p xs)
AreApart-filter p [] h = tt
AreApart-filter p (x ∷ xs) h = elim (Bool-cases (p x)) [
  | inl e ↦ rw e (All-filter (Apart x) p xs h.0, AreApart-filter p xs h.1)
  | inr e ↦ rw e (AreApart-filter p xs h.1)
]

filter-IsSound : (p : UserToken → Bool) (xs : List UserToken) → IsSound xs → IsSound (filter p xs)
filter-IsSound p xs w = record {
  apart = AreApart-filter p xs w.apart;
  tries = All-filter HasTriesLeft p xs w.tries;
}

All-gravar :
    (P : UserToken → Type 0) (n : UserToken) (xs : List UserToken)
    → P n
    → All P xs
    → All P (gravar n xs)
unfolding gravar
All-gravar P n [] pn h = tt
All-gravar P n (x ∷ xs) pn h = elim (Bool-cases (x.id == n.id)) [
  | inl e ↦ rw e (pn, h.1)
  | inr e ↦ rw e (h.0, All-gravar P n xs pn h.1)
]

-- The row that takes the place of the one with its id is apart from the others.
abbrev FitsAt : UserToken → UserToken → Type 0
FitsAt n y = (y.id == n.id) ≡ false → Apart n y

All-Apart :
    (x n : UserToken) (xs : List UserToken)
    → x.id ≡ n.id
    → All (Apart x) xs
    → All (FitsAt n) xs
    → All (Apart n) xs
All-Apart x n [] same h f = tt
All-Apart x n (y ∷ xs) same h f =
    (f.0 (ground (arith, h.0.ids, same)), All-Apart x n xs same h.1 f.1)

AreApart-gravar :
    (n : UserToken) (xs : List UserToken) → All (FitsAt n) xs → AreApart xs → AreApart (gravar n xs)
unfolding gravar
AreApart-gravar n [] f h = tt
AreApart-gravar n (x ∷ xs) f h = elim (Bool-cases (x.id == n.id)) [
  | inl e ↦ rw e (All-Apart x n xs ((==_iff x.id n.id).0 e) h.0 f.1, h.1)
  | inr e ↦ rw e (
    All-gravar (Apart x) n xs (Apart-sym {a = n} {b = x} (f.0 e)) h.0,
    AreApart-gravar n xs f.1 h.1,
  )
]

-- Two rows of the table are apart, or they have one id.
pub Apart-mem :
    (xs : List UserToken) {t y : UserToken}
    → AreApart xs
    → Memᴰ t xs
    → Memᴰ y xs
    → (y.id == t.id) ≡ false
    → Apart t y
Apart-mem [] h mt my d = elim mt [ ]
Apart-mem (x ∷ xs) {t} {y} h (Memᴰ.head st) (Memᴰ.head sy) d =
    absurd (ground (arith, ap (λ a. a.id) st, ap (λ a. a.id) sy, d))
Apart-mem (x ∷ xs) {t} {y} h (Memᴰ.head st) (Memᴰ.tail my) d =
    subst (λ a. Apart a y) (sym st) (All-mem (Apart x) xs h.0 my)
Apart-mem (x ∷ xs) {t} {y} h (Memᴰ.tail mt) (Memᴰ.head sy) d =
    subst (λ a. Apart t a) (sym sy) (Apart-sym (All-mem (Apart x) xs h.0 mt))
Apart-mem (x ∷ xs) h (Memᴰ.tail mt) (Memᴰ.tail my) d = Apart-mem xs h.1 mt my d

pub All-of-mem :
    (P : UserToken → Type 0) (xs : List UserToken) → ((y : UserToken) → Memᴰ y xs → P y) → All P xs
All-of-mem P [] f = tt
All-of-mem P (x ∷ xs) f = (f x (Memᴰ.head refl), All-of-mem P xs (λ y m. f y (Memᴰ.tail m)))

pub any-All :
    (p : UserToken → Bool) (xs : List UserToken) → any p xs ≡ false → All (λ y. p y ≡ false) xs
any-All p [] h = tt
any-All p (x ∷ xs) h = (ground arith, any-All p xs (ground arith))

-- The row of a member, changed in its attempts only, or given a ticket that no other row holds.
pub com_erro-Apart : {t y : UserToken} (n : ℕ) → Apart t y → Apart (record t { attempts = n }) y
com_erro-Apart n p = record { ids = p.ids; owners = p.owners; tickets = p.tickets }

pub com_ticket-Apart :
    {t y : UserToken} (d expires : ℕ)
    → tem_ticket d y ≡ false
    → Apart t y
    → Apart (record t { ticket_hash = some d; attempts = 0; expires_at = expires }) y
com_ticket-Apart {t} {y} d expires free p = record {
  ids = p.ids;
  owners = p.owners;
  tickets = λ h. outro h;
}
  where
    outro : (h : ℕ) → ((d == h) && tem_ticket h y) ≡ false
    outro h = elim (Bool-cases (d == h)) [
      | inl e ↦
          let same = (==_iff d h).0 e in
          ground (arith, subst (λ x. tem_ticket x y ≡ false) same free)
      | inr e ↦ rw e refl
    ]

pub discard-IsSound : (id : ℕ) (xs : List UserToken) → IsSound xs → IsSound (discard id xs)
unfolding discard
discard-IsSound id xs w = filter-IsSound (λ t. not (t.id == id)) xs w

pub sem_tokens-IsSound : (u : ℕ) (xs : List UserToken) → IsSound xs → IsSound (sem_tokens u xs)
unfolding sem_tokens
sem_tokens-IsSound u xs w = filter-IsSound (λ t. not (de_redefinicao u t)) xs w

pub gravar-IsSound :
    (n : UserToken) (xs : List UserToken)
    → HasTriesLeft n
    → ((y : UserToken) → Memᴰ y xs → FitsAt n y)
    → IsSound xs
    → IsSound (gravar n xs)
gravar-IsSound n xs few f w = record {
  apart = AreApart-gravar n xs (All-of-mem (FitsAt n) xs f) w.apart;
  tries = All-gravar HasTriesLeft n xs few w.tries;
}
