-- ===== src/Pagamentos/Laws/Casa.antt =====
-- Which rows are of a house, and what the queries of src/payment/payment.service.ts find of them.
use sistema_iccv_backend.Common.{
  ℕ, ◌≡◌, refl, ap, Bool, true, false, not, ◌&&◌, Option, none, some, List, [], ◌∷◌, map, ◌==◌,
  if◌then◌else◌, filter, any, Memᴰ, includes, nat_eq, mem_of_filter, mem_of_find?, Option-cases,
  mem_of_map, mem_of_includes, any_of_mem, Bool-cases, inl, inr, ◌⊎◌, ==_refl,
}
use sistema_iccv_backend.Pagamentos.{
  eq_some, igreja, find_payment, same_provider, Payment, PaymentCheckout, Caixa, EscopoDaCasa,
  filtro_da_casa, da_referencia,
}

module _ {ℓ} {A : Type ℓ} (q r : A → Bool) (f : A → A) where
  -- A change of rows that q leaves out, to rows that q leaves out.
  pub filter-map :
      (xs : List A)
      → ((x : A) → r x ≡ true → (q x ≡ false) × (q (f x) ≡ false))
      → filter q (map (λ x. if r x then f x else x) xs) ≡ filter q xs
  filter-map [] h = refl
  filter-map (x ∷ xs) h = elim (Bool-cases (r x)) [
    | inl e ↦ let (before, after) = h x e in rw (e, before, after) (filter-map xs h)
    | inr e ↦ rw e (elim (Bool-cases (q x)) [
      | inl e' ↦ rw e' (ap (λ ys. x ∷ ys) (filter-map xs h))
      | inr e' ↦ rw e' (filter-map xs h)
    ])
  ]

module _ {ℓ} {A : Type ℓ} (r : A → Bool) (f : A → A) where
  -- A row after such a change was there before, or is a changed one.
  pub mem_of_map_if :
      (xs : List A) {y : A}
      → Memᴰ y (map (λ x. if r x then f x else x) xs)
      → Memᴰ y xs ⊎ ((x : A) × Memᴰ x xs × (r x ≡ true) × (y ≡ f x))
  mem_of_map_if [] m = elim m [ ]
  mem_of_map_if (x ∷ xs) (Memᴰ.head same) = elim (Bool-cases (r x)) [
    | inl e ↦ inr (x, Memᴰ.head refl, e, rw e at same)
    | inr e ↦ inl (Memᴰ.head (rw e at same))
  ]
  mem_of_map_if (x ∷ xs) (Memᴰ.tail m) = elim (mem_of_map_if xs m) [
    | inl before ↦ inl (Memᴰ.tail before)
    | inr (w, here, hit, changed) ↦ inr (w, Memᴰ.tail here, hit, changed)
  ]

pub and-left : (a b : Bool) → (a && b) ≡ true → a ≡ true
and-left true b h = refl
and-left false b h = cc

pub and-right : (a : Bool) {b : Bool} → (a && b) ≡ true → b ≡ true
and-right true h = h
and-right false h = cc

and-both : (a b : Bool) {c : Bool} → (a && b) ≡ true → c ≡ true → (a && c) ≡ true
and-both true b h h' = h'
and-both false b h h' = cc

-- A checkout of the house: made with its credential or, where the credential is not on record, made
-- at its provider for a payment to its church.
abbrev pub da_casa : EscopoDaCasa → List Payment → PaymentCheckout → Bool
da_casa e payments c = elim c.config_id [
  | some config ↦ config == e.config_id
  | none ↦
      same_provider c.provider e.provider
      && any
          (λ p.
            p.id == c.payment_id && elim p.church_id [ none ↦ false | some k ↦ k == e.church_id ])
          payments
]

da_igreja :
    (e : EscopoDaCasa) (payments : List Payment) (id : ℕ)
    → eq_some e.church_id (igreja (find_payment payments id)) ≡ true
    → any
        (λ p. p.id == id && elim p.church_id [ none ↦ false | some k ↦ k == e.church_id ])
        payments
      ≡ true
da_igreja e payments id h = elim (Option-cases (find_payment payments id)) [
  | inl gone ↦ absurd (cc (rw gone at h))
  | inr (p, found) ↦
      let (m, same) = mem_of_find? (λ p. p.id == id) payments found in
      any_of_mem _ payments m (rw same (da_mesma p.church_id (rw found at h)))
]
  where
    da_mesma :
        (o : Option ℕ)
        → eq_some e.church_id o ≡ true
        → elim o [ none ↦ false | some k ↦ k == e.church_id ] ≡ true
    da_mesma none q = q
    da_mesma (some k) q = q

-- What the query finds is of the house.
pub filtro-da_casa :
    (e : EscopoDaCasa) (payments : List Payment) (c : PaymentCheckout)
    → filtro_da_casa (some e) payments c ≡ true
    → da_casa e payments c ≡ true
unfolding filtro_da_casa
filtro-da_casa e payments c h = elim (Option-cases c.config_id) [
  | inl old ↦
      let h' : (same_provider c.provider e.provider
            && eq_some e.church_id (igreja (find_payment payments c.payment_id)))
          ≡ true =
        rw (filtro_da_casa, old) at h in
      rw old (and-both _ _ h' (da_igreja e payments c.payment_id (and-right _ h')))
  | inr (config, new) ↦ rw new (rw (filtro_da_casa, new) at h)
]

-- A checkout of another house.
abbrev pub checkout_de_fora : EscopoDaCasa → Caixa → PaymentCheckout → Bool
checkout_de_fora e caixa c = not (da_casa e caixa.payments c)

-- A payment that the house has no checkout of.
abbrev pub pagamento_de_fora : EscopoDaCasa → Caixa → Payment → Bool
pagamento_de_fora e caixa p =
    not (any (λ c. c.payment_id == p.id && da_casa e caixa.payments c) caixa.checkouts)

-- A payment of one of the checkouts found.
pub achado-dentro :
    (reference_id : ℕ) (e : EscopoDaCasa) (caixa : Caixa) (p : Payment)
    → includes p.id (
        map
          (λ c. c.payment_id)
          (filter (da_referencia reference_id (some e) caixa.payments) caixa.checkouts))
      ≡ true
    → pagamento_de_fora e caixa p ≡ false
achado-dentro reference_id e caixa p h =
    let (c, m, same) = mem_of_map (λ c. c.payment_id) _ (mem_of_includes p.id _ h) in
    let (here, found) =
      mem_of_filter (da_referencia reference_id (some e) caixa.payments) caixa.checkouts m in
    let at : (c.payment_id == p.id) ≡ true = rw same (==_refl p.id) in
    let inside =
      any_of_mem (λ c. c.payment_id == p.id && da_casa e caixa.payments c) caixa.checkouts here
        (rw at (filtro-da_casa e caixa.payments c (and-right _ found))) in
    rw inside refl
