-- ===== src/Pagamentos/Laws/Avisos.antt =====
-- What a gateway's notice may change (`updatePaymentWebhook` of src/payment/payment.service.ts).
use sistema_iccv_backend.Common.{
  ℕ, ◌≡◌, ◌∙◌, refl, sym, ap, Bool, true, not, ◌&&◌, Option, none, some, List, [], ◌∷◌, map, ◌==◌,
  filter, Memᴰ, includes, nat_eq, mem_of_filter, mem_of_map, mem_of_includes, Bool-cases, inl, inr,
  ◌⊎◌, ==_iff, subst,
}
use sistema_iccv_backend.Pricing.{paid, conferir_valor_pago}
use sistema_iccv_backend.Pricing.Laws.{Covers, conferir_valor_pago-paid_iff}
use sistema_iccv_backend.Pagamentos.{
  Payment, PaymentCheckout, CheckoutStatus, update_payment_checkout_webhook, Caixa, EscopoDaCasa,
  Aviso, filtro_da_casa, da_referencia, ja_pago, avisado, mudar_checkouts, com_achados,
  update_payment_webhook, is_paid, inactive,
}
use sistema_iccv_backend.Pagamentos.Laws.Casa.{
  filter-map, mem_of_map_if, and-left, and-right, da_casa, filtro-da_casa, checkout_de_fora,
  pagamento_de_fora, achado-dentro,
}

-- What a notice leaves as it was of the rows outside the house.
pub record StaysOutside (e : EscopoDaCasa) (caixa after : Caixa) : Type 0 where
  pub checkouts :
      filter (checkout_de_fora e caixa) after.checkouts
      ≡ filter (checkout_de_fora e caixa) caixa.checkouts
  pub payments :
      filter (pagamento_de_fora e caixa) after.payments
      ≡ filter (pagamento_de_fora e caixa) caixa.payments

fora-mudar_checkouts :
    (quais : PaymentCheckout → Bool) (status : CheckoutStatus) (e : EscopoDaCasa) (caixa : Caixa)
    → filter (checkout_de_fora e caixa) (
        mudar_checkouts
          (λ c. quais c && filtro_da_casa (some e) caixa.payments c)
          status
          caixa.checkouts)
      ≡ filter (checkout_de_fora e caixa) caixa.checkouts
unfolding filtro_da_casa
fora-mudar_checkouts quais status e caixa =
    filter-map (checkout_de_fora e caixa) (λ c. quais c && filtro_da_casa (some e) caixa.payments c)
      (λ c. record c { status = status }) caixa.checkouts
      λ c h.
        let inside = filtro-da_casa e caixa.payments c (and-right (quais c) h) in
        (ap not inside, ap not inside)

fora-com_achados :
    (a : Aviso) (e : EscopoDaCasa) (caixa : Caixa) (achados : List PaymentCheckout)
    → filter (da_referencia a.reference_id (some e) caixa.payments) caixa.checkouts ≡ achados
    → StaysOutside e caixa (com_achados a (some e) achados caixa)
unfolding com_achados
fora-com_achados a e caixa [] found = record { checkouts = refl; payments = refl }
fora-com_achados a e caixa (c ∷ cs) found = elim (Bool-cases (ja_pago caixa.payments c)) [
  | inl done ↦ rw done (record { checkouts = refl; payments = refl })
  | inr not_yet ↦ rw not_yet (record {
    checkouts =
        elim (Bool-cases
          (is_paid (conferir_valor_pago a.status a.pago_em_centavos c.charged_amount_cents))) [
            | inl closed ↦
                rw closed
                  (fora-mudar_checkouts (λ c. c.reference_id == a.reference_id) inactive e caixa)
            | inr open_ ↦ rw open_ refl
          ];
    payments =
        filter-map (pagamento_de_fora e caixa) _ _ caixa.payments λ p h.
          let inside = achado-dentro a.reference_id e caixa p (rw found h) in (inside, inside);
  })
]

-- A notice authenticated by the credential of one house reaches nothing of the others: of the
-- checkouts that are not the house's, by their credential or, without one, by the provider and the
-- church of the event, and of the payments that the house has no checkout of, a notice of payment
-- and a notice on a checkout leave every row as it was, in its order.
pub update_payment_webhook-StaysOutside :
    (a : Aviso) (checkout_id : ℕ) (status : CheckoutStatus) (e : EscopoDaCasa) (caixa : Caixa)
    → StaysOutside e caixa (update_payment_webhook a (some e) caixa)
      × StaysOutside e caixa (update_payment_checkout_webhook checkout_id status (some e) caixa)
unfolding update_payment_webhook update_payment_checkout_webhook
update_payment_webhook-StaysOutside a checkout_id status e caixa = (
  fora-com_achados a e caixa _ refl,
  record {
    checkouts = fora-mudar_checkouts (λ c. c.checkout_id == checkout_id) status e caixa;
    payments = refl;
  },
)

-- A notice that settles a checkout: it says paid, and what came back is not below what was charged,
-- where both are known.
abbrev pub Settles : Aviso → PaymentCheckout → Type 0
Settles a c = (a.status ≡ paid) × Covers a.pago_em_centavos c.charged_amount_cents

-- A checkout of the reference that the house may touch; without a house, every one of it.
abbrev pub DaReferencia : Aviso → Option EscopoDaCasa → Caixa → PaymentCheckout → Type 0
DaReferencia a none caixa c = Memᴰ c caixa.checkouts × (c.reference_id ≡ a.reference_id)
DaReferencia a (some e) caixa c =
    Memᴰ c caixa.checkouts × (c.reference_id ≡ a.reference_id) × (da_casa e caixa.payments c ≡ true)

achado-DaReferencia :
    (a : Aviso) (escopo : Option EscopoDaCasa) (caixa : Caixa) {c : PaymentCheckout}
    → Memᴰ c (filter (da_referencia a.reference_id escopo caixa.payments) caixa.checkouts)
    → DaReferencia a escopo caixa c
achado-DaReferencia a none caixa {c} m =
    let (here, found) =
      mem_of_filter (da_referencia a.reference_id none caixa.payments) caixa.checkouts m in
    (here, (==_iff c.reference_id a.reference_id).0 (and-left _ _ found))
achado-DaReferencia a (some e) caixa {c} m =
    let (here, found) =
      mem_of_filter (da_referencia a.reference_id (some e) caixa.payments) caixa.checkouts m in
    (
      here,
      (==_iff c.reference_id a.reference_id).0 (and-left _ _ found),
      filtro-da_casa e caixa.payments c (and-right _ found),
    )

-- What a notice was of a payment that it settled: it was on record and had a checkout of the
-- reference, and a checkout of the reference was settled.
pub record Quitado (a : Aviso) (escopo : Option EscopoDaCasa) (caixa : Caixa) (p : Payment)
    : Type 0 where
  pub antes : Payment
  pub no_registro : Memᴰ antes caixa.payments
  pub mesmo : p.id ≡ antes.id
  pub seu : PaymentCheckout
  pub seu_da_referencia : DaReferencia a escopo caixa seu
  pub seu_pagamento : seu.payment_id ≡ p.id
  pub conferido : PaymentCheckout
  pub conferido_da_referencia : DaReferencia a escopo caixa conferido
  pub settles : Settles a conferido

paid-com_achados :
    (a : Aviso) (escopo : Option EscopoDaCasa) (achados : List PaymentCheckout) (caixa : Caixa)
    {p : Payment}
    → filter (da_referencia a.reference_id escopo caixa.payments) caixa.checkouts ≡ achados
    → Memᴰ p (com_achados a escopo achados caixa).payments
    → p.status ≡ paid
    → Memᴰ p caixa.payments ⊎ Quitado a escopo caixa p
unfolding com_achados
paid-com_achados a escopo [] caixa found m h = inl m
paid-com_achados a escopo (c ∷ cs) caixa {p} found m h =
    elim (Bool-cases (ja_pago caixa.payments c)) [
      | inl done ↦ inl (rw done at m)
      | inr not_yet ↦
          let ids = map (λ c. c.payment_id) (c ∷ cs) in
          let mudou =
            mem_of_map_if (λ x. includes x.id ids)
              (avisado (conferir_valor_pago a.status a.pago_em_centavos c.charged_amount_cents) a)
              caixa.payments {y = p} (rw (com_achados, not_yet) at m) in
          let achado : (k : PaymentCheckout) → Memᴰ k (c ∷ cs) → DaReferencia a escopo caixa k =
            λ k mk. achado-DaReferencia a escopo caixa (subst (λ l. Memᴰ k l) (sym found) mk) in
          elim mudou [
            | inl before ↦ inl before
            | inr (x, here, hit, same) ↦
                let (k, mk, at) =
                  mem_of_map (λ c. c.payment_id) (c ∷ cs) (mem_of_includes x.id ids hit) in
                inr (record {
                  antes = x;
                  no_registro = here;
                  mesmo = ap (λ y. y.id) same;
                  seu = k;
                  seu_da_referencia = achado k mk;
                  seu_pagamento = at ∙ sym (ap (λ y. y.id) same);
                  conferido = c;
                  conferido_da_referencia = achado c (Memᴰ.head refl);
                  settles =
                      (conferir_valor_pago-paid_iff a.status a.pago_em_centavos
                          c.charged_amount_cents).0
                        (sym (ap (λ y. y.status) same) ∙ h);
                })
          ]
    ]

-- A payment that is paid after a notice was on record, paid and the same, before it; or the notice
-- made it paid, and then it was on record with a checkout of the notice's reference that the
-- credential's house may touch, the notice says paid, and in a checkout of that reference what came
-- back is not below what was charged, where both amounts are known. (The source trusts the notice
-- where one of them is not.)
pub update_payment_webhook-paid :
    (a : Aviso) (escopo : Option EscopoDaCasa) (caixa : Caixa) {p : Payment}
    → Memᴰ p (update_payment_webhook a escopo caixa).payments
    → p.status ≡ paid
    → Memᴰ p caixa.payments ⊎ Quitado a escopo caixa p
unfolding update_payment_webhook
update_payment_webhook-paid a escopo caixa m h = paid-com_achados a escopo _ caixa refl m h
