-- ===== src/Pagamentos.antt =====
-- src/payment/payment.service.ts: what the gateways' notices and the panel do to the payments of
-- events, each operation as a whole. A notice that fails is caught and leaves everything as it was.
-- Payment methods and the bodies of notices are numbers.
use sistema_iccv_backend.Common.{
  ℕ, Bool, true, false, not, ◌&&◌, ◌||◌, Option, none, some, List, [], ◌∷◌, map, ◌==◌,
  if◌then◌else◌, filter, any, find?, includes, is_empty, nat_eq, Result, ok, err, ◌>>◌, ◌>>=◌,
  require, or_throw,
}
use sistema_iccv_backend.Pricing.{
  PaymentStatus, paid, in_analysis, declined, canceled, waiting, refunded, conferir_valor_pago,
}
use sistema_iccv_backend.Store.{libera_estoque}
use sistema_iccv_backend.Store.Reativacao.{Item, Compra, Reativacao, Restantes, reativar_compras}
pub mod Laws
mod Tests

pub data PaymentProvider : Type 0 where
  pagbank mercado_pago infinitepay ton : PaymentProvider

abbrev pub same_provider : PaymentProvider → PaymentProvider → Bool
same_provider pagbank pagbank = true
same_provider mercado_pago mercado_pago = true
same_provider infinitepay infinitepay = true
same_provider ton ton = true
same_provider _ _ = false

pub data PaymentReceived : Type 0 where
  pending system external : PaymentReceived

pub data CheckoutStatus : Type 0 where
  active expired inactive : CheckoutStatus

abbrev pub is_active : CheckoutStatus → Bool
is_active active = true
is_active expired = false
is_active inactive = false

abbrev pub is_paid : PaymentStatus → Bool
is_paid paid = true
is_paid _ = false

abbrev pub is_refunded : PaymentStatus → Bool
is_refunded refunded = true
is_refunded _ = false

abbrev pub same_status : PaymentStatus → PaymentStatus → Bool
same_status paid paid = true
same_status in_analysis in_analysis = true
same_status declined declined = true
same_status canceled canceled = true
same_status waiting waiting = true
same_status refunded refunded = true
same_status _ _ = false

-- What a gateway sent last, and the receipt that the panel attached to it.
pub record Payload : Type 0 where
  pub retorno : Option ℕ
  pub comprovante : Option ℕ

-- A row of `Payment`, with its items. `church_id` is the church of the event of its registration,
-- and `discount_id` the discount of that registration: a purchase without a ticket has neither.
pub record Payment : Type 0 where
  pub id : ℕ
  pub status : PaymentStatus
  pub received_from : PaymentReceived
  pub method : ℕ
  pub amount : ℕ
  pub church_id : Option ℕ
  pub discount_id : Option ℕ
  pub itens : List Item
  pub payload : Payload
  pub delivered : Option (ℕ × Option ℕ)

abbrev pub com_ingresso : Payment → Bool
com_ingresso p = elim p.church_id [ none ↦ false | some c ↦ true ]

pub record PaymentCheckout : Type 0 where
  pub payment_id : ℕ
  pub checkout_id : ℕ
  pub reference_id : ℕ
  pub status : CheckoutStatus
  pub provider : PaymentProvider
  pub config_id : Option ℕ
  pub charged_amount_cents : Option ℕ

pub record Caixa : Type 0 where
  pub payments : List Payment
  pub checkouts : List PaymentCheckout

pub record EscopoDaCasa : Type 0 where
  pub provider : PaymentProvider
  pub config_id : ℕ
  pub church_id : ℕ

abbrev pub find_payment : List Payment → ℕ → Option Payment
find_payment payments id = find? (λ p. p.id == id) payments

abbrev pub igreja : Option Payment → Option ℕ
igreja none = none
igreja (some p) = p.church_id

abbrev pub eq_some : ℕ → Option ℕ → Bool
eq_some n none = false
eq_some n (some m) = m == n

-- `filtroDaCasa`, on one checkout.
unfoldable pub filtro_da_casa : Option EscopoDaCasa → List Payment → PaymentCheckout → Bool
filtro_da_casa none payments c = true
filtro_da_casa (some e) payments c = elim c.config_id [
  | some config ↦ config == e.config_id
  | none ↦
      same_provider c.provider e.provider
      && eq_some e.church_id (igreja (find_payment payments c.payment_id))
]

abbrev pub da_referencia : ℕ → Option EscopoDaCasa → List Payment → PaymentCheckout → Bool
da_referencia reference_id escopo payments c =
    c.reference_id == reference_id && filtro_da_casa escopo payments c

-- The payment of a checkout is on record (it is a foreign key); one that were not would not be paid.
abbrev pub ja_pago : List Payment → PaymentCheckout → Bool
ja_pago payments c = elim (find_payment payments c.payment_id) [
  | none ↦ false
  | some p ↦ is_paid p.status
]

pub record Aviso : Type 0 where
  pub reference_id : ℕ
  pub status : PaymentStatus
  pub method : ℕ
  pub payload : ℕ
  pub pago_em_centavos : Option ℕ

abbrev pub avisado : PaymentStatus → Aviso → Payment → Payment
avisado conferido a p = record p {
  method = a.method;
  status = conferido;
  payload = record { retorno = some a.payload; comprovante = none };
  received_from = system;
}

abbrev pub aplicar_aviso :
    (conferido : PaymentStatus) → Aviso → List PaymentCheckout → List Payment → List Payment
aplicar_aviso conferido a achados payments =
    map (λ p. if includes p.id (map (λ c. c.payment_id) achados) then avisado conferido a p else p)
      payments

-- `updateMany` of the status.
abbrev pub mudar_checkouts :
    (PaymentCheckout → Bool) → CheckoutStatus → List PaymentCheckout → List PaymentCheckout
mudar_checkouts quais status checkouts =
    map (λ c. if quais c then record c { status = status } else c) checkouts

-- `updatePaymentWebhook`. `achados` are the checkouts found; the first one decides.
unfoldable pub com_achados :
    Aviso → Option EscopoDaCasa → (achados : List PaymentCheckout) → Caixa → Caixa
com_achados a escopo [] caixa = caixa
com_achados a escopo (primeiro ∷ outros) caixa =
    if ja_pago caixa.payments primeiro
    then caixa
    else let conferido =
        conferir_valor_pago a.status a.pago_em_centavos primeiro.charged_amount_cents in
      record {
        payments = aplicar_aviso conferido a (primeiro ∷ outros) caixa.payments;
        checkouts =
            if is_paid conferido
            then mudar_checkouts (da_referencia a.reference_id escopo caixa.payments) inactive
                caixa.checkouts
            else caixa.checkouts;
      }

unfoldable pub update_payment_webhook : Aviso → Option EscopoDaCasa → Caixa → Caixa
unfolding com_achados filtro_da_casa
update_payment_webhook a escopo caixa =
    com_achados a escopo
      (filter (da_referencia a.reference_id escopo caixa.payments) caixa.checkouts) caixa

-- `updatePaymentCheckoutWebhook`; with nothing found, nothing changes either.
unfoldable pub update_payment_checkout_webhook :
    (checkout_id : ℕ) → CheckoutStatus → Option EscopoDaCasa → Caixa → Caixa
unfolding filtro_da_casa
update_payment_checkout_webhook checkout_id status escopo caixa = record caixa {
  checkouts =
      mudar_checkouts (λ c. c.checkout_id == checkout_id && filtro_da_casa escopo caixa.payments c)
        status caixa.checkouts;
}

pub data PaymentError : Type 0 where
  -- 404
  nao_encontrado : PaymentError
  -- 400
  ja_pago_so_reembolso comprovante_invalido so_pagos_reembolsam sem_produtos
        entrega_antes_de_pagar :
      PaymentError
  sem_estoque : (variant_id : ℕ) → PaymentError

-- `ehLancamentoManual`.
unfoldable pub eh_lancamento_manual : PaymentStatus → Option PaymentStatus → Bool
eh_lancamento_manual anterior none = false
eh_lancamento_manual anterior (some paid) = not (same_status paid anterior)
eh_lancamento_manual anterior (some in_analysis) = not (same_status in_analysis anterior)
eh_lancamento_manual anterior (some _) = false

-- `UpdatePaymentStatusDto`. Of the file: whether its type is accepted, and the address that it gets.
pub record UpdatePaymentStatusDto : Type 0 where
  pub status : Option PaymentStatus
  pub method : Option ℕ
  pub receipt_file : Option (Bool × ℕ)
  pub discounts_applied_id : Option ℕ

abbrev pub permitido : PaymentStatus → Option PaymentStatus → Bool
permitido antes depois =
    not (is_paid antes) || elim depois [ none ↦ false | some s ↦ is_refunded s ]

abbrev pub arquivo_aceito : Option (Bool × ℕ) → Bool
arquivo_aceito none = true
arquivo_aceito (some (aceito, url)) = aceito

-- `STATUS_QUE_LIBERAM_ESTOQUE.includes(payload.status)`.
abbrev pub status_libera : Option PaymentStatus → Bool
status_libera none = false
status_libera (some s) = libera_estoque s

-- What `reativarCompras` reads of the payment that it is asked for.
abbrev pub compras : Payment → List Compra
compras p =
    if libera_estoque p.status
    then record { id = p.id; amount = p.amount; com_ingresso = com_ingresso p; itens = p.itens }
      ∷ []
    else []

-- The payment as `reativarCompras` writes it, or its refusal.
unfoldable pub com_reativacao :
    Payment → (reativados : List Compra) (recusa : Option ℕ) → Result PaymentError Payment
com_reativacao p [] none = ok p
com_reativacao p [] (some v) = err (sem_estoque v)
com_reativacao p (c ∷ cs) recusa = ok (record p { amount = c.amount; itens = c.itens })

abbrev pub or_else {ℓ} : {A : Type ℓ} → Option A → A → A
or_else none d = d
or_else (some a) d = a

abbrev novo_comprovante : Option (Bool × ℕ) → Option ℕ → Option ℕ
novo_comprovante none antes = antes
novo_comprovante (some (aceito, url)) antes = some url

abbrev novo_desconto : Payment → Option ℕ → Option ℕ
novo_desconto p none = p.discount_id
novo_desconto p (some d) = if com_ingresso p then some d else p.discount_id

-- `payment.update` with the data of the panel, over the row as the reactivation left it.
unfoldable pub editado : UpdatePaymentStatusDto → (lido atual : Payment) → Payment
unfolding eh_lancamento_manual
editado dto lido atual = record atual {
  status = or_else dto.status atual.status;
  method = or_else dto.method atual.method;
  received_from =
      if eh_lancamento_manual lido.status dto.status then external else atual.received_from;
  discount_id = novo_desconto lido dto.discounts_applied_id;
  payload = record lido.payload {
    comprovante = novo_comprovante dto.receipt_file lido.payload.comprovante;
  };
}

unfoldable pub gravar : Payment → List Payment → List Payment
gravar n [] = []
gravar n (x ∷ xs) = let rest = gravar n xs in if x.id == n.id then n ∷ xs else x ∷ rest

-- The checkouts to invalidate: those that an active checkout of the payment has the id of.
abbrev pub a_invalidar : ℕ → List PaymentCheckout → List ℕ
a_invalidar payment_id checkouts =
    map (λ c. c.checkout_id)
      (filter (λ c. c.payment_id == payment_id && is_active c.status) checkouts)

unfoldable pub invalidar : ℕ → List PaymentCheckout → List PaymentCheckout
invalidar payment_id checkouts =
    mudar_checkouts
      (λ c. includes c.checkout_id (a_invalidar payment_id checkouts) && is_active c.status)
      inactive checkouts

-- `updatePaymentStatus`; `restantes` is what `reativarCompras` finds left of each variant.
unfoldable pub update_payment_status :
    Restantes → (payment_id : ℕ) → UpdatePaymentStatusDto → Caixa → Result PaymentError Caixa
unfolding com_reativacao editado gravar invalidar
update_payment_status restantes payment_id dto caixa = do
  lido ← or_throw (find_payment caixa.payments payment_id) nao_encontrado
  require (permitido lido.status dto.status) ja_pago_so_reembolso
  require (arquivo_aceito dto.receipt_file) comprovante_invalido
  atual ←
      if status_libera dto.status
      then ok lido
      else let r = reativar_compras restantes (compras lido) in
        com_reativacao lido r.reativados r.recusa
  ok (record {
    payments = gravar (editado dto lido atual) caixa.payments;
    checkouts = invalidar payment_id caixa.checkouts;
  })

unfoldable pub refund_payment : (payment_id : ℕ) → Caixa → Result PaymentError Caixa
unfolding gravar
refund_payment payment_id caixa = do
  p ← or_throw (find_payment caixa.payments payment_id) nao_encontrado
  require (is_paid p.status) so_pagos_reembolsam
  ok (record caixa { payments = gravar (record p { status = refunded }) caixa.payments })

unfoldable pub update_products_delivery :
    (payment_id : ℕ) (delivered : Bool) (admin_id : Option ℕ) (agora : ℕ)
    → Caixa
    → Result PaymentError Caixa
unfolding gravar
update_products_delivery payment_id delivered admin_id agora caixa = do
  p ← or_throw (find_payment caixa.payments payment_id) nao_encontrado
  require (not (is_empty p.itens)) sem_produtos
  require (not delivered || is_paid p.status) entrega_antes_de_pagar
  ok (record caixa {
    payments =
        gravar (record p { delivered = if delivered then some (agora, admin_id) else none })
          caixa.payments;
  })
