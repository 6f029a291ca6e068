-- ===== src/Pagamentos/Tests.antt =====
-- A payment by the gateway, a notice of another church, and an edition on the panel
-- (src/payment/payment.service.ts).
use sistema_iccv_backend.Common.{ℕ, ◌≡◌, refl, true, false, none, some, [], ◌∷◌, any, Memᴰ, ◌⊎◌}
use sistema_iccv_backend.Pricing.{paid, waiting, conferir_valor_pago}
use sistema_iccv_backend.Store.Reativacao.{reativar_compras}
use sistema_iccv_backend.Pagamentos.{
  Payment, PaymentCheckout, Caixa, EscopoDaCasa, Aviso, UpdatePaymentStatusDto, pagbank, pending,
  system, external, active, inactive, update_payment_webhook, update_payment_checkout_webhook,
  update_payment_status, filtro_da_casa, com_achados, editado, gravar, invalidar,
  eh_lancamento_manual, com_reativacao,
}
use sistema_iccv_backend.Pagamentos.Laws.Avisos.{
  StaysOutside, Quitado, update_payment_webhook-StaysOutside, update_payment_webhook-paid,
}
use sistema_iccv_backend.Pagamentos.Laws.Painel.{UmSo, aberto, update_payment_status-UmSo}

abbrev inscricao : Payment
inscricao = record {
  id = 1;
  status = waiting;
  received_from = pending;
  method = 0;
  amount = 5000;
  church_id = some 10;
  discount_id = none;
  itens = [];
  payload = record { retorno = none; comprovante = none };
  delivered = none;
}

abbrev checkout : PaymentCheckout
checkout = record {
  payment_id = 1;
  checkout_id = 70;
  reference_id = 700;
  status = active;
  provider = pagbank;
  config_id = none;
  charged_amount_cents = some 5000;
}

abbrev caixa : Caixa
caixa = record { payments = inscricao ∷ []; checkouts = checkout ∷ [] }

abbrev pago : Aviso
pago = record {
  reference_id = 700;
  status = paid;
  method = 2;
  payload = 9;
  pago_em_centavos = some 5000;
}

abbrev casa : (church_id : ℕ) → EscopoDaCasa
casa church_id = record { provider = pagbank; config_id = 3; church_id = church_id }

-- The notice of church 11 on a checkout of church 10.
update_payment_webhook-StaysOutside_example :
    StaysOutside (casa 11) caixa (update_payment_webhook pago (some (casa 11)) caixa)
    × StaysOutside
        (casa 11)
        caixa
        (update_payment_checkout_webhook 70 inactive (some (casa 11)) caixa)
update_payment_webhook-StaysOutside_example =
    update_payment_webhook-StaysOutside pago 70 inactive (casa 11) caixa

abbrev quitada : Payment
quitada = record inscricao {
  method = 2;
  status = paid;
  payload = record { retorno = some 9; comprovante = none };
  received_from = system;
}

update_payment_webhook-paid_example :
    Memᴰ quitada caixa.payments ⊎ Quitado pago (some (casa 10)) caixa quitada
unfolding update_payment_webhook com_achados filtro_da_casa conferir_valor_pago
update_payment_webhook-paid_example =
    update_payment_webhook-paid pago (some (casa 10)) caixa (Memᴰ.head {x = quitada} refl) refl

abbrev baixa : UpdatePaymentStatusDto
baixa = record {
  status = some paid;
  method = some 1;
  receipt_file = some (true, 88);
  discounts_applied_id = none;
}

abbrev baixada : Caixa
baixada = record {
  payments =
      record inscricao {
        method = 1;
        status = paid;
        payload = record { retorno = none; comprovante = some 88 };
        received_from = external;
      }
      ∷ [];
  checkouts = record checkout { status = inactive } ∷ [];
}

update_payment_status-UmSo_example :
    UmSo 1 caixa.payments baixada.payments × (any (aberto 1) baixada.checkouts ≡ false)
unfolding update_payment_status editado gravar invalidar eh_lancamento_manual com_reativacao
    reativar_compras
update_payment_status-UmSo_example =
    update_payment_status-UmSo (λ v. none) 1 baixa caixa {after = baixada} refl
