-- ===== src/Pricing/Tests.antt =====
-- A cart and its discount (src/gateways/core/discount.ts), and a payment that came back short
-- (src/payment/amount-check.ts).
use sistema_iccv_backend.Common.{ℕ, ◌*◌, ◌/◌, ◌≤◌, ◌≡◌, List, [], ◌∷◌, All, arith}
use sistema_iccv_backend.Pricing.{Item, aplicar_desconto, total_cobrado_em_centavos, piso_de}
use sistema_iccv_backend.Pricing.Laws.{quantities, IsPriced, aplicar_desconto_bounds}

-- Integer division in place of the rounding.
abbrev por_inteiro : ℕ → ℕ → ℕ → ℕ
por_inteiro u alvo total = u * alvo / total

abbrev carrinho : List Item
carrinho =
    record { unit_amount_cents = 1000; quantity = 2 }
    ∷ record { unit_amount_cents = 333; quantity = 3 }
    ∷ []

carrinho-IsPriced : All IsPriced carrinho
carrinho-IsPriced = (omega arith, (omega arith, tt))

aplicar_desconto_bounds_example :
    (quantities (aplicar_desconto por_inteiro carrinho 500) ≡ quantities carrinho)
    × All IsPriced (aplicar_desconto por_inteiro carrinho 500)
    × (piso_de carrinho ≤ total_cobrado_em_centavos por_inteiro carrinho 500)
aplicar_desconto_bounds_example = aplicar_desconto_bounds por_inteiro carrinho 500 carrinho-IsPriced
