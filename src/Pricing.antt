-- ===== src/Pricing.antt =====
-- src/gateways/core/discount.ts and src/payment/amount-check.ts: what a checkout charges, and
-- whether what came back pays it. Amounts are whole cents.
pub mod Laws
mod Tests
use sistema_iccv_backend.Common.{
  ℕ, zero, suc, ◌+◌, ◌-◌, ◌*◌, ◌/◌, Bool, true, false, not, ◌||◌, Option, none, some, List, [], ◌∷◌,
  map, ltb, leb, ◌==◌, if◌then◌else◌, is_empty,
}

-- `HostedCheckoutItem`, without the texts, which nothing here reads.
pub record Item : Type 0 where
  pub unit_amount_cents : ℕ
  pub quantity : ℕ

unfoldable pub linha : Item → ℕ
linha item = item.unit_amount_cents * item.quantity

unfoldable pub total_em_centavos : List Item → ℕ
unfolding linha
total_em_centavos [] = 0
total_em_centavos (item ∷ items) = linha item + total_em_centavos items

unfoldable pub piso_de : List Item → ℕ
piso_de [] = 0
piso_de (item ∷ items) = item.quantity + piso_de items

abbrev pub max : ℕ → ℕ → ℕ
max a b = if leb a b then b else a

-- `ajustados.reduce((a, b) => (linha(a) >= linha(b) ? a : b))`, as the index of the object found.
unfoldable pub maior_desde : (i best : ℕ) (best_linha : ℕ) → List Item → ℕ
unfolding linha
maior_desde i best best_linha [] = best
maior_desde i best best_linha (item ∷ items) =
    let keep = leb (linha item) best_linha in
    maior_desde (suc i) (if keep then best else i) (if keep then best_linha else linha item) items

-- The change of one item in place.
unfoldable pub mudar : ℕ → (Item → Item) → List Item → List Item
mudar i f [] = []
mudar zero f (item ∷ items) = f item ∷ items
mudar (suc i) f (item ∷ items) = item ∷ mudar i f items

-- `Math.max(1, maior.unitAmountCents + Math.trunc(sobra / maior.quantity))`, where the remainder
-- `sobra` is `alvo - soma`, of either sign.
unfoldable pub acertar : (alvo soma : ℕ) → Item → Item
acertar alvo soma maior = record maior {
  unit_amount_cents = max 1 (
      if leb soma alvo
      then maior.unit_amount_cents + (alvo - soma) / maior.quantity
      else maior.unit_amount_cents - (soma - alvo) / maior.quantity);
}

unfoldable pub acertar_sobra : ℕ → List Item → List Item
unfolding acertar mudar maior_desde total_em_centavos
acertar_sobra alvo [] = []
acertar_sobra alvo (item ∷ items) =
    let soma = total_em_centavos (item ∷ items) in
    if soma == alvo
    then item ∷ items
    else mudar (maior_desde 1 0 (linha item) items) (acertar alvo soma) (item ∷ items)

-- `escalar u alvo total` stands for `Math.round(u * (alvo / total))` in floating point. Nothing that
-- is proved depends on how it rounds.
module _ (escalar : ℕ → ℕ → ℕ → ℕ) where
  unfoldable pub ajustar : ℕ → ℕ → Item → Item
  ajustar alvo total item = record item {
    unit_amount_cents = max 1 (escalar item.unit_amount_cents alvo total);
  }

  unfoldable pub aplicar_desconto : List Item → ℕ → List Item
  unfolding ajustar acertar_sobra piso_de total_em_centavos
  aplicar_desconto items desconto =
      if desconto == 0 || is_empty items
      then items
      else let total = total_em_centavos items in
        let alvo = max (piso_de items) (total - desconto) in
        if total == 0 then items else acertar_sobra alvo (map (ajustar alvo total) items)

  unfoldable pub total_cobrado_em_centavos : List Item → ℕ → ℕ
  unfolding aplicar_desconto
  total_cobrado_em_centavos items desconto = total_em_centavos (aplicar_desconto items desconto)

pub data PaymentStatus : Type 0 where
  paid in_analysis declined canceled waiting refunded : PaymentStatus

-- A charged amount of zero is falsy, as a missing one is.
unfoldable pub conferir_valor_pago : PaymentStatus → Option ℕ → Option ℕ → PaymentStatus
conferir_valor_pago paid pago cobrado = elim cobrado [
  | none ↦ paid
  | some c ↦
      if c == 0
      then paid
      else elim pago [ none ↦ paid | some p ↦ if leb c p then paid else in_analysis ]
]
conferir_valor_pago status pago cobrado = status
