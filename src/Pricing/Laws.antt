-- ===== src/Pricing/Laws.antt =====
-- What the checkout charges after a discount, and which payments settle it.
use sistema_iccv_backend.Common.{
  ℕ, zero, suc, ◌-◌, ◌≤◌, ◌≡◌, refl, ap, ◌∙◌, ◌↔◌, Option, none, some, List, [], ◌∷◌, map, arith,
  All,
}
use sistema_iccv_backend.Pricing.{
  Item, linha, total_em_centavos, piso_de, max, maior_desde, mudar, acertar, acertar_sobra, ajustar,
  aplicar_desconto, total_cobrado_em_centavos, PaymentStatus, paid, conferir_valor_pago,
}

-- What was paid is not known to fall short of what was charged. (A charge of zero falls short of
-- nothing.)
abbrev pub Covers : Option ℕ → Option ℕ → Type 0
Covers (some pago) (some cobrado) = cobrado ≤ pago
Covers _ _ = Unit

-- A payment is settled after the check exactly when the provider says paid and the amount that came
-- back is not known to be below the charged one.
pub conferir_valor_pago-paid_iff :
    (status : PaymentStatus) (pago cobrado : Option ℕ)
    → (conferir_valor_pago status pago cobrado ≡ paid) ↔ ((status ≡ paid) × Covers pago cobrado)
unfolding conferir_valor_pago
conferir_valor_pago-paid_iff paid (some p) (some c) = (λ h. ground arith, λ h. ground arith)
conferir_valor_pago-paid_iff paid (some p) none = (λ h. (refl, tt), λ h. refl)
conferir_valor_pago-paid_iff paid none (some c) = (λ h. (refl, tt), λ h. ground arith)
conferir_valor_pago-paid_iff paid none none = (λ h. (refl, tt), λ h. refl)
conferir_valor_pago-paid_iff _ pago cobrado = (λ h. cc, λ h. cc (h.0))

-- Same lines, same quantities.
abbrev pub quantities : List Item → List ℕ
quantities = map λ item. item.quantity

quantities-mudar :
    (i alvo soma : ℕ) (items : List Item)
    → quantities (mudar i (acertar alvo soma) items) ≡ quantities items
unfolding mudar acertar
quantities-mudar i alvo soma [] = refl
quantities-mudar zero alvo soma (item ∷ items) = refl
quantities-mudar (suc i) alvo soma (item ∷ items) =
    ap (◌∷◌ item.quantity) (quantities-mudar i alvo soma items)

-- Every unit costs a cent at least.
abbrev pub IsPriced : Item → Type 0
IsPriced item = 1 ≤ item.unit_amount_cents

mudar-IsPriced :
    (i alvo soma : ℕ) (items : List Item)
    → All IsPriced items
    → All IsPriced (mudar i (acertar alvo soma) items)
unfolding mudar acertar
mudar-IsPriced i alvo soma [] h = tt
mudar-IsPriced zero alvo soma (item ∷ items) h = (ground arith, h.1)
mudar-IsPriced (suc i) alvo soma (item ∷ items) h = (h.0, mudar-IsPriced i alvo soma items h.1)

acertar_sobra-IsPriced :
    (alvo : ℕ) (items : List Item) → All IsPriced items → All IsPriced (acertar_sobra alvo items)
unfolding acertar_sobra
acertar_sobra-IsPriced alvo [] h = tt
acertar_sobra-IsPriced alvo (item ∷ items) h = ground (
  arith,
  mudar-IsPriced (maior_desde 1 0 (linha item) items) alvo (total_em_centavos (item ∷ items))
      (item ∷ items) h,
)

acertar_sobra-quantities :
    (alvo : ℕ) (items : List Item) → quantities (acertar_sobra alvo items) ≡ quantities items
unfolding acertar_sobra
acertar_sobra-quantities alvo [] = refl
acertar_sobra-quantities alvo (item ∷ items) = ground (
  arith,
  quantities-mudar (maior_desde 1 0 (linha item) items) alvo (total_em_centavos (item ∷ items))
      (item ∷ items),
)

piso-le-total : (items : List Item) → All IsPriced items → piso_de items ≤ total_em_centavos items
unfolding piso_de total_em_centavos linha
piso-le-total [] h = omega arith
piso-le-total (item ∷ items) h = grind (arith, piso-le-total items h.1)

piso-quantities : (xs ys : List Item) → quantities xs ≡ quantities ys → piso_de xs ≡ piso_de ys
unfolding piso_de
piso-quantities [] [] h = refl
piso-quantities [] (y ∷ ys) h = cc
piso-quantities (x ∷ xs) [] h = cc
piso-quantities (x ∷ xs) (y ∷ ys) h = ground (arith, piso-quantities xs ys)

module _ (escalar : ℕ → ℕ → ℕ → ℕ) where
  ajustar-IsPriced :
      (alvo total : ℕ) (items : List Item) → All IsPriced (map (ajustar escalar alvo total) items)
  unfolding ajustar
  ajustar-IsPriced alvo total [] = tt
  ajustar-IsPriced alvo total (item ∷ items) = (ground arith, ajustar-IsPriced alvo total items)

  ajustar-quantities :
      (alvo total : ℕ) (items : List Item)
      → quantities (map (ajustar escalar alvo total) items) ≡ quantities items
  unfolding ajustar
  ajustar-quantities alvo total [] = refl
  ajustar-quantities alvo total (item ∷ items) =
      ap (◌∷◌ item.quantity) (ajustar-quantities alvo total items)

  aplicar_desconto-shape :
      (items : List Item) (desconto : ℕ)
      → All IsPriced items
      → (quantities (aplicar_desconto escalar items desconto) ≡ quantities items)
        × All IsPriced (aplicar_desconto escalar items desconto)
  unfolding aplicar_desconto
  aplicar_desconto-shape items desconto h =
      let total = total_em_centavos items in
      let alvo = max (piso_de items) (total - desconto) in
      let novos = map (ajustar escalar alvo total) items in
      let same = acertar_sobra-quantities alvo novos ∙ ajustar-quantities alvo total items in
      let priced = acertar_sobra-IsPriced alvo novos (ajustar-IsPriced alvo total items) in
      ground (arith, same, priced)

  -- However the floating point rounds, a cart whose prices are positive keeps its lines and their
  -- quantities under any discount, every unit still costs a cent at least, and so the charge never
  -- falls below one cent for each unit.
  pub aplicar_desconto_bounds :
      (items : List Item) (desconto : ℕ)
      → All IsPriced items
      → (quantities (aplicar_desconto escalar items desconto) ≡ quantities items)
        × All IsPriced (aplicar_desconto escalar items desconto)
        × (piso_de items ≤ total_cobrado_em_centavos escalar items desconto)
  unfolding total_cobrado_em_centavos
  aplicar_desconto_bounds items desconto h =
      let (same, priced) = aplicar_desconto-shape items desconto h in
      let after = aplicar_desconto escalar items desconto in
      (same, priced, omega (arith, piso-quantities after items same, piso-le-total after priced))
