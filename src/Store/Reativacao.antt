-- ===== src/Store/Reativacao.antt =====
-- `reativarCompras` of src/event/event-products.ts: canceled purchases that count again take their
-- units anew, and lose what no longer fits.
use sistema_iccv_backend.Common.{
  ℕ, ◌+◌, ◌-◌, ◌*◌, Bool, true, false, not, ◌&&◌, Option, none, some, List, [], ◌∷◌, ◌++◌, map, ltb,
  ◌==◌, if◌then◌else◌, is_empty,
}

pub record Item : Type 0 where
  pub id : ℕ
  pub variant_id : ℕ
  pub quantity : ℕ
  pub unit_price : ℕ

-- A canceled or refunded payment among the asked ones.
pub record Compra : Type 0 where
  pub id : ℕ
  pub amount : ℕ
  pub com_ingresso : Bool
  pub itens : List Item

-- What is left of each variant, `none` for no limit.
abbrev pub Restantes : Type 0
Restantes = ℕ → Option ℕ

abbrev pub com_resto : Restantes → ℕ → ℕ → Restantes
com_resto r v n = λ w. if w == v then some n else r w

-- The items of one payment, one by one: those that fit take their units.
pub record Separados : Type 0 where
  pub fora : List Item
  pub ficam : List Item
  pub restantes : Restantes

abbrev tirar : Item → Separados → Separados
tirar item s = record s { fora = item ∷ s.fora }

abbrev manter : Item → Separados → Separados
manter item s = record s { ficam = item ∷ s.ficam }

unfoldable pub separar : Restantes → List Item → Separados
separar r [] = record { fora = []; ficam = []; restantes = r }
separar r (item ∷ itens) = elim (r item.variant_id) [
  | none ↦ manter item (separar r itens)
  | some resta ↦ elim (ltb resta item.quantity) [
    | true ↦ tirar item (separar r itens)
    | false ↦ manter item (separar (com_resto r item.variant_id (resta - item.quantity)) itens)
  ]
]

unfoldable pub valor : List Item → ℕ
valor [] = 0
valor (item ∷ itens) = item.unit_price * item.quantity + valor itens

-- The outcome: the payments that count again as they are written, the items taken out of them, and
-- the variant for which the first refused purchase found too little.
pub record Reativacao : Type 0 where
  pub reativados : List Compra
  pub itens_removidos : List ℕ
  pub recusa : Option ℕ
  pub restantes : Restantes

-- A purchase that gives nothing back to a ticket, and of which nothing fits.
abbrev pub recusada : Compra → Separados → Bool
recusada c s = not c.com_ingresso && is_empty s.ficam

abbrev recusa_de : List Item → Option ℕ
recusa_de [] = none
recusa_de (item ∷ itens) = some item.variant_id

abbrev coalesce : Option ℕ → Option ℕ → Option ℕ
coalesce none b = b
coalesce (some a) b = some a

-- One round of the loop over the payments. The round that refuses gives back what it took, which is
-- nothing: all its items are out.
unfoldable pub reativar_uma : Compra → Reativacao → Reativacao
unfolding separar valor
reativar_uma c acc =
    let s = separar acc.restantes c.itens in
    if recusada c s
    then record acc { recusa = coalesce acc.recusa (recusa_de s.fora) }
    else record acc {
      reativados =
          acc.reativados ++ record c { amount = c.amount - valor s.fora; itens = s.ficam } ∷ [];
      itens_removidos = acc.itens_removidos ++ map (λ i. i.id) s.fora;
      restantes = s.restantes;
    }

unfoldable pub reativar_desde : Reativacao → List Compra → Reativacao
unfolding reativar_uma
reativar_desde acc [] = acc
reativar_desde acc (c ∷ cs) = reativar_desde (reativar_uma c acc) cs

unfoldable pub reativar_compras : Restantes → List Compra → Reativacao
unfolding reativar_desde
reativar_compras restantes compras =
    reativar_desde
      (record { reativados = []; itens_removidos = []; recusa = none; restantes = restantes })
      compras
