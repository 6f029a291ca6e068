-- ===== src/Store.antt =====
-- src/event/event-products.ts: the store of an event. Prices and amounts are whole cents; a map from
-- variants is an association list.
pub mod Compra
pub mod Reativacao
pub mod Laws
mod Tests
use sistema_iccv_backend.Common.{
  ℕ, zero, suc, ◌+◌, ◌-◌, ◌*◌, Bool, true, false, not, ◌&&◌, ◌||◌, Option, none, some, List, [],
  ◌∷◌, ◌++◌, map, ltb, leb, ◌==◌, if◌then◌else◌, Result, ok, err, ◌>>=◌, ◌>>◌, require,
}
use sistema_iccv_backend.Pricing.{
  PaymentStatus, paid, in_analysis, declined, canceled, waiting, refunded,
}

-- `STATUS_QUE_LIBERAM_ESTOQUE.includes(status)`
abbrev pub libera_estoque : PaymentStatus → Bool
libera_estoque canceled = true
libera_estoque refunded = true
libera_estoque _ = false

abbrev pub quantidade_maxima_por_item : ℕ
quantidade_maxima_por_item = 20

pub data StoreError : Type 0 where
  -- 400
  pedido_vazio quantidade_invalida item_repetido loja_fechada produto_invalido : StoreError
  -- 400, with the variant and what is left of it
  falta_de_estoque : ℕ → ℕ → StoreError
  -- 403
  so_inscritos gratuito_so_inscritos : StoreError

abbrev pub Quantidades : Type 0
Quantidades = List (ℕ × ℕ)

-- `Map.get`, `Map.has`, and `get(k) ?? 0`.
unfoldable pub get : Quantidades → ℕ → Option ℕ
get [] k = none
get ((j, n) ∷ m) k = let rest = get m k in if j == k then some n else rest

abbrev has : Quantidades → ℕ → Bool
has m k = elim (get m k) [ none ↦ false | some n ↦ true ]

abbrev pub or_zero : Option ℕ → ℕ
or_zero none = 0
or_zero (some n) = n

pub record ItemPedido : Type 0 where
  pub variant_id : ℕ
  pub quantity : ℕ

-- The loop of `montarPedido`. A new key goes to the end, as in a `Map`.
unfoldable pub montar_desde : Quantidades → List ItemPedido → Result StoreError Quantidades
unfolding get
montar_desde pedido [] = ok pedido
montar_desde pedido (item ∷ itens) =
    let rest = montar_desde (pedido ++ (item.variant_id, item.quantity) ∷ []) itens in
    if ltb item.quantity 1 || ltb quantidade_maxima_por_item item.quantity
    then err quantidade_invalida
    else if has pedido item.variant_id
    then err item_repetido
    else rest

unfoldable pub montar_pedido : List ItemPedido → Result StoreError Quantidades
unfolding montar_desde
montar_pedido [] = err pedido_vazio
montar_pedido (item ∷ itens) = montar_desde [] (item ∷ itens)

-- `none` is no limit. `Math.max(0, stock - vendidos)` is the subtraction of ℕ.
unfoldable pub disponivel : Option ℕ → ℕ → Option ℕ
disponivel none vendidos = none
disponivel (some stock) vendidos = some (stock - vendidos)

-- A variant on sale, with its product's event and price.
pub record Variante : Type 0 where
  pub id : ℕ
  pub event_id : ℕ
  pub stock : Option ℕ
  pub price : ℕ

abbrev cabe : Option ℕ → ℕ → Bool
cabe none quero = true
cabe (some restante) quero = leb quero restante

unfoldable pub conferir_estoque :
    List Variante → (vendidos : ℕ → ℕ) → Quantidades → Result StoreError (Unit {0})
unfolding disponivel get
conferir_estoque [] vendidos pedido = ok tt
conferir_estoque (v ∷ vs) vendidos pedido =
    let restante = disponivel v.stock (vendidos v.id) in
    let rest = conferir_estoque vs vendidos pedido in
    if cabe restante (or_zero (get pedido v.id))
    then rest
    else err (falta_de_estoque v.id (or_zero restante))

unfoldable pub pode_comprar_na_loja : (inscrito public_store por_outra_pessoa : Bool) → Bool
pode_comprar_na_loja inscrito public_store por_outra_pessoa =
    inscrito || not por_outra_pessoa && public_store
