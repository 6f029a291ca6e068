-- ===== src/Store/Laws/Pedido.antt =====
-- Which orders are accepted.
use mathlib.Core.List.{append_assoc, append-nil}
use sistema_iccv_backend.Common.{
  ℕ, ◌≤◌, ◌≡◌, refl, ◌∙◌, ◌≢◌, none, List, [], ◌∷◌, ◌++◌, map, arith, All, All-map, All-zip, All-of,
  ok,
}
use sistema_iccv_backend.Store.{
  ItemPedido, Quantidades, get, quantidade_maxima_por_item, montar_desde, montar_pedido,
}

abbrev pub par : ItemPedido → ℕ × ℕ
par item = (item.variant_id, item.quantity)

abbrev pub IsAllowed : ItemPedido → Type 0
IsAllowed item = (1 ≤ item.quantity) × (item.quantity ≤ quantidade_maxima_por_item)

-- No variant is named twice.
abbrev pub IsDistinct : List ItemPedido → Type 0
IsDistinct [] = Unit
IsDistinct (item ∷ itens) = All (λ j. j.variant_id ≢ item.variant_id) itens × IsDistinct itens

get-snoc :
    (m : Quantidades) (v q k : ℕ) → get (m ++ (v, q) ∷ []) k ≡ none → (get m k ≡ none) × (k ≢ v)
unfolding get
get-snoc [] v q k h = (refl, ground arith)
get-snoc ((j, n) ∷ m) v q k h = ground (arith, get-snoc m v q k)

snoc-get : (m : Quantidades) (v q k : ℕ) → get m k ≡ none → k ≢ v → get (m ++ (v, q) ∷ []) k ≡ none
unfolding get
snoc-get [] v q k h d = ground arith
snoc-get ((j, n) ∷ m) v q k h d = ground (arith, snoc-get m v q k)

abbrev IsNew : Quantidades → ItemPedido → Type 0
IsNew m item = get m item.variant_id ≡ none

montar_desde_sound :
    (itens : List ItemPedido) (acc m : Quantidades)
    → montar_desde acc itens ≡ ok m
    → (m ≡ acc ++ map par itens) × All IsAllowed itens × IsDistinct itens × All (IsNew acc) itens
unfolding montar_desde
montar_desde_sound [] acc m h = (ground (arith, append-nil acc), tt, tt, tt)
montar_desde_sound (item ∷ itens) acc m h =
    let acc' = acc ++ par item ∷ [] in
    let (same, allowed, distinct, fresh) = montar_desde_sound itens acc' m (ground arith) in
    let apart = λ (j : ItemPedido) (e : IsNew acc' j).
      get-snoc acc item.variant_id item.quantity j.variant_id e in
    (
      same ∙ append_assoc acc (par item ∷ []) (map par itens),
      (ground arith, allowed),
      (
        All-map (IsNew acc') (λ j. j.variant_id ≢ item.variant_id) itens (λ j e. (apart j e).1)
            fresh,
        distinct,
      ),
      (ground arith, All-map (IsNew acc') (IsNew acc) itens (λ j e. (apart j e).0) fresh),
    )

-- An accepted order is not empty, names each variant once, asks for one to twenty units of each, and
-- becomes the map from its variants to their quantities, in the order of the request.
pub montar_pedido_sound :
    (itens : List ItemPedido) (m : Quantidades)
    → montar_pedido itens ≡ ok m
    → (itens ≢ []) × (m ≡ map par itens) × All IsAllowed itens × IsDistinct itens
unfolding montar_pedido
montar_pedido_sound [] m h = cc
montar_pedido_sound (item ∷ itens) m h =
    let (same, allowed, distinct, fresh) = montar_desde_sound (item ∷ itens) [] m h in
    ((λ e. cc), same, allowed, distinct)

montar_desde_complete :
    (itens : List ItemPedido) (acc : Quantidades)
    → All IsAllowed itens
    → IsDistinct itens
    → All (IsNew acc) itens
    → montar_desde acc itens ≡ ok (acc ++ map par itens)
unfolding montar_desde
montar_desde_complete [] acc a d n = ground (arith, append-nil acc)
montar_desde_complete (item ∷ itens) acc a d n =
    let both = All-zip (IsNew acc) (λ j. j.variant_id ≢ item.variant_id) itens n.1 d.0 in
    let later =
      All-map _ (IsNew (acc ++ par item ∷ [])) itens
        (λ j e. snoc-get acc item.variant_id item.quantity j.variant_id e.0 e.1) both in
    let ih = montar_desde_complete itens (acc ++ par item ∷ []) a.1 d.1 later in
    ground (arith, ih, append_assoc acc (par item ∷ []) (map par itens))

-- An order that is not empty, names each variant once and asks for one to twenty units of each is
-- accepted, as the map from its variants to their quantities.
pub montar_pedido_complete :
    (item : ItemPedido) (itens : List ItemPedido)
    → All IsAllowed (item ∷ itens)
    → IsDistinct (item ∷ itens)
    → montar_pedido (item ∷ itens) ≡ ok (map par (item ∷ itens))
unfolding montar_pedido get
montar_pedido_complete item itens a d =
    montar_desde_complete (item ∷ itens) [] a d (refl, All-of (IsNew []) itens (λ j. refl))
