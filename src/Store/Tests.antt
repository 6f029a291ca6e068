-- ===== src/Store/Tests.antt =====
-- A store with one limited variant, and purchases in it (src/event/event.service.ts and
-- src/event/event-products.ts).
use sistema_iccv_backend.Common.{
  ℕ, ◌+◌, ◌*◌, ◌≡◌, refl, Bool, true, false, none, some, List, [], ◌∷◌, arith, ◌==◌, if◌then◌else◌,
  All,
}
use sistema_iccv_backend.Store.{
  ItemPedido, Variante, get, conferir_estoque, disponivel, pode_comprar_na_loja,
}
use sistema_iccv_backend.Store.Compra.{
  Loja, Evento, vendidos, comprar_produtos, gravar_compra, variantes_do_pedido, total_do_pedido,
  ingresso_que_aceita_produtos,
}
use sistema_iccv_backend.Store.Reativacao.{Compra, Restantes, reativar_compras}
use sistema_iccv_backend.Store.Laws.Estoque.{IsStocked, comprar_produtos-IsStocked}
use sistema_iccv_backend.Store.Laws.Voltam.{unidades_em, reativar_compras-conserva}
use sistema_iccv_backend.Store.Laws.Pedido.{IsAllowed, IsDistinct}

abbrev camiseta : Variante
camiseta = record { id = 1; event_id = 5; stock = some 3; price = 4000 }

abbrev evento : Evento
evento = record { id = 5; inactive = false; public_store = false }

abbrev loja : Loja
loja = record {
  variantes = camiseta ∷ [];
  pagamentos = [];
  itens = [];
  inscricoes = record { user_id = 10; event_id = 5 } ∷ [];
  proximo_id = 1;
}

abbrev depois : Loja
depois = gravar_compra loja 10 5 (camiseta ∷ []) ((1, 2) ∷ []) none

loja-IsStocked : IsStocked loja
unfolding vendidos
loja-IsStocked v s m e = omega arith

comprar_produtos-IsStocked_example : IsStocked depois
unfolding comprar_produtos variantes_do_pedido ingresso_que_aceita_produtos vendidos total_do_pedido
    conferir_estoque get disponivel pode_comprar_na_loja
comprar_produtos-IsStocked_example =
    comprar_produtos-IsStocked loja depois evento 10 ((1, 2) ∷ []) true false (tt, tt) tt
      loja-IsStocked refl

abbrev dois : List ItemPedido
dois = record { variant_id = 1; quantity = 2 } ∷ record { variant_id = 4; quantity = 20 } ∷ []

dois-IsAllowed : All IsAllowed dois
dois-IsAllowed = ((omega arith, omega arith), ((omega arith, omega arith), tt))

dois-IsDistinct : IsDistinct dois
dois-IsDistinct = ((omega arith, tt), (tt, tt))

-- Two canceled purchases, one with a ticket, compete for three units.
abbrev com_camisetas : ℕ → Bool → ℕ → Compra
com_camisetas id com_ingresso quantity = record {
  id = id;
  amount = 4000 * quantity;
  com_ingresso = com_ingresso;
  itens = record { id = id; variant_id = 1; quantity = quantity; unit_price = 4000 } ∷ [];
}

abbrev compras : List Compra
compras = com_camisetas 1 false 2 ∷ com_camisetas 2 true 2 ∷ []

abbrev sobra_tres : Restantes
sobra_tres v = if v == 1 then some 3 else none

reativar_compras-conserva_example :
    (m : ℕ) × ((reativar_compras sobra_tres compras).restantes 1 ≡ some m)
    × (unidades_em 1 (reativar_compras sobra_tres compras).reativados + m ≡ 3)
reativar_compras-conserva_example = reativar_compras-conserva compras sobra_tres 1 3 refl
