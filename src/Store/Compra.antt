-- ===== src/Store/Compra.antt =====
-- `_comprarProdutosTx` of src/event/event.service.ts: a purchase, as one serializable transaction.
use sistema_iccv_backend.Common.{
  ℕ, ◌+◌, ◌*◌, Bool, true, false, not, ◌&&◌, Option, none, some, List, [], ◌∷◌, ◌++◌, map, ltb,
  ◌==◌, if◌then◌else◌, filter, find?, any, length, includes, nat_eq, Result, ok, ◌>>◌, require,
}
use sistema_iccv_backend.Pricing.{PaymentStatus, paid, waiting}
use sistema_iccv_backend.Store.{
  libera_estoque, StoreError, loja_fechada, produto_invalido, so_inscritos, gratuito_so_inscritos,
  Quantidades, get, or_zero, Variante, conferir_estoque, pode_comprar_na_loja,
}

pub data Metodo : Type 0 where
  cash other : Metodo

-- A row of `Payment`: whether it is a ticket's (`roleRegistrationId`), and whether it has an active
-- checkout.
pub record Pagamento : Type 0 where
  pub id : ℕ
  pub user_id : ℕ
  pub event_id : ℕ
  pub amount : ℕ
  pub status : PaymentStatus
  pub method : Metodo
  pub com_ingresso : Bool
  pub checkout_ativo : Bool

-- A row of `PaymentProductItem`.
pub record ItemComprado : Type 0 where
  pub payment_id : ℕ
  pub variant_id : ℕ
  pub quantity : ℕ
  pub unit_price : ℕ

pub record Inscricao : Type 0 where
  pub user_id : ℕ
  pub event_id : ℕ

-- The tables that the purchase reads and writes. Payments stand in the order of their creation.
pub record Loja : Type 0 where
  pub variantes : List Variante
  pub pagamentos : List Pagamento
  pub itens : List ItemComprado
  pub inscricoes : List Inscricao
  pub proximo_id : ℕ

pub record Evento : Type 0 where
  pub id : ℕ
  pub inactive : Bool
  pub public_store : Bool

-- The payment of an item is still worth its units.
unfoldable pub pagamento_vale : List Pagamento → ℕ → Bool
pagamento_vale pagamentos id = any (λ p. p.id == id && not (libera_estoque p.status)) pagamentos

-- `vendidosPorVariante`, for one variant.
unfoldable pub vendidos : List Pagamento → List ItemComprado → ℕ → ℕ
unfolding pagamento_vale
vendidos pagamentos [] v = 0
vendidos pagamentos (i ∷ is) v =
    (if i.variant_id == v && pagamento_vale pagamentos i.payment_id then i.quantity else 0)
    + vendidos pagamentos is v

-- An open ticket, or a free one that was born paid.
abbrev aberto : PaymentStatus → ℕ → Bool
aberto waiting amount = true
aberto paid amount = amount == 0
aberto _ amount = false

-- The oldest ticket of the person that may still take products.
unfoldable pub ingresso_que_aceita_produtos : Loja → (user_id event_id : ℕ) → Option Pagamento
ingresso_que_aceita_produtos loja user_id event_id =
    find?
      (λ p.
        p.user_id == user_id
        && p.event_id == event_id
        && p.com_ingresso
        && not (any (λ i. i.payment_id == p.id) loja.itens)
        && not p.checkout_ativo
        && aberto p.status p.amount)
      loja.pagamentos

unfoldable pub total_do_pedido : List Variante → Quantidades → ℕ
total_do_pedido [] pedido = 0
total_do_pedido (v ∷ vs) pedido = v.price * or_zero (get pedido v.id) + total_do_pedido vs pedido

unfoldable pub itens_do_pedido : ℕ → List Variante → Quantidades → List ItemComprado
itens_do_pedido payment_id variantes pedido =
    map
      (λ v. record {
        payment_id = payment_id;
        variant_id = v.id;
        quantity = or_zero (get pedido v.id);
        unit_price = v.price;
      })
      variantes

abbrev is_paid : PaymentStatus → Bool
is_paid paid = true
is_paid _ = false

-- The ticket with the products' value added; a free one waits for payment again.
unfoldable pub com_produtos : ℕ → Pagamento → Pagamento
com_produtos total p =
    if is_paid p.status && ltb 0 total
    then record p { amount = p.amount + total; status = waiting; method = other }
    else record p { amount = p.amount + total }

unfoldable pub atualizar : ℕ → (Pagamento → Pagamento) → List Pagamento → List Pagamento
atualizar id f [] = []
atualizar id f (p ∷ ps) = (if p.id == id then f p else p) ∷ atualizar id f ps

unfoldable pub pagamento_avulso : (id user_id event_id total : ℕ) → Pagamento
pagamento_avulso id user_id event_id total = record {
  id = id;
  user_id = user_id;
  event_id = event_id;
  amount = total;
  status = if ltb 0 total then waiting else paid;
  method = if ltb 0 total then other else cash;
  com_ingresso = false;
  checkout_ativo = false;
}

-- The writes: into the ticket, or into a payment of its own.
unfoldable pub gravar_compra :
    Loja → (user_id event_id : ℕ) → List Variante → Quantidades → Option Pagamento → Loja
unfolding total_do_pedido itens_do_pedido com_produtos atualizar pagamento_avulso
gravar_compra loja user_id event_id variantes pedido (some ingresso) = record loja {
  pagamentos =
      atualizar ingresso.id (com_produtos (total_do_pedido variantes pedido)) loja.pagamentos;
  itens = loja.itens ++ itens_do_pedido ingresso.id variantes pedido;
}
gravar_compra loja user_id event_id variantes pedido none = record loja {
  pagamentos =
      loja.pagamentos
      ++ pagamento_avulso loja.proximo_id user_id event_id (total_do_pedido variantes pedido) ∷ [];
  itens = loja.itens ++ itens_do_pedido loja.proximo_id variantes pedido;
  proximo_id = loja.proximo_id + 1;
}

abbrev chaves : Quantidades → List ℕ
chaves pedido = map (λ e. e.0) pedido

unfoldable pub variantes_do_pedido : Loja → ℕ → Quantidades → List Variante
variantes_do_pedido loja event_id pedido =
    filter (λ v. includes v.id (chaves pedido) && v.event_id == event_id) loja.variantes

unfoldable pub comprar_produtos :
    Loja
    → Evento
    → (user_id : ℕ) → Quantidades
    → (junto_da_inscricao por_outra_pessoa : Bool) → Result StoreError Loja
unfolding gravar_compra variantes_do_pedido ingresso_que_aceita_produtos vendidos
comprar_produtos loja evento user_id pedido junto por_outra_pessoa =
    let inscrito = any (λ r. r.user_id == user_id && r.event_id == evento.id) loja.inscricoes in
    let variantes = variantes_do_pedido loja evento.id pedido in
    let total = total_do_pedido variantes pedido in
    require (not evento.inactive) loja_fechada
    >> require (pode_comprar_na_loja inscrito evento.public_store por_outra_pessoa) so_inscritos
    >> require (length variantes == length pedido) produto_invalido
    >> conferir_estoque variantes (vendidos loja.pagamentos loja.itens) pedido
    >> require (not (total == 0 && not inscrito)) gratuito_so_inscritos
    >> ok (
        gravar_compra loja user_id evento.id variantes pedido
          (if junto then ingresso_que_aceita_produtos loja user_id evento.id else none))
