-- ===== src/Store/Laws/Estoque.antt =====
-- A purchase never sells more units of a variant than its stock.
use sistema_iccv_backend.Common.{
  ℕ, ◌+◌, ◌-◌, ◌≤◌, ◌<◌, ◌≡◌, refl, ◌≢◌, inl, inr, Bool, ◌&&◌, Option, none, some, List, [], ◌∷◌,
  ◌++◌, map, Memᴰ, arith, ◌==◌, filter, All, All-mem, All-map, Bool-cases, if◌then◌else◌, ok,
  mem_filter, includes, nat_eq,
}
use sistema_iccv_backend.Store.{
  libera_estoque, Quantidades, get, or_zero, Variante, disponivel, conferir_estoque,
}
use sistema_iccv_backend.Store.Compra.{
  Pagamento, ItemComprado, Loja, Evento, pagamento_vale, vendidos, com_produtos, atualizar,
  itens_do_pedido, gravar_compra, variantes_do_pedido, ingresso_que_aceita_produtos,
  comprar_produtos, pagamento_avulso, total_do_pedido,
}

vendidos-append :
    (ps : List Pagamento) (xs ys : List ItemComprado) (v : ℕ)
    → vendidos ps (xs ++ ys) v ≡ vendidos ps xs v + vendidos ps ys v
unfolding vendidos
vendidos-append ps [] ys v = omega arith
vendidos-append ps (x ∷ xs) ys v = omega (arith, vendidos-append ps xs ys v)

com_produtos-vale :
    (total : ℕ) (p : Pagamento)
    → ((com_produtos total p).id ≡ p.id)
      × (libera_estoque (com_produtos total p).status ≡ libera_estoque p.status)
unfolding com_produtos
com_produtos-vale total p = ground arith

pagamento_vale-atualizar :
    (total id : ℕ) (ps : List Pagamento) (j : ℕ)
    → pagamento_vale (atualizar id (com_produtos total) ps) j ≡ pagamento_vale ps j
unfolding pagamento_vale atualizar
pagamento_vale-atualizar total id [] j = refl
pagamento_vale-atualizar total id (p ∷ ps) j =
    ground (arith, com_produtos-vale total p, pagamento_vale-atualizar total id ps j)

pagamento_vale-novo :
    (ps : List Pagamento) (novo : Pagamento) (j : ℕ)
    → j ≢ novo.id
    → pagamento_vale (ps ++ novo ∷ []) j ≡ pagamento_vale ps j
unfolding pagamento_vale
pagamento_vale-novo [] novo j h = ground arith
pagamento_vale-novo (p ∷ ps) novo j h = ground (arith, pagamento_vale-novo ps novo j h)

vendidos-cong :
    (ps qs : List Pagamento) (is : List ItemComprado) (v : ℕ)
    → All (λ i. pagamento_vale qs i.payment_id ≡ pagamento_vale ps i.payment_id) is
    → vendidos qs is v ≡ vendidos ps is v
unfolding vendidos
vendidos-cong ps qs [] v h = refl
vendidos-cong ps qs (i ∷ is) v h = ground (arith, vendidos-cong ps qs is v h.1)

-- `id` is the primary key.
abbrev pub UniqueIds : List Variante → Type 0
UniqueIds [] = Unit
UniqueIds (v ∷ vs) = All (λ u. u.id ≢ v.id) vs × UniqueIds vs

module _ (ps : List Pagamento) (pid : ℕ) (pedido : Quantidades) (p : Variante → Bool) where
  novos-absent :
      (vs : List Variante) (w : ℕ)
      → All (λ u. u.id ≢ w) vs
      → vendidos ps (itens_do_pedido pid (filter p vs) pedido) w ≡ 0
  unfolding vendidos itens_do_pedido
  novos-absent [] w h = refl
  novos-absent (v ∷ vs) w h = ground (arith, novos-absent vs w h.1)

  -- What the order adds to the units sold of a variant: its quantity, if it is one of the order's.
  novos-le :
      (vs : List Variante) (v : Variante)
      → UniqueIds vs
      → Memᴰ v vs
      → vendidos ps (itens_do_pedido pid (filter p vs) pedido) v.id
        ≤ (if p v then or_zero (get pedido v.id) else 0)
  unfolding vendidos itens_do_pedido
  novos-le [] v u m = elim m [ ]
  novos-le (x ∷ vs) v u (Memᴰ.head same) = rw same (ground (arith, novos-absent vs x.id u.0))
  novos-le (x ∷ vs) v u (Memᴰ.tail m) =
      let apart : v.id ≢ x.id = All-mem (λ (w : Variante). w.id ≢ x.id) vs u.0 m in
      ground (arith, novos-le vs v u.1 m)

conferir_estoque-fits :
    (vs : List Variante) (sold : ℕ → ℕ) (pedido : Quantidades) (v : Variante) (s : ℕ)
    → conferir_estoque vs sold pedido ≡ ok tt
    → Memᴰ v vs
    → v.stock ≡ some s
    → or_zero (get pedido v.id) ≤ s - sold v.id
unfolding conferir_estoque disponivel
conferir_estoque-fits [] sold pedido v s h m e = elim m [ ]
conferir_estoque-fits (x ∷ vs) sold pedido v s h (Memᴰ.head same) e =
    rw same (let e' : x.stock ≡ some s = rw same at e in ground arith)
conferir_estoque-fits (x ∷ vs) sold pedido v s h (Memᴰ.tail m) e =
    conferir_estoque-fits vs sold pedido v s (ground arith) m e

-- No variant has sold more units than it has.
abbrev pub IsStocked : Loja → Type 0
IsStocked loja =
    (v : Variante) (s : ℕ)
    → Memᴰ v loja.variantes
    → v.stock ≡ some s
    → vendidos loja.pagamentos loja.itens v.id ≤ s

-- Every item belongs to a payment that exists already.
abbrev pub IsNumbered : Loja → Type 0
IsNumbered loja = All (λ i. i.payment_id < loja.proximo_id) loja.itens

module _ (loja : Loja) (user_id event_id : ℕ) (vs : List Variante) (pedido : Quantidades) where
  -- The purchase adds its own items to what is sold, and changes nothing else.
  gravar_compra-vendidos :
      (ingresso : Option Pagamento) (v : ℕ)
      → IsNumbered loja
      → let after = gravar_compra loja user_id event_id vs pedido ingresso in
        (ps : List Pagamento) × (pid : ℕ) × (vendidos after.pagamentos after.itens v
          ≡ vendidos loja.pagamentos loja.itens v + vendidos ps (itens_do_pedido pid vs pedido) v)
  unfolding gravar_compra
  gravar_compra-vendidos (some ingresso) v h =
      let ps = atualizar ingresso.id (com_produtos (total_do_pedido vs pedido)) loja.pagamentos in
      let same = vendidos-cong loja.pagamentos ps loja.itens v (
        All-map _ _ loja.itens
          (λ i _.
            pagamento_vale-atualizar (total_do_pedido vs pedido) ingresso.id loja.pagamentos
              i.payment_id)
          h) in
      (
        ps,
        ingresso.id,
        omega
            (arith, same, vendidos-append ps loja.itens (itens_do_pedido ingresso.id vs pedido) v),
      )
  gravar_compra-vendidos none v h =
      let novo = pagamento_avulso loja.proximo_id user_id event_id (total_do_pedido vs pedido) in
      let ps = loja.pagamentos ++ novo ∷ [] in
      let same = vendidos-cong loja.pagamentos ps loja.itens v (
        All-map _ _ loja.itens
          (λ i before. pagamento_vale-novo loja.pagamentos novo i.payment_id (omega arith)) h) in
      (
        ps,
        loja.proximo_id,
        omega (
          arith,
          same,
          vendidos-append ps loja.itens (itens_do_pedido loja.proximo_id vs pedido) v,
        ),
      )

comprar_produtos-inversion :
    (loja after : Loja) (evento : Evento) (user_id : ℕ) (pedido : Quantidades) (junto outra : Bool)
    → comprar_produtos loja evento user_id pedido junto outra ≡ ok after
    → let vs = variantes_do_pedido loja evento.id pedido in
      (conferir_estoque vs (vendidos loja.pagamentos loja.itens) pedido ≡ ok tt)
      × (after
          ≡ gravar_compra loja user_id evento.id vs pedido
              (if junto then ingresso_que_aceita_produtos loja user_id evento.id else none))
unfolding comprar_produtos
comprar_produtos-inversion loja after evento user_id pedido junto outra h = ground arith

gravar_compra-variantes :
    (loja : Loja) (user_id event_id : ℕ) (vs : List Variante) (pedido : Quantidades)
    (ingresso : Option Pagamento)
    → (gravar_compra loja user_id event_id vs pedido ingresso).variantes ≡ loja.variantes
unfolding gravar_compra
gravar_compra-variantes loja user_id event_id vs pedido (some p) = refl
gravar_compra-variantes loja user_id event_id vs pedido none = refl

-- A purchase that goes through leaves every variant within its stock, if it was before, the
-- variants have different ids and every item on record belongs to a payment created earlier: with
-- the items of live payments counted as sold, no more units of a variant are sold than it has,
-- whether the items went into a ticket's payment or into one of their own.
pub comprar_produtos-IsStocked :
    (loja after : Loja) (evento : Evento) (user_id : ℕ) (pedido : Quantidades) (junto outra : Bool)
    → UniqueIds loja.variantes
    → IsNumbered loja
    → IsStocked loja
    → comprar_produtos loja evento user_id pedido junto outra ≡ ok after
    → IsStocked after
unfolding variantes_do_pedido
comprar_produtos-IsStocked loja after evento user_id pedido junto outra unique numbered stocked h =
    let vs = variantes_do_pedido loja evento.id pedido in
    let (fits, same) = comprar_produtos-inversion loja after evento user_id pedido junto outra h in
    let ing = if junto then ingresso_que_aceita_produtos loja user_id evento.id else none in
    rw same (λ v s m e.
      let m' : Memᴰ v loja.variantes =
        rw (gravar_compra-variantes loja user_id evento.id vs pedido ing) at m in
      let (ps, pid, sold) =
        gravar_compra-vendidos loja user_id evento.id vs pedido ing v.id numbered in
      let test = includes v.id (map (λ (k : ℕ × ℕ). k.0) pedido) && v.event_id == evento.id in
      let added =
        novos-le ps pid pedido
          (λ w. includes w.id (map (λ k. k.0) pedido) && w.event_id == evento.id) loja.variantes v
          unique m' in
      elim (Bool-cases test) [
        | inl asked ↦
            let quantity =
              conferir_estoque-fits vs (vendidos loja.pagamentos loja.itens) pedido v s fits
                (mem_filter _ loja.variantes m' asked) e in
            ground (arith, sold, added, quantity, stocked v s m' e)
        | inr other ↦ ground (arith, sold, added, stocked v s m' e)
      ])
