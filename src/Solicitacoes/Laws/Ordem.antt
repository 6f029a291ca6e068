-- ===== src/Solicitacoes/Laws/Ordem.antt =====
-- The two approvals of src/solicitacoes/solicitacoes.service.ts, in either order.
use sistema_iccv_backend.Common.{
  ℕ, ◌≡◌, ◌↔◌, refl, ap, Bool, true, false, none, List, [], ◌∷◌, map, arith, length, nat_eq, ok,
  ◌>>=◌,
}
use sistema_iccv_backend.Solicitacoes.{Item, Solicitacao, Lado, pastor, tesoureiro, DecidirDto}
use sistema_iccv_backend.Solicitacoes.Decisao.{
  meus_produtos, final, em_comum, novo_status, decidir_itens, linha_decidida, decidir_linha,
}

ids-decidir_itens :
    (lado : Lado) (aprova outro : Bool) (meus : List ℕ) (items : List Item)
    → map (λ item. item.id) (decidir_itens lado aprova outro meus items)
      ≡ map (λ item. item.id) items
unfolding decidir_itens
ids-decidir_itens lado aprova outro meus [] = refl
ids-decidir_itens pastor aprova outro meus (x ∷ items) =
    ap (λ ids. x.id ∷ ids) (ids-decidir_itens pastor aprova outro meus items)
ids-decidir_itens tesoureiro aprova outro meus (x ∷ items) =
    ap (λ ids. x.id ∷ ids) (ids-decidir_itens tesoureiro aprova outro meus items)

length-decidir_itens :
    (lado : Lado) (aprova outro : Bool) (meus : List ℕ) (items : List Item)
    → length (decidir_itens lado aprova outro meus items) ≡ length items
unfolding decidir_itens
length-decidir_itens lado aprova outro meus [] = refl
length-decidir_itens lado aprova outro meus (x ∷ items) =
    omega (arith, length-decidir_itens lado aprova outro meus items)

decidir_itens_comm :
    (seus dela : List ℕ) (items : List Item)
    → decidir_itens tesoureiro true true dela (decidir_itens pastor true false seus items)
      ≡ decidir_itens pastor true true seus (decidir_itens tesoureiro true false dela items)
unfolding decidir_itens final
decidir_itens_comm seus dela [] = refl
decidir_itens_comm seus dela (x ∷ items) = ground (arith, decidir_itens_comm seus dela items)

em_comum_comm :
    (seus dela : List ℕ) (items : List Item)
    → em_comum tesoureiro true true dela (decidir_itens pastor true false seus items)
      ≡ em_comum pastor true true seus (decidir_itens tesoureiro true false dela items)
unfolding decidir_itens final
em_comum_comm seus dela [] = refl
em_comum_comm seus dela (x ∷ items) = ground (arith, em_comum_comm seus dela items)

module _ (dp dt : DecidirDto) (up tp ut agora : ℕ) where
  -- Both approve, and neither writes an answer.
  pub record BothApprove : Type 0 where
    pub pastor_aprova : dp.aprova ≡ true
    pub tesouraria_aprova : dt.aprova ≡ true
    pub pastor_quieto : dp.resposta ≡ none
    pub tesouraria_quieta : dt.resposta ≡ none

  linha_decidida_comm :
      (s : Solicitacao)
      → BothApprove
      → s.pastor_decision ≡ none
      → s.treasury_decision ≡ none
      → linha_decidida tesoureiro ut agora dt (linha_decidida pastor up tp dp s)
        ≡ linha_decidida pastor up tp dp (linha_decidida tesoureiro ut agora dt s)
  unfolding linha_decidida novo_status
  linha_decidida_comm s b p t = ground (
    arith,
    ids-decidir_itens pastor true false (meus_produtos dp s.items) s.items,
    ids-decidir_itens tesoureiro true false (meus_produtos dt s.items) s.items,
    length-decidir_itens pastor true false (meus_produtos dp s.items) s.items,
    length-decidir_itens tesoureiro true false (meus_produtos dt s.items) s.items,
    decidir_itens_comm (meus_produtos dp s.items) (meus_produtos dt s.items) s.items,
    em_comum_comm (meus_produtos dp s.items) (meus_produtos dt s.items) s.items,
  )

  -- What the second decision asks of the row that the first one leaves.
  open_after_pastor :
      (s t : Solicitacao)
      → BothApprove
      → decidir_linha tesoureiro ut agora dt (linha_decidida pastor up tp dp s) ≡ ok t
      → s.treasury_decision ≡ none
  unfolding decidir_linha linha_decidida
  open_after_pastor s t b h = ground arith

  pastor_then_treasury :
      (s t : Solicitacao)
      → BothApprove
      → (decidir_linha pastor up tp dp s >>= decidir_linha tesoureiro ut agora dt) ≡ ok t
      → (decidir_linha tesoureiro ut agora dt s >>= decidir_linha pastor up tp dp) ≡ ok t
  unfolding decidir_linha linha_decidida novo_status
  pastor_then_treasury s t b h = ground (
    arith,
    linha_decidida_comm s b,
    ids-decidir_itens pastor true false (meus_produtos dp s.items) s.items,
    ids-decidir_itens tesoureiro true false (meus_produtos dt s.items) s.items,
  )

  treasury_then_pastor :
      (s t : Solicitacao)
      → BothApprove
      → (decidir_linha tesoureiro ut agora dt s >>= decidir_linha pastor up tp dp) ≡ ok t
      → (decidir_linha pastor up tp dp s >>= decidir_linha tesoureiro ut agora dt) ≡ ok t
  unfolding decidir_linha linha_decidida novo_status
  treasury_then_pastor s t b h = ground (
    arith,
    linha_decidida_comm s b,
    ids-decidir_itens pastor true false (meus_produtos dp s.items) s.items,
    ids-decidir_itens tesoureiro true false (meus_produtos dt s.items) s.items,
  )

  -- Two approvals without an answer to the member go through in one order exactly when they go
  -- through in the other, and leave the same row: the same status, the same marks and outcome of
  -- every product, and the same names and times.
  pub decidir_linha_comm :
      (s t : Solicitacao)
      → BothApprove
      → ((decidir_linha pastor up tp dp s >>= decidir_linha tesoureiro ut agora dt) ≡ ok t)
        ↔ ((decidir_linha tesoureiro ut agora dt s >>= decidir_linha pastor up tp dp) ≡ ok t)
  decidir_linha_comm s t b = (pastor_then_treasury s t b, treasury_then_pastor s t b)
