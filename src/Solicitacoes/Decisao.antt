-- ===== src/Solicitacoes/Decisao.antt =====
-- `decidir` of src/solicitacoes/solicitacoes.service.ts: one side approves some of the products, or
-- refuses them all. The row is locked meanwhile, so decisions follow each other.
use sistema_iccv_backend.Common.{
  ℕ, Bool, true, false, not, ◌&&◌, Option, none, some, List, [], ◌∷◌, map, ◌==◌, if◌then◌else◌,
  filter, all, is_empty, length, includes, nat_eq, Result, ok, ◌>>◌, ◌>>=◌, require, or_throw,
}
use sistema_iccv_backend.Access.Database.{Database}
use sistema_iccv_backend.Solicitacoes.{
  ChurchRequestStatus, awaiting_treasury, awaiting_pastor, rejected, accepted, partially_accepted,
  Item, Solicitacao, RequestError, nao_decide, nao_encontrada, ja_decidida, lado_ja_decidiu,
  produto_de_outra, nenhum_produto, decidida, Lado, pastor, tesoureiro, Lideranca, DecidirDto,
  papel, find_request, gravar, com_resposta,
}

-- `=== true`, of a value that may be null.
abbrev pub is_true : Option Bool → Bool
is_true none = false
is_true (some b) = b

abbrev pub is_null : Option Bool → Bool
is_null none = true
is_null (some b) = false

abbrev pub decisao_de : Lado → Solicitacao → Option Bool
decisao_de pastor s = s.pastor_decision
decisao_de tesoureiro s = s.treasury_decision

abbrev pub o_outro : Lado → Lado
o_outro pastor = tesoureiro
o_outro tesoureiro = pastor

abbrev pub aceito_por : Lado → Item → Option Bool
aceito_por pastor item = item.pastor_accepted
aceito_por tesoureiro item = item.treasury_accepted

abbrev pub marcar : Lado → Bool → Item → Item
marcar pastor aprovado item = record item { pastor_accepted = some aprovado }
marcar tesoureiro aprovado item = record item { treasury_accepted = some aprovado }

-- `meus`: the products that this side approves.
abbrev pub meus_produtos : DecidirDto → List Item → List ℕ
meus_produtos dto items =
    if dto.aprova
    then elim dto.produtos_aceitos [ none ↦ map (λ item. item.id) items | some ids ↦ ids ]
    else []

-- `final`: the outcome of a product, none while the other side has not decided.
unfoldable pub final : Lado → (aprova outro_aprovou : Bool) → List ℕ → Item → Option Bool
final lado aprova outro_aprovou meus item =
    if not aprova
    then some false
    else if outro_aprovou
    then some (includes item.id meus && is_true (aceito_por (o_outro lado) item))
    else none

abbrev pub em_comum : Lado → (aprova outro_aprovou : Bool) → List ℕ → List Item → ℕ
unfolding final
em_comum lado aprova outro_aprovou meus items =
    length (filter (λ item. is_true (final lado aprova outro_aprovou meus item)) items)

abbrev pub aguarda_o_outro : Lado → ChurchRequestStatus
aguarda_o_outro pastor = awaiting_treasury
aguarda_o_outro tesoureiro = awaiting_pastor

unfoldable pub novo_status :
    Lado → (aprova outro_aprovou : Bool) → (comum total : ℕ) → ChurchRequestStatus
novo_status lado aprova outro_aprovou comum total =
    if not aprova
    then rejected
    else if not outro_aprovou
    then aguarda_o_outro lado
    else if comum == 0
    then rejected
    else if comum == total
    then accepted
    else partially_accepted

-- The loop over the items.
unfoldable pub decidir_itens : Lado → (aprova outro_aprovou : Bool) → List ℕ → List Item → List Item
unfolding final
decidir_itens lado aprova outro_aprovou meus [] = []
decidir_itens lado aprova outro_aprovou meus (item ∷ items) =
    record (marcar lado (includes item.id meus) item) {
      accepted = final lado aprova outro_aprovou meus item;
    }
    ∷ decidir_itens lado aprova outro_aprovou meus items

abbrev pub com_decisao : Lado → (aprova : Bool) → (user_id agora : ℕ) → Solicitacao → Solicitacao
com_decisao pastor aprova user_id agora s = record s {
  pastor_decision = some aprova;
  pastor_id = some user_id;
  pastor_at = some agora;
}
com_decisao tesoureiro aprova user_id agora s = record s {
  treasury_decision = some aprova;
  treasurer_id = some user_id;
  treasury_at = some agora;
}

-- The row that a decision leaves.
unfoldable pub linha_decidida : Lado → (user_id agora : ℕ) → DecidirDto → Solicitacao → Solicitacao
unfolding novo_status decidir_itens
linha_decidida lado user_id agora dto s =
    let meus = meus_produtos dto s.items in
    let outro_aprovou = is_true (decisao_de (o_outro lado) s) in
    let comum = em_comum lado dto.aprova outro_aprovou meus s.items in
    com_decisao lado dto.aprova user_id agora (record s {
      items = decidir_itens lado dto.aprova outro_aprovou meus s.items;
      status = novo_status lado dto.aprova outro_aprovou comum (length s.items);
      response = com_resposta dto.resposta s.response;
    })

-- The decision on the row, after the side is known.
unfoldable pub decidir_linha :
    Lado → (user_id agora : ℕ) → DecidirDto → Solicitacao → Result RequestError Solicitacao
decidir_linha lado user_id agora dto s = do
  require (not (decidida s.status)) ja_decidida
  require (is_null (decisao_de lado s)) lado_ja_decidiu
  let meus = meus_produtos dto s.items
  require (all (λ produto. includes produto (map (λ item. item.id) s.items)) meus) produto_de_outra
  require (not (dto.aprova && is_empty meus)) nenhum_produto
  ok (linha_decidida lado user_id agora dto s)

unfoldable pub decidir :
    Database
    → List Lideranca
    → (church_id id user_id agora : ℕ) → DecidirDto
    → List Solicitacao
    → Result RequestError (List Solicitacao)
unfolding papel find_request gravar decidir_linha
decidir db liderancas church_id id user_id agora dto rows = do
  lado ← or_throw (papel db liderancas church_id user_id) nao_decide
  atual ← or_throw (find_request rows church_id id) nao_encontrada
  salva ← decidir_linha lado user_id agora dto atual
  ok (gravar salva rows)
