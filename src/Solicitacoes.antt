-- ===== src/Solicitacoes.antt =====
-- src/solicitacoes/solicitacoes.service.ts: what members ask of their church, decided by the pastor
-- and the treasury. Texts are numbers and arrive trimmed; one that is empty is `none`.
use sistema_iccv_backend.Common.{
  ℕ, ◌+◌, Bool, true, false, not, ◌&&◌, Option, none, some, List, [], ◌∷◌, map, ltb, ◌==◌,
  if◌then◌else◌, filter, any, all, find?, is_empty, length, includes, nat_eq, Result, ok, err, ◌>>◌,
  ◌>>=◌, require, or_throw,
}
use sistema_iccv_backend.Access.Roles.{same_role, tesouraria}
use sistema_iccv_backend.Access.Database.{Database, ChurchStatus, requests, find_user, find_church}
use sistema_iccv_backend.Access.Modulos.{exigir_modulo}
pub mod Decisao
pub mod Laws
mod Tests

pub data ChurchRequestStatus : Type 0 where
  requested in_review awaiting_treasury awaiting_pastor rejected accepted partially_accepted :
      ChurchRequestStatus

abbrev pub same_status : ChurchRequestStatus → ChurchRequestStatus → Bool
same_status requested requested = true
same_status in_review in_review = true
same_status awaiting_treasury awaiting_treasury = true
same_status awaiting_pastor awaiting_pastor = true
same_status rejected rejected = true
same_status accepted accepted = true
same_status partially_accepted partially_accepted = true
same_status _ _ = false

pub record Item : Type 0 where
  pub id : ℕ
  pub name : ℕ
  pub quantity : ℕ
  pub link : Option ℕ
  pub accepted : Option Bool
  pub pastor_accepted : Option Bool
  pub treasury_accepted : Option Bool
  pub position : ℕ

pub record Solicitacao : Type 0 where
  pub id : ℕ
  pub church_id : ℕ
  pub requester_id : ℕ
  pub ministry : ℕ
  pub title : ℕ
  pub description : ℕ
  pub status : ChurchRequestStatus
  pub response : Option ℕ
  pub pastor_decision : Option Bool
  pub pastor_id : Option ℕ
  pub pastor_at : Option ℕ
  pub treasury_decision : Option Bool
  pub treasurer_id : Option ℕ
  pub treasury_at : Option ℕ
  pub items : List Item

pub data RequestError : Type 0 where
  -- 403
  nao_e_membro fora_do_plano nao_decide : RequestError
  -- 404
  nao_encontrada : RequestError
  -- 409
  ja_com_os_dois ja_decidida lado_ja_decidiu : RequestError
  -- 400
  produto_de_outra nenhum_produto : RequestError

abbrev pub antes_da_decisao : ChurchRequestStatus → Bool
antes_da_decisao requested = true
antes_da_decisao in_review = true
antes_da_decisao _ = false

abbrev pub decidida : ChurchRequestStatus → Bool
decidida accepted = true
decidida partially_accepted = true
decidida rejected = true
decidida _ = false

-- `LadoDaDecisao`.
pub data Lado : Type 0 where
  pastor tesoureiro : Lado

-- `Church.spiritualLeaderId`, of the churches that have one.
pub record Lideranca : Type 0 where
  pub church_id : ℕ
  pub leader_id : ℕ

pub record ProdutoPedido : Type 0 where
  pub nome : ℕ
  pub quantidade : ℕ
  pub link : Option ℕ

pub record CriarDto : Type 0 where
  pub ministerio : ℕ
  pub titulo : ℕ
  pub descricao : ℕ
  pub produtos : List ProdutoPedido

-- `resposta` is `none` where the body has none, else the text.
pub record MudarDto : Type 0 where
  pub status : Option ChurchRequestStatus
  pub resposta : Option (Option ℕ)

pub record DecidirDto : Type 0 where
  pub aprova : Bool
  pub produtos_aceitos : Option (List ℕ)
  pub resposta : Option (Option ℕ)

-- The items of a new request; `id_de` gives the id of the item at a position.
unfoldable pub itens : (ℕ → ℕ) → ℕ → List ProdutoPedido → List Item
itens id_de posicao [] = []
itens id_de posicao (p ∷ produtos) =
    record {
      id = id_de posicao;
      name = p.nome;
      quantity = p.quantidade;
      link = p.link;
      accepted = none;
      pastor_accepted = none;
      treasury_accepted = none;
      position = posicao;
    }
    ∷ itens id_de (posicao + 1) produtos

abbrev pub nova : (id church_id user_id : ℕ) → List Item → CriarDto → Solicitacao
nova id church_id user_id items dto = record {
  id = id;
  church_id = church_id;
  requester_id = user_id;
  ministry = dto.ministerio;
  title = dto.titulo;
  description = dto.descricao;
  status = requested;
  response = none;
  pastor_decision = none;
  pastor_id = none;
  pastor_at = none;
  treasury_decision = none;
  treasurer_id = none;
  treasury_at = none;
  items = items;
}

-- The church that the person is member of now, if it is not inactive.
unfoldable pub igreja_do_membro : Database → Option ℕ → Option ℕ
unfolding find_church
igreja_do_membro db none = none
igreja_do_membro db (some id) = elim (find_church db id) [
  | none ↦ none
  | some igreja ↦ elim igreja.status [ ChurchStatus.inactive ↦ none | _ ↦ some igreja.id ]
]

unfoldable pub conferir_modulo : Database → ℕ → Result RequestError (Unit {0})
conferir_modulo db igreja = elim (exigir_modulo db igreja requests) [
  | ok u ↦ ok tt
  | err e ↦ err fora_do_plano
]

-- `member_church_id` is the person's; the new row and its items get fresh ids.
unfoldable pub criar :
    Database
    → (member_church_id : Option ℕ) → (user_id novo_id : ℕ) → (id_de : ℕ → ℕ) → CriarDto
    → List Solicitacao
    → Result RequestError (List Solicitacao)
unfolding igreja_do_membro conferir_modulo itens
criar db member_church_id user_id novo_id id_de dto rows = do
  igreja ← or_throw (igreja_do_membro db member_church_id) nao_e_membro
  conferir_modulo db igreja
  ok (nova novo_id igreja user_id (itens id_de 0 dto.produtos) dto ∷ rows)

abbrev tem_vinculo_de_tesouraria : Database → (church_id user_id : ℕ) → Bool
unfolding find_user
tem_vinculo_de_tesouraria db church_id user_id = elim (find_user db user_id) [
  | none ↦ false
  | some u ↦ any (λ v. v.church_id == church_id && same_role v.role tesouraria) u.church_roles
]

-- `papel`: how this person decides in this church, if at all.
unfoldable pub papel : Database → List Lideranca → (church_id user_id : ℕ) → Option Lado
unfolding find_user
papel db liderancas church_id user_id =
    if any (λ l. l.church_id == church_id && l.leader_id == user_id) liderancas
    then some pastor
    else if tem_vinculo_de_tesouraria db church_id user_id
    then some tesoureiro
    else none

unfoldable pub find_request : List Solicitacao → (church_id id : ℕ) → Option Solicitacao
find_request rows church_id id = find? (λ s. s.id == id && s.church_id == church_id) rows

-- `update`, with the row that replaces the one of this id.
unfoldable pub gravar : Solicitacao → List Solicitacao → List Solicitacao
gravar nova_linha rows = map (λ s. if s.id == nova_linha.id then nova_linha else s) rows

abbrev pub com_resposta : Option (Option ℕ) → Option ℕ → Option ℕ
com_resposta none atual = atual
com_resposta (some texto) atual = texto

-- `!!dto.status && dto.status !== atual.status`.
abbrev pub muda_situacao : Option ChurchRequestStatus → ChurchRequestStatus → Bool
muda_situacao none atual = false
muda_situacao (some s) atual = not (same_status s atual)

-- The first half of `mudarStatus`, on the status that it read.
unfoldable pub conferir_mudanca :
    MudarDto → (lida : ChurchRequestStatus) → Result RequestError (Unit {0})
conferir_mudanca dto lida =
    require (not (muda_situacao dto.status lida && not (antes_da_decisao lida))) ja_com_os_dois

-- `data` of the update, on the row as it is by then: the status that was read only says whether one
-- is written.
unfoldable pub mudada : MudarDto → (lida : ChurchRequestStatus) → Solicitacao → Solicitacao
mudada dto lida s = record s {
  status = elim dto.status [
    | none ↦ s.status
    | some novo ↦ if same_status novo lida then s.status else novo
  ];
  response = com_resposta dto.resposta s.response;
}

-- The second half: `update({ where: { id } })`.
unfoldable pub gravar_mudanca :
    (id : ℕ) → MudarDto → (lida : ChurchRequestStatus) → List Solicitacao → List Solicitacao
unfolding mudada
gravar_mudanca id dto lida rows = map (λ s. if s.id == id then mudada dto lida s else s) rows

-- With no other request between the read and the write; the row is not locked.
unfoldable pub mudar_status :
    (church_id id : ℕ) → MudarDto → List Solicitacao → Result RequestError (List Solicitacao)
unfolding find_request conferir_mudanca gravar_mudanca
mudar_status church_id id dto rows = do
  lida ← or_throw (find_request rows church_id id) nao_encontrada
  conferir_mudanca dto lida.status
  ok (gravar_mudanca id dto lida.status rows)
