-- ===== src/Solicitacoes/Tests.antt =====
-- One request of two products through src/solicitacoes/solicitacoes.service.ts.
use sistema_iccv_backend.Common.{
  ℕ, ◌+◌, ◌≡◌, refl, ◌↔◌, true, false, none, some, List, [], ◌∷◌, All, ok, err, ◌>>=◌,
}
use sistema_iccv_backend.Access.Roles.{tesouraria}
use sistema_iccv_backend.Access.Modulos.{exigir_modulo, modulos_da}
use sistema_iccv_backend.Access.Database.{
  Database, UserRow, ChurchRow, ChurchStatus, requests, find_church,
}
use sistema_iccv_backend.Solicitacoes.{
  partially_accepted, Solicitacao, pastor, tesoureiro, Lideranca, CriarDto, DecidirDto, criar,
  itens, nova, lado_ja_decidiu,
}
use sistema_iccv_backend.Solicitacoes.Decisao.{decidir, decidir_linha, linha_decidida}
use sistema_iccv_backend.Solicitacoes.Laws.Coerencia.{
  IsCoherent, Step, pede, decide, start, next, Reach-All-IsCoherent,
}
use sistema_iccv_backend.Solicitacoes.Laws.Ordem.{BothApprove, decidir_linha_comm}

abbrev da_tesouraria : UserRow
da_tesouraria = record {
  id = 11;
  role = tesouraria;
  church_roles = record { church_id = 1; role = tesouraria } ∷ [];
  blocked = false;
}

abbrev sede : ChurchRow
sede = record {
  id = 1;
  status = ChurchStatus.active;
  plan = some (requests ∷ []);
  module_payment = true;
}

abbrev db : Database
db = record {
  users = da_tesouraria ∷ [];
  churches = sede ∷ [];
  events = [];
  event_admins = [];
  event_treasurers = [];
  payments = [];
  news = [];
}

abbrev liderancas : List Lideranca
liderancas = record { church_id = 1; leader_id = 10 } ∷ []

abbrev pedido : CriarDto
pedido = record {
  ministerio = 1;
  titulo = 2;
  descricao = 3;
  produtos =
      record { nome = 4; quantidade = 2; link = none }
      ∷ record { nome = 5; quantidade = 1; link = none }
      ∷ [];
}

abbrev ids : ℕ → ℕ
ids posicao = 70 + posicao

abbrev so_o_primeiro : DecidirDto
so_o_primeiro = record { aprova = true; produtos_aceitos = some (70 ∷ []); resposta = none }

abbrev todos : DecidirDto
todos = record { aprova = true; produtos_aceitos = none; resposta = none }

abbrev pedida : Solicitacao
unfolding itens
pedida = nova 7 1 20 (itens ids 0 pedido.produtos) pedido

-- The treasury approves one product: it now waits for the pastor.
abbrev aguardando : Solicitacao
unfolding itens linha_decidida
aguardando = linha_decidida tesoureiro 11 100 so_o_primeiro pedida

primeiro_passo : Step [] (pedida ∷ [])
unfolding criar itens exigir_modulo find_church modulos_da
primeiro_passo = pede db (some 1) 20 7 ids pedido refl

segundo_passo : Step (pedida ∷ []) (aguardando ∷ [])
unfolding decidir decidir_linha itens linha_decidida
segundo_passo = decide db liderancas 1 7 11 100 so_o_primeiro refl

Reach-All-IsCoherent_example : All IsCoherent (aguardando ∷ [])
Reach-All-IsCoherent_example = Reach-All-IsCoherent (next (next start primeiro_passo) segundo_passo)

os_dois : BothApprove todos so_o_primeiro 10 90 11 100
os_dois = record {
  pastor_aprova = refl;
  tesouraria_aprova = refl;
  pastor_quieto = refl;
  tesouraria_quieta = refl;
}

abbrev fechada : Solicitacao
unfolding itens linha_decidida
fechada = linha_decidida pastor 10 90 todos aguardando

decidir_linha_comm_example :
    ((decidir_linha pastor 10 90 todos pedida >>= decidir_linha tesoureiro 11 100 so_o_primeiro)
      ≡ ok fechada)
    ↔ ((decidir_linha tesoureiro 11 100 so_o_primeiro pedida >>= decidir_linha pastor 10 90 todos)
        ≡ ok fechada)
decidir_linha_comm_example =
    decidir_linha_comm todos so_o_primeiro 10 90 11 100 pedida fechada os_dois

em_parte : fechada.status ≡ partially_accepted
unfolding itens linha_decidida
em_parte = refl

fecha_na_ordem_inversa :
    (decidir_linha pastor 10 90 todos pedida >>= decidir_linha tesoureiro 11 100 so_o_primeiro)
    ≡ ok fechada
unfolding itens linha_decidida decidir_linha
fecha_na_ordem_inversa = refl

uma_vez_so : decidir db liderancas 1 7 11 101 todos (aguardando ∷ []) ≡ err lado_ja_decidiu
unfolding itens linha_decidida decidir_linha decidir
uma_vez_so = refl
