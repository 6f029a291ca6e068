-- ===== src/Access/Guards.antt =====
-- src/decorators: the guards that run before a handler. A guard returns the request, to which it
-- adds what it read about the person, or the exception that it throws.
use sistema_iccv_backend.Common.{
  ℕ, Bool, false, not, ◌&&◌, ◌||◌, Option, none, some, List, ◌==◌, if◌then◌else◌, filter, is_empty,
  includes, nat_eq, Result, ok, err, ◌>>=◌, ◌>>◌, require, or_throw,
}
use sistema_iccv_backend.Access.Roles.{Role, admin, role_eq, church_roles}
use sistema_iccv_backend.Access.Tenant.{
  VinculoDeIgreja, TenantRequester, perfil_efetivo, tenant_church_ids, assert_church_access,
  AccessError, nao_autenticado, usuario_nao_encontrado, conta_bloqueada, sem_permissao,
  outra_igreja, sem_vinculo_no_evento, pagamento_sem_evento, evento_nao_encontrado,
  igreja_nao_encontrada, pagamento_nao_encontrado,
}
use sistema_iccv_backend.Access.Database.{
  Database, ChurchModule, find_user, find_church, find_event, find_payment, select_tenant,
}
use sistema_iccv_backend.Access.Vinculos.{
  tem_vinculo_de_tesoureiro, tem_vinculo_de_admin_de_evento, tesoureiro_do_evento, admin_do_evento,
  tesoureiro_na_igreja, admin_de_evento_na_igreja,
}

-- What the decorators of a route say. A route with no `@Roles` has no profiles.
pub record Rota : Type 0 where
  pub perfis : List Role
  pub aceita_tesoureiro : Bool
  pub aceita_admin_do_evento : Bool
  pub modulo : Option ChurchModule

-- The parts of a request that the guards read and write.
pub record Pedido : Type 0 where
  pub user_id : Option ℕ
  pub role : Option Role
  pub church_links : List VinculoDeIgreja
  pub id : Option ℕ
  pub id_user : Option ℕ
  pub id_event : Option ℕ
  pub event_id : Option ℕ
  pub payment_id : Option ℕ
  pub church_id : Option ℕ
  pub id_church : Option ℕ
  pub body_church_id : Option ℕ

-- `a ?? b`
abbrev pub coalesce : Option ℕ → Option ℕ → Option ℕ
coalesce none b = b
coalesce (some a) b = some a

abbrev is_user : Option ℕ → ℕ → Bool
is_user none user_id = false
is_user (some id) user_id = id == user_id

-- Whether `RolesGuard` lets the profile in, by the route's list or by a link with some event.
unfoldable pub perfil_passa : Database → Rota → ℕ → Role → Bool
perfil_passa db rota user_id perfil =
    includes perfil rota.perfis
    || rota.aceita_tesoureiro && tem_vinculo_de_tesoureiro db user_id
    || includes admin rota.perfis
      && rota.aceita_admin_do_evento
      && tem_vinculo_de_admin_de_evento db user_id

unfoldable pub roles_guard : Database → Rota → Pedido → Result AccessError Pedido
unfolding perfil_passa
roles_guard db rota pedido = if is_empty rota.perfis then ok pedido else do
  user_id ← or_throw pedido.user_id nao_autenticado
  pessoa ← or_throw (find_user db user_id) usuario_nao_encontrado
  require (not pessoa.blocked) conta_bloqueada
  let perfil = perfil_efetivo (some (select_tenant db pessoa))
  require (perfil_passa db rota user_id perfil) sem_permissao
  ok (record pedido { role = some perfil })

-- The church profiles that a route asks for; all of them if it names none.
unfoldable pub perfis_da_rota : List Role → List Role
perfis_da_rota exigidos =
    let de_igreja = filter (λ perfil. includes perfil church_roles) exigidos in
    if is_empty de_igreja then church_roles else de_igreja

-- `none` is a route with nothing of a church in it.
unfoldable pub resolve_event_id : Database → Pedido → Result AccessError (Option ℕ)
resolve_event_id db pedido = elim (coalesce pedido.id_event pedido.event_id) [
  | some id ↦ ok (some id)
  | none ↦ elim pedido.payment_id [
    | none ↦ ok none
    | some payment_id ↦ do
      payment ← or_throw (find_payment db payment_id) pagamento_nao_encontrado
      event_id ← or_throw payment.event_id pagamento_sem_evento
      ok (some event_id)
  ]
]

abbrev aceita_admin : Rota → Bool
aceita_admin rota =
    (is_empty rota.perfis || includes admin rota.perfis) && rota.aceita_admin_do_evento

-- `temVinculoDaqui`: treasurer or admin of this very event, on a route that accepts each.
unfoldable pub tem_vinculo_daqui : Database → Rota → Pedido → ℕ → Result AccessError Bool
unfolding resolve_event_id
tem_vinculo_daqui db rota pedido user_id =
    if not rota.aceita_tesoureiro && not (aceita_admin rota) then ok false else do
      resolved ← resolve_event_id db pedido
      ok (elim resolved [
        | none ↦ false
        | some event_id ↦
            rota.aceita_tesoureiro && tesoureiro_do_evento db user_id event_id
            || aceita_admin rota && admin_do_evento db user_id event_id
      ])

abbrev com_vinculos : TenantRequester → Pedido → Pedido
com_vinculos r pedido = record pedido { role = r.role; church_links = r.church_roles }

-- `if (!(await test())) throw erro`, and then the request with what was read.
abbrev exige : Result AccessError Bool → AccessError → Pedido → Result AccessError Pedido
exige test erro pedido = do passa ← test; require passa erro; ok pedido

-- The last part of the guard: the event's church against the churches that the person reaches.
unfoldable pub confere_igreja_do_evento :
    Database → Rota → Pedido → ℕ → TenantRequester → List ℕ → Result AccessError Pedido
unfolding tem_vinculo_daqui resolve_event_id
confere_igreja_do_evento db rota pedido user_id requester church_ids = do
  resolved ← resolve_event_id db pedido
  elim resolved [
    | none ↦ ok pedido
    | some event_id ↦ do
      event ← or_throw (find_event db event_id) evento_nao_encontrado
      if includes event.church_id church_ids
          then ok (com_vinculos requester pedido)
          else exige (tem_vinculo_daqui db rota pedido user_id) outra_igreja
              (com_vinculos requester pedido)
  ]

-- The guard once the person is read.
unfoldable pub event_tenant_guard_para :
    Database → Rota → Pedido → ℕ → TenantRequester → Result AccessError Pedido
unfolding tem_vinculo_daqui confere_igreja_do_evento
event_tenant_guard_para db rota pedido user_id requester =
    if is_empty rota.perfis && is_user pedido.id_user user_id
    then ok pedido
    else if not (is_empty rota.perfis)
        && not (includes (perfil_efetivo (some requester)) rota.perfis)
    then exige (tem_vinculo_daqui db rota pedido user_id) sem_vinculo_no_evento
        (com_vinculos requester pedido)
    else elim (tenant_church_ids (some requester) (perfis_da_rota rota.perfis)) [
      | none ↦ ok pedido
      | some church_ids ↦ confere_igreja_do_evento db rota pedido user_id requester church_ids
    ]

unfoldable pub event_tenant_guard : Database → Rota → Pedido → Result AccessError Pedido
unfolding event_tenant_guard_para
event_tenant_guard db rota pedido = do
  user_id ← or_throw pedido.user_id nao_autenticado
  pessoa ← or_throw (find_user db user_id) usuario_nao_encontrado
  event_tenant_guard_para db rota pedido user_id (select_tenant db pessoa)

unfoldable pub church_tenant_guard : Database → Rota → Pedido → Result AccessError Pedido
church_tenant_guard db rota pedido = do
  user_id ← or_throw pedido.user_id nao_autenticado
  elim (coalesce pedido.church_id pedido.id_church) [
    | none ↦ ok pedido
    | some church_id ↦ do
      pessoa ← or_throw (find_user db user_id) usuario_nao_encontrado
      let requester = select_tenant db pessoa
      church ← or_throw (find_church db church_id) igreja_nao_encontrada
      elim (assert_church_access (some requester) (some church_id) (perfis_da_rota rota.perfis)) [
        | ok _ ↦ ok (com_vinculos requester pedido)
        | err erro ↦
            if rota.aceita_tesoureiro && tesoureiro_na_igreja db user_id church_id
              || rota.aceita_admin_do_evento && admin_de_evento_na_igreja db user_id church_id
            then ok (com_vinculos requester pedido)
            else err erro
      ]
  ]
