-- ===== src/Access/Tenant.antt =====
-- src/auth/tenant.ts: the multi-tenant cut. Ids are opaque and compared for equality only, so they
-- are numbers. A list that may be null or absent (`churchRoles ?? []`) is the list.
use sistema_iccv_backend.Common.{
  ℕ, Bool, true, false, not, ◌||◌, Option, none, some, List, [], map, ◌==◌, if◌then◌else◌, filter,
  find?, any, includes, Result, ok, err, nat_eq,
}
use sistema_iccv_backend.Access.Roles.{
  Role, admin, tesouraria, user, role_eq, super_admin_roles, church_roles, includes_role,
}

-- `VinculoDeIgreja`: a row of `UserChurchRole`.
pub record VinculoDeIgreja : Type 0 where
  pub church_id : ℕ
  pub role : Role

-- `TenantRequester`. Where the source takes a requester that may be null, so does the model.
pub record TenantRequester : Type 0 where
  pub role : Option Role
  pub church_roles : List VinculoDeIgreja

unfoldable pub role_of : Option TenantRequester → Option Role
role_of none = none
role_of (some r) = r.role

unfoldable pub links_of : Option TenantRequester → List VinculoDeIgreja
links_of none = []
links_of (some r) = r.church_roles

abbrev or_user : Option Role → Role
or_user none = user
or_user (some r) = r

-- The profile that the links alone give: the highest of them.
unfoldable pub perfil_dos_vinculos : List Role → Role
perfil_dos_vinculos perfis =
    if includes admin perfis then admin else if includes tesouraria perfis then tesouraria else user

unfoldable pub perfil_efetivo : Option TenantRequester → Role
unfolding perfil_dos_vinculos
perfil_efetivo none = user
perfil_efetivo (some pessoa) =
    if includes_role pessoa.role super_admin_roles
    then or_user pessoa.role
    else perfil_dos_vinculos (map (λ vinculo. vinculo.role) pessoa.church_roles)

unfoldable pub is_super_admin : Option TenantRequester → Bool
unfolding role_of
is_super_admin requester = includes_role (role_of requester) super_admin_roles

unfoldable pub church_ids_com_perfil : Option TenantRequester → List Role → List ℕ
unfolding links_of
church_ids_com_perfil requester roles =
    map (λ vinculo. vinculo.church_id)
      (filter (λ vinculo. includes vinculo.role roles) (links_of requester))

unfoldable pub perfil_na_igreja : Option TenantRequester → ℕ → Option Role
unfolding links_of
perfil_na_igreja requester church_id =
    elim (find? (λ item. item.church_id == church_id) (links_of requester)) [
      | none ↦ none
      | some vinculo ↦ some vinculo.role
    ]

-- `none` is the source's `null`: no cut to apply.
unfoldable pub tenant_church_ids : Option TenantRequester → List Role → Option (List ℕ)
unfolding is_super_admin church_ids_com_perfil
tenant_church_ids requester roles =
    if is_super_admin requester
    then none
    else if not (includes_role (role_of requester) church_roles)
    then none
    else some (church_ids_com_perfil requester roles)

pub data AccessError : Type 0 where
  -- 401
  nao_autenticado usuario_nao_encontrado conta_bloqueada : AccessError
  -- 403
  sem_permissao outra_igreja sem_vinculo_no_evento pagamento_sem_evento modulo_fora_do_plano :
      AccessError
  -- 404
  evento_nao_encontrado igreja_nao_encontrada pagamento_nao_encontrado : AccessError

-- `!resourceChurchId || !ids.includes(resourceChurchId)`, negated.
abbrev pub reaches : Option ℕ → List ℕ → Bool
reaches none ids = false
reaches (some id) ids = includes id ids

unfoldable pub assert_church_access :
    Option TenantRequester → Option ℕ → List Role → Result AccessError (Unit {0})
unfolding is_super_admin church_ids_com_perfil
assert_church_access requester resource roles =
    if is_super_admin requester
    then ok tt
    else if reaches resource (church_ids_com_perfil requester roles)
    then ok tt
    else err outra_igreja

-- A person as the scope of a list of people sees them: the churches of their links, of the events
-- that they are registered in or wait for, and their membership.
pub record Pessoa : Type 0 where
  pub id : ℕ
  pub church_roles : List VinculoDeIgreja
  pub event_churches : List ℕ
  pub waitlist_churches : List ℕ
  pub member_church_id : Option ℕ
  pub requested_church_id : Option ℕ

-- The `where` of the query, as the test that a row passes.
unfoldable pub pessoas_das_igrejas : List ℕ → Pessoa → Bool
pessoas_das_igrejas church_ids p =
    any (λ vinculo. includes vinculo.church_id church_ids) p.church_roles
    || any (λ c. includes c church_ids) p.event_churches
    || any (λ c. includes c church_ids) p.waitlist_churches
    || reaches p.member_church_id church_ids
    || reaches p.requested_church_id church_ids

unfoldable pub user_church_scope : Option TenantRequester → List Role → Pessoa → Bool
unfolding tenant_church_ids pessoas_das_igrejas
user_church_scope requester roles p = elim (tenant_church_ids requester roles) [
  | none ↦ true
  | some church_ids ↦ pessoas_das_igrejas church_ids p
]
