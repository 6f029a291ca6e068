-- ===== src/Access/Laws/Guards.antt =====
-- Who passes `RolesGuard`, `ChurchTenantGuard` and `ModuloGuard`.
use sistema_iccv_backend.Common.{
  ℕ, ◌≡◌, refl, ◌≢◌, ◌↔◌, ◌⊎◌, inl, inr, true, false, some, [], Memᴰ, arith, Bool-cases, nat_eq,
  is_ok, mem_of_includes, includes_of_mem,
}
use sistema_iccv_backend.Access.Roles.{admin, role_eq}
use sistema_iccv_backend.Access.Tenant.{perfil_efetivo, assert_church_access}
use sistema_iccv_backend.Access.Database.{
  Database, UserRow, ChurchRow, find_user, find_church, select_tenant,
}
use sistema_iccv_backend.Access.Vinculos.{
  tem_vinculo_de_tesoureiro, tem_vinculo_de_admin_de_evento, tesoureiro_na_igreja,
  admin_de_evento_na_igreja,
}
use sistema_iccv_backend.Access.Guards.{
  Rota, Pedido, perfis_da_rota, church_tenant_guard, coalesce, roles_guard,
}
use sistema_iccv_backend.Access.Laws.Profiles.{IsSuper, HasLink, assert_church_access_iff}

select_tenant-role : (db : Database) (u : UserRow) → (select_tenant db u).role ≡ some u.role
unfolding select_tenant
select_tenant-role db u = refl

-- A link with an event of the church, on a route that accepts it.
abbrev pub HasEventLinkIn : Database → Rota → ℕ → ℕ → Type 0
HasEventLinkIn db rota user_id church_id =
    ((rota.aceita_tesoureiro ≡ true) × (tesoureiro_na_igreja db user_id church_id ≡ true))
    ⊎ ((rota.aceita_admin_do_evento ≡ true)
        × (admin_de_evento_na_igreja db user_id church_id ≡ true))

-- `ChurchTenantGuard`, about a church that exists: it lets an authenticated person pass exactly
-- when they are dev or super admin, have a link that counts with that church and a church profile
-- that the route asks for, or are treasurer or admin of an event of that church on a route that
-- accepts it.
pub church_tenant_guard_iff :
    (db : Database) (rota : Rota) (pedido : Pedido) (user_id church_id : ℕ) (u : UserRow)
    (church : ChurchRow)
    → pedido.user_id ≡ some user_id
    → find_user db user_id ≡ some u
    → coalesce pedido.church_id pedido.id_church ≡ some church_id
    → find_church db church_id ≡ some church
    → (is_ok (church_tenant_guard db rota pedido) ≡ true) ↔ (
        IsSuper u.role
        ⊎ (HasLink (select_tenant db u).church_roles church_id (perfis_da_rota rota.perfis)
            ⊎ HasEventLinkIn db rota user_id church_id))
unfolding church_tenant_guard
church_tenant_guard_iff db rota pedido user_id church_id u church me found path exists =
    let roles = perfis_da_rota rota.perfis in
    let r = select_tenant db u in
    let (there, back) =
      assert_church_access_iff r u.role church_id roles (select_tenant-role db u) in
    (
      λ h. elim (Bool-cases (is_ok (assert_church_access (some r) (some church_id) roles))) [
        | inl direct ↦ elim (there direct) [ inl s ↦ inl s | inr l ↦ inr (inl l) ]
        | inr not_direct ↦ inr (inr (ground arith))
      ],
      λ h. elim h [
        | inl s ↦ ground (arith, back (inl s))
        | inr rest ↦ elim rest [ inl l ↦ ground (arith, back (inr l)) | inr l ↦ ground arith ]
      ],
    )

-- What `RolesGuard` asks of a person beyond being authenticated and not blocked: the effective
-- profile is one of the route's, or a link with some event lets them reach a route that accepts it.
abbrev pub Reaches : Database → Rota → ℕ → UserRow → Type 0
Reaches db rota user_id u =
    Memᴰ (perfil_efetivo (some (select_tenant db u))) rota.perfis
    ⊎ (((rota.aceita_tesoureiro ≡ true) × (tem_vinculo_de_tesoureiro db user_id ≡ true))
        ⊎ ((Memᴰ admin rota.perfis)
            × (rota.aceita_admin_do_evento ≡ true)
            × (tem_vinculo_de_admin_de_evento db user_id ≡ true)))

-- `RolesGuard` on a route with `@Roles`: it lets an authenticated person pass exactly when they
-- are not blocked and the effective profile is one of the route's, or they are treasurer of some
-- event and the route accepts treasurers, or admin of some event and the route accepts those and
-- admins.
pub roles_guard_iff :
    (db : Database) (rota : Rota) (pedido : Pedido) (user_id : ℕ) (u : UserRow)
    → rota.perfis ≢ []
    → pedido.user_id ≡ some user_id
    → find_user db user_id ≡ some u
    → (is_ok (roles_guard db rota pedido) ≡ true)
      ↔ ((u.blocked ≡ false) × Reaches db rota user_id u)
unfolding roles_guard
roles_guard_iff db rota pedido user_id u panel me found = (
  λ h. ground (
    arith,
    mem_of_includes (perfil_efetivo (some (select_tenant db u))) rota.perfis,
    mem_of_includes admin rota.perfis,
  ),
  λ h. ground (
    arith,
    includes_of_mem (perfil_efetivo (some (select_tenant db u))) rota.perfis,
    includes_of_mem admin rota.perfis,
  ),
)
