-- ===== src/Access/Laws/Isolation.antt =====
-- The guards keep the churches apart.
use sistema_iccv_backend.Common.{
  ℕ, ◌≡◌, refl, subst, ◌≢◌, ◌⊎◌, inl, inr, true, false, some, List, [], ◌∷◌, Memᴰ, arith,
  Bool-cases, filter, any, ◌==◌, includes, nat_eq, ok, mem_of_filter, mem_of_includes, mem_filter,
  mem_of_map,
}
use sistema_iccv_backend.Access.Roles.{Role, admin, user, church_roles, role_eq}
use sistema_iccv_backend.Access.Tenant.{
  perfil_efetivo, tenant_church_ids, is_super_admin, perfil_dos_vinculos, church_ids_com_perfil,
  role_of,
}
use sistema_iccv_backend.Access.Database.{
  Database, UserRow, EventRow, find_user, find_event, select_tenant,
}
use sistema_iccv_backend.Access.Vinculos.{tesoureiro_do_evento, admin_do_evento}
use sistema_iccv_backend.Access.Guards.{
  Rota, Pedido, resolve_event_id, tem_vinculo_daqui, confere_igreja_do_evento, perfis_da_rota,
  event_tenant_guard_para, event_tenant_guard,
}
use sistema_iccv_backend.Access.Modulos.{recalcular_perfil, recalcular_perfis}
use sistema_iccv_backend.Access.Laws.Profiles.{IsSuper, HasLink, church_ids-HasLink}

-- Treasurer or admin of this event, on a route that accepts each.
abbrev pub HasEventLink : Database → Rota → ℕ → ℕ → Type 0
HasEventLink db rota user_id event_id =
    ((rota.aceita_tesoureiro ≡ true) × (tesoureiro_do_evento db user_id event_id ≡ true))
    ⊎ ((rota.aceita_admin_do_evento ≡ true) × (admin_do_evento db user_id event_id ≡ true))

tem_vinculo_daqui-HasEventLink :
    (db : Database) (rota : Rota) (pedido : Pedido) (user_id event_id : ℕ)
    → resolve_event_id db pedido ≡ ok (some event_id)
    → tem_vinculo_daqui db rota pedido user_id ≡ ok true
    → HasEventLink db rota user_id event_id
unfolding tem_vinculo_daqui
tem_vinculo_daqui-HasEventLink db rota pedido user_id event_id e h = ground arith

perfis_da_rota-mem :
    (perfis : List Role) (mine r : Role)
    → Memᴰ mine perfis
    → includes mine church_roles ≡ true
    → Memᴰ r (perfis_da_rota perfis)
    → Memᴰ r perfis
unfolding perfis_da_rota
perfis_da_rota-mem perfis mine r m c h = go (filter (λ p. includes p church_roles) perfis) refl
  where
    go : (kept : List Role) → filter (λ p. includes p church_roles) perfis ≡ kept → Memᴰ r perfis
    go [] e =
        elim (let gone : Memᴰ mine [] =
            rw e at (mem_filter (λ p. includes p church_roles) perfis m c) in
          gone) [ ]
    go (k ∷ ks) e = (mem_of_filter (λ p. includes p church_roles) perfis (rw e (rw e at h))).0

-- What entitles a person to act on an event of church `church_id` through a panel route: being dev
-- or super admin, a link with that church that counts and has a profile of the route, or a link
-- with the event that the route accepts.
abbrev pub MayActOn : Database → Rota → ℕ → UserRow → ℕ → ℕ → Type 0
MayActOn db rota user_id u event_id church_id =
    IsSuper u.role
    ⊎ (HasLink (select_tenant db u).church_roles church_id rota.perfis
        ⊎ HasEventLink db rota user_id event_id)

module _ (db : Database) (rota : Rota) (pedido : Pedido) (user_id : ℕ) (u : UserRow)
    (e : EventRow) where
  confere-MayActOn :
      (event_id : ℕ) (perfil : Role) {p : Pedido}
      → resolve_event_id db pedido ≡ ok (some event_id)
      → find_event db event_id ≡ some e
      → includes perfil rota.perfis ≡ true
      → includes perfil church_roles ≡ true
      → confere_igreja_do_evento db rota pedido user_id
          (select_tenant db u)
          (church_ids_com_perfil (some (select_tenant db u)) (perfis_da_rota rota.perfis))
        ≡ ok p
      → MayActOn db rota user_id u event_id e.church_id
  unfolding confere_igreja_do_evento
  confere-MayActOn event_id perfil r f m c h =
      elim (Bool-cases (
        includes e.church_id
          (church_ids_com_perfil (some (select_tenant db u)) (perfis_da_rota rota.perfis)))) [
            | inl yes' ↦
                let (v, listed, same, asked) = (church_ids-HasLink _ _ _).0 yes' in
                inr (
                  inl (
                    v,
                    listed,
                    same,
                    perfis_da_rota-mem rota.perfis perfil v.role
                        (mem_of_includes perfil rota.perfis m) c asked,
                  ))
            | inr no' ↦ inr (
                inr
                  (tem_vinculo_daqui-HasEventLink db rota pedido user_id event_id r (ground arith)))
          ]

  perfil_do_painel :
      (r : Role)
      → includes user rota.perfis ≡ false
      → includes r rota.perfis ≡ true
      → IsSuper r ⊎ (includes r church_roles ≡ true)
  perfil_do_painel user closed m = cc
  perfil_do_painel r closed m = ground arith

  tenant_church_ids-church_role :
      (roles : List Role)
      → includes u.role church_roles ≡ true
      → tenant_church_ids (some (select_tenant db u)) roles
        ≡ some (church_ids_com_perfil (some (select_tenant db u)) roles)
  unfolding tenant_church_ids is_super_admin role_of select_tenant
  tenant_church_ids-church_role roles c = ground arith

  event_tenant_guard_para-MayActOn :
      (event_id : ℕ) {p : Pedido}
      → rota.perfis ≢ []
      → includes user rota.perfis ≡ false
      → u.role ≡ perfil_efetivo (some (select_tenant db u))
      → resolve_event_id db pedido ≡ ok (some event_id)
      → find_event db event_id ≡ some e
      → event_tenant_guard_para db rota pedido user_id (select_tenant db u) ≡ ok p
      → MayActOn db rota user_id u event_id e.church_id
  unfolding event_tenant_guard_para
  event_tenant_guard_para-MayActOn event_id {p} panel closed sync r f h =
      elim (Bool-cases (includes (perfil_efetivo (some (select_tenant db u))) rota.perfis)) [
        | inr out ↦
            inr (
              inr (tem_vinculo_daqui-HasEventLink db rota pedido user_id event_id r (ground arith)))
        | inl inside ↦ elim (perfil_do_painel u.role closed (rw sync inside)) [
          | inl super ↦ inl super
          | inr c ↦
              confere-MayActOn event_id u.role {p = p} r f (rw sync inside) c
                (ground (arith, tenant_church_ids-church_role (perfis_da_rota rota.perfis) c))
        ]
      ]

  -- `EventTenantGuard` on a panel route that is not open to common users: if it lets a request
  -- about an event of church `c` pass, and the person's stored profile is the effective one, then
  -- the person is dev or super admin, has a link that counts with church `c` itself and with a
  -- profile of the route, or is treasurer or admin of that event on a route that accepts it.
  pub event_tenant_guard-MayActOn :
      (event_id : ℕ) {p : Pedido}
      → rota.perfis ≢ []
      → includes user rota.perfis ≡ false
      → pedido.user_id ≡ some user_id
      → find_user db user_id ≡ some u
      → u.role ≡ perfil_efetivo (some (select_tenant db u))
      → resolve_event_id db pedido ≡ ok (some event_id)
      → find_event db event_id ≡ some e
      → event_tenant_guard db rota pedido ≡ ok p
      → MayActOn db rota user_id u event_id e.church_id
  unfolding event_tenant_guard
  event_tenant_guard-MayActOn event_id {p} panel closed me found sync r f h =
      event_tenant_guard_para-MayActOn event_id {p = p} panel closed sync r f (ground arith)

-- When the stored profile lags behind: if it is still that of a common user while a link that
-- counts makes the person admin of some church, the guard of any panel route open to admins lets
-- every request of theirs pass unchanged, whatever church the event belongs to.
pub event_tenant_guard_stale :
    (db : Database) (rota : Rota) (pedido : Pedido) (user_id : ℕ) (u : UserRow)
    → includes admin rota.perfis ≡ true
    → pedido.user_id ≡ some user_id
    → find_user db user_id ≡ some u
    → u.role ≡ user
    → perfil_efetivo (some (select_tenant db u)) ≡ admin
    → event_tenant_guard db rota pedido ≡ ok pedido
unfolding event_tenant_guard event_tenant_guard_para tenant_church_ids is_super_admin role_of
    select_tenant
event_tenant_guard_stale db rota pedido user_id u panel me found stale eff = ground arith

recalcular_perfil-sync :
    (db : Database) (c : ℕ) (u : UserRow)
    → any (λ v. v.church_id == c) (recalcular_perfil db c u).church_roles ≡ true
    → (recalcular_perfil db c u).role
      ≡ perfil_efetivo (some (select_tenant db (recalcular_perfil db c u)))
unfolding recalcular_perfil select_tenant perfil_efetivo perfil_dos_vinculos
recalcular_perfil-sync db c u h = ground arith

-- After a church is saved (`recalcularPerfis`), the stored profile of every person linked with it
-- is the effective one, computed from the links that count at that moment.
pub recalcular_perfis-sync :
    (db : Database) (c : ℕ) (u : UserRow)
    → Memᴰ u (recalcular_perfis db c).users
    → any (λ v. v.church_id == c) u.church_roles ≡ true
    → u.role ≡ perfil_efetivo (some (select_tenant (recalcular_perfis db c) u))
unfolding recalcular_perfis select_tenant
recalcular_perfis-sync db c u m h =
    let (before, _, same) = mem_of_map (recalcular_perfil db c) db.users m in
    let known : any (λ v. v.church_id == c) (recalcular_perfil db c before).church_roles ≡ true =
      rw same h in
    subst (λ (w : UserRow). w.role ≡ perfil_efetivo (some (select_tenant db w))) same
      (recalcular_perfil-sync db c before known)
