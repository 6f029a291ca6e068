-- ===== src/Enrollment/Laws/Pedinte.antt =====
-- Who may register another person, in src/event/event.service.ts.
use sistema_iccv_backend.Common.{
  ℕ, ◌≡◌, ◌≢◌, ◌↔◌, ◌⊎◌, true, false, ◌&&◌, some, List, [], ◌∷◌, arith, ◌==◌, any, includes, is_ok,
  ok,
}
use sistema_iccv_backend.Access.Roles.{admin, user, role_eq, church_roles, admin_area_roles}
use sistema_iccv_backend.Access.Tenant.{
  Pessoa, perfil_efetivo, is_super_admin, tenant_church_ids, role_of, church_ids_com_perfil,
  pessoas_das_igrejas, user_church_scope,
}
use sistema_iccv_backend.Access.Database.{
  Database, UserRow, EventRow, find_user, find_event, select_tenant,
}
use sistema_iccv_backend.Access.Vinculos.{admin_do_evento}
use sistema_iccv_backend.Enrollment.Pedinte.{
  requester_de, do_admin, no_recorte, assert_pode_inscrever,
}

-- In the register of one of these churches.
abbrev pub InRegister : List Pessoa → ℕ → List ℕ → Type 0
InRegister pessoas user_id church_ids =
    any (λ p. p.id == user_id && pessoas_das_igrejas church_ids p) pessoas ≡ true

-- Whoever is admin of the event may register another person exactly when the person is in the
-- register of the event's church, unless they are dev or super admin, who may register anybody.
pub assert_pode_inscrever-admin_do_evento_iff :
    (db : Database) (pessoas : List Pessoa) (requester_id user_id event_id : ℕ) (u : UserRow)
    (e : EventRow)
    → requester_id ≢ user_id
    → find_user db requester_id ≡ some u
    → find_event db event_id ≡ some e
    → admin_do_evento db requester_id event_id ≡ true
    → (is_ok (assert_pode_inscrever db pessoas requester_id user_id event_id) ≡ true) ↔ (
        (is_super_admin (some (select_tenant db u)) ≡ true)
        ⊎ InRegister pessoas user_id (e.church_id ∷ []))
unfolding assert_pode_inscrever requester_de do_admin no_recorte
assert_pode_inscrever-admin_do_evento_iff db pessoas requester_id user_id event_id u e other found
      event link =
    (λ h. ground arith, λ h. ground arith)

-- Whoever is not admin of the event, has an up-to-date stored profile and is not dev or super admin
-- may register another person exactly when that profile is of a church and the person is in the
-- register of one of the churches of their links that count.
pub assert_pode_inscrever_iff :
    (db : Database) (pessoas : List Pessoa) (requester_id user_id event_id : ℕ) (u : UserRow)
    → requester_id ≢ user_id
    → find_user db requester_id ≡ some u
    → admin_do_evento db requester_id event_id ≡ false
    → u.role ≡ perfil_efetivo (some (select_tenant db u))
    → is_super_admin (some (select_tenant db u)) ≡ false
    → (is_ok (assert_pode_inscrever db pessoas requester_id user_id event_id) ≡ true) ↔ (
        (includes u.role church_roles ≡ true)
        × InRegister pessoas user_id
            (church_ids_com_perfil (some (select_tenant db u)) admin_area_roles))
unfolding assert_pode_inscrever requester_de do_admin no_recorte user_church_scope tenant_church_ids
    is_super_admin role_of select_tenant
assert_pode_inscrever_iff db pessoas requester_id user_id event_id u other found link sync plain =
    (λ h. ground arith, λ h. ground arith)

-- When the stored profile lags behind: if it is still that of a common user while a link that counts
-- makes the person admin of some church, they may register every person on record, in the register
-- of any church, in any event.
pub assert_pode_inscrever_stale :
    (db : Database) (pessoas : List Pessoa) (requester_id user_id event_id : ℕ) (u : UserRow)
    → find_user db requester_id ≡ some u
    → admin_do_evento db requester_id event_id ≡ false
    → u.role ≡ user
    → perfil_efetivo (some (select_tenant db u)) ≡ admin
    → any (λ p. p.id == user_id) pessoas ≡ true
    → assert_pode_inscrever db pessoas requester_id user_id event_id ≡ ok tt
unfolding assert_pode_inscrever requester_de do_admin no_recorte user_church_scope tenant_church_ids
    is_super_admin role_of select_tenant
assert_pode_inscrever_stale db pessoas requester_id user_id event_id u found link stale eff known =
    ground arith
