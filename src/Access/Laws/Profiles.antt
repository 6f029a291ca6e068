-- ===== src/Access/Laws/Profiles.antt =====
-- The effective profile, who reaches a church, and who may block whom.
use sistema_iccv_backend.Common.{
  ℕ, ◌≡◌, ◌≢◌, ◌↔◌, ◌⊎◌, inl, inr, true, false, some, List, map, Memᴰ, arith, Bool-cases, filter,
  includes, is_ok, mem_of_map, mem_of_filter, mem_of_includes, mem_map, mem_filter, includes_of_mem,
  nat_eq,
}
use sistema_iccv_backend.Access.Roles.{
  Role, dev, super_admin, admin, super_admin_roles, role_eq, Conta, pode_bloquear,
}
use sistema_iccv_backend.Access.Tenant.{
  VinculoDeIgreja, TenantRequester, role_of, links_of, perfil_efetivo, is_super_admin,
  church_ids_com_perfil, assert_church_access,
}
use sistema_iccv_backend.Access.Database.{Database, UserRow, vinculo_vale, select_tenant}

-- The profile is a global one: dev or super admin.
abbrev pub IsSuper : Role → Type 0
IsSuper r = (r ≡ dev) ⊎ (r ≡ super_admin)

-- The person has a link with that church, with one of these profiles.
abbrev pub HasLink : List VinculoDeIgreja → ℕ → List Role → Type 0
HasLink links church_id roles =
    (v : VinculoDeIgreja) × Memᴰ v links × (v.church_id ≡ church_id) × Memᴰ v.role roles

pub church_ids-HasLink :
    (r : TenantRequester) (church_id : ℕ) (roles : List Role)
    → (includes church_id (church_ids_com_perfil (some r) roles) ≡ true)
      ↔ HasLink r.church_roles church_id roles
unfolding church_ids_com_perfil links_of
church_ids-HasLink r church_id roles = (there, back)
  where
    there :
        includes church_id (church_ids_com_perfil (some r) roles) ≡ true
        → HasLink r.church_roles church_id roles
    there h =
        let (v, m, same) = mem_of_map (λ v. v.church_id) _ (mem_of_includes church_id _ h) in
        let (listed, good) = mem_of_filter (λ v. includes v.role roles) r.church_roles m in
        (v, listed, same, mem_of_includes v.role roles good)

    back :
        HasLink r.church_roles church_id roles
        → includes church_id (church_ids_com_perfil (some r) roles) ≡ true
    back (v, listed, same, good) = includes_of_mem church_id _ (
        rw (← same) (
          mem_map (λ v. v.church_id) _
            (mem_filter _ r.church_roles listed (includes_of_mem v.role roles good))))

is_super_admin-IsSuper :
    (r : TenantRequester) (role : Role)
    → r.role ≡ some role
    → (is_super_admin (some r) ≡ true) ↔ IsSuper role
unfolding is_super_admin role_of
is_super_admin-IsSuper r role e = ground arith

-- `assertChurchAccess` lets a person with a stored profile touch a resource of church `c` exactly
-- when they are dev or super admin, or one of their links is with `c` and has one of the asked
-- profiles.
pub assert_church_access_iff :
    (r : TenantRequester) (role : Role) (c : ℕ) (roles : List Role)
    → r.role ≡ some role
    → (is_ok (assert_church_access (some r) (some c) roles) ≡ true)
      ↔ (IsSuper role ⊎ HasLink r.church_roles c roles)
unfolding assert_church_access
assert_church_access_iff r role c roles e = (there, back)
  where
    there :
        is_ok (assert_church_access (some r) (some c) roles) ≡ true
        → IsSuper role ⊎ HasLink r.church_roles c roles
    there h = elim (Bool-cases (is_super_admin (some r))) [
      | inl s ↦ inl ((is_super_admin-IsSuper r role e).0 s)
      | inr s ↦ inr ((church_ids-HasLink r c roles).0 (ground arith))
    ]

    back :
        IsSuper role ⊎ HasLink r.church_roles c roles
        → is_ok (assert_church_access (some r) (some c) roles) ≡ true
    back (inl s) = ground (arith, (is_super_admin-IsSuper r role e).1 s)
    back (inr l) = ground (arith, (church_ids-HasLink r c roles).1 l)

mem_role :
    (links : List VinculoDeIgreja) {role : Role}
    → Memᴰ role (map (λ v. v.role) links)
    → (v : VinculoDeIgreja) × Memᴰ v links × (v.role ≡ role)
mem_role links m = mem_of_map (λ v. v.role) links m

-- For a stored profile that is neither dev nor super admin, the effective profile is admin exactly
-- when the person is admin of a church that exists and is not inactive, whatever the stored
-- profile says.
pub perfil_efetivo-select_tenant_admin :
    (db : Database) (u : UserRow)
    → ¬ IsSuper u.role
    → (perfil_efetivo (some (select_tenant db u)) ≡ admin) ↔ (
        (v : VinculoDeIgreja) × Memᴰ v u.church_roles
        × (v.role ≡ admin)
        × (vinculo_vale db v.church_id ≡ true))
unfolding perfil_efetivo select_tenant
perfil_efetivo-select_tenant_admin db u not_super = (there, back)
  where
    links : List VinculoDeIgreja
    links = filter (λ v. vinculo_vale db v.church_id) u.church_roles

    plain : includes u.role super_admin_roles ≡ false
    plain = ground arith

    there :
        perfil_efetivo (some (select_tenant db u)) ≡ admin
        → (v : VinculoDeIgreja) × Memᴰ v u.church_roles
          × (v.role ≡ admin)
          × (vinculo_vale db v.church_id ≡ true)
    there h =
        let has : includes admin (map (λ v. v.role) links) ≡ true = ground (arith, plain) in
        let (v, m, e) = mem_role links (mem_of_includes admin (map (λ v. v.role) links) has) in
        let (listed, valid) = mem_of_filter (λ v. vinculo_vale db v.church_id) u.church_roles m in
        (v, listed, e, valid)

    back :
        (v : VinculoDeIgreja) × Memᴰ v u.church_roles
          × (v.role ≡ admin)
          × (vinculo_vale db v.church_id ≡ true)
        → perfil_efetivo (some (select_tenant db u)) ≡ admin
    back (v, listed, e, valid) =
        let m =
          mem_map (λ v. v.role) links
            (mem_filter (λ v. vinculo_vale db v.church_id) u.church_roles listed valid) in
        let has : includes admin (map (λ v. v.role) links) ≡ true =
          includes_of_mem admin _ (rw e at m) in
        ground (arith, plain)

-- Of two persons with a stored profile, the first may block the second exactly when they are
-- different persons, the first is dev or super admin, and the first is dev or the second is
-- neither.
pub pode_bloquear_iff :
    (a b : Conta) (ra rb : Role)
    → a.role ≡ some ra
    → b.role ≡ some rb
    → (pode_bloquear a b ≡ true) ↔ ((a.id ≢ b.id) × IsSuper ra × ((ra ≡ dev) ⊎ (¬ IsSuper rb)))
unfolding pode_bloquear
pode_bloquear_iff a b ra rb ea eb = (there, back)
  where
    there : pode_bloquear a b ≡ true → (a.id ≢ b.id) × IsSuper ra × ((ra ≡ dev) ⊎ (¬ IsSuper rb))
    there h = ground arith

    back : (a.id ≢ b.id) × IsSuper ra × ((ra ≡ dev) ⊎ (¬ IsSuper rb)) → pode_bloquear a b ≡ true
    back h = ground arith
