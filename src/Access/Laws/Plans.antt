-- ===== src/Access/Laws/Plans.antt =====
-- What a church's plan opens.
use sistema_iccv_backend.Common.{
  ℕ, ◌≡◌, ◌↔◌, inl, inr, Bool, true, false, not, none, some, Option-cases, Bool-cases, List, [],
  ◌∷◌, Memᴰ, includes, is_empty, refl, require, arith, is_ok, mem_of_includes, includes_of_mem,
}
use sistema_iccv_backend.Access.Tenant.{is_super_admin}
use sistema_iccv_backend.Access.Database.{Database, ChurchRow, ChurchModule, find_church}
use sistema_iccv_backend.Access.Guards.{Rota, Pedido}
use sistema_iccv_backend.Access.Modulos.{
  module_eq, modulos_da, cobra_online, sem_cobranca_online, exigir_modulo, igreja_da_rota,
  modulo_guard,
}

-- The church has a plan, and the plan includes the module.
abbrev pub PlanIncludes : ChurchModule → ChurchRow → Type 0
PlanIncludes modulo church =
    (modules : List ChurchModule) × (church.plan ≡ some modules) × Memᴰ modulo modules

-- Why `ModuloGuard` lets a request pass, on a route marked with a module: the route is open to all
-- profiles, the person is dev or super admin, the request names no church, there is no such church,
-- or its plan includes the module.
pub data Passes (db : Database) (rota : Rota) (pedido : Pedido) (modulo : ChurchModule)
    : Type 0 where
  route_of_all : rota.perfis ≡ [] → Passes db rota pedido modulo
  person_of_all :
      is_super_admin (some (record { role = pedido.role; church_roles = [] })) ≡ true
      → Passes db rota pedido modulo
  no_church : igreja_da_rota db pedido modulo ≡ none → Passes db rota pedido modulo
  no_such_church :
      (church_id : ℕ)
      → igreja_da_rota db pedido modulo ≡ some church_id
      → find_church db church_id ≡ none
      → Passes db rota pedido modulo
  plan_of_church :
      (church_id : ℕ) (church : ChurchRow)
      → igreja_da_rota db pedido modulo ≡ some church_id
      → find_church db church_id ≡ some church
      → PlanIncludes modulo church
      → Passes db rota pedido modulo

modulos_da_iff :
    (modulo : ChurchModule) (church : ChurchRow)
    → (includes modulo (modulos_da (some church)) ≡ true) ↔ PlanIncludes modulo church
unfolding modulos_da
modulos_da_iff modulo church = elim (Option-cases church.plan) [
  | inl e ↦ (λ h. cc (rw (modulos_da, e) at h), λ p. cc (e, p.1))
  | inr (ms, e) ↦ (
    λ h. (ms, e, mem_of_includes modulo ms (rw (modulos_da, e) at h)),
    λ p. rw p.1 (includes_of_mem modulo p.0 p.2),
  )
]

require-is_ok : {E : Type 0} (b : Bool) (e : E) → is_ok (require b e) ≡ true → b ≡ true
require-is_ok true e h = refl
require-is_ok false e h = cc

is_empty-eq {ℓ} : {A : Type ℓ} (xs : List A) → is_empty xs ≡ true → xs ≡ []
is_empty-eq [] h = refl
is_empty-eq (x ∷ xs) h = cc

module _ (db : Database) (rota : Rota) (pedido : Pedido) (modulo : ChurchModule) where
  exigir_modulo-Passes :
      (church_id : ℕ)
      → igreja_da_rota db pedido modulo ≡ some church_id
      → is_ok (exigir_modulo db church_id modulo) ≡ true
      → Passes db rota pedido modulo
  unfolding exigir_modulo
  exigir_modulo-Passes church_id here h = elim (Option-cases (find_church db church_id)) [
    | inl gone ↦ no_such_church church_id here gone
    | inr (church, found) ↦
        plan_of_church church_id church here found
          ((modulos_da_iff modulo church).0 (require-is_ok _ _ (rw (exigir_modulo, found) at h)))
  ]

  -- `ModuloGuard` on a route marked with a module lets a request pass exactly when the route is open
  -- to all profiles, the person is dev or super admin, the request names no church, the church that
  -- it names does not exist, or that church has a plan that includes the module.
  pub modulo_guard_iff :
      rota.modulo ≡ some modulo
      → (is_ok (modulo_guard db rota pedido) ≡ true) ↔ Passes db rota pedido modulo
  unfolding modulo_guard
  modulo_guard_iff marked = (passes, runs)
    where
      passes : is_ok (modulo_guard db rota pedido) ≡ true → Passes db rota pedido modulo
      passes h = elim (Bool-cases (is_empty rota.perfis)) [
        | inl e ↦ route_of_all (is_empty-eq rota.perfis e)
        | inr e ↦
            elim (Bool-cases
              (is_super_admin (some (record { role = pedido.role; church_roles = [] })))) [
                | inl s ↦ person_of_all s
                | inr s ↦ elim (Option-cases (igreja_da_rota db pedido modulo)) [
                  | inl gone ↦ no_church gone
                  | inr (church_id, here) ↦
                      exigir_modulo-Passes church_id here (ground (arith, h, marked, e, s, here))
                ]
              ]
      ]

      runs : Passes db rota pedido modulo → is_ok (modulo_guard db rota pedido) ≡ true
      runs (route_of_all e) = ground arith
      runs (person_of_all s) = ground arith
      runs (no_church gone) = ground arith
      runs (no_such_church church_id here gone) =
          let lets : is_ok (exigir_modulo db church_id modulo) ≡ true =
            rw (exigir_modulo, gone) refl in
          ground arith
      runs (plan_of_church church_id church here found plan) =
          let inside = (modulos_da_iff modulo church).1 plan in
          let lets : is_ok (exigir_modulo db church_id modulo) ≡ true =
            rw (exigir_modulo, found) (rw inside refl) in
          ground arith

-- The `where` of the reconciliation picks exactly the churches that `cobraOnline` says do not
-- charge online.
pub sem_cobranca_online-eq-not-cobra_online :
    (church : ChurchRow) → sem_cobranca_online church ≡ not (cobra_online (some church))
unfolding sem_cobranca_online cobra_online modulos_da
sem_cobranca_online-eq-not-cobra_online church = ground arith
