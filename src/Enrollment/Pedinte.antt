-- ===== src/Enrollment/Pedinte.antt =====
-- `assertPodeInscrever` of src/event/event.service.ts: who may register a person in an event.
use sistema_iccv_backend.Common.{
  ℕ, Bool, true, false, ◌&&◌, ◌||◌, Option, none, some, List, [], ◌∷◌, ◌==◌, if◌then◌else◌, any,
  includes, Result, ok, ◌>>◌, require,
}
use sistema_iccv_backend.Access.Roles.{role_eq, admin_area_roles}
use sistema_iccv_backend.Access.Tenant.{
  TenantRequester, Pessoa, perfil_efetivo, is_super_admin, pessoas_das_igrejas, user_church_scope,
}
use sistema_iccv_backend.Access.Database.{Database, find_user, find_event, select_tenant}
use sistema_iccv_backend.Access.Vinculos.{admin_do_evento}

pub data PedinteError : Type 0 where
  -- 403
  so_a_si_mesmo fora_do_cadastro : PedinteError

unfoldable pub requester_de : Database → ℕ → Option TenantRequester
unfolding find_user select_tenant
requester_de db requester_id = elim (find_user db requester_id) [
  | none ↦ none
  | some u ↦ some (select_tenant db u)
]

-- `doAdmin`: the event's church, if the requester is an admin of the event.
unfoldable pub do_admin : Database → (requester_id event_id : ℕ) → Option ℕ
do_admin db requester_id event_id =
    if admin_do_evento db requester_id event_id
    then elim (find_event db event_id) [ none ↦ none | some e ↦ some e.church_id ]
    else none

abbrev pub is_some : Option ℕ → Bool
is_some none = false
is_some (some n) = true

-- The `where` of the search in the register.
unfoldable pub no_recorte : Option ℕ → Option TenantRequester → Pessoa → Bool
unfolding pessoas_das_igrejas user_church_scope
no_recorte (some church_id) requester p = pessoas_das_igrejas (church_id ∷ []) p
no_recorte none requester p = user_church_scope requester admin_area_roles p

unfoldable pub assert_pode_inscrever :
    Database → List Pessoa → (requester_id user_id event_id : ℕ) → Result PedinteError (Unit {0})
unfolding requester_de do_admin no_recorte
assert_pode_inscrever db pessoas requester_id user_id event_id =
    if requester_id == user_id
    then ok tt
    else let requester = requester_de db requester_id in
      let da_igreja = do_admin db requester_id event_id in
      require (is_some da_igreja || includes (perfil_efetivo requester) admin_area_roles)
        so_a_si_mesmo
      >> (if is_super_admin requester
          then ok tt
          else require (any (λ p. p.id == user_id && no_recorte da_igreja requester p) pessoas)
              fora_do_cadastro)
