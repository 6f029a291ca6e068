-- ===== src/Enrollment/PedinteTests.antt =====
-- Requesters of src/event/event.service.ts who register others: an admin of an event, the admin of a
-- church, and one whose stored profile lags.
use sistema_iccv_backend.Common.{
  ◌≡◌, refl, ◌↔◌, true, false, none, some, List, [], ◌∷◌, ok, is_ok, arith, includes,
}
use sistema_iccv_backend.Access.Roles.{role_eq, admin, user, admin_area_roles, church_roles}
use sistema_iccv_backend.Access.Tenant.{
  VinculoDeIgreja, Pessoa, perfil_efetivo, is_super_admin, church_ids_com_perfil,
}
use sistema_iccv_backend.Access.Database.{
  Database, UserRow, ChurchRow, EventRow, EventLink, ChurchStatus, select_tenant, find_user,
}
use sistema_iccv_backend.Access.Vinculos.{admin_do_evento}
use sistema_iccv_backend.Enrollment.Pedinte.{assert_pode_inscrever}
use sistema_iccv_backend.Enrollment.Laws.Pedinte.{InRegister, assert_pode_inscrever_iff}

abbrev vinculo : VinculoDeIgreja
vinculo = record { church_id = 1; role = admin }

abbrev ana : UserRow
ana = record { id = 10; role = admin; church_roles = vinculo ∷ []; blocked = false }

abbrev bia : UserRow
bia = record { id = 11; role = user; church_roles = vinculo ∷ []; blocked = false }

-- An admin of event 5 and of no church.
abbrev caio : UserRow
caio = record { id = 12; role = user; church_roles = []; blocked = false }

abbrev sede : ChurchRow
sede = record { id = 1; status = ChurchStatus.active; plan = none; module_payment = true }

abbrev retiro : EventRow
retiro = record { id = 5; church_id = 1 }

abbrev do_retiro : EventLink
do_retiro = record { user_id = 12; event_id = 5 }

abbrev db : Database
db = record {
  users = ana ∷ bia ∷ caio ∷ [];
  churches = sede ∷ [];
  events = retiro ∷ [];
  event_admins = do_retiro ∷ [];
  event_treasurers = [];
  payments = [];
  news = [];
}

abbrev membro : Pessoa
membro = record {
  id = 20;
  church_roles = [];
  event_churches = [];
  waitlist_churches = [];
  member_church_id = some 1;
  requested_church_id = none;
}

-- A member of another church.
abbrev de_fora : Pessoa
de_fora = record {
  id = 21;
  church_roles = [];
  event_churches = [];
  waitlist_churches = [];
  member_church_id = some 2;
  requested_church_id = none;
}

abbrev pessoas : List Pessoa
pessoas = membro ∷ de_fora ∷ []

assert_pode_inscrever_iff_example : (is_ok (assert_pode_inscrever db pessoas 10 21 5) ≡ true) ↔ (
    (includes admin church_roles ≡ true)
    × InRegister pessoas 21 (church_ids_com_perfil (some (select_tenant db ana)) admin_area_roles))
unfolding find_user select_tenant admin_do_evento perfil_efetivo is_super_admin
assert_pode_inscrever_iff_example =
    assert_pode_inscrever_iff db pessoas 10 21 5 ana (omega arith) refl refl refl refl

-- Who may be registered, by whom.
registra_membro : assert_pode_inscrever db pessoas 10 20 5 ≡ ok tt
unfolding assert_pode_inscrever admin_do_evento perfil_efetivo
registra_membro = refl

nao_registra_de_fora : is_ok (assert_pode_inscrever db pessoas 10 21 5) ≡ false
unfolding assert_pode_inscrever admin_do_evento perfil_efetivo
nao_registra_de_fora = refl
