-- ===== src/Access/Tests.antt =====
-- Two churches, their people and events, and the access rules of src/auth, src/decorators and
-- src/planos run on them.
use sistema_iccv_backend.Common.{
  ℕ, ◌≡◌, refl, ◌≢◌, ◌↔◌, ◌⊎◌, true, false, none, some, [], ◌∷◌, Memᴰ, ok, is_ok, arith,
}
use sistema_iccv_backend.Access.Roles.{super_admin, admin, user, role_eq}
use sistema_iccv_backend.Access.Tenant.{VinculoDeIgreja, perfil_efetivo, tenant_church_ids}
use sistema_iccv_backend.Access.Database.{
  Database, UserRow, ChurchRow, EventRow, ChurchStatus, events, find_user, find_church, find_event,
  select_tenant,
}
use sistema_iccv_backend.Access.Guards.{
  Rota, Pedido, perfis_da_rota, resolve_event_id, event_tenant_guard, church_tenant_guard,
  roles_guard,
}
use sistema_iccv_backend.Access.Modulos.{
  module_eq, modulo_guard, recalcular_perfil, recalcular_perfis,
}
use sistema_iccv_backend.Access.Laws.Profiles.{IsSuper, HasLink}
use sistema_iccv_backend.Access.Laws.Isolation.{
  MayActOn, event_tenant_guard-MayActOn, event_tenant_guard_stale, recalcular_perfis-sync,
}
use sistema_iccv_backend.Access.Laws.Guards.{
  HasEventLinkIn, Reaches, church_tenant_guard_iff, roles_guard_iff,
}
use sistema_iccv_backend.Access.Laws.Plans.{Passes, modulo_guard_iff}

abbrev vinculo : VinculoDeIgreja
vinculo = record { church_id = 1; role = admin }

-- An admin of church 1 whose stored profile is up to date, and one whose stored profile lags.
abbrev ana : UserRow
ana = record { id = 10; role = admin; church_roles = vinculo ∷ []; blocked = false }

abbrev bia : UserRow
bia = record { id = 11; role = user; church_roles = vinculo ∷ []; blocked = false }

abbrev sede : ChurchRow
sede = record {
  id = 1;
  status = ChurchStatus.active;
  plan = some (events ∷ []);
  module_payment = true;
}

abbrev outra : ChurchRow
outra = record { id = 2; status = ChurchStatus.active; plan = none; module_payment = true }

abbrev retiro : EventRow
retiro = record { id = 5; church_id = 1 }

abbrev alheio : EventRow
alheio = record { id = 6; church_id = 2 }

abbrev db : Database
db = record {
  users = ana ∷ bia ∷ [];
  churches = sede ∷ outra ∷ [];
  events = retiro ∷ alheio ∷ [];
  event_admins = [];
  event_treasurers = [];
  payments = [];
  news = [];
}

abbrev rota : Rota
rota = record {
  perfis = super_admin ∷ admin ∷ [];
  aceita_tesoureiro = false;
  aceita_admin_do_evento = false;
  modulo = some events;
}

abbrev pedido : ℕ → ℕ → ℕ → Pedido
pedido user_id event_id church_id = record {
  user_id = some user_id;
  role = some admin;
  church_links = [];
  id = none;
  id_user = none;
  id_event = some event_id;
  event_id = none;
  payment_id = none;
  church_id = some church_id;
  id_church = none;
  body_church_id = none;
}

panel : rota.perfis ≢ []
panel = λ h. cc

bia-not-IsSuper : ¬ IsSuper bia.role
bia-not-IsSuper h = ground arith

event_tenant_guard-MayActOn_example : MayActOn db rota 10 ana 5 1
unfolding find_user find_event select_tenant resolve_event_id event_tenant_guard perfil_efetivo
    tenant_church_ids perfis_da_rota
event_tenant_guard-MayActOn_example =
    event_tenant_guard-MayActOn db rota (pedido 10 5 1) 10 ana retiro 5 panel refl refl refl refl
      refl refl refl

event_tenant_guard_stale_example : event_tenant_guard db rota (pedido 11 6 2) ≡ ok (pedido 11 6 2)
unfolding find_user select_tenant perfil_efetivo
event_tenant_guard_stale_example =
    event_tenant_guard_stale db rota (pedido 11 6 2) 11 bia refl refl refl refl refl

recalcular_perfis-sync_example :
    (recalcular_perfil db 1 bia).role
    ≡ perfil_efetivo (some (select_tenant (recalcular_perfis db 1) (recalcular_perfil db 1 bia)))
unfolding recalcular_perfis perfil_efetivo select_tenant
recalcular_perfis-sync_example =
    recalcular_perfis-sync db 1 (recalcular_perfil db 1 bia) (Memᴰ.tail (Memᴰ.head refl)) refl

church_tenant_guard_iff_example : (is_ok (church_tenant_guard db rota (pedido 10 5 1)) ≡ true) ↔ (
    IsSuper admin
    ⊎ (HasLink (select_tenant db ana).church_roles 1 (perfis_da_rota rota.perfis)
        ⊎ HasEventLinkIn db rota 10 1))
unfolding find_user find_church
church_tenant_guard_iff_example =
    church_tenant_guard_iff db rota (pedido 10 5 1) 10 1 ana sede refl refl refl refl

roles_guard_iff_example :
    (is_ok (roles_guard db rota (pedido 11 5 1)) ≡ true)
    ↔ ((false ≡ false) × Reaches db rota 11 bia)
unfolding find_user
roles_guard_iff_example = roles_guard_iff db rota (pedido 11 5 1) 11 bia panel refl refl

modulo_guard_iff_example :
    (is_ok (modulo_guard db rota (pedido 10 5 1)) ≡ true) ↔ Passes db rota (pedido 10 5 1) events
modulo_guard_iff_example = modulo_guard_iff db rota (pedido 10 5 1) events refl
