-- ===== src/Access/Modulos.antt =====
-- src/planos/modulos.ts and src/planos/modulo.guard.ts: what the plan of a church includes; and
-- `recalcularPerfis` of src/church/church.service.ts, which keeps the stored profile up to date.
use sistema_iccv_backend.Common.{
  ℕ, ◌≡◌, ◌↔◌, Bool, true, false, not, ◌&&◌, ◌||◌, Option, none, some, List, [], map, arith, Eq,
  ◌==◌, if◌then◌else◌, any, is_empty, includes, Result, ok, require,
}
use sistema_iccv_backend.Access.Roles.{same_role}
use sistema_iccv_backend.Access.Tenant.{
  is_super_admin, perfil_efetivo, AccessError, modulo_fora_do_plano,
}
use sistema_iccv_backend.Access.Database.{
  Database, ChurchRow, ChurchModule, events, news, treasury, requests, UserRow, find_church,
  find_event, find_payment, find_news, select_tenant,
}
use sistema_iccv_backend.Access.Guards.{Rota, Pedido, coalesce}

abbrev pub same_module : ChurchModule → ChurchModule → Bool
same_module events events = true
same_module news news = true
same_module treasury treasury = true
same_module requests requests = true
same_module _ _ = false

pub same_module_iff : (a b : ChurchModule) → (same_module a b ≡ true) ↔ (a ≡ b)
same_module_iff a b = ground arith

instance abbrev pub module_eq : Eq ChurchModule
module_eq = record { same = same_module; same_iff = same_module_iff }

-- The plan's modules; without a church or a plan, none.
unfoldable pub modulos_da : Option ChurchRow → List ChurchModule
modulos_da none = []
modulos_da (some igreja) = elim igreja.plan [ none ↦ [] | some modules ↦ modules ]

abbrev payment_on : Option ChurchRow → Bool
payment_on none = true
payment_on (some igreja) = igreja.module_payment

unfoldable pub cobra_online : Option ChurchRow → Bool
unfolding modulos_da
cobra_online igreja = includes events (modulos_da igreja) && payment_on igreja

-- `SEM_COBRANCA_ONLINE`, the `where` of the reconciliation, as the test that a church passes.
unfoldable pub sem_cobranca_online : ChurchRow → Bool
sem_cobranca_online igreja =
    elim igreja.plan [ none ↦ true | some modules ↦ not (includes events modules) ]
    || not igreja.module_payment

-- A church that does not exist passes: the handler answers 404.
unfoldable pub exigir_modulo : Database → ℕ → ChurchModule → Result AccessError (Unit {0})
unfolding modulos_da
exigir_modulo db church_id modulo = elim (find_church db church_id) [
  | none ↦ ok tt
  | some igreja ↦ require (includes modulo (modulos_da (some igreja))) modulo_fora_do_plano
]

abbrev church_of_event : Database → ℕ → Option ℕ
church_of_event db event_id = elim (find_event db event_id) [
  | none ↦ none
  | some evento ↦ some evento.church_id
]

abbrev event_of_payment : Database → Option ℕ → Option ℕ
event_of_payment db none = none
event_of_payment db (some payment_id) = elim (find_payment db payment_id) [
  | none ↦ none
  | some pagamento ↦ pagamento.event_id
]

abbrev when : Bool → Option ℕ → Option ℕ
when test id = if test then id else none

abbrev church_of_news : Database → ChurchModule → Pedido → Option ℕ
church_of_news db modulo pedido = elim (when (same_module modulo news) pedido.id) [
  | none ↦ pedido.body_church_id
  | some id ↦ elim (find_news db id) [ none ↦ none | some noticia ↦ some noticia.church_id ]
]

-- The church that the route is about: the path's; its event's; its payment's; its news'; the body's.
unfoldable pub igreja_da_rota : Database → Pedido → ChurchModule → Option ℕ
igreja_da_rota db pedido modulo = elim (coalesce pedido.church_id pedido.id_church) [
  | some church_id ↦ some church_id
  | none ↦
      let from_path =
        coalesce (coalesce pedido.id_event pedido.event_id)
          (when (same_module modulo events) pedido.id) in
      elim (coalesce from_path (event_of_payment db pedido.payment_id)) [
        | some event_id ↦ church_of_event db event_id
        | none ↦ church_of_news db modulo pedido
      ]
]

unfoldable pub modulo_guard : Database → Rota → Pedido → Result AccessError (Unit {0})
unfolding exigir_modulo igreja_da_rota
modulo_guard db rota pedido = elim rota.modulo [
  | none ↦ ok tt
  | some modulo ↦
      if is_empty rota.perfis
      then ok tt
      else if is_super_admin (some (record { role = pedido.role; church_roles = [] }))
      then ok tt
      else elim (igreja_da_rota db pedido modulo) [
        | none ↦ ok tt
        | some church_id ↦ exigir_modulo db church_id modulo
      ]
]

com_perfil_efetivo : Database → UserRow → UserRow
com_perfil_efetivo db pessoa =
    let efetivo = perfil_efetivo (some (select_tenant db pessoa)) in
    if same_role pessoa.role efetivo then pessoa else record pessoa { role = efetivo }

-- One round of the loop: the stored profile becomes the effective one, if they differ.
unfoldable pub recalcular_perfil : Database → ℕ → UserRow → UserRow
unfolding com_perfil_efetivo
recalcular_perfil db church_id pessoa =
    if any (λ vinculo. vinculo.church_id == church_id) pessoa.church_roles
    then com_perfil_efetivo db pessoa
    else pessoa

unfoldable pub recalcular_perfis : Database → ℕ → Database
unfolding recalcular_perfil
recalcular_perfis db church_id = record db { users = map (recalcular_perfil db church_id) db.users }
