-- ===== src/Access/Visibility.antt =====
-- src/event/event-visibility.ts: who sees an event that is still a rehearsal, because the event or
-- its church is being tested.
use sistema_iccv_backend.Common.{
  ℕ, ◌≡◌, refl, subst, ◌≢◌, inl, inr, Bool, true, false, not, ◌&&◌, ◌||◌, Option, none, some, List,
  [], ◌∷◌, map, arith, ◌==◌, ==_iff, Bool-cases, if◌then◌else◌, All, filter, find?, is_empty,
  includes, nat_eq,
}
use sistema_iccv_backend.Access.Roles.{Role, admin, same_role, role_eq}
use sistema_iccv_backend.Access.Tenant.{
  VinculoDeIgreja, TenantRequester, is_super_admin, church_ids_com_perfil, perfil_na_igreja,
}
use sistema_iccv_backend.Access.Database.{ChurchStatus}

pub data EventStatus : Type 0 where
  active inactive test : EventStatus

-- What the filter reads of an event.
pub record EventoVisto : Type 0 where
  pub status : EventStatus
  pub church_id : ℕ
  pub church_status : ChurchStatus

abbrev pub event_in_test : EventStatus → Bool
event_in_test EventStatus.test = true
event_in_test _ = false

abbrev pub church_in_test : ChurchStatus → Bool
church_in_test ChurchStatus.test = true
church_in_test _ = false

unfoldable pub fora_de_ensaio : EventoVisto → Bool
fora_de_ensaio e = not (event_in_test e.status) && not (church_in_test e.church_status)

-- The `where` of the list of events, as the test that an event passes.
unfoldable pub filtro_de_evento_em_teste : Option TenantRequester → EventoVisto → Bool
unfolding fora_de_ensaio
filtro_de_evento_em_teste requester e =
    if is_super_admin requester
    then true
    else let administra = church_ids_com_perfil requester (admin ∷ []) in
      if is_empty administra
      then fora_de_ensaio e
      else fora_de_ensaio e || includes e.church_id administra

abbrev is_admin : Option Role → Bool
is_admin none = false
is_admin (some r) = same_role r admin

unfoldable pub pode_ver_evento_em_teste : Option TenantRequester → ℕ → Bool
pode_ver_evento_em_teste requester church_id =
    if is_super_admin requester then true else is_admin (perfil_na_igreja requester church_id)

-- `@@id([userId, churchId])`: a person has at most one link with each church.
abbrev pub IsUnique : List VinculoDeIgreja → Type 0
IsUnique [] = Unit
IsUnique (v ∷ vs) = All (λ w. w.church_id ≢ v.church_id) vs × IsUnique vs

administra : List VinculoDeIgreja → ℕ → Bool
administra vs c =
    includes c (map (λ v. v.church_id) (filter (λ v. includes v.role (admin ∷ [])) vs))

perfil : List VinculoDeIgreja → ℕ → Bool
perfil vs c = elim (find? (λ v. v.church_id == c) vs) [
  | none ↦ false
  | some v ↦ same_role v.role admin
]

administra-absent :
    (vs : List VinculoDeIgreja) (c : ℕ) → All (λ w. w.church_id ≢ c) vs → administra vs c ≡ false
unfolding administra
administra-absent [] c h = refl
administra-absent (v ∷ vs) c h = ground (arith, administra-absent vs c h.1)

administra-eq-perfil :
    (vs : List VinculoDeIgreja) (c : ℕ) → IsUnique vs → administra vs c ≡ perfil vs c
unfolding administra perfil
administra-eq-perfil [] c h = refl
administra-eq-perfil (v ∷ vs) c h = elim (Bool-cases (v.church_id == c)) [
  | inl here ↦
      let same : v.church_id ≡ c = (==_iff v.church_id c).0 here in
      ground
        (arith, administra-absent vs c (subst (λ (d : ℕ). All (λ w. w.church_id ≢ d) vs) same h.0))
  | inr other ↦ ground (arith, administra-eq-perfil vs c h.1)
]

is_empty-includes : (c : ℕ) (xs : List ℕ) → is_empty xs ≡ true → includes c xs ≡ false
is_empty-includes c [] h = refl
is_empty-includes c (x ∷ xs) h = cc

-- For a person with at most one link with each church, the filter of the lists of events and the
-- test of a single event agree: an event is listed exactly when it is no rehearsal or the person
-- may see the rehearsals of its church.
pub filtro-eq-pode_ver :
    (r : TenantRequester) (e : EventoVisto)
    → IsUnique r.church_roles
    → filtro_de_evento_em_teste (some r) e
      ≡ (fora_de_ensaio e || pode_ver_evento_em_teste (some r) e.church_id)
unfolding filtro_de_evento_em_teste pode_ver_evento_em_teste perfil_na_igreja church_ids_com_perfil
    administra perfil
filtro-eq-pode_ver r e unique = ground (
  arith,
  administra-eq-perfil r.church_roles e.church_id unique,
  is_empty-includes e.church_id (church_ids_com_perfil (some r) (admin ∷ [])),
)
