-- ===== src/Access/Database.antt =====
-- The tables that the access rules read (prisma/schema.prisma): each is the list of its rows, and a
-- query is the search that its `where` in src/auth, src/decorators and src/planos describes.
use sistema_iccv_backend.Common.{
  ℕ, Bool, true, false, ◌&&◌, Option, some, List, ◌==◌, if◌then◌else◌, filter, find?, any,
}
use sistema_iccv_backend.Access.Roles.{Role}
use sistema_iccv_backend.Access.Tenant.{VinculoDeIgreja, TenantRequester}

pub data ChurchStatus : Type 0 where
  active inactive test : ChurchStatus

pub data ChurchModule : Type 0 where
  events news treasury requests : ChurchModule

pub record UserRow : Type 0 where
  pub id : ℕ
  pub role : Role
  pub church_roles : List VinculoDeIgreja
  pub blocked : Bool

pub record ChurchRow : Type 0 where
  pub id : ℕ
  pub status : ChurchStatus
  pub plan : Option (List ChurchModule)
  pub module_payment : Bool

pub record EventRow : Type 0 where
  pub id : ℕ
  pub church_id : ℕ

-- A row of `EventAdmin` or of `EventTreasurer`.
pub record EventLink : Type 0 where
  pub user_id : ℕ
  pub event_id : ℕ

pub record PaymentRow : Type 0 where
  pub id : ℕ
  pub event_id : Option ℕ

pub record NewsRow : Type 0 where
  pub id : ℕ
  pub church_id : ℕ

pub record Database : Type 0 where
  pub users : List UserRow
  pub churches : List ChurchRow
  pub events : List EventRow
  pub event_admins : List EventLink
  pub event_treasurers : List EventLink
  pub payments : List PaymentRow
  pub news : List NewsRow

abbrev pub is_inactive : ChurchStatus → Bool
is_inactive inactive = true
is_inactive _ = false

abbrev not_inactive : ChurchStatus → Bool
not_inactive s = if is_inactive s then false else true

unfoldable pub find_user : Database → ℕ → Option UserRow
find_user db id = find? (λ u. u.id == id) db.users

unfoldable pub find_church : Database → ℕ → Option ChurchRow
find_church db id = find? (λ c. c.id == id) db.churches

unfoldable pub find_event : Database → ℕ → Option EventRow
find_event db id = find? (λ e. e.id == id) db.events

unfoldable pub find_payment : Database → ℕ → Option PaymentRow
find_payment db id = find? (λ p. p.id == id) db.payments

unfoldable pub find_news : Database → ℕ → Option NewsRow
find_news db id = find? (λ n. n.id == id) db.news

-- `VINCULO_VALE`: the church is not inactive.
unfoldable pub vinculo_vale : Database → ℕ → Bool
vinculo_vale db church_id = any (λ c. c.id == church_id && not_inactive c.status) db.churches

-- `SELECT_TENANT`, applied to a row: the links with inactive churches are left out.
unfoldable pub select_tenant : Database → UserRow → TenantRequester
unfolding vinculo_vale
select_tenant db u = record {
  role = some u.role;
  church_roles = filter (λ vinculo. vinculo_vale db vinculo.church_id) u.church_roles;
}
