-- ===== src/Access/Roles.antt =====
-- src/auth/roles.ts and src/auth/bloqueio.ts: the access profiles, and who may block whom.
-- The enum's numbers (-1, 1, 2, 3, 5) are compared for equality only, so the profiles are a data
-- type. A stored profile that may be null is an `Option`.
use sistema_iccv_backend.Common.{
  ℕ, ◌≡◌, ◌↔◌, Bool, true, false, not, Option, none, some, List, [], ◌∷◌, arith, Eq, ◌==◌,
  if◌then◌else◌, includes,
}

pub data Role : Type 0 where
  dev super_admin admin tesouraria user : Role

abbrev pub same_role : Role → Role → Bool
same_role dev dev = true
same_role super_admin super_admin = true
same_role admin admin = true
same_role tesouraria tesouraria = true
same_role user user = true
same_role _ _ = false

pub same_role_iff : (a b : Role) → (same_role a b ≡ true) ↔ (a ≡ b)
same_role_iff a b = ground arith

instance abbrev pub role_eq : Eq Role
role_eq = record { same = same_role; same_iff = same_role_iff }

abbrev pub super_admin_roles : List Role
super_admin_roles = dev ∷ super_admin ∷ []

abbrev pub admin_roles : List Role
admin_roles = dev ∷ super_admin ∷ admin ∷ []

abbrev pub church_roles : List Role
church_roles = admin ∷ tesouraria ∷ []

abbrev pub admin_area_roles : List Role
admin_area_roles = dev ∷ super_admin ∷ admin ∷ tesouraria ∷ []

-- `LISTA.includes(role as Role)`, where the profile may be null or undefined.
abbrev pub includes_role : Option Role → List Role → Bool
includes_role none roles = false
includes_role (some r) roles = includes r roles

abbrev pub is_admin_role : Option Role → Bool
is_admin_role role = includes_role role admin_roles

abbrev pub is_dev_role : Option Role → Bool
is_dev_role none = false
is_dev_role (some r) = same_role r dev

-- A person as the blocking rule sees them.
pub record Conta : Type 0 where
  pub id : ℕ
  pub role : Option Role

unfoldable pub pode_bloquear : Conta → Conta → Bool
pode_bloquear quem_pede alvo =
    if quem_pede.id == alvo.id
    then false
    else if not (includes_role quem_pede.role super_admin_roles)
    then false
    else if includes_role alvo.role super_admin_roles
    then is_dev_role quem_pede.role
    else true
