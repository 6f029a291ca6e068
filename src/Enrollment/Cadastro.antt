-- ===== src/Enrollment/Cadastro.antt =====
-- The tables of src/prisma/schema.prisma that the registration in src/event/event.service.ts reads and
-- writes, with their columns that it uses.
use sistema_iccv_backend.Common.{ℕ, Bool, Option, List}
use sistema_iccv_backend.Pricing.{PaymentStatus}
use sistema_iccv_backend.Enrollment.Janela.{JanelaDoGrupo, Fechado, Data}

-- `GroupRoles`, `RolesRegistration` (with its group, as `include` joins it), and the columns of `User`
-- and `Event` that are read. `blocked` says whether `User.block` is set.
pub record Grupo : Type 0 where
  pub id : ℕ
  pub event_id : ℕ
  pub capacity : Option ℕ
  pub janela : JanelaDoGrupo

pub record Papel : Type 0 where
  pub id : ℕ
  pub price : ℕ
  pub grupo : Grupo

pub record Usuario : Type 0 where
  pub id : ℕ
  pub birthday : Data
  pub blocked : Bool

pub record Evento : Type 0 where
  pub id : ℕ
  pub start_date : Data
  pub end_date : Option ℕ
  pub minor_age_limit : Option ℕ

pub data MinorApproval : Type 0 where
  pending not_required : MinorApproval

pub data Metodo : Type 0 where
  other cash : Metodo

-- `EventOnUsers`, `EventOnUsersRolesRegistration` (with its role), `Waitlist` and `Payment`.
pub record Inscrito : Type 0 where
  pub user_id : ℕ
  pub event_id : ℕ
  pub minor_approval : MinorApproval
  pub terms_accepted : Bool

pub record Registro : Type 0 where
  pub user_id : ℕ
  pub event_id : ℕ
  pub papel : Papel

pub record EmEspera : Type 0 where
  pub user_id : ℕ
  pub event_id : ℕ
  pub role_id : ℕ

pub record Cobranca : Type 0 where
  pub user_id : ℕ
  pub event_id : ℕ
  pub role_id : Option ℕ
  pub amount : ℕ
  pub status : PaymentStatus
  pub method : Metodo

pub record Cadastro : Type 0 where
  pub usuarios : List Usuario
  pub eventos : List Evento
  pub papeis : List Papel
  pub inscritos : List Inscrito
  pub registros : List Registro
  pub esperas : List EmEspera
  pub cobrancas : List Cobranca

pub data EnrollmentError : Type 0 where
  -- 404
  usuario_nao_encontrado evento_nao_encontrado nao_inscrito registro_inexistente : EnrollmentError
  espera_inexistente papel_inexistente : EnrollmentError
  -- 403
  conta_bloqueada : EnrollmentError
  -- 400
  nenhuma_regra sem_vagas : EnrollmentError
  roles_invalidos grupos_repetidos ja_registrado ja_no_grupo ja_na_espera : EnrollmentError
  fechado : Fechado → EnrollmentError

pub data Tipo : Type 0 where
  waitlisted registered : Tipo

-- `{ roleId, type, data }`, the row being in the tables.
pub record Resultado : Type 0 where
  pub role_id : ℕ
  pub tipo : Tipo
