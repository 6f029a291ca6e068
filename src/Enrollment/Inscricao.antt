-- ===== src/Enrollment/Inscricao.antt =====
-- `_registerUserInEventTx` of src/event/event.service.ts: one person asks for roles of an event, and
-- gets for each a registration with its charge or a place on the waitlist.
use sistema_iccv_backend.Common.{
  ℕ, Bool, false, not, ◌&&◌, ◌||◌, Option, none, some, List, [], ◌∷◌, ◌++◌, map, ltb, leb, ◌==◌,
  if◌then◌else◌, length, filter, any, find?, includes, nat_eq, Result, ok, err, ◌>>◌, ◌>>=◌,
  require, or_throw,
}
use sistema_iccv_backend.Pricing.{paid, waiting}
use sistema_iccv_backend.Store.{get, or_zero}
use sistema_iccv_backend.Enrollment.Janela.{Fechado, grupo_fechado, calculate_age, idade_do_termo}
use sistema_iccv_backend.Enrollment.Cadastro.{
  Papel, Usuario, Evento, MinorApproval, Inscrito, Registro, EmEspera, Cobranca, Cadastro,
  EnrollmentError, Resultado, pending, not_required, other, cash, usuario_nao_encontrado,
  evento_nao_encontrado, conta_bloqueada, roles_invalidos, grupos_repetidos, ja_registrado,
  ja_no_grupo, ja_na_espera, fechado, waitlisted, registered,
}

-- `new Set(ids).size !== ids.length`
abbrev pub repete : List ℕ → Bool
repete [] = false
repete (x ∷ xs) = includes x xs || repete xs

-- `where: { id: { in: ids }, group: { eventId } }`
unfoldable pub papeis_pedidos : List Papel → (ids : List ℕ) → (event_id : ℕ) → List Papel
papeis_pedidos papeis ids event_id =
    filter (λ p. includes p.id ids && p.grupo.event_id == event_id) papeis

abbrev pub grupos_de : List Papel → List ℕ
grupos_de papeis = map (λ p. p.grupo.id) papeis

-- `where: { userId, eventId }`
abbrev pub da_pessoa : (user_id event_id : ℕ) → Registro → Bool
da_pessoa user_id event_id r = r.user_id == user_id && r.event_id == event_id

-- `where: { eventId, role: { groupId } }`
abbrev pub no_grupo : (event_id grupo_id : ℕ) → Registro → Bool
no_grupo event_id grupo_id r = r.event_id == event_id && r.papel.grupo.id == grupo_id

abbrev pub vagas_tomadas : List Registro → (event_id grupo_id : ℕ) → ℕ
vagas_tomadas registros event_id grupo_id = length (filter (no_grupo event_id grupo_id) registros)

-- The first closed group among the roles.
unfoldable pub primeiro_fechado : (agora : ℕ) (fim : Option ℕ) → List Papel → Option Fechado
unfolding grupo_fechado
primeiro_fechado agora fim [] = none
primeiro_fechado agora fim (p ∷ ps) =
    let rest = primeiro_fechado agora fim ps in
    elim (grupo_fechado p.grupo.janela agora fim) [ none ↦ rest | some motivo ↦ some motivo ]

abbrev pub aberto : Option Fechado → Result EnrollmentError (Unit {0})
aberto none = ok tt
aberto (some motivo) = err (fechado motivo)

-- `count >= capacity`; `none` is no limit.
abbrev pub cheio : Option ℕ → ℕ → Bool
cheio none count = false
cheio (some capacity) count = leb capacity count

-- What the loop knows of the person: `minorApprovalStatus` and `aceitouTermo`.
pub record Pedido : Type 0 where
  pub user_id : ℕ
  pub event_id : ℕ
  pub minor_approval : MinorApproval
  pub aceitou_termo : Bool

-- `eventOnUsers.upsert`: an existing row only gains the stamp of the acceptance.
unfoldable pub upsert : Pedido → List Inscrito → List Inscrito
upsert q [] =
    record {
      user_id = q.user_id;
      event_id = q.event_id;
      minor_approval = q.minor_approval;
      terms_accepted = q.aceitou_termo;
    }
    ∷ []
upsert q (i ∷ is) =
    let rest = upsert q is in
    if i.user_id == q.user_id && i.event_id == q.event_id
    then record i { terms_accepted = i.terms_accepted || q.aceitou_termo } ∷ is
    else i ∷ rest

abbrev pub novo_registro : Pedido → Papel → Registro
novo_registro q p = record { user_id = q.user_id; event_id = q.event_id; papel = p }

abbrev pub nova_espera : Pedido → Papel → EmEspera
nova_espera q p = record { user_id = q.user_id; event_id = q.event_id; role_id = p.id }

abbrev pub nova_cobranca : Pedido → Papel → Cobranca
nova_cobranca q p = record {
  user_id = q.user_id;
  event_id = q.event_id;
  role_id = some p.id;
  amount = p.price;
  status = if ltb 0 p.price then waiting else paid;
  method = if ltb 0 p.price then other else cash;
}

abbrev pub com_registro : Pedido → Papel → Cadastro → Cadastro
com_registro q p c = record c {
  inscritos = upsert q c.inscritos;
  registros = c.registros ++ novo_registro q p ∷ [];
  cobrancas = c.cobrancas ++ nova_cobranca q p ∷ [];
}

abbrev pub com_espera : Pedido → Papel → Cadastro → Cadastro
com_espera q p c = record c { esperas = c.esperas ++ nova_espera q p ∷ [] }

-- `!(capacity !== null && count >= capacity)`, from the counts taken before the loop
-- (`countByGroupId`).
abbrev pub tem_vaga : List (ℕ × ℕ) → Papel → Bool
tem_vaga counts p = not (cheio p.grupo.capacity (or_zero (get counts p.grupo.id)))

abbrev pub resultado_de : List (ℕ × ℕ) → Papel → Resultado
resultado_de counts p = record {
  role_id = p.id;
  tipo = if tem_vaga counts p then registered else waitlisted;
}

-- "Processa role por role".
unfoldable pub processar : Pedido → List (ℕ × ℕ) → List Papel → Cadastro → Cadastro × List Resultado
processar q counts [] c = (c, [])
processar q counts (p ∷ ps) c =
    let c' = if tem_vaga counts p then com_registro q p c else com_espera q p c in
    let rest = processar q counts ps c' in (rest.0, resultado_de counts p ∷ rest.1)

abbrev pub counts_de : List Registro → (event_id : ℕ) → List ℕ → List (ℕ × ℕ)
counts_de registros event_id grupos = map (λ g. (g, vagas_tomadas registros event_id g)) grupos

unfoldable pub minor_approval_de : Usuario → Evento → MinorApproval
unfolding calculate_age idade_do_termo
minor_approval_de user event =
    if ltb (calculate_age user.birthday event.start_date) (idade_do_termo event.minor_age_limit)
    then pending
    else not_required

-- The checks of steps 2 to 7 on the roles, in the order of the source.
unfoldable pub conferir :
    Cadastro
    → (event_id : ℕ) → (fim_do_evento : Option ℕ) → (user_id : ℕ) → (ids : List ℕ)
    → (respeitar_janela : Bool) → (agora : ℕ) → List Papel
    → Result EnrollmentError (Unit {0})
unfolding primeiro_fechado
conferir c event_id fim_do_evento user_id ids respeitar_janela agora papeis =
    let existentes = filter (da_pessoa user_id event_id) c.registros in
    require (length papeis == length ids) roles_invalidos
    >> require (not (repete (grupos_de papeis))) grupos_repetidos
    >> (if respeitar_janela then aberto (primeiro_fechado agora fim_do_evento papeis) else ok tt)
    >> require (not (any (λ i. includes i (map (λ r. r.papel.id) existentes)) ids)) ja_registrado
    >> require
        (not (any (λ g. includes g (map (λ r. r.papel.grupo.id) existentes)) (grupos_de papeis)))
        ja_no_grupo
    >> require
        (not (
          any (λ w. w.user_id == user_id && w.event_id == event_id && includes w.role_id ids)
            c.esperas))
        ja_na_espera

-- The whole transaction; the caller has checked the acceptance of the terms.
unfoldable pub registrar :
    (agora : ℕ) (aceitou_termo respeitar_janela : Bool) (user_id event_id : ℕ) (ids : List ℕ)
    → Cadastro
    → Result EnrollmentError (Cadastro × List Resultado)
unfolding papeis_pedidos conferir minor_approval_de processar
registrar agora aceitou_termo respeitar_janela user_id event_id ids c = do
  user ← or_throw (find? (λ u. u.id == user_id) c.usuarios) usuario_nao_encontrado
  event ← or_throw (find? (λ e. e.id == event_id) c.eventos) evento_nao_encontrado
  require (not (respeitar_janela && user.blocked)) conta_bloqueada
  let papeis = papeis_pedidos c.papeis ids event_id
  conferir c event_id event.end_date user_id ids respeitar_janela agora papeis
  ok (
      processar
        record {
          user_id = user_id;
          event_id = event_id;
          minor_approval = minor_approval_de user event;
          aceitou_termo = aceitou_termo;
        }
        (counts_de c.registros event_id (grupos_de papeis)) papeis c)
