-- ===== src/Enrollment/Mudancas.antt =====
-- The other transactions of src/event/event.service.ts on registrations: changing groups, leaving the
-- event, leaving the waitlist, and moving from the waitlist to the seat of someone who leaves.
use sistema_iccv_backend.Common.{
  ℕ, Bool, true, false, not, ◌&&◌, ◌||◌, Option, none, some, List, [], ◌∷◌, ◌==◌, filter, any,
  find?, is_empty, Result, ok, ◌>>◌, ◌>>=◌, require, or_throw,
}
use sistema_iccv_backend.Enrollment.Cadastro.{
  Inscrito, Registro, EmEspera, Cobranca, Cadastro, Resultado, waitlisted, registered,
  EnrollmentError, usuario_nao_encontrado, evento_nao_encontrado, nao_inscrito,
  registro_inexistente, espera_inexistente, papel_inexistente, nenhuma_regra, sem_vagas,
  roles_invalidos,
}
use sistema_iccv_backend.Enrollment.Inscricao.{repete, da_pessoa, registrar}

-- `registerUserInEvent` after its checks of the requester, whose outcome is the two Booleans: false
-- where the call has no requester. A retry runs the same transaction again.
unfoldable pub inscrever :
    (agora : ℕ) (aceitou_termo respeitar_janela : Bool) (user_id event_id : ℕ) (ids : List ℕ)
    → Cadastro
    → Result EnrollmentError (Cadastro × List Resultado)
unfolding registrar
inscrever agora aceitou_termo respeitar_janela user_id event_id ids c = do
  require (not (is_empty ids)) nenhuma_regra
  require (not (repete ids)) roles_invalidos
  registrar agora aceitou_termo respeitar_janela user_id event_id ids c

abbrev pub inscrito_da_pessoa : (user_id event_id : ℕ) → Inscrito → Bool
inscrito_da_pessoa user_id event_id i = i.user_id == user_id && i.event_id == event_id

abbrev pub espera_da_pessoa : (user_id event_id : ℕ) → EmEspera → Bool
espera_da_pessoa user_id event_id w = w.user_id == user_id && w.event_id == event_id

-- `{ userId, eventId, roleRegistrationId: { not: null } }`: the charges of the person's roles.
abbrev pub tem_papel : Option ℕ → Bool
tem_papel none = false
tem_papel (some role_id) = true

abbrev pub do_ingresso : (user_id event_id : ℕ) → Cobranca → Bool
do_ingresso user_id event_id p =
    p.user_id == user_id && p.event_id == event_id && tem_papel p.role_id

-- `eventOnUsers.deleteMany({ where: { userId, eventId } })`, which the schema's `onDelete: Cascade`
-- carries on to the registrations and from them to their charges.
unfoldable pub excluir_inscrito : (user_id event_id : ℕ) → Cadastro → Cadastro
excluir_inscrito user_id event_id c = record c {
  inscritos = filter (λ i. not (inscrito_da_pessoa user_id event_id i)) c.inscritos;
  registros = filter (λ r. not (da_pessoa user_id event_id r)) c.registros;
  cobrancas = filter (λ p. not (do_ingresso user_id event_id p)) c.cobrancas;
}

-- `removeRelation`.
unfoldable pub remove_relation : (user_id event_id : ℕ) → Cadastro → Result EnrollmentError Cadastro
unfolding excluir_inscrito
remove_relation user_id event_id c = do
  require (any (inscrito_da_pessoa user_id event_id) c.inscritos) nao_inscrito
  ok (excluir_inscrito user_id event_id c)

abbrev pub ficou_na_espera : Resultado → Bool
ficou_na_espera r = elim r.tipo [ waitlisted ↦ true | registered ↦ false ]

unfoldable pub update_user_from_event :
    (agora user_id event_id : ℕ) (ids : List ℕ)
    → Cadastro
    → Result EnrollmentError (Cadastro × List Resultado)
unfolding excluir_inscrito inscrever
update_user_from_event agora user_id event_id ids c = do
  require (any (inscrito_da_pessoa user_id event_id) c.inscritos) nao_inscrito
  r ← inscrever agora false false user_id event_id ids (excluir_inscrito user_id event_id c)
  require (not (any ficou_na_espera r.1)) sem_vagas
  ok r

-- `BedroomsOnUsers`, `TransportOnUsers` and `TeamOnUsers`, each with its event; `PaymentCheckout` with
-- its payment.
pub record Lugar : Type 0 where
  pub user_id : ℕ
  pub event_id : ℕ

pub record Checkout : Type 0 where
  pub payment : Cobranca

pub record Painel : Type 0 where
  pub cadastro : Cadastro
  pub checkouts : List Checkout
  pub quartos : List Lugar
  pub transportes : List Lugar
  pub equipes : List Lugar

abbrev pub lugar_da_pessoa : (user_id event_id : ℕ) → Lugar → Bool
lugar_da_pessoa user_id event_id l = l.user_id == user_id && l.event_id == event_id

abbrev pub da_inscricao : (user_id event_id role_id : ℕ) → Registro → Bool
da_inscricao user_id event_id role_id r = da_pessoa user_id event_id r && r.papel.id == role_id

-- The body of the transaction of `removeUserFromEvent`.
unfoldable pub sair : (user_id event_id : ℕ) → Painel → Painel
unfolding excluir_inscrito
sair user_id event_id p =
    let c = excluir_inscrito user_id event_id p.cadastro in
    record {
      cadastro = record c {
        esperas = filter (λ w. not (espera_da_pessoa user_id event_id w)) c.esperas;
      };
      checkouts = filter (λ k. not (do_ingresso user_id event_id k.payment)) p.checkouts;
      quartos = filter (λ l. not (lugar_da_pessoa user_id event_id l)) p.quartos;
      transportes = filter (λ l. not (lugar_da_pessoa user_id event_id l)) p.transportes;
      equipes = filter (λ l. not (lugar_da_pessoa user_id event_id l)) p.equipes;
    }

unfoldable pub remove_user_from_event :
    (user_id event_id role_id : ℕ) → Painel → Result EnrollmentError Painel
unfolding sair
remove_user_from_event user_id event_id role_id p = do
  require (any (λ u. u.id == user_id) p.cadastro.usuarios) usuario_nao_encontrado
  require (any (λ e. e.id == event_id) p.cadastro.eventos) evento_nao_encontrado
  require (any (da_inscricao user_id event_id role_id) p.cadastro.registros) registro_inexistente
  ok (sair user_id event_id p)

-- One row of the waitlist: `@@unique([userId, eventId, roleRegistrationId])`.
abbrev pub na_fila : (user_id event_id role_id : ℕ) → EmEspera → Bool
na_fila user_id event_id role_id w = espera_da_pessoa user_id event_id w && w.role_id == role_id

unfoldable pub sair_da_fila : (user_id event_id role_id : ℕ) → Cadastro → Cadastro
sair_da_fila user_id event_id role_id c = record c {
  esperas = filter (λ w. not (na_fila user_id event_id role_id w)) c.esperas;
}

unfoldable pub remove_user_from_event_waitlist :
    (user_id event_id role_id : ℕ) → Cadastro → Result EnrollmentError Cadastro
unfolding sair_da_fila
remove_user_from_event_waitlist user_id event_id role_id c = do
  require (any (na_fila user_id event_id role_id) c.esperas) espera_inexistente
  ok (sair_da_fila user_id event_id role_id c)

-- The two deletions of `movedUserFromWaitlistToEvent`: the registrations of the person who leaves in
-- the role's group, with their charges, and then the person's row if no registration is left.
abbrev pub no_grupo_da_pessoa : (user_id event_id grupo_id : ℕ) → Registro → Bool
no_grupo_da_pessoa user_id event_id grupo_id r =
    da_pessoa user_id event_id r && r.papel.grupo.id == grupo_id

abbrev cobra : Option ℕ → ℕ → Bool
cobra none role_id = false
cobra (some j) role_id = j == role_id

abbrev cobra_registro : Cobranca → Registro → Bool
cobra_registro p r =
    p.user_id == r.user_id && p.event_id == r.event_id && cobra p.role_id r.papel.id

unfoldable pub liberar_vaga : (removed_id event_id grupo_id : ℕ) → Cadastro → Cadastro
liberar_vaga removed_id event_id grupo_id c =
    let saem = filter (no_grupo_da_pessoa removed_id event_id grupo_id) c.registros in
    let ficam = filter (λ r. not (no_grupo_da_pessoa removed_id event_id grupo_id r)) c.registros in
    record c {
      registros = ficam;
      cobrancas = filter (λ p. not (any (cobra_registro p) saem)) c.cobrancas;
      inscritos =
          filter
            (λ i.
              not (inscrito_da_pessoa removed_id event_id i)
              || any (da_pessoa removed_id event_id) ficam)
            c.inscritos;
    }

-- `registration[0].type === 'WAITLIST'`; the request has one role.
abbrev pub primeiro_na_espera : List Resultado → Bool
primeiro_na_espera [] = false
primeiro_na_espera (r ∷ rs) = ficou_na_espera r

unfoldable pub moved_user_from_waitlist_to_event :
    (agora user_id removed_id event_id role_id : ℕ)
    → Cadastro
    → Result EnrollmentError (Cadastro × List Resultado)
unfolding sair_da_fila liberar_vaga inscrever
moved_user_from_waitlist_to_event agora user_id removed_id event_id role_id c = do
  entry ← or_throw (find? (na_fila user_id event_id role_id) c.esperas) espera_inexistente
  let c1 = sair_da_fila user_id event_id role_id c
  papel ← or_throw (find? (λ p. p.id == role_id) c1.papeis) papel_inexistente
  let c2 = liberar_vaga removed_id event_id papel.grupo.id c1
  r ← inscrever agora false false user_id event_id (entry.role_id ∷ []) c2
  require (not (primeiro_na_espera r.1)) sem_vagas
  ok r
