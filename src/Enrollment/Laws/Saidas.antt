-- ===== src/Enrollment/Laws/Saidas.antt =====
-- Leaving an event, and moving from the waitlist to the seat of someone who leaves, in
-- src/event/event.service.ts.
use sistema_iccv_backend.Common.{
  ok-inj, subst, ◌&&◌, Removed, filter-Removed, ℕ, ◌+◌, ◌≡◌, refl, inl, inr, Bool, false, not, none,
  some, List, [], ◌∷◌, arith, ◌==◌, Bool-cases, length, filter, any, ok, require->>,
}
use sistema_iccv_backend.Enrollment.Cadastro.{
  Registro, Cobranca, usuario_nao_encontrado, evento_nao_encontrado, registro_inexistente,
}
use sistema_iccv_backend.Enrollment.Inscricao.{da_pessoa, vagas_tomadas}
use sistema_iccv_backend.Enrollment.Mudancas.{
  Painel, inscrito_da_pessoa, lugar_da_pessoa, excluir_inscrito, espera_da_pessoa, do_ingresso,
  da_inscricao, sair, remove_user_from_event,
}
use sistema_iccv_backend.Enrollment.Laws.Contagem.{na_vez}

-- The rows a deletion takes are those of the person.
freed :
    (u e g : ℕ) (rs : List Registro)
    → vagas_tomadas (filter (λ r. not (da_pessoa u e r)) rs) e g + length (filter (na_vez u e g) rs)
      ≡ vagas_tomadas rs e g
freed u e g [] = omega arith
freed u e g (r ∷ rs) = elim (Bool-cases (da_pessoa u e r)) [
  | inl b ↦ ground (arith, freed u e g rs)
  | inr b ↦ ground (arith, freed u e g rs)
]

left_inv :
    (user_id event_id role_id : ℕ) (p : Painel) {p' : Painel}
    → remove_user_from_event user_id event_id role_id p ≡ ok p'
    → sair user_id event_id p ≡ p'
unfolding remove_user_from_event
left_inv user_id event_id role_id p h =
    let (_, h1) =
      require->> (any (λ u. u.id == user_id) p.cadastro.usuarios) usuario_nao_encontrado _ h in
    let (_, h2) =
      require->> (any (λ e. e.id == event_id) p.cadastro.eventos) evento_nao_encontrado _ h1 in
    let (_, h3) =
      require->> (any (da_inscricao user_id event_id role_id) p.cadastro.registros)
        registro_inexistente _ h2 in
    ok-inj h3

-- A row of the person in the event, by its two columns.
abbrev pub seu : (user_id event_id : ℕ) → (user_da_linha evento_da_linha : ℕ) → Bool
seu user_id event_id user_da_linha evento_da_linha =
    user_da_linha == user_id && evento_da_linha == event_id

abbrev pub ingresso_seu : (user_id event_id : ℕ) → Cobranca → Bool
ingresso_seu user_id event_id p = elim p.role_id [
  | none ↦ false
  | some role_id ↦ seu user_id event_id p.user_id p.event_id
]

-- In every table the person's rows of the event are gone, and all other rows are as they were: those
-- of other people, those of other events, and the charges without a role.
pub record Saiu (user_id event_id : ℕ) (antes depois : Painel) : Type 0 where
  pub inscritos :
      Removed
        (λ i. seu user_id event_id i.user_id i.event_id)
        antes.cadastro.inscritos
        depois.cadastro.inscritos
  pub registros :
      Removed
        (λ r. seu user_id event_id r.user_id r.event_id)
        antes.cadastro.registros
        depois.cadastro.registros
  pub esperas :
      Removed
        (λ w. seu user_id event_id w.user_id w.event_id)
        antes.cadastro.esperas
        depois.cadastro.esperas
  pub cobrancas :
      Removed (ingresso_seu user_id event_id) antes.cadastro.cobrancas depois.cadastro.cobrancas
  pub checkouts :
      Removed (λ k. ingresso_seu user_id event_id k.payment) antes.checkouts depois.checkouts
  pub quartos :
      Removed (λ l. seu user_id event_id l.user_id l.event_id) antes.quartos depois.quartos
  pub transportes :
      Removed (λ l. seu user_id event_id l.user_id l.event_id) antes.transportes depois.transportes
  pub equipes :
      Removed (λ l. seu user_id event_id l.user_id l.event_id) antes.equipes depois.equipes
  pub usuarios : depois.cadastro.usuarios ≡ antes.cadastro.usuarios
  pub eventos : depois.cadastro.eventos ≡ antes.cadastro.eventos
  pub papeis : depois.cadastro.papeis ≡ antes.cadastro.papeis

ingresso_same : (u e : ℕ) (p : Cobranca) → ingresso_seu u e p ≡ do_ingresso u e p
ingresso_same u e p = ground arith

sair-Saiu : (u e : ℕ) (p : Painel) → Saiu u e p (sair u e p)
unfolding sair excluir_inscrito
sair-Saiu u e p = record {
  inscritos = filter-Removed _ (inscrito_da_pessoa u e) p.cadastro.inscritos (λ i. refl);
  registros = filter-Removed _ (da_pessoa u e) p.cadastro.registros (λ r. refl);
  esperas = filter-Removed _ (espera_da_pessoa u e) p.cadastro.esperas (λ w. refl);
  cobrancas = filter-Removed _ (do_ingresso u e) p.cadastro.cobrancas (ingresso_same u e);
  checkouts =
      filter-Removed _ (λ k. do_ingresso u e k.payment) p.checkouts
        (λ k. ingresso_same u e k.payment);
  quartos = filter-Removed _ (lugar_da_pessoa u e) p.quartos (λ l. refl);
  transportes = filter-Removed _ (lugar_da_pessoa u e) p.transportes (λ l. refl);
  equipes = filter-Removed _ (lugar_da_pessoa u e) p.equipes (λ l. refl);
  usuarios = refl;
  eventos = refl;
  papeis = refl;
}

-- Leaving an event frees the person's seats and only those. After a success each group of the event
-- has as many registrations as before less those the person had in it; and in the tables of the
-- registrations, of their roles, of the waitlist, of the charges with a role, of their checkouts, of
-- the bedrooms, the transports and the teams, the person's rows of this event are gone and every
-- other row, of other people, of other events or a charge without a role, is as it was.
pub remove_user_from_event-frees :
    (user_id event_id role_id : ℕ) (p : Painel) {p' : Painel}
    → remove_user_from_event user_id event_id role_id p ≡ ok p'
    → ((g : ℕ)
        → vagas_tomadas p'.cadastro.registros event_id g
            + length (filter (na_vez user_id event_id g) p.cadastro.registros)
          ≡ vagas_tomadas p.cadastro.registros event_id g)
      × Saiu user_id event_id p p'
unfolding remove_user_from_event sair excluir_inscrito
remove_user_from_event-frees user_id event_id role_id p h =
    subst
      (λ q.
        ((g : ℕ)
          → vagas_tomadas q.cadastro.registros event_id g
              + length (filter (na_vez user_id event_id g) p.cadastro.registros)
            ≡ vagas_tomadas p.cadastro.registros event_id g)
        × Saiu user_id event_id p q)
      (left_inv user_id event_id role_id p h)
      (λ g. freed user_id event_id g p.cadastro.registros, sair-Saiu user_id event_id p)
