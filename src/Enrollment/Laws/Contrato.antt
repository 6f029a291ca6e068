-- ===== src/Enrollment/Laws/Contrato.antt =====
-- What `_registerUserInEventTx` of src/event/event.service.ts promises: who is seated, who waits, and
-- which rows are written.
use sistema_iccv_backend.Common.{
  ℕ, ◌≡◌, refl, ap, ◌∙◌, inl, inr, Bool, true, not, ◌&&◌, ◌||◌, none, some, List, [], ◌∷◌, ◌++◌,
  map, Memᴰ, arith, ltb, ◌==◌, if◌then◌else◌, Option-cases, length, filter, any, find?, includes,
  nat_eq, All, ok, subst, mem_map,
}
use sistema_iccv_backend.Enrollment.Cadastro.{
  Papel, Usuario, Evento, MinorApproval, Registro, Cadastro, Resultado, registered, waitlisted,
}
use sistema_iccv_backend.Enrollment.Inscricao.{
  tem_vaga, papeis_pedidos, grupos_de, counts_de, minor_approval_de, registrar,
}
use sistema_iccv_backend.Enrollment.Laws.Contagem.{get-counts}
use sistema_iccv_backend.Enrollment.Laws.Vagas.{pedido_de, counts, registrar_inv}
use sistema_iccv_backend.Enrollment.Laws.Atendimento.{
  registro_de, espera_de, cobranca_de, da, inscrito_depois, processar-Atendido, Atendido,
}

-- Two tests that agree on the roles say the same.
module _ (v w : Papel → Bool) where
  filter-agree : (ps : List Papel) → All (λ p. v p ≡ w p) ps → filter v ps ≡ filter w ps
  filter-agree [] h = refl
  filter-agree (p ∷ ps) h = rw h.0 (ap (λ l. if w p then p ∷ l else l) (filter-agree ps h.1))

  filter-not-agree :
      (ps : List Papel)
      → All (λ p. v p ≡ w p) ps
      → filter (λ p. not (v p)) ps ≡ filter (λ p. not (w p)) ps
  filter-not-agree [] h = refl
  filter-not-agree (p ∷ ps) h =
      rw h.0 (ap (λ l. if not (w p) then p ∷ l else l) (filter-not-agree ps h.1))

  any-agree : (ps : List Papel) → All (λ p. v p ≡ w p) ps → any v ps ≡ any w ps
  any-agree [] h = refl
  any-agree (p ∷ ps) h = rw h.0 (ap (λ b. w p || b) (any-agree ps h.1))

  map-agree :
      {A : Type 0} (f : Papel → Bool → A) (ps : List Papel)
      → All (λ p. v p ≡ w p) ps
      → map (λ p. f p (v p)) ps ≡ map (λ p. f p (w p)) ps
  map-agree f [] h = refl
  map-agree f (p ∷ ps) h = rw h.0 (ap (λ l. f p (w p) ∷ l) (map-agree f ps h.1))

  Atendido-agree :
      (u e : ℕ) (minor : MinorApproval) (termo : Bool) (ps : List Papel) (c c' : Cadastro)
      (rs : List Resultado)
      → All (λ p. v p ≡ w p) ps
      → Atendido u e minor termo v ps c c' rs
      → Atendido u e minor termo w ps c c' rs
  Atendido-agree u e minor termo ps c c' rs h r = record {
    registros = r.registros ∙ ap (λ l. c.registros ++ map (registro_de u e) l) (filter-agree ps h);
    cobrancas = r.cobrancas ∙ ap (λ l. c.cobrancas ++ map (cobranca_de u e) l) (filter-agree ps h);
    esperas = r.esperas ∙ ap (λ l. c.esperas ++ map (espera_de u e) l) (filter-not-agree ps h);
    respostas =
        r.respostas
        ∙ map-agree (λ p b. record { role_id = p.id; tipo = if b then registered else waitlisted })
            ps h;
    inscrito =
        r.inscrito
        ∙ ap (λ b. inscrito_depois u e minor termo b (find? (da u e) c.inscritos)) (any-agree ps h);
    outros = r.outros;
    papeis = r.papeis;
    usuarios = r.usuarios;
    eventos = r.eventos;
  }

-- The roles asked for, of this event.
abbrev pub pedidos : List Papel → (ids : List ℕ) → (event_id : ℕ) → List Papel
pedidos ps ids event_id = filter (λ p. includes p.id ids && p.grupo.event_id == event_id) ps

-- The group of the role has room: it has no capacity, or fewer registrations in the event than it.
abbrev pub ha_vaga : List Registro → (event_id : ℕ) → Papel → Bool
ha_vaga registros event_id p = elim p.grupo.capacity [
  | none ↦ true
  | some capacity ↦
      ltb
        (length (filter (λ r. r.event_id == event_id && r.papel.grupo.id == p.grupo.id) registros))
        capacity
]

vaga-ha_vaga :
    (registros : List Registro) (e : ℕ) (all_ : List Papel) (p : Papel)
    → Memᴰ p all_
    → tem_vaga (counts_de registros e (grupos_de all_)) p ≡ ha_vaga registros e p
vaga-ha_vaga registros e all_ p m =
    let found =
      get-counts registros e p.grupo.id (grupos_de all_) (mem_map (λ p. p.grupo.id) all_ m) in
    elim (Option-cases p.grupo.capacity) [
      | inl none' ↦ rw none' refl
      | inr (k, some') ↦ rw (some', found) (ground arith)
    ]

vagas-ha_vaga :
    (registros : List Registro) (e : ℕ) (all_ ps : List Papel)
    → ((p : Papel) → Memᴰ p ps → Memᴰ p all_)
    → All (λ p. tem_vaga (counts_de registros e (grupos_de all_)) p ≡ ha_vaga registros e p) ps
vagas-ha_vaga registros e all_ [] f = tt
vagas-ha_vaga registros e all_ (p ∷ ps) f = (
  vaga-ha_vaga registros e all_ p (f p (Memᴰ.head refl)),
  vagas-ha_vaga registros e all_ ps (λ x m. f x (Memᴰ.tail m)),
)

-- A registration that goes through seats the person in each role asked for whose group has no
-- capacity or had fewer registrations in the event than its capacity before the request, and puts the
-- person on the waitlist of each other role, in the order of the register. For a seat it adds a
-- registration and a charge of the role's price, paid in cash if that is zero and waiting if not, and
-- writes the person's row in the event; for a place on the waitlist no other row. The answer says
-- which is which. Everything else stays as it was.
pub registrar-Atendido :
    (agora : ℕ) (aceitou_termo respeitar_janela : Bool) (user_id event_id : ℕ) (ids : List ℕ)
    (c : Cadastro) {c' : Cadastro} {rs : List Resultado}
    → registrar agora aceitou_termo respeitar_janela user_id event_id ids c ≡ ok (c', rs)
    → (user : Usuario) × (event : Evento) × (find? (λ u. u.id == user_id) c.usuarios ≡ some user)
      × (find? (λ e. e.id == event_id) c.eventos ≡ some event)
      × Atendido user_id event_id
          (minor_approval_de user event)
          aceitou_termo
          (ha_vaga c.registros event_id)
          (pedidos c.papeis ids event_id)
          c
          c'
          rs
unfolding papeis_pedidos
registrar-Atendido agora aceitou_termo respeitar_janela user_id event_id ids c {c'} {rs} h =
    let i = registrar_inv agora aceitou_termo respeitar_janela user_id event_id ids c h in
    let ps = pedidos c.papeis ids event_id in
    let k = counts agora aceitou_termo respeitar_janela user_id event_id ids c in
    let q = pedido_de agora aceitou_termo respeitar_janela user_id event_id ids c i.user i.event in
    let minor = minor_approval_de i.user i.event in
    let loop : Atendido user_id event_id minor aceitou_termo (tem_vaga k) ps c c' rs =
      subst (λ r. Atendido user_id event_id minor aceitou_termo (tem_vaga k) ps c r.0 r.1) i.done
        (processar-Atendido q k ps c) in
    (
      i.user,
      i.event,
      i.found_user,
      i.found_event,
      Atendido-agree (tem_vaga k) (ha_vaga c.registros event_id) user_id event_id minor
          aceitou_termo ps c c' rs (vagas-ha_vaga c.registros event_id ps ps (λ p m. m)) loop,
    )
