-- ===== src/Enrollment/Laws/Atendimento.antt =====
-- What the loop of `_registerUserInEventTx` of src/event/event.service.ts leaves in the tables, written
-- without it.
use sistema_iccv_backend.Common.{
  ℕ, ◌≡◌, refl, sym, ap, ◌∙◌, inl, inr, Bool, true, false, not, ◌&&◌, ◌||◌, Option, none, some,
  List, [], ◌∷◌, ◌++◌, map, arith, ltb, ◌==◌, ==_refl, if◌then◌else◌, Bool-cases, filter, any,
  find?, nat_eq,
}
use sistema_iccv_backend.Pricing.{paid, waiting}
use sistema_iccv_backend.Enrollment.Cadastro.{
  Papel, MinorApproval, Inscrito, Registro, EmEspera, Cobranca, Cadastro, Resultado, other, cash,
  registered, waitlisted,
}
use sistema_iccv_backend.Enrollment.Inscricao.{
  Pedido, tem_vaga, upsert, com_registro, com_espera, nova_cobranca, processar,
}
use sistema_iccv_backend.Enrollment.Laws.Loop.{append-nil, after_one}
use sistema_iccv_backend.Enrollment.Laws.Vagas.{counts}

abbrev pub registro_de : (user_id event_id : ℕ) → Papel → Registro
registro_de user_id event_id p = record { user_id = user_id; event_id = event_id; papel = p }

abbrev pub espera_de : (user_id event_id : ℕ) → Papel → EmEspera
espera_de user_id event_id p = record { user_id = user_id; event_id = event_id; role_id = p.id }

-- What is free is paid in cash at once.
abbrev pub cobranca_de : (user_id event_id : ℕ) → Papel → Cobranca
cobranca_de user_id event_id p = record {
  user_id = user_id;
  event_id = event_id;
  role_id = some p.id;
  amount = p.price;
  status = if p.price == 0 then paid else waiting;
  method = if p.price == 0 then cash else other;
}

abbrev pub da : (user_id event_id : ℕ) → Inscrito → Bool
da user_id event_id i = i.user_id == user_id && i.event_id == event_id

-- The person's row in the event: none is made for who only waits, and one that is there keeps its
-- minor's approval and gains the acceptance of the terms.
abbrev pub inscrito_depois :
    (user_id event_id : ℕ)
    → MinorApproval
    → (termo sentou : Bool) → Option Inscrito
    → Option Inscrito
inscrito_depois user_id event_id minor termo false antes = antes
inscrito_depois user_id event_id minor termo true none = some (record {
  user_id = user_id;
  event_id = event_id;
  minor_approval = minor;
  terms_accepted = termo;
})
inscrito_depois user_id event_id minor termo true (some i) =
    some (record i { terms_accepted = i.terms_accepted || termo })

-- The tables after a request for the roles ps, of which those with `vaga` are seated.
pub record Atendido (user_id event_id : ℕ) (minor : MinorApproval) (termo : Bool)
    (vaga : Papel → Bool) (ps : List Papel) (c c' : Cadastro) (rs : List Resultado) : Type 0 where
  pub registros : c'.registros ≡ c.registros ++ map (registro_de user_id event_id) (filter vaga ps)
  pub cobrancas : c'.cobrancas ≡ c.cobrancas ++ map (cobranca_de user_id event_id) (filter vaga ps)
  pub esperas :
      c'.esperas ≡ c.esperas ++ map (espera_de user_id event_id) (filter (λ p. not (vaga p)) ps)
  pub respostas :
      rs ≡ map (λ p. record { role_id = p.id; tipo = if vaga p then registered else waitlisted }) ps
  pub inscrito :
      find? (da user_id event_id) c'.inscritos
      ≡ inscrito_depois user_id event_id minor termo
          (any vaga ps)
          (find? (da user_id event_id) c.inscritos)
  pub outros :
      filter (λ i. not (da user_id event_id i)) c'.inscritos
      ≡ filter (λ i. not (da user_id event_id i)) c.inscritos
  pub papeis : c'.papeis ≡ c.papeis
  pub usuarios : c'.usuarios ≡ c.usuarios
  pub eventos : c'.eventos ≡ c.eventos

cobranca_same : (q : Pedido) (p : Papel) → nova_cobranca q p ≡ cobranca_de q.user_id q.event_id p
cobranca_same q p = elim (Bool-cases (p.price == 0)) [
  | inl e ↦ let free : ltb 0 p.price ≡ false = ground (arith, e) in rw (e, free) refl
  | inr e ↦ let priced : ltb 0 p.price ≡ true = ground (arith, e) in rw (e, priced) refl
]

module _ (q : Pedido) where
  upsert-find :
      (xs : List Inscrito)
      → find? (da q.user_id q.event_id) (upsert q xs)
        ≡ inscrito_depois q.user_id q.event_id q.minor_approval q.aceitou_termo true
            (find? (da q.user_id q.event_id) xs)
  unfolding upsert
  upsert-find [] = rw (==_refl q.user_id, ==_refl q.event_id) refl
  upsert-find (i ∷ xs) = elim (Bool-cases (da q.user_id q.event_id i)) [
    | inl e ↦ rw e (rw e refl)
    | inr e ↦ rw e (rw e (upsert-find xs))
  ]

  upsert-outros :
      (xs : List Inscrito)
      → filter (λ i. not (da q.user_id q.event_id i)) (upsert q xs)
        ≡ filter (λ i. not (da q.user_id q.event_id i)) xs
  unfolding upsert
  upsert-outros [] = rw (==_refl q.user_id, ==_refl q.event_id) refl
  upsert-outros (i ∷ xs) = elim (Bool-cases (da q.user_id q.event_id i)) [
    | inl e ↦ rw e (rw e refl)
    | inr e ↦ rw e (rw e (ap (λ l. i ∷ l) (upsert-outros xs)))
  ]

  -- A second seat of one request writes the person's row again.
  depois-depois :
      (sentou : Bool) (o : Option Inscrito)
      → inscrito_depois q.user_id q.event_id q.minor_approval q.aceitou_termo sentou
          (inscrito_depois q.user_id q.event_id q.minor_approval q.aceitou_termo true o)
        ≡ inscrito_depois q.user_id q.event_id q.minor_approval q.aceitou_termo true o
  depois-depois false o = refl
  depois-depois true none = ground arith
  depois-depois true (some i) = ground arith

  abbrev Cumprido : List (ℕ × ℕ) → List Papel → Cadastro → Cadastro → List Resultado → Type 0
  Cumprido counts = Atendido q.user_id q.event_id q.minor_approval q.aceitou_termo (tem_vaga counts)

  pub processar-Atendido :
      (counts : List (ℕ × ℕ)) (ps : List Papel) (c : Cadastro)
      → Cumprido counts ps c (processar q counts ps c).0 (processar q counts ps c).1
  unfolding processar
  processar-Atendido counts [] c = record {
    registros = sym (append-nil c.registros);
    cobrancas = sym (append-nil c.cobrancas);
    esperas = sym (append-nil c.esperas);
    respostas = refl;
    inscrito = refl;
    outros = refl;
    papeis = refl;
    usuarios = refl;
    eventos = refl;
  }
  processar-Atendido counts (p ∷ ps) c = elim (Bool-cases (tem_vaga counts p)) [
    | inl e ↦ rw e (com_vaga_Atendido (processar-Atendido counts ps (com_registro q p c)) e)
    | inr e ↦ rw e (sem_vaga_Atendido (processar-Atendido counts ps (com_espera q p c)) e)
  ]
    where
      com_vaga_Atendido :
          {c' : Cadastro} {rs : List Resultado}
          → Cumprido counts ps (com_registro q p c) c' rs
          → tem_vaga counts p ≡ true
          → Cumprido counts (p ∷ ps) c c' (record { role_id = p.id; tipo = registered } ∷ rs)
      com_vaga_Atendido r e =
          let depois = inscrito_depois q.user_id q.event_id q.minor_approval q.aceitou_termo in
          let sentados = filter (tem_vaga counts) ps in
          record {
            registros = rw e (
                after_one c.registros (registro_de q.user_id q.event_id p)
                  (map (registro_de q.user_id q.event_id) sentados) r.registros);
            cobrancas = rw e (
                after_one c.cobrancas (nova_cobranca q p)
                  (map (cobranca_de q.user_id q.event_id) sentados) r.cobrancas
                ∙ ap (λ x. c.cobrancas ++ x ∷ map (cobranca_de q.user_id q.event_id) sentados)
                    (cobranca_same q p));
            esperas = rw e r.esperas;
            respostas =
                rw e (ap (λ l. record { role_id = p.id; tipo = registered } ∷ l) r.respostas);
            inscrito = rw e (
                r.inscrito
                ∙ ap (depois (any (tem_vaga counts) ps)) (upsert-find c.inscritos)
                ∙ depois-depois (any (tem_vaga counts) ps) _);
            outros = r.outros ∙ upsert-outros c.inscritos;
            papeis = r.papeis;
            usuarios = r.usuarios;
            eventos = r.eventos;
          }

      sem_vaga_Atendido :
          {c' : Cadastro} {rs : List Resultado}
          → Cumprido counts ps (com_espera q p c) c' rs
          → tem_vaga counts p ≡ false
          → Cumprido counts (p ∷ ps) c c' (record { role_id = p.id; tipo = waitlisted } ∷ rs)
      sem_vaga_Atendido r e = record {
        registros = rw e r.registros;
        cobrancas = rw e r.cobrancas;
        esperas = rw e (
            after_one c.esperas (espera_de q.user_id q.event_id p)
              (map (espera_de q.user_id q.event_id) (filter (λ p. not (tem_vaga counts p)) ps))
              r.esperas);
        respostas = rw e (ap (λ l. record { role_id = p.id; tipo = waitlisted } ∷ l) r.respostas);
        inscrito = rw e r.inscrito;
        outros = r.outros;
        papeis = r.papeis;
        usuarios = r.usuarios;
        eventos = r.eventos;
      }
