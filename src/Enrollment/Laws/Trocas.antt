-- ===== src/Enrollment/Laws/Trocas.antt =====
-- Changing the groups of a person, in src/event/event.service.ts.
use sistema_iccv_backend.Common.{
  ℕ, ◌≡◌, refl, ap, inl, inr, Bool, true, false, not, List, [], ◌∷◌, ◌++◌, map, arith, ==_refl,
  Bool-cases, filter, any, nat_eq, Result, ok, err, ◌>>◌, ◌>>=◌, require, require->>,
}
use sistema_iccv_backend.Enrollment.Cadastro.{
  Papel, Registro, Cadastro, Resultado, sem_vagas, nao_inscrito,
}
use sistema_iccv_backend.Enrollment.Inscricao.{
  Pedido, da_pessoa, novo_registro, tem_vaga, resultado_de, papeis_pedidos, registrar,
}
use sistema_iccv_backend.Enrollment.Mudancas.{
  inscrever, excluir_inscrito, ficou_na_espera, update_user_from_event, inscrito_da_pessoa,
}
use sistema_iccv_backend.Enrollment.Laws.Loop.{
  append-nil, com_vaga, processar_registros, processar_respostas,
}
use sistema_iccv_backend.Enrollment.Laws.Vagas.{registrar_inv, pedido_de, counts}

module _ {ℓ} {A : Type ℓ} (p : A → Bool) where
  filter-append : (xs ys : List A) → filter p (xs ++ ys) ≡ filter p xs ++ filter p ys
  filter-append [] ys = refl
  filter-append (x ∷ xs) ys = elim (Bool-cases (p x)) [
    | inl e ↦ rw (e, filter-append xs ys)
    | inr e ↦ rw (e, filter-append xs ys)
  ]

  -- What a deletion leaves: none of the deleted, and all the others.
  pub filter-removed : (xs : List A) → filter p (filter (λ x. not (p x)) xs) ≡ []
  filter-removed [] = refl
  filter-removed (x ∷ xs) = elim (Bool-cases (p x)) [
    | inl e ↦ rw e (filter-removed xs)
    | inr e ↦ rw (e, e) (filter-removed xs)
  ]

  filter_idem : (xs : List A) → filter p (filter p xs) ≡ filter p xs
  filter_idem [] = refl
  filter_idem (x ∷ xs) = elim (Bool-cases (p x)) [
    | inl e ↦ rw (e, e, filter_idem xs)
    | inr e ↦ rw e (filter_idem xs)
  ]

own_rows :
    (q : Pedido) (ps : List Papel)
    → map (λ r. r.papel) (filter (da_pessoa q.user_id q.event_id) (map (novo_registro q) ps)) ≡ ps
own_rows q [] = refl
own_rows q (p ∷ ps) = rw (==_refl q.user_id, ==_refl q.event_id) (ap (λ l. p ∷ l) (own_rows q ps))

no_other_rows :
    (q : Pedido) (ps : List Papel)
    → filter (λ r. not (da_pessoa q.user_id q.event_id r)) (map (novo_registro q) ps) ≡ []
no_other_rows q [] = refl
no_other_rows q (p ∷ ps) = rw (==_refl q.user_id, ==_refl q.event_id) (no_other_rows q ps)

-- If nobody was left on the waitlist, everybody had room.
all_seated :
    (counts : List (ℕ × ℕ)) (ps : List Papel)
    → any ficou_na_espera (map (resultado_de counts) ps) ≡ false
    → com_vaga counts ps ≡ ps
all_seated counts [] h = refl
all_seated counts (p ∷ ps) h = elim (Bool-cases (tem_vaga counts p)) [
  | inl e ↦ rw e (ap (λ l. p ∷ l) (all_seated counts ps (ground arith)))
  | inr e ↦ ground arith
]

pub inscrever_inv :
    (agora : ℕ) (a r : Bool) (user_id event_id : ℕ) (ids : List ℕ) (c : Cadastro)
    {x : Cadastro × List Resultado}
    → inscrever agora a r user_id event_id ids c ≡ ok x
    → registrar agora a r user_id event_id ids c ≡ ok x
unfolding inscrever
inscrever_inv agora a r user_id event_id ids c h = ground arith

-- A step whose result is then tested and returned.
pub tested_inv {ℓ κ} :
    {E : Type ℓ} {A : Type κ} (m : Result E A) (t : A → Bool) (e : E) {x : A}
    → (m >>= λ r. require (t r) e >> ok r) ≡ ok x
    → (m ≡ ok x) × (t x ≡ true)
tested_inv {E} {A} (ok a) t e {x} h = elim (Bool-cases (t a)) [
  | inl passed ↦
      let same : Path (Result E A) (ok a) (ok x) = rw passed at h in (same, passed_on same passed)
  | inr failed ↦ absurd (rw failed at h)
]
  where
    passed_on : Path (Result E A) (ok a) (ok x) → t a ≡ true → t x ≡ true
    passed_on same passed = cc

    absurd : Path (Result E A) (err e) (ok x) → (Path (Result E A) (ok a) (ok x)) × (t x ≡ true)
    absurd h = cc
tested_inv (err e') t e h = cc

update_inv :
    (agora user_id event_id : ℕ) (ids : List ℕ) (c : Cadastro) {x : Cadastro × List Resultado}
    → update_user_from_event agora user_id event_id ids c ≡ ok x
    → (registrar agora false false user_id event_id ids (excluir_inscrito user_id event_id c)
        ≡ ok x)
      × (any ficou_na_espera x.1 ≡ false)
unfolding update_user_from_event
update_inv agora user_id event_id ids c h =
    let (_, h1) =
      require->> (any (inscrito_da_pessoa user_id event_id) c.inscritos) nao_inscrito _ h in
    let (done, seated) =
      tested_inv
        (inscrever agora false false user_id event_id ids (excluir_inscrito user_id event_id c))
        (λ r. not (any ficou_na_espera r.1)) sem_vagas h1 in
    (
      inscrever_inv agora false false user_id event_id ids (excluir_inscrito user_id event_id c)
          done,
      ground arith,
    )

replaced :
    (q : Pedido) (rs : List Registro) (ps : List Papel) {rs' : List Registro}
    → rs' ≡ filter (λ r. not (da_pessoa q.user_id q.event_id r)) rs ++ map (novo_registro q) ps
    → (map (λ r. r.papel) (filter (da_pessoa q.user_id q.event_id) rs') ≡ ps)
      × (filter (λ r. not (da_pessoa q.user_id q.event_id r)) rs'
          ≡ filter (λ r. not (da_pessoa q.user_id q.event_id r)) rs)
replaced q rs ps h =
    let own = da_pessoa q.user_id q.event_id in
    let rest = filter (λ r. not (own r)) rs in
    (
      rw (h, filter-append own rest (map (novo_registro q) ps), filter-removed own rs)
          (own_rows q ps),
      rw
          (
            h,
            filter-append (λ r. not (own r)) rest (map (novo_registro q) ps),
            filter_idem (λ r. not (own r)) rs,
            no_other_rows q ps,
          )
          (append-nil rest),
    )

-- Changing groups replaces exactly the person's registrations in the event: after a success they are
-- one for each role asked for that the event has, and the registrations of others and of other events
-- are as before.
pub update_user_from_event_exact :
    (agora user_id event_id : ℕ) (ids : List ℕ) (c : Cadastro) {c' : Cadastro} {rs : List Resultado}
    → update_user_from_event agora user_id event_id ids c ≡ ok (c', rs)
    → (map (λ r. r.papel) (filter (da_pessoa user_id event_id) c'.registros)
        ≡ papeis_pedidos c.papeis ids event_id)
      × (filter (λ r. not (da_pessoa user_id event_id r)) c'.registros
          ≡ filter (λ r. not (da_pessoa user_id event_id r)) c.registros)
unfolding update_user_from_event inscrever excluir_inscrito
update_user_from_event_exact agora user_id event_id ids c {c'} {rs} h =
    let (done, seated) = update_inv agora user_id event_id ids c h in
    let i =
      registrar_inv agora false false user_id event_id ids (excluir_inscrito user_id event_id c)
        done in
    let q =
      pedido_de agora false false user_id event_id ids (excluir_inscrito user_id event_id c) i.user
        i.event in
    let k = counts agora false false user_id event_id ids (excluir_inscrito user_id event_id c) in
    let ps = papeis_pedidos c.papeis ids event_id in
    let regs = processar_registros q k ps (excluir_inscrito user_id event_id c) in
    let res = processar_respostas q k ps (excluir_inscrito user_id event_id c) in
    let all_in = all_seated k ps (rw (← res, ap (λ x. x.1) i.done) seated) in
    let after : c'.registros
        ≡ filter (λ r. not (da_pessoa user_id event_id r)) c.registros ++ map (novo_registro q) ps =
      rw (← ap (λ x. x.0.registros) i.done, regs, all_in) in
    replaced q c.registros ps after
