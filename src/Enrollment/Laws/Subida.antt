-- ===== src/Enrollment/Laws/Subida.antt =====
-- Moving from the waitlist to the seat of someone who leaves, in src/event/event.service.ts.
use sistema_iccv_backend.Common.{
  ℕ, ◌≡◌, refl, ap, inl, inr, Bool, true, false, not, ◌&&◌, Option, some, List, [], ◌∷◌, ◌++◌, Memᴰ,
  arith, ◌==◌, ==_refl, Bool-cases, filter, any, find?, includes, nat_eq, mem_of_find?,
  mem_of_filter, ok, or_throw, >>=-eq-ok, or_throw-eq-ok,
}
use sistema_iccv_backend.Enrollment.Cadastro.{Papel, EmEspera, Cadastro, Resultado, sem_vagas}
use sistema_iccv_backend.Enrollment.Inscricao.{
  Pedido, novo_registro, tem_vaga, processar, papeis_pedidos, registrar, conferir,
}
use sistema_iccv_backend.Enrollment.Mudancas.{
  inscrever, sair_da_fila, liberar_vaga, primeiro_na_espera, na_fila, da_inscricao,
  moved_user_from_waitlist_to_event,
}
use sistema_iccv_backend.Enrollment.Laws.Vagas.{registrar_inv, papeis, pedido_de, counts}
use sistema_iccv_backend.Enrollment.Laws.Trocas.{tested_inv, inscrever_inv}

-- The one role asked for.
one_role :
    (c : Cadastro) (event_id role_id user_id agora : ℕ) (r : Bool) (fim : Option ℕ)
    (ps : List Papel)
    → conferir c event_id fim user_id (role_id ∷ []) r agora ps ≡ ok tt
    → (p : Papel) × (ps ≡ p ∷ [])
unfolding conferir
one_role c event_id role_id user_id agora r fim [] h = cc
one_role c event_id role_id user_id agora r fim (p ∷ []) h = (p, refl)
one_role c event_id role_id user_id agora r fim (p ∷ q ∷ ps) h = ground arith

asked :
    (c : Cadastro) (event_id role_id : ℕ) (p : Papel)
    → papeis_pedidos c.papeis (role_id ∷ []) event_id ≡ p ∷ []
    → p.id ≡ role_id
unfolding papeis_pedidos
asked c event_id role_id p h =
    let test : Papel → Bool = λ p. includes p.id (role_id ∷ []) && p.grupo.event_id == event_id in
    let m : Memᴰ p (filter test c.papeis) = rw h (Memᴰ.head refl) in
    let (_, e) = mem_of_filter test c.papeis m in ground arith

module _ {ℓ} {A : Type ℓ} (p : A → Bool) where
  any-removed : (xs : List A) → any p (filter (λ x. not (p x)) xs) ≡ false
  any-removed [] = refl
  any-removed (x ∷ xs) = ground (arith, any-removed xs)

  any-last : (xs : List A) (x : A) → p x ≡ true → any p (xs ++ x ∷ []) ≡ true
  any-last [] x h = ground arith
  any-last (y ∷ xs) x h = ground (arith, any-last xs x h)

-- One role asked for, and an answer that is not the waitlist.
seated_alone :
    (q : Pedido) (k : List (ℕ × ℕ)) (p : Papel) (c : Cadastro)
    → primeiro_na_espera (processar q k (p ∷ []) c).1 ≡ false
    → any (na_fila q.user_id q.event_id p.id) c.esperas ≡ false
    → (any (da_inscricao q.user_id q.event_id p.id) (processar q k (p ∷ []) c).0.registros ≡ true)
      × (any (na_fila q.user_id q.event_id p.id) (processar q k (p ∷ []) c).0.esperas ≡ false)
unfolding processar
seated_alone q k p c seated free = elim (Bool-cases (tem_vaga k p)) [
  | inl e ↦ rw e (
    any-last (da_inscricao q.user_id q.event_id p.id) c.registros (novo_registro q p)
        (ground (arith, ==_refl q.user_id, ==_refl q.event_id, ==_refl p.id)),
    free,
  )
  | inr e ↦ ground arith
]

seated_one :
    (q : Pedido) (k : List (ℕ × ℕ)) (ps : List Papel) (p : Papel) (role_id : ℕ) (c : Cadastro)
    {c' : Cadastro} {rs : List Resultado}
    → ps ≡ p ∷ []
    → p.id ≡ role_id
    → processar q k ps c ≡ (c', rs)
    → primeiro_na_espera rs ≡ false
    → any (na_fila q.user_id q.event_id role_id) c.esperas ≡ false
    → (any (da_inscricao q.user_id q.event_id role_id) c'.registros ≡ true)
      × (any (na_fila q.user_id q.event_id role_id) c'.esperas ≡ false)
seated_one q k ps p role_id c {c'} {rs} alone same done seated free =
    let done' : processar q k (p ∷ []) c ≡ (c', rs) = rw alone at done in
    let tables : (processar q k (p ∷ []) c).0 ≡ c' = ap (λ x. x.0) done' in
    let answers : (processar q k (p ∷ []) c).1 ≡ rs = ap (λ x. x.1) done' in
    rw (← tables, ← same) (seated_alone q k p c (rw answers seated) (rw same free))

registered_alone :
    (agora user_id event_id role_id : ℕ) (c : Cadastro) {c' : Cadastro} {rs : List Resultado}
    → registrar agora false false user_id event_id (role_id ∷ []) c ≡ ok (c', rs)
    → primeiro_na_espera rs ≡ false
    → any (na_fila user_id event_id role_id) c.esperas ≡ false
    → (any (da_inscricao user_id event_id role_id) c'.registros ≡ true)
      × (any (na_fila user_id event_id role_id) c'.esperas ≡ false)
registered_alone agora user_id event_id role_id c {c'} {rs} h seated free =
    let i = registrar_inv agora false false user_id event_id (role_id ∷ []) c h in
    let (p, alone) =
      one_role c event_id role_id user_id agora false i.event.end_date
        (papeis agora false false user_id event_id (role_id ∷ []) c) i.checked in
    seated_one (pedido_de agora false false user_id event_id (role_id ∷ []) c i.user i.event)
      (counts agora false false user_id event_id (role_id ∷ []) c)
      (papeis agora false false user_id event_id (role_id ∷ []) c) p role_id c alone
      (asked c event_id role_id p alone) i.done seated free

registered_as :
    (agora user_id event_id j role_id : ℕ) (c : Cadastro) {c' : Cadastro} {rs : List Resultado}
    → j ≡ role_id
    → registrar agora false false user_id event_id (j ∷ []) c ≡ ok (c', rs)
    → primeiro_na_espera rs ≡ false
    → any (na_fila user_id event_id role_id) c.esperas ≡ false
    → (any (da_inscricao user_id event_id role_id) c'.registros ≡ true)
      × (any (na_fila user_id event_id role_id) c'.esperas ≡ false)
registered_as agora user_id event_id j role_id c same h seated free =
    registered_alone agora user_id event_id role_id c (rw same at h) seated free

waiting_for :
    (user_id event_id role_id : ℕ) (ws : List EmEspera) {w : EmEspera}
    → find? (na_fila user_id event_id role_id) ws ≡ some w
    → w.role_id ≡ role_id
waiting_for user_id event_id role_id ws {w} h =
    let (_, e) = mem_of_find? (na_fila user_id event_id role_id) ws {x = w} h in ground arith

no_longer_waiting :
    (user_id removed_id event_id role_id grupo_id : ℕ) (c : Cadastro)
    → any
        (na_fila user_id event_id role_id)
        (liberar_vaga removed_id event_id grupo_id
          (sair_da_fila user_id event_id role_id c)).esperas
      ≡ false
unfolding liberar_vaga sair_da_fila
no_longer_waiting user_id removed_id event_id role_id grupo_id c =
    any-removed (na_fila user_id event_id role_id) c.esperas

-- Moving up seats the person: after a success the person has a registration in the role that they
-- waited for, and no place left on its waitlist.
pub moved_user_from_waitlist_to_event-IsSeated :
    (agora user_id removed_id event_id role_id : ℕ) (c : Cadastro) {c' : Cadastro}
    {rs : List Resultado}
    → moved_user_from_waitlist_to_event agora user_id removed_id event_id role_id c ≡ ok (c', rs)
    → (any (da_inscricao user_id event_id role_id) c'.registros ≡ true)
      × (any (na_fila user_id event_id role_id) c'.esperas ≡ false)
unfolding moved_user_from_waitlist_to_event
moved_user_from_waitlist_to_event-IsSeated agora user_id removed_id event_id role_id c h =
    let (entry, he, h1) =
      >>=-eq-ok (or_throw (find? (na_fila user_id event_id role_id) c.esperas) _) _ h in
    let (papel, hp, h2) =
      >>=-eq-ok
        (or_throw (find? (λ p. p.id == role_id) (sair_da_fila user_id event_id role_id c).papeis) _)
        _ h1 in
    let c2 =
      liberar_vaga removed_id event_id papel.grupo.id (sair_da_fila user_id event_id role_id c) in
    let (done, seated) =
      tested_inv (inscrever agora false false user_id event_id (entry.role_id ∷ []) c2)
        (λ r. not (primeiro_na_espera r.1)) sem_vagas h2 in
    let same = waiting_for user_id event_id role_id c.esperas (or_throw-eq-ok _ _ he) in
    let registered_in =
      inscrever_inv agora false false user_id event_id (entry.role_id ∷ []) c2 done in
    registered_as agora user_id event_id entry.role_id role_id c2 same registered_in (ground arith)
      (no_longer_waiting user_id removed_id event_id role_id papel.grupo.id c)
