-- ===== src/Enrollment/Laws/Vagas.antt =====
-- `_registerUserInEventTx`: what a successful registration leaves, about the seats of a group and the
-- registrations of a person.
use sistema_iccv_backend.Common.{
  ok-inj, ℕ, ◌+◌, ◌≤◌, ◌<◌, ◌≡◌, ap, subst, ◌⊎◌, inl, inr, Bool, true, false, not, ◌&&◌, Option,
  some, List, map, Memᴰ, arith, ◌==◌, Bool-cases, length, filter, any, find?, includes, nat_eq,
  any_of_mem, mem_map, mem_of_filter, ok, ◌>>◌, require, or_throw, >>=-eq-ok, or_throw-eq-ok,
  >>-eq-ok, require->>,
}
use sistema_iccv_backend.Enrollment.Cadastro.{
  Papel, Usuario, Evento, Registro, Cadastro, Resultado, conta_bloqueada,
}
use sistema_iccv_backend.Enrollment.Inscricao.{
  Pedido, repete, grupos_de, no_grupo, vagas_tomadas, da_pessoa, novo_registro, tem_vaga, processar,
  counts_de, papeis_pedidos, conferir, minor_approval_de, registrar,
}
use sistema_iccv_backend.Enrollment.Laws.Loop.{
  length-filter-append, com_vaga, processar_registros, novos_no_grupo,
}
use sistema_iccv_backend.Enrollment.Laws.Contagem.{
  ltb_of_not, get-counts, in_event, na_vez, of_person, of_others, none_before,
}

module _ (agora : ℕ) (aceitou_termo respeitar_janela : Bool) (user_id event_id : ℕ) (ids : List ℕ)
    (c : Cadastro) where
  abbrev pub papeis : List Papel
  papeis = papeis_pedidos c.papeis ids event_id

  abbrev pub pedido_de : Usuario → Evento → Pedido
  pedido_de user event = record {
    user_id = user_id;
    event_id = event_id;
    minor_approval = minor_approval_de user event;
    aceitou_termo = aceitou_termo;
  }

  abbrev pub counts : List (ℕ × ℕ)
  counts = counts_de c.registros event_id (grupos_de papeis)

  -- What a success says.
  pub record Inscreveu (c' : Cadastro) (resultados : List Resultado) : Type 0 where
    pub user : Usuario
    pub event : Evento
    pub found_user : find? (λ u. u.id == user_id) c.usuarios ≡ some user
    pub found_event : find? (λ e. e.id == event_id) c.eventos ≡ some event
    pub allowed : not (respeitar_janela && user.blocked) ≡ true
    pub checked :
        conferir c event_id event.end_date user_id ids respeitar_janela agora papeis ≡ ok tt
    pub done : processar (pedido_de user event) counts papeis c ≡ (c', resultados)

  pub registrar_inv :
      {c' : Cadastro} {rs : List Resultado}
      → registrar agora aceitou_termo respeitar_janela user_id event_id ids c ≡ ok (c', rs)
      → Inscreveu c' rs
  unfolding registrar
  registrar_inv {c'} {rs} h =
      let (user, hu, h1) = >>=-eq-ok (or_throw (find? (λ u. u.id == user_id) c.usuarios) _) _ h in
      let (event, he, h2) = >>=-eq-ok (or_throw (find? (λ e. e.id == event_id) c.eventos) _) _ h1 in
      finish user event (or_throw-eq-ok _ _ hu) (or_throw-eq-ok _ _ he) h2
    where
      finish :
          (user : Usuario) (event : Evento)
          → find? (λ u. u.id == user_id) c.usuarios ≡ some user
          → find? (λ e. e.id == event_id) c.eventos ≡ some event
          → (require (not (respeitar_janela && user.blocked)) conta_bloqueada
              >> (conferir c event_id event.end_date user_id ids respeitar_janela agora papeis
                  >> ok (processar (pedido_de user event) counts papeis c)))
            ≡ ok (c', rs)
          → Inscreveu c' rs
      finish user event hu he k =
          let (hb, k1) = require->> _ _ _ k in
          let (hc, k2) = >>-eq-ok _ _ k1 in
          record {
            user = user;
            event = event;
            found_user = hu;
            found_event = he;
            allowed = hb;
            checked = hc;
            done = ok-inj k2;
          }

  -- The checks that the theorems below use.
  checked_inv :
      (fim : Option ℕ)
      → conferir c event_id fim user_id ids respeitar_janela agora papeis ≡ ok tt
      → (repete (grupos_de papeis) ≡ false)
        × (any
              (λ g.
                includes g
                  (map (λ r. r.papel.grupo.id) (filter (da_pessoa user_id event_id) c.registros)))
              (grupos_de papeis)
            ≡ false)
  unfolding conferir
  checked_inv fim h = (ground arith, ground arith)

  -- The registrations after a success: those before, and the new ones.
  grown :
      {c' : Cadastro} {rs : List Resultado} (i : Inscreveu c' rs) (p : Registro → Bool)
      → length (filter p c'.registros)
        ≡ length (filter p c.registros)
          + length
              (filter p (map (novo_registro (pedido_de i.user i.event)) (com_vaga counts papeis)))
  grown {c'} i p =
      let same : (processar (pedido_de i.user i.event) counts papeis c).0 ≡ c' =
        ap (λ x. x.0) i.done in
      let regs = processar_registros (pedido_de i.user i.event) counts papeis c in
      rw (← same, regs) (length-filter-append p c.registros _)

  room :
      (p : Papel) (g capacity : ℕ)
      → Memᴰ p papeis
      → p.grupo.id ≡ g
      → tem_vaga counts p ≡ true
      → p.grupo.capacity ≡ some capacity
      → vagas_tomadas c.registros event_id g < capacity
  room p g capacity m same vaga limit =
      let found =
        get-counts c.registros event_id p.grupo.id (grupos_de papeis)
          (mem_map (λ p. p.grupo.id) papeis m) in
      let open_seat = rw (limit, found) at vaga in
      let same_count = ap (vagas_tomadas c.registros event_id) same in
      omega (arith, ltb_of_not _ _ open_seat, same_count)

  from_catalogue : (p : Papel) → Memᴰ p papeis → Memᴰ p c.papeis
  unfolding papeis_pedidos
  from_catalogue p m = (mem_of_filter _ c.papeis m).0

  -- Registering never puts a group over its capacity: if every role of a group says the group has
  -- this capacity, then after a successful registration the group has at most that many
  -- registrations in the event, or no more than it had before.
  pub registrar-IsWithin :
      {c' : Cadastro} {rs : List Resultado}
      → registrar agora aceitou_termo respeitar_janela user_id event_id ids c ≡ ok (c', rs)
      → (g capacity : ℕ)
      → ((p : Papel) → Memᴰ p c.papeis → p.grupo.id ≡ g → p.grupo.capacity ≡ some capacity)
      → (vagas_tomadas c'.registros event_id g ≤ capacity)
        ⊎ (vagas_tomadas c'.registros event_id g ≡ vagas_tomadas c.registros event_id g)
  registrar-IsWithin h g capacity limits =
      let i = registrar_inv h in
      let q = pedido_de i.user i.event in
      let (distinct, _) = checked_inv i.event.end_date i.checked in
      let total = grown i (no_grupo event_id g) in
      let new = in_event q g (com_vaga counts papeis) in
      elim (novos_no_grupo q counts papeis g distinct) [
        | inl none_new ↦ inr (omega (arith, total, new, none_new))
        | inr t ↦
            let (one, (p, m, same, vaga)) = t in
            let free = room p g capacity m same vaga (limits p (from_catalogue p m) same) in
            inl (omega (arith, total, new, one, free))
      ]

  -- The person's own registrations in a group: none before a new one.
  own :
      {c' : Cadastro} {rs : List Resultado}
      → Inscreveu c' rs
      → (g : ℕ) → length (filter (na_vez user_id event_id g) c.registros) ≤ 1
      → length (filter (na_vez user_id event_id g) c'.registros) ≤ 1
  own i g before =
      let taken_in : ℕ → Bool = λ g.
        includes g
          (map (λ r. r.papel.grupo.id) (filter (da_pessoa user_id event_id) c.registros)) in
      let q = pedido_de i.user i.event in
      let (distinct, free) = checked_inv i.event.end_date i.checked in
      let total = grown i (na_vez user_id event_id g) in
      let new = of_person q g (com_vaga counts papeis) in
      elim (novos_no_grupo q counts papeis g distinct) [
        | inl none_new ↦ omega (arith, total, new, none_new, before)
        | inr t ↦
            let (one, (p, m, same, vaga)) = t in
            let taken =
              any_of_mem taken_in (grupos_de papeis) {x = g} (
                subst (λ j. Memᴰ j (grupos_de papeis)) same (mem_map (λ p. p.grupo.id) papeis m)) in
            let empty = none_before user_id event_id g c.registros (ground (arith, taken)) in
            omega (arith, total, new, one, empty)
      ]

  -- Registering keeps a person to one registration per group of an event: if nobody had two
  -- registrations in one group of one event, nobody has after a successful registration.
  pub registrar-IsUnique :
      {c' : Cadastro} {rs : List Resultado}
      → registrar agora aceitou_termo respeitar_janela user_id event_id ids c ≡ ok (c', rs)
      → ((u e g : ℕ) → length (filter (na_vez u e g) c.registros) ≤ 1)
      → (u e g : ℕ) → length (filter (na_vez u e g) c'.registros) ≤ 1
  registrar-IsUnique h unique u e g =
      let i = registrar_inv h in
      let q = pedido_de i.user i.event in
      let (distinct, free) = checked_inv i.event.end_date i.checked in
      let total = grown i (na_vez u e g) in
      elim (Bool-cases (user_id == u && event_id == e)) [
        | inr others ↦
            omega (arith, total, of_others q u e g (com_vaga counts papeis) others, unique u e g)
        | inl same ↦
            let (su, se) : (user_id ≡ u) × (event_id ≡ e) = ground arith in
            rw (← su, ← se) (own i g (unique user_id event_id g))
      ]
