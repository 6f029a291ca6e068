-- ===== src/Noticias/Laws/Disparo.antt =====
-- What the body of the loop of `dispararVencidos` of src/news/news.service.ts keeps, whatever row it
-- was given.
use sistema_iccv_backend.Common.{
  ℕ, ◌≤◌, ◌<◌, ◌≡◌, refl, sym, ◌∙◌, ◌≢◌, true, false, Option, none, some, List, [], ◌∷◌, map, arith,
  if◌then◌else◌, any, All, All-map, Bool-cases, inl, inr, subst,
}
use sistema_iccv_backend.Access.Database.{Database}
use sistema_iccv_backend.Noticias.{Agendamento, proxima_execucao}
use sistema_iccv_backend.Noticias.Disparo.{
  NewsSchedule, Envio, Mural, Vencido, da_vez, passar, dispara, iteracao,
}
use sistema_iccv_backend.Noticias.Laws.Proxima.{proxima_execucao-lt}

abbrev pub Depois : Option ℕ → ℕ → Type 0
Depois none marcado = Unit
Depois (some t) marcado = marcado < t

-- The schedule of a dispatch, if it is still there, is marked for later or not at all.
abbrev pub Passou : Envio → NewsSchedule → Type 0
Passou e r = r.id ≡ e.schedule_id → Depois r.next_run_at e.marcado

abbrev pub DistinctIds : List NewsSchedule → Type 0
DistinctIds [] = Unit
DistinctIds (r ∷ rs) = All (λ q. q.id ≢ r.id) rs × DistinctIds rs

-- The dispatches of one schedule were marked for different moments, each later than those before.
abbrev pub IsOnce : List Envio → Type 0
IsOnce [] = Unit
IsOnce (e ∷ es) = All (λ f. f.schedule_id ≡ e.schedule_id → f.marcado < e.marcado) es × IsOnce es

pub record Inv (s : Mural) : Type 0 where
  pub distinct : DistinctIds s.schedules
  pub passed : All (λ e. All (Passou e) s.schedules) s.envios
  pub fired_once : IsOnce s.envios

abbrev passado : ℕ → Vencido → NewsSchedule → NewsSchedule
passado agora v r = if da_vez v r then passar agora v r else r

pub proxima-Depois :
    (a : Agendamento) (agora marcado : ℕ)
    → marcado ≤ agora
    → Depois (proxima_execucao a agora) marcado
proxima-Depois a agora marcado h = at (proxima_execucao a agora) refl
  where
    at : (o : Option ℕ) → proxima_execucao a agora ≡ o → Depois o marcado
    at none e = tt
    at (some r) e = omega (arith, proxima_execucao-lt a agora e)

true-ne-false : true ≢ false
true-ne-false h = cc

module _ (agora : ℕ) (v : Vencido) (due : v.marcado ≤ agora) where
  id-passado : (r : NewsSchedule) → (passado agora v r).id ≡ r.id
  unfolding passar
  id-passado r = ground arith

  keeps_passed : (e : Envio) (r : NewsSchedule) → Passou e r → Passou e (passado agora v r)
  unfolding passar
  keeps_passed e r p = elim (Bool-cases (da_vez v r)) [
    | inl turn ↦
        rw turn (λ same. proxima-Depois v.agendamento agora e.marcado (ground (arith, p same)))
    | inr other ↦ rw other p
  ]

  keeps_passed_rows :
      (e : Envio) (rs : List NewsSchedule)
      → All (Passou e) rs
      → All (Passou e) (map (passado agora v) rs)
  keeps_passed_rows e [] p = tt
  keeps_passed_rows e (r ∷ rs) p = (keeps_passed e r p.0, keeps_passed_rows e rs p.1)

  keeps_apart :
      (id : ℕ) (rs : List NewsSchedule)
      → All (λ q. q.id ≢ id) rs
      → All (λ q. q.id ≢ id) (map (passado agora v) rs)
  keeps_apart id [] p = tt
  keeps_apart id (r ∷ rs) p = ((λ same. p.0 (sym (id-passado r) ∙ same)), keeps_apart id rs p.1)

  keeps_distinct :
      (rs : List NewsSchedule) → DistinctIds rs → DistinctIds (map (passado agora v) rs)
  keeps_distinct [] d = tt
  keeps_distinct (r ∷ rs) d = (rw (id-passado r) (keeps_apart r.id rs d.0), keeps_distinct rs d.1)

  abbrev novo_envio : Envio
  novo_envio = record { schedule_id = v.id; news_id = v.news.id; marcado = v.marcado }

  any_later :
      (r : NewsSchedule) (rs : List NewsSchedule)
      → da_vez v r ≡ false
      → any (da_vez v) (r ∷ rs) ≡ true
      → any (da_vez v) rs ≡ true
  any_later r rs other h = ground arith

  others_apart :
      (rs : List NewsSchedule)
      → All (λ q. q.id ≢ v.id) rs
      → All (Passou novo_envio) (map (passado agora v) rs)
  others_apart [] p = tt
  others_apart (r ∷ rs) p = (λ same. absurd (p.0 (sym (id-passado r) ∙ same)), others_apart rs p.1)

  turn_apart : (rs : List NewsSchedule) → All (λ q. q.id ≢ v.id) rs → any (da_vez v) rs ≡ false
  turn_apart [] p = refl
  turn_apart (r ∷ rs) p = ground (arith, turn_apart rs p.1)

  turn_passed : (r : NewsSchedule) → da_vez v r ≡ true → Passou novo_envio (passado agora v r)
  unfolding passar
  turn_passed r turn = rw turn (λ same. proxima-Depois v.agendamento agora v.marcado due)

  da_vez-id : (r : NewsSchedule) → da_vez v r ≡ true → r.id ≡ v.id
  da_vez-id r h = ground arith

  -- The row whose turn it was has passed on; no other has its id.
  new_passed :
      (rs : List NewsSchedule)
      → DistinctIds rs
      → any (da_vez v) rs ≡ true
      → All (Passou novo_envio) (map (passado agora v) rs)
  new_passed [] d h = tt
  new_passed (r ∷ rs) d h = elim (Bool-cases (da_vez v r)) [
    | inl turn ↦ (
      turn_passed r turn,
      others_apart rs (subst (λ id. All (λ q. q.id ≢ id) rs) (da_vez-id r turn) d.0),
    )
    | inr other ↦ (
      λ same. absurd (
          true-ne-false (
            sym (any_later r rs other h)
            ∙ turn_apart rs
                (subst (λ id. All (λ q. q.id ≢ id) rs) (sym (id-passado r) ∙ same) d.0))),
      new_passed rs d.1 (any_later r rs other h),
    )
  ]

  marked_before :
      (e : Envio) (rs : List NewsSchedule)
      → All (Passou e) rs
      → any (da_vez v) rs ≡ true
      → e.schedule_id ≡ v.id
      → e.marcado < v.marcado
  marked_before e [] p h same = cc
  marked_before e (r ∷ rs) p h same = elim (Bool-cases (da_vez v r)) [
    | inl turn ↦ ground (arith, p.0 (da_vez-id r turn ∙ sym same))
    | inr other ↦ marked_before e rs p.1 (ground arith) same
  ]

  pub iteracao-Inv :
      (db : Database) (disparadas : List ℕ) (s : Mural)
      → Inv s
      → Inv (iteracao db agora v disparadas s).0
  unfolding iteracao
  iteracao-Inv db disparadas s w = elim (Bool-cases (any (da_vez v) s.schedules)) [
    | inr none_ ↦ rw none_ w
    | inl some_ ↦ elim (Bool-cases (dispara db agora disparadas v)) [
      | inr quiet ↦
          rw (some_, quiet)
            (record {
              distinct = keeps_distinct s.schedules w.distinct;
              passed = All-map _ _ s.envios (λ e p. keeps_passed_rows e s.schedules p) w.passed;
              fired_once = w.fired_once;
            })
      | inl fires ↦
          rw (some_, fires)
            (record {
              distinct = keeps_distinct s.schedules w.distinct;
              passed = (
                new_passed s.schedules w.distinct some_,
                All-map _ _ s.envios (λ e p. keeps_passed_rows e s.schedules p) w.passed,
              );
              fired_once = (
                All-map _ _ s.envios (λ e p same. marked_before e s.schedules p some_ same)
                    w.passed,
                w.fired_once,
              );
            })
    ]
  ]
