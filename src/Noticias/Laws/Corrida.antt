-- ===== src/Noticias/Laws/Corrida.antt =====
-- Overlapping rounds of `dispararVencidos` of src/news/news.service.ts, with forms saved in between.
use sistema_iccv_backend.Common.{
  ℕ, ◌+◌, ◌≤◌, ◌≡◌, sym, ◌≢◌, Bool, not, List, [], ◌∷◌, ◌++◌, arith, ◌==◌, filter, All, All-append,
  Bool-cases, inl, inr, ok, or_throw, require->>, find?, length, ltb, >>=-eq-ok, ok-subst,
}
use sistema_iccv_backend.Access.Database.{Database}
use sistema_iccv_backend.Noticias.{
  Agendamento, Pronto, demais, noticia_inexistente, maximo_de_agendamentos,
}
use sistema_iccv_backend.Noticias.Disparo.{
  NewsSchedule, Noticia, Envio, Mural, linhas, salvar_linhas, validar_todos, save_schedules,
  Vencido, iteracao,
}
use sistema_iccv_backend.Noticias.Laws.Disparo.{Passou, DistinctIds, IsOnce, Inv, iteracao-Inv}

-- Ids that the table has never given.
pub record AreNew (ids : ℕ → ℕ) (s : Mural) : Type 0 where
  pub apart : (i j : ℕ) → ids i ≡ ids j → i ≡ j
  pub unused : (i : ℕ) → All (λ r. r.id ≢ ids i) s.schedules
  pub never_fired : (i : ℕ) → All (λ e. ids i ≢ e.schedule_id) s.envios

module _ (ids : ℕ → ℕ) (news_id : ℕ) where
  linhas-Passou :
      (e : Envio) (prontos : List Pronto) (n : ℕ)
      → ((i : ℕ) → ids i ≢ e.schedule_id)
      → All (Passou e) (linhas news_id prontos ids n)
  unfolding linhas
  linhas-Passou e [] n never = tt
  linhas-Passou e (p ∷ ps) n never =
      (λ same. absurd (never n same), linhas-Passou e ps (n + 1) never)

  linhas-apart :
      (id : ℕ) (prontos : List Pronto) (n : ℕ)
      → ((i : ℕ) → n ≤ i → ids i ≢ id)
      → All (λ q. q.id ≢ id) (linhas news_id prontos ids n)
  unfolding linhas
  linhas-apart id [] n far = tt
  linhas-apart id (p ∷ ps) n far =
      (far n (omega arith), linhas-apart id ps (n + 1) (λ i h. far i (omega arith)))

  linhas-DistinctIds :
      (prontos : List Pronto) (n : ℕ)
      → ((i j : ℕ) → ids i ≡ ids j → i ≡ j)
      → DistinctIds (linhas news_id prontos ids n)
  unfolding linhas
  linhas-DistinctIds [] n apart = tt
  linhas-DistinctIds (p ∷ ps) n apart = (
    linhas-apart (ids n) ps (n + 1) (λ i h same. absurd (omega (arith, apart i n same))),
    linhas-DistinctIds ps (n + 1) apart,
  )

  All-filter :
      (P : NewsSchedule → Type 0) (keep : NewsSchedule → Bool) (rs : List NewsSchedule)
      → All P rs
      → All P (filter keep rs)
  All-filter P keep [] w = tt
  All-filter P keep (r ∷ rs) w = elim (Bool-cases (keep r)) [
    | inl e ↦ rw e (w.0, All-filter P keep rs w.1)
    | inr e ↦ rw e (All-filter P keep rs w.1)
  ]

  saved-DistinctIds :
      (keep : NewsSchedule → Bool) (rs : List NewsSchedule) (prontos : List Pronto)
      → ((i j : ℕ) → ids i ≡ ids j → i ≡ j)
      → ((i : ℕ) → All (λ r. r.id ≢ ids i) rs)
      → DistinctIds rs
      → DistinctIds (filter keep rs ++ linhas news_id prontos ids 0)
  saved-DistinctIds keep [] prontos apart unused d = linhas-DistinctIds prontos 0 apart
  saved-DistinctIds keep (r ∷ rs) prontos apart unused d =
      let rest = saved-DistinctIds keep rs prontos apart (λ i. (unused i).1) d.1 in
      elim (Bool-cases (keep r)) [
        | inr e ↦ rw e rest
        | inl e ↦ rw e (
          All-append (λ q. q.id ≢ r.id) _ _ (All-filter (λ q. q.id ≢ r.id) keep rs d.0)
              (linhas-apart r.id prontos 0 (λ i h same. (unused i).0 (sym same))),
          rest,
        )
      ]

  saved-Passou :
      (keep : NewsSchedule → Bool) (rs : List NewsSchedule) (prontos : List Pronto)
      (es : List Envio)
      → ((i : ℕ) → All (λ e. ids i ≢ e.schedule_id) es)
      → All (λ e. All (Passou e) rs) es
      → All (λ e. All (Passou e) (filter keep rs ++ linhas news_id prontos ids 0)) es
  saved-Passou keep rs prontos [] never p = tt
  saved-Passou keep rs prontos (e ∷ es) never p = (
    All-append (Passou e) _ _ (All-filter (Passou e) keep rs p.0)
        (linhas-Passou e prontos 0 (λ i. (never i).0)),
    saved-Passou keep rs prontos es (λ i. (never i).1) p.1,
  )

-- One thing that happens: some round, started at any time and by any process, does with a row that
-- was due when it read it what the body of the loop does; or somebody saves a form.
pub data Step : Mural → Mural → Type 0 where
  itera :
      {s : Mural} (db : Database) (agora : ℕ) (v : Vencido) (disparadas : List ℕ)
      → v.marcado ≤ agora
      → Step s (iteracao db agora v disparadas s).0
  salva :
      {s t : Mural} (id : ℕ) (entradas : List Agendamento) (agora : ℕ) (ids : ℕ → ℕ)
      → AreNew ids s
      → save_schedules id entradas agora ids s ≡ ok t
      → Step s t

pub data Reach : Mural → Type 0 where
  start : {s : Mural} → s.schedules ≡ [] → s.envios ≡ [] → Reach s
  next : {s t : Mural} → Reach s → Step s t → Reach t

Step-Inv : {s t : Mural} → Step s t → Inv s → Inv t
unfolding save_schedules
Step-Inv {s} (itera db agora v disparadas due) w = iteracao-Inv agora v due db disparadas s w
Step-Inv {s} (salva id entradas agora ids fresh h) w =
    let (_, _, k) =
      >>=-eq-ok {A = Noticia} (or_throw (find? (λ n. n.id == id) s.noticias) noticia_inexistente) _
        h in
    let (_, k') = require->> (not (ltb maximo_de_agendamentos (length entradas))) demais _ k in
    let (prontos, _, done) = >>=-eq-ok (validar_todos entradas agora) _ k' in
    ok-subst Inv {x = salvar_linhas id prontos ids s} done (record {
      distinct = saved-DistinctIds ids id _ s.schedules prontos fresh.apart fresh.unused w.distinct;
      passed = saved-Passou ids id _ s.schedules prontos s.envios fresh.never_fired w.passed;
      fired_once = w.fired_once;
    })

Reach-Inv : {s : Mural} → Reach s → Inv s
Reach-Inv (start {s} empty quiet) = record {
  distinct = rw empty tt;
  passed = rw quiet tt;
  fired_once = rw quiet tt;
}
Reach-Inv (next r step) = Step-Inv step (Reach-Inv r)

-- However rounds of the clock overlap, on whatever rows they read and with forms saved in between,
-- no schedule is dispatched twice for the same moment: of two dispatches of one schedule, the later
-- one was marked for a later moment.
pub Reach-IsOnce : {s : Mural} → Reach s → IsOnce s.envios
Reach-IsOnce r = (Reach-Inv r).fired_once
