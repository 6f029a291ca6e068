-- ===== src/Noticias/Laws/Formulario.antt =====
-- What the form of a schedule lets pass, in src/news/agendamento.ts.
use sistema_iccv_backend.Common.{
  ℕ, ◌≤◌, ◌<◌, ◌≡◌, refl, true, not, ◌||◌, Option, none, some, List, [], ◌∷◌, arith, ltb, ==_refl,
  any, is_empty, includes, nat_eq, ok, require->>, ok-subst, >>=-eq-ok, or_throw, ◌⊎◌, inl, inr,
}
use sistema_iccv_backend.Noticias.{
  fuso_ms, NewsScheduleKind, once, weekly, Horario, Agendamento, Pronto, proxima_execucao,
  sem_repetir, horario_valido, validar_agendamento, validar_uma_vez, validar_semanal,
}
use sistema_iccv_backend.Noticias.Laws.Proxima.{proxima_execucao-IsNext}

-- A schedule that is ready to be saved: its next run is the one that the clock will compute.
abbrev pub Runs : ℕ → Pronto → Type 0
Runs agora p =
    (r : ℕ) × (p.next_run_at ≡ some r)
    × (agora < r)
    × (proxima_execucao p.agendamento agora ≡ some r)

first_day :
    (dias : List ℕ)
    → not (is_empty dias || any (λ dia. ltb 6 dia) dias) ≡ true
    → (d : ℕ) × (d ≤ 6) × (includes d dias ≡ true)
first_day [] h = cc
first_day (d ∷ dias) h = (d, ground arith, ground (arith, ==_refl d))

semanal-Runs :
    (dias : List ℕ) (time : Option Horario) (agora : ℕ)
    → fuso_ms ≤ agora
    → not (is_empty dias || any (λ dia. ltb 6 dia) dias) ≡ true
    → horario_valido time ≡ true
    → (r : ℕ) × (proxima_execucao
          (record { kind = weekly; run_at = none; weekdays = dias; time = time })
          agora
        ≡ some r)
      × (agora < r)
semanal-Runs dias none agora old some_day valid = cc
semanal-Runs dias (some h) agora old some_day valid =
    let (d, small, has) = first_day dias some_day in
    let (r, same, n) =
      proxima_execucao-IsNext
        (record { kind = weekly; run_at = none; weekdays = dias; time = some h }) h d agora refl
        refl (ground arith, ground arith) small has old in
    (r, same, n.later)

uma_vez-Runs :
    (e : Agendamento) (agora : ℕ) {p : Pronto} → validar_uma_vez e agora ≡ ok p → Runs agora p
unfolding proxima_execucao
uma_vez-Runs e agora h =
    let (t, _, k) = >>=-eq-ok {A = ℕ} (or_throw e.run_at _) _ h in
    let (later, done) = require->> (ltb agora t) _ _ k in
    ok-subst (Runs agora)
      {x = record {
        agendamento = record { kind = once; run_at = some t; weekdays = []; time = none };
        next_run_at = some t;
      }}
      done (t, refl, ground arith, rw later)

semanal_validado-Runs :
    (e : Agendamento) (agora : ℕ) {p : Pronto}
    → fuso_ms ≤ agora
    → validar_semanal e agora ≡ ok p
    → Runs agora p
semanal_validado-Runs e agora old h =
    let dias = sem_repetir e.weekdays in
    let (some_day, k) = require->> _ _ _ h in
    let (valid, done) = require->> _ _ _ k in
    let (r, same, later) = semanal-Runs dias e.time agora old some_day valid in
    ok-subst (Runs agora) done (r, same, later, same)

kind-cases : (k : NewsScheduleKind) → (k ≡ once) ⊎ (k ≡ weekly)
kind-cases once = inl refl
kind-cases weekly = inr refl

-- Every schedule that the form accepts will run: the moment saved as its next run lies in the
-- future, and is the one that the clock computes from the schedule as saved.
pub validar_agendamento-Runs :
    (e : Agendamento) (agora : ℕ) {p : Pronto}
    → fuso_ms ≤ agora
    → validar_agendamento e agora ≡ ok p
    → Runs agora p
unfolding validar_agendamento
validar_agendamento-Runs e agora {p} old h = elim (kind-cases e.kind) [
  | inl same ↦ uma_vez-Runs e agora {p = p} (rw same at h)
  | inr same ↦ semanal_validado-Runs e agora {p = p} old (rw same at h)
]
