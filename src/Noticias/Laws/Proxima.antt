-- ===== src/Noticias/Laws/Proxima.antt =====
-- `proximaExecucao` of src/news/agendamento.ts against the calendar.
use sistema_iccv_backend.Common.{
  ℕ, zero, suc, ◌+◌, ◌-◌, ◌*◌, ◌/◌, ◌%◌, ◌≤◌, ◌<◌, ◌≡◌, refl, true, false, Option, none, some, List,
  arith, ltb, includes, nat_eq, inl, inr, Bool-cases,
}
use sistema_iccv_backend.Noticias.{
  fuso_ms, dia_ms, weekly, Horario, Agendamento, no_dia, get_utc_day, inicio_do_dia, serve,
  procurar, proxima_execucao,
}

-- The moment `r` is at the hour and minute of `h`, in Brasília, on one of the days of the week.
pub record IsSlot (h : Horario) (dias : List ℕ) (r : ℕ) : Type 0 where
  pub depois_de_1970 : fuso_ms ≤ r
  pub na_hora : (r - fuso_ms) % dia_ms ≡ no_dia h
  pub no_dia_certo : includes (((r - fuso_ms) / dia_ms + 4) % 7) dias ≡ true

-- No run of the schedule lies after `depois_de` and before `r`.
abbrev pub IsFirst : Horario → List ℕ → (depois_de r : ℕ) → Type 0
IsFirst h dias depois_de r = (s : ℕ) → IsSlot h dias s → depois_de < s → r ≤ s

abbrev pub IsTimeOfDay : Horario → Type 0
IsTimeOfDay h = (h.hora < 24) × (h.minuto < 60)

-- A slot in the day that begins at `dia` is the candidate of that day.
slot_of_day :
    (h : Horario) (dias : List ℕ) (k s : ℕ)
    → IsTimeOfDay h
    → IsSlot h dias s
    → k * dia_ms + fuso_ms ≤ s
    → s < (k + 1) * dia_ms + fuso_ms
    → s ≡ k * dia_ms + fuso_ms + no_dia h
slot_of_day h dias k s v w lo hi = omega (arith, w.na_hora)

candidate-IsSlot :
    (h : Horario) (dias : List ℕ) (k : ℕ)
    → IsTimeOfDay h
    → includes ((k + 4) % 7) dias ≡ true
    → IsSlot h dias (k * dia_ms + fuso_ms + no_dia h)
candidate-IsSlot h dias k v day =
    let same : (k * dia_ms + fuso_ms + no_dia h - fuso_ms) / dia_ms ≡ k = omega arith in
    record { depois_de_1970 = omega arith; na_hora = omega arith; no_dia_certo = rw same day }

-- The loop over `n` days from day `k` on found nothing, or the first run.
abbrev Found : Horario → List ℕ → (depois_de n k : ℕ) → Option ℕ → Type 0
Found h dias depois_de n k none =
    (s : ℕ)
    → IsSlot h dias s
    → depois_de < s
    → k * dia_ms + fuso_ms ≤ s
    → (k + n) * dia_ms + fuso_ms ≤ s
Found h dias depois_de n k (some r) =
    IsSlot h dias r
    × (depois_de < r)
    × ((s : ℕ) → IsSlot h dias s → depois_de < s → k * dia_ms + fuso_ms ≤ s → r ≤ s)

day_of : (k : ℕ) → get_utc_day (k * dia_ms + fuso_ms + fuso_ms) ≡ (k + 4) % 7
day_of k = omega arith

-- A day that does not serve has no run after `depois_de`.
no_slot_today :
    (h : Horario) (dias : List ℕ) (depois_de k s : ℕ)
    → IsTimeOfDay h
    → serve dias depois_de (k * dia_ms + fuso_ms) (k * dia_ms + fuso_ms + no_dia h) ≡ false
    → IsSlot h dias s
    → depois_de < s
    → k * dia_ms + fuso_ms ≤ s
    → (k + 1) * dia_ms + fuso_ms ≤ s
no_slot_today h dias depois_de k s v skipped w later lo =
    elim (Bool-cases (ltb s ((k + 1) * dia_ms + fuso_ms))) [
      | inr e ↦ ground arith
      | inl e ↦
          let same = slot_of_day h dias k s v w lo (ground arith) in
          let day : (s - fuso_ms) / dia_ms ≡ k = omega arith in
          let served = rw day at w.no_dia_certo in absurd (ground (arith, day_of k))
    ]

-- A day that does not serve adds nothing.
Found-skip :
    (h : Horario) (dias : List ℕ) (depois_de n k : ℕ) (o : Option ℕ)
    → ((s : ℕ)
        → IsSlot h dias s
        → depois_de < s
        → k * dia_ms + fuso_ms ≤ s
        → (k + 1) * dia_ms + fuso_ms ≤ s)
    → Found h dias depois_de n (k + 1) o
    → Found h dias depois_de (suc n) k o
Found-skip h dias depois_de n k none skip f =
    λ s w later lo. omega (arith, f s w later (skip s w later lo))
Found-skip h dias depois_de n k (some r) skip f =
    (f.0, f.1, λ s w later lo. f.2 s w later (skip s w later lo))

-- The candidate of a day that serves is the first run from that day on.
Found-served :
    (h : Horario) (dias : List ℕ) (depois_de n k : ℕ)
    → IsTimeOfDay h
    → serve dias depois_de (k * dia_ms + fuso_ms) (k * dia_ms + fuso_ms + no_dia h) ≡ true
    → Found h dias depois_de (suc n) k (some (k * dia_ms + fuso_ms + no_dia h))
Found-served h dias depois_de n k v served = (
  candidate-IsSlot h dias k v (ground (arith, day_of k)),
  ground arith,
  λ s w later lo. elim (Bool-cases (ltb s ((k + 1) * dia_ms + fuso_ms))) [
    | inl e ↦ omega (arith, slot_of_day h dias k s v w lo (ground arith))
    | inr e ↦ ground arith
  ],
)

procurar-Found :
    (h : Horario) (dias : List ℕ) (depois_de n k : ℕ)
    → IsTimeOfDay h
    → Found h dias depois_de n k (procurar h dias depois_de n (k * dia_ms + fuso_ms))
unfolding procurar
procurar-Found h dias depois_de zero k v = λ s w later lo. omega arith
procurar-Found h dias depois_de (suc n) k v =
    elim (Bool-cases
      (serve dias depois_de (k * dia_ms + fuso_ms) (k * dia_ms + fuso_ms + no_dia h))) [
        | inl e ↦ rw e (Found-served h dias depois_de n k v e)
        | inr e ↦
            let next_day : k * dia_ms + fuso_ms + dia_ms ≡ (k + 1) * dia_ms + fuso_ms =
              omega arith in
            rw (e, next_day)
              (Found-skip h dias depois_de n k _
                (λ s w later lo. no_slot_today h dias depois_de k s v e w later lo)
                (procurar-Found h dias depois_de n (k + 1) v))
      ]

-- Within a week there is a run.
a_run_within_a_week :
    (h : Horario) (dias : List ℕ) (d depois_de : ℕ)
    → IsTimeOfDay h
    → d ≤ 6
    → includes d dias ≡ true
    → fuso_ms ≤ depois_de
    → (s : ℕ) × IsSlot h dias s × (depois_de < s) × (s ≤ depois_de + 7 * dia_ms)
a_run_within_a_week h dias d depois_de v small has old =
    let k = (depois_de - fuso_ms) / dia_ms in
    let j = (d + 7 - (k + 4) % 7) % 7 in
    let day : (k + j + 4) % 7 ≡ d = omega arith in
    let week : (k + j + 7 + 4) % 7 ≡ d = omega arith in
    elim (Bool-cases (ltb depois_de ((k + j) * dia_ms + fuso_ms + no_dia h))) [
      | inl e ↦ (
        (k + j) * dia_ms + fuso_ms + no_dia h,
        candidate-IsSlot h dias (k + j) v (rw day has),
        ground arith,
        omega arith,
      )
      | inr e ↦ (
        (k + j + 7) * dia_ms + fuso_ms + no_dia h,
        candidate-IsSlot h dias (k + j + 7) v (rw week has),
        omega arith,
        ground arith,
      )
    ]

inicio_do_dia-eq :
    (t : ℕ) → fuso_ms ≤ t → inicio_do_dia t ≡ (t - fuso_ms) / dia_ms * dia_ms + fuso_ms
unfolding inicio_do_dia
inicio_do_dia-eq t old = omega arith

-- The first run of a weekly schedule after a moment.
pub record IsNext (h : Horario) (dias : List ℕ) (depois_de r : ℕ) : Type 0 where
  pub slot : IsSlot h dias r
  pub later : depois_de < r
  pub within_a_week : r ≤ depois_de + 7 * dia_ms
  pub first : IsFirst h dias depois_de r

-- What the search of eight days found is the first run, if there is a run within a week.
Found-IsNext :
    (h : Horario) (dias : List ℕ) (t s : ℕ) (o : Option ℕ)
    → fuso_ms ≤ t
    → IsSlot h dias s
    → t < s
    → s ≤ t + 7 * dia_ms
    → Found h dias t 8 ((t - fuso_ms) / dia_ms) o
    → (r : ℕ) × (o ≡ some r) × IsNext h dias t r
Found-IsNext h dias t s none old w later near f = absurd (omega (arith, f s w later (omega arith)))
Found-IsNext h dias t s (some r) old w later near f = (
  r,
  refl,
  record {
    slot = f.0;
    later = f.1;
    within_a_week = omega (arith, f.2 s w later (omega arith));
    first = λ s' w' later'. f.2 s' w' later' (omega arith);
  },
)

-- A weekly schedule with a time of day and with some day of the week always runs again: after any
-- moment its next run is that time, in Brasília, on one of its days, strictly later and at most
-- seven days later, and no other such time lies between.
pub proxima_execucao-IsNext :
    (a : Agendamento) (h : Horario) (d depois_de : ℕ)
    → a.kind ≡ weekly
    → a.time ≡ some h
    → IsTimeOfDay h
    → d ≤ 6
    → includes d a.weekdays ≡ true
    → fuso_ms ≤ depois_de
    → (r : ℕ) × (proxima_execucao a depois_de ≡ some r) × IsNext h a.weekdays depois_de r
unfolding proxima_execucao
proxima_execucao-IsNext a h d depois_de week at v small has old =
    let (s, w, later, near) = a_run_within_a_week h a.weekdays d depois_de v small has old in
    let found = procurar-Found h a.weekdays depois_de 8 ((depois_de - fuso_ms) / dia_ms) v in
    rw (week, at, inicio_do_dia-eq depois_de old)
      (Found-IsNext h a.weekdays depois_de s _ old w later near found)

procurar-lt :
    (h : Horario) (dias : List ℕ) (depois_de n dia : ℕ) {r : ℕ}
    → procurar h dias depois_de n dia ≡ some r
    → depois_de < r
unfolding procurar
procurar-lt h dias depois_de zero dia e = cc
procurar-lt h dias depois_de (suc n) dia {r} e =
    ground (arith, procurar-lt h dias depois_de n (dia + dia_ms) {r = r})

-- Whatever the schedule says, its next run is strictly later.
pub proxima_execucao-lt :
    (a : Agendamento) (depois_de : ℕ) {r : ℕ}
    → proxima_execucao a depois_de ≡ some r
    → depois_de < r
unfolding proxima_execucao
proxima_execucao-lt a depois_de {r} e =
    ground (
      arith,
      λ (h : Horario). procurar-lt h a.weekdays depois_de 8 (inicio_do_dia depois_de) {r = r},
    )
