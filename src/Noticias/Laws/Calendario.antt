-- ===== src/Noticias/Laws/Calendario.antt =====
-- The calendar of src/news/news.service.ts shows every run of a weekly schedule in the period.
use sistema_iccv_backend.Common.{
  ℕ, zero, suc, ◌+◌, ◌-◌, ◌*◌, ◌≤◌, ◌<◌, ◌≡◌, refl, sym, subst, true, ◌&&◌, some, List, ◌∷◌, Memᴰ,
  arith, ◌==◌, ltb, leb, ◌⊎◌, inl, inr, Bool-cases, includes, nat_eq, ◌↔◌,
}
use sistema_iccv_backend.Noticias.{dia_ms, weekly, Horario, Agendamento, proxima_execucao}
use sistema_iccv_backend.Noticias.Calendario.{combustivel, ocorrencias, teto_de_ocorrencias}
use sistema_iccv_backend.Noticias.Laws.Proxima.{
  IsSlot, IsTimeOfDay, IsNext, proxima_execucao-IsNext,
}

-- Two runs of one schedule are at least a day apart.
a_day_apart :
    (h : Horario) (dias : List ℕ) (q r : ℕ)
    → IsSlot h dias q
    → IsSlot h dias r
    → q < r
    → q + dia_ms ≤ r
a_day_apart h dias q r v w lt = omega (arith, v.na_hora, w.na_hora)

-- A weekly schedule, as `validarAgendamento` lets it be saved.
pub record IsWeekly (a : Agendamento) (h : Horario) (d : ℕ) : Type 0 where
  pub kind_is : a.kind ≡ weekly
  pub time_is : a.time ≡ some h
  pub time_of_day : IsTimeOfDay h
  pub some_day : d ≤ 6
  pub has_day : includes d a.weekdays ≡ true

-- A run that the period shows, from the marked one on.
pub record Shown (a : Agendamento) (h : Horario) (de ate quando s : ℕ) : Type 0 where
  pub slot : IsSlot h a.weekdays s
  pub not_before : quando ≤ s
  pub from_start : de ≤ s
  pub before_end : s < ate

module _ (a : Agendamento) (h : Horario) (d : ℕ) (w : IsWeekly a h d) (de ate : ℕ) where
  run_after :
      (q : ℕ)
      → IsSlot h a.weekdays q
      → (r : ℕ) × (proxima_execucao a q ≡ some r) × IsNext h a.weekdays q r
  run_after q slot =
      proxima_execucao-IsNext a h d q w.kind_is w.time_is w.time_of_day w.some_day w.has_day
        slot.depois_de_1970

  Shown-later : (q r s : ℕ) → IsNext h a.weekdays q r → Shown a h de ate r s → Shown a h de ate q s
  Shown-later q r s n m = record {
    slot = m.slot;
    not_before = omega (arith, n.later, m.not_before);
    from_start = m.from_start;
    before_end = m.before_end;
  }

  Shown-here : (q : ℕ) → IsSlot h a.weekdays q → de ≤ q → q < ate → Shown a h de ate q q
  Shown-here q slot lo hi = record {
    slot = slot;
    not_before = omega arith;
    from_start = lo;
    before_end = hi;
  }

  mem-cons-cases : {s x : ℕ} {xs : List ℕ} → Memᴰ s (x ∷ xs) → (s ≡ x) ⊎ Memᴰ s xs
  mem-cons-cases (Memᴰ.head same) = inl same
  mem-cons-cases (Memᴰ.tail m) = inr m

  ocorrencias_sound :
      (fuel n q : ℕ) {s : ℕ}
      → IsSlot h a.weekdays q
      → Memᴰ s (ocorrencias a de ate fuel n (some q))
      → Shown a h de ate q s
  unfolding ocorrencias
  ocorrencias_sound zero n q slot m = elim m [ ]
  ocorrencias_sound (suc fuel) n q {s} slot m =
      let (r, same, n') = run_after q slot in
      elim (Bool-cases (ltb q ate && ltb n teto_de_ocorrencias)) [
        | inr stop ↦ elim (rw stop at m) [ ]
        | inl go ↦ elim (Bool-cases (leb de q)) [
          | inr early ↦
              Shown-later q r s n' (ocorrencias_sound fuel n r n'.slot (rw (go, early, same) at m))
          | inl inside ↦ elim (mem-cons-cases (rw (go, inside, same) at m)) [
            | inl here ↦
                subst (Shown a h de ate q) (sym here)
                  (Shown-here q slot (ground arith) (ground arith))
            | inr later ↦ Shown-later q r s n' (ocorrencias_sound fuel (n + 1) r n'.slot later)
          ]
        ]
      ]

  -- What keeps the list below its limit: `n` runs of the period lie before `q`.
  abbrev Few : ℕ → ℕ → Type 0
  Few n q = (n ≡ 0) ⊎ (de + n * dia_ms ≤ q)

  later_run :
      (q r s : ℕ) → IsNext h a.weekdays q r → Shown a h de ate q s → q < s → Shown a h de ate r s
  later_run q r s n m lt = record {
    slot = m.slot;
    not_before = n.first s m.slot lt;
    from_start = m.from_start;
    before_end = m.before_end;
  }

  ocorrencias_complete :
      (fuel n q s : ℕ)
      → ate ≤ de + 62 * dia_ms
      → ate - q < fuel
      → Few n q
      → IsSlot h a.weekdays q
      → Shown a h de ate q s
      → Memᴰ s (ocorrencias a de ate fuel n (some q))
  unfolding ocorrencias
  ocorrencias_complete zero n q s short enough few slot m = absurd (omega arith)
  ocorrencias_complete (suc fuel) n q s short enough few slot m =
      let (r, same, n') = run_after q slot in
      let apart = a_day_apart h a.weekdays q r slot n'.slot n'.later in
      let go : (ltb q ate && ltb n teto_de_ocorrencias) ≡ true = ground arith in
      elim (Bool-cases (leb de q)) [
        | inr early ↦
            rw (go, early, same)
              (ocorrencias_complete fuel n r s short (omega arith) (ground arith) n'.slot
                (later_run q r s n' m (ground arith)))
        | inl inside ↦ elim (Bool-cases (s == q)) [
          | inl here ↦ rw (go, inside, same) (Memᴰ.head (ground arith))
          | inr other ↦
              rw (go, inside, same)
                (Memᴰ.tail (
                  ocorrencias_complete fuel (n + 1) r s short (omega arith) (ground arith) n'.slot
                    (later_run q r s n' m (ground arith))))
        ]
      ]

  -- In a period of at most 62 days, the calendar shows for a weekly schedule whose next run is
  -- marked exactly the runs of the period from that one on: none is left out, also by the limit of
  -- a hundred, which is never reached.
  pub ocorrencias_iff :
      (q s : ℕ)
      → ate ≤ de + 62 * dia_ms
      → IsSlot h a.weekdays q
      → Memᴰ s (ocorrencias a de ate (combustivel ate (some q)) 0 (some q)) ↔ Shown a h de ate q s
  ocorrencias_iff q s short slot = (
    λ m. ocorrencias_sound (suc (ate - q)) 0 q slot m,
    λ m. ocorrencias_complete (suc (ate - q)) 0 q s short (omega arith) (inl refl) slot m,
  )
