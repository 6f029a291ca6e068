-- ===== src/Noticias/Laws/Vencidos.antt =====
-- The schedules that one whole round of `dispararVencidos` of src/news/news.service.ts leaves.
use sistema_iccv_backend.Common.{
  ℕ, ◌≡◌, true, false, some, List, [], ◌∷◌, map, arith, ◌==◌, if◌then◌else◌, any, find?, nat_eq,
  All, All-map, Bool-cases, inl, inr, ◌⊎◌, leb, Option-cases,
}
use sistema_iccv_backend.Access.Database.{Database}
use sistema_iccv_backend.Noticias.Disparo.{
  NewsSchedule, Noticia, Mural, Vencido, vencidos, da_vez, passar, dispara, iteracao, rodada,
  disparar_vencidos,
}
use sistema_iccv_backend.Noticias.Laws.Disparo.{Depois, proxima-Depois}

module _ (db : Database) (agora : ℕ) where
  -- Not marked for a moment that has come.
  abbrev pub NotDue : NewsSchedule → Type 0
  NotDue r = Depois r.next_run_at agora

  -- A row is dealt with, or still to come in the loop.
  abbrev Pending : List Vencido → NewsSchedule → Type 0
  Pending vs r = NotDue r ⊎ (any (λ v. da_vez v r) vs ≡ true)

  Pending-row :
      (v : Vencido) (vs : List Vencido) (r : NewsSchedule)
      → Pending (v ∷ vs) r
      → Pending vs (if da_vez v r then passar agora v r else r)
  unfolding passar
  Pending-row v vs r p = elim (Bool-cases (da_vez v r)) [
    | inl turn ↦ rw turn (inl (proxima-Depois v.agendamento agora agora (omega arith)))
    | inr other ↦ rw other (elim p [ inl done ↦ inl done | inr later ↦ inr (ground arith) ])
  ]

  Pending-rows :
      (v : Vencido) (vs : List Vencido) (rs : List NewsSchedule)
      → All (Pending (v ∷ vs)) rs
      → All (Pending vs) (map (λ r. if da_vez v r then passar agora v r else r) rs)
  Pending-rows v vs [] p = tt
  Pending-rows v vs (r ∷ rs) p = (Pending-row v vs r p.0, Pending-rows v vs rs p.1)

  Pending-lost :
      (v : Vencido) (vs : List Vencido) (rs : List NewsSchedule)
      → any (da_vez v) rs ≡ false
      → All (Pending (v ∷ vs)) rs
      → All (Pending vs) rs
  Pending-lost v vs [] lost p = tt
  Pending-lost v vs (r ∷ rs) lost p = (
    elim p.0 [ inl done ↦ inl done | inr later ↦ inr (ground arith) ],
    Pending-lost v vs rs (ground arith) p.1,
  )

  iteracao-Pending :
      (v : Vencido) (vs : List Vencido) (disparadas : List ℕ) (s : Mural)
      → All (Pending (v ∷ vs)) s.schedules
      → All (Pending vs) (iteracao db agora v disparadas s).0.schedules
  unfolding iteracao
  iteracao-Pending v vs disparadas s p = elim (Bool-cases (any (da_vez v) s.schedules)) [
    | inr lost ↦ rw lost (Pending-lost v vs s.schedules lost p)
    | inl turn ↦ elim (Bool-cases (dispara db agora disparadas v)) [
      | inr quiet ↦ rw (turn, quiet) (Pending-rows v vs s.schedules p)
      | inl fires ↦ rw (turn, fires) (Pending-rows v vs s.schedules p)
    ]
  ]

  rodada-NotDue :
      (vs : List Vencido) (disparadas : List ℕ) (s : Mural)
      → All (Pending vs) s.schedules
      → All NotDue (rodada db agora vs disparadas s).schedules
  unfolding rodada
  rodada-NotDue [] disparadas s p =
      All-map (Pending []) NotDue s.schedules (λ r q. elim q [ inl done ↦ done | inr none_ ↦ cc ]) p
  rodada-NotDue (v ∷ vs) disparadas s p =
      let q = iteracao db agora v disparadas s in
      rodada-NotDue vs q.1 q.0 (iteracao-Pending v vs disparadas s p)

  -- The news item of the row is on record.
  abbrev pub HasNews : List Noticia → NewsSchedule → Type 0
  HasNews noticias r = any (λ n. n.id == r.news_id) noticias ≡ true

  found :
      (id : ℕ) (noticias : List Noticia)
      → any (λ n. n.id == id) noticias ≡ true
      → (n : Noticia) × (find? (λ m. m.id == id) noticias ≡ some n)
  found id [] h = cc
  found id (m ∷ ms) h = elim (Bool-cases (m.id == id)) [
    | inl e ↦ (m, rw e)
    | inr e ↦ let (n, same) = found id ms (ground arith) in (n, rw e same)
  ]

  covers_self :
      (noticias : List Noticia) (r : NewsSchedule) (rs : List NewsSchedule)
      → HasNews noticias r
      → Pending (vencidos noticias agora (r ∷ rs)) r
  unfolding vencidos
  covers_self noticias r rs h =
      let (n, here) = found r.news_id noticias h in
      elim (Option-cases r.next_run_at) [
        | inl off ↦ inl (rw off tt)
        | inr (t, at) ↦ elim (Bool-cases (leb t agora)) [
          | inl come ↦ inr (ground arith)
          | inr ahead ↦ inl (rw at (ground arith))
        ]
      ]

  covers_more :
      (noticias : List Noticia) (r q : NewsSchedule) (rs : List NewsSchedule)
      → Pending (vencidos noticias agora rs) q
      → Pending (vencidos noticias agora (r ∷ rs)) q
  unfolding vencidos
  covers_more noticias r q rs (inl done) = inl done
  covers_more noticias r q rs (inr later) = inr (ground arith)

  vencidos-cover :
      (noticias : List Noticia) (rs : List NewsSchedule)
      → All (HasNews noticias) rs
      → All (Pending (vencidos noticias agora rs)) rs
  vencidos-cover noticias [] h = tt
  vencidos-cover noticias (r ∷ rs) h = (
    covers_self noticias r rs h.0,
    All-map _ _ rs (λ q p. covers_more noticias r q rs p) (vencidos-cover noticias rs h.1),
  )

  -- If every schedule's news item is on record, one round leaves no schedule marked for a moment
  -- that has come: each one that was due is marked for later, or for no moment.
  pub disparar_vencidos-NotDue :
      (s : Mural)
      → All (HasNews s.noticias) s.schedules
      → All NotDue (disparar_vencidos db agora s).schedules
  unfolding disparar_vencidos
  disparar_vencidos-NotDue s h =
      rodada-NotDue (vencidos s.noticias agora s.schedules) [] s
        (vencidos-cover s.noticias s.schedules h)
