-- ===== src/Noticias/Laws/Rodada.antt =====
-- What one whole round of `dispararVencidos` of src/news/news.service.ts dispatches.
use sistema_iccv_backend.Common.{
  ℕ, ◌+◌, ◌≤◌, ◌≡◌, refl, sym, ap, subst, ◌∙◌, ◌≢◌, true, false, List, [], ◌∷◌, ◌++◌, arith, any,
  includes, nat_eq, All, All-append, All-map, Bool-cases, inl, inr, ◌⊎◌,
}
use sistema_iccv_backend.Access.Database.{Database}
use sistema_iccv_backend.Noticias.{tolerancia_de_atraso_ms}
use sistema_iccv_backend.Noticias.Disparo.{
  NewsSchedule, Noticia, Envio, Mural, Vencido, vencidos, da_vez, dispara, iteracao, rodada,
  disparar_vencidos,
}

-- The moment has come, and is at most an hour old.
abbrev pub NaHora : ℕ → Envio → Type 0
NaHora agora e = (e.marcado ≤ agora) × (agora ≤ e.marcado + tolerancia_de_atraso_ms)

abbrev pub DistinctNews : List Envio → Type 0
DistinctNews [] = Unit
DistinctNews (e ∷ es) = All (λ f. f.news_id ≢ e.news_id) es × DistinctNews es

-- The dispatches of a round that had already dispatched `disparadas`.
pub record Sent (agora : ℕ) (disparadas : List ℕ) (novos : List Envio) : Type 0 where
  pub on_time : All (NaHora agora) novos
  pub other_news : All (λ e. includes e.news_id disparadas ≡ false) novos
  pub distinct : DistinctNews novos

DistinctNews-snoc :
    (e : Envio) (es : List Envio)
    → All (λ f. f.news_id ≢ e.news_id) es
    → DistinctNews es
    → DistinctNews (es ++ e ∷ [])
DistinctNews-snoc e [] apart d = (tt, tt)
DistinctNews-snoc e (f ∷ es) apart d = (
  All-append (λ g. g.news_id ≢ f.news_id) es _ d.0 ((λ same. apart.0 (sym same)), tt),
  DistinctNews-snoc e es apart.1 d.1,
)

not_there :
    (e : Envio) (id : ℕ) (d : List ℕ)
    → includes e.news_id (id ∷ d) ≡ false
    → (e.news_id ≢ id) × (includes e.news_id d ≡ false)
not_there e id d h = (ground arith, ground arith)

Sent-snoc :
    (agora : ℕ) (disparadas : List ℕ) (e : Envio) (novos : List Envio)
    → NaHora agora e
    → includes e.news_id disparadas ≡ false
    → Sent agora (e.news_id ∷ disparadas) novos
    → Sent agora disparadas (novos ++ e ∷ [])
Sent-snoc agora disparadas e novos now fresh w = record {
  on_time = All-append (NaHora agora) novos _ w.on_time (now, tt);
  other_news =
      All-append (λ f. includes f.news_id disparadas ≡ false) novos _
        (All-map _ _ novos (λ f h. (not_there f e.news_id disparadas h).1) w.other_news)
        (fresh, tt);
  distinct =
      DistinctNews-snoc e novos
        (All-map _ _ novos (λ f h. (not_there f e.news_id disparadas h).0) w.other_news) w.distinct;
}

append-snoc : (xs : List Envio) (e : Envio) (ys : List Envio) → xs ++ e ∷ ys ≡ (xs ++ e ∷ []) ++ ys
append-snoc [] e ys = refl
append-snoc (x ∷ xs) e ys = ap (λ zs. x ∷ zs) (append-snoc xs e ys)

abbrev envio_de : Vencido → Envio
envio_de v = record { schedule_id = v.id; news_id = v.news.id; marcado = v.marcado }

module _ (db : Database) (agora : ℕ) where
  dispara-fresh :
      (v : Vencido) (disparadas : List ℕ)
      → v.marcado ≤ agora
      → dispara db agora disparadas v ≡ true
      → (agora ≤ v.marcado + tolerancia_de_atraso_ms) × (includes v.news.id disparadas ≡ false)
  unfolding dispara
  dispara-fresh v disparadas due h = (ground arith, ground arith)

  -- One row: no dispatch, or one.
  iteracao-cases :
      (v : Vencido) (disparadas : List ℕ) (s : Mural)
      → (((iteracao db agora v disparadas s).0.envios ≡ s.envios)
          × ((iteracao db agora v disparadas s).1 ≡ disparadas))
        ⊎ (((iteracao db agora v disparadas s).0.envios ≡ envio_de v ∷ s.envios)
            × ((iteracao db agora v disparadas s).1 ≡ v.news.id ∷ disparadas)
            × (dispara db agora disparadas v ≡ true))
  unfolding iteracao
  iteracao-cases v disparadas s = elim (Bool-cases (any (da_vez v) s.schedules)) [
    | inr lost ↦ inl (rw lost, rw lost)
    | inl turn ↦ elim (Bool-cases (dispara db agora disparadas v)) [
      | inr quiet ↦ inl (rw (turn, quiet), rw (turn, quiet))
      | inl fires ↦ inr (rw (turn, fires), rw (turn, fires), fires)
    ]
  ]

  rodada-Sent :
      (vs : List Vencido) (disparadas : List ℕ) (s : Mural)
      → All (λ v. v.marcado ≤ agora) vs
      → (novos : List Envio) × ((rodada db agora vs disparadas s).envios ≡ novos ++ s.envios)
        × Sent agora disparadas novos
  unfolding rodada
  rodada-Sent [] disparadas s due =
      ([], refl, record { on_time = tt; other_news = tt; distinct = tt })
  rodada-Sent (v ∷ vs) disparadas s due =
      let p = iteracao db agora v disparadas s in
      let (novos, same, w) = rodada-Sent vs p.1 p.0 due.1 in
      elim (iteracao-cases v disparadas s) [
        | inl (quiet, kept) ↦
            (novos, same ∙ ap (λ es. novos ++ es) quiet, subst (λ d. Sent agora d novos) kept w)
        | inr (one, seen, fires) ↦
            let (near, fresh) = dispara-fresh v disparadas due.0 fires in
            (
              novos ++ envio_de v ∷ [],
              same ∙ ap (λ es. novos ++ es) one ∙ append-snoc novos (envio_de v) s.envios,
              Sent-snoc agora disparadas (envio_de v) novos (due.0, near) fresh
                  (subst (λ d. Sent agora d novos) seen w),
            )
      ]

  vencidos-due :
      (noticias : List Noticia) (rs : List NewsSchedule)
      → All (λ v. v.marcado ≤ agora) (vencidos noticias agora rs)
  unfolding vencidos
  vencidos-due noticias [] = tt
  vencidos-due noticias (r ∷ rs) = ground (arith, vencidos-due noticias rs)

  -- One round dispatches each news item at most once, and only for moments that have come and are
  -- at most an hour old, whatever the tables hold.
  pub disparar_vencidos-Sent :
      (s : Mural)
      → (novos : List Envio) × ((disparar_vencidos db agora s).envios ≡ novos ++ s.envios)
        × All (NaHora agora) novos
        × DistinctNews novos
  unfolding disparar_vencidos
  disparar_vencidos-Sent s =
      let (novos, same, w) =
        rodada-Sent (vencidos s.noticias agora s.schedules) [] s
          (vencidos-due s.noticias s.schedules) in
      (novos, same, w.on_time, w.distinct)
