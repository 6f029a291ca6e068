-- ===== src/Checkin/Laws/Desfeito.antt =====
-- Undoing the end of a check-in: `complete` and `undo` of src/checkin/checkin.service.ts in a row.
use sistema_iccv_backend.Common.{
  ℕ, ◌≡◌, refl, sym, ap, ◌∙◌, inl, inr, Bool, true, false, Option, none, some, List, [], ◌∷◌, arith,
  Bool-cases, any, All, ok, subst,
}
use sistema_iccv_backend.Checkin.{
  CheckinStatus, queued, in_progress, done, same_status, Checkin, da_inscricao, find_checkin,
  update_many, concluir, desfazer, com_status, complete,
}
use sistema_iccv_backend.Checkin.Balcao.{Recepcao, undo}

-- One row per person and event, as the table's key asks.
abbrev pub OneRow : (event_id user_id : ℕ) → List Checkin → Type 0
OneRow event_id user_id [] = Unit
OneRow event_id user_id (c ∷ cs) =
    (da_inscricao event_id user_id c ≡ true → All (λ d. da_inscricao event_id user_id d ≡ false) cs)
    × OneRow event_id user_id cs

-- A row that is not done has no stamp of an end.
abbrev pub NotEnded : Checkin → Type 0
NotEnded c = same_status c.status done ≡ false → (c.done_at ≡ none) × (c.done_by ≡ none)

-- The row back in progress, with what the end noted.
abbrev pub reaberto : (notes : Option ℕ) → Checkin → Checkin
reaberto notes c = record c {
  status = in_progress;
  notes = elim notes [ none ↦ c.notes | some n ↦ some n ];
}

abbrev aberto : (event_id user_id : ℕ) → Checkin → Bool
aberto event_id user_id = com_status event_id user_id (queued ∷ in_progress ∷ [])

module _ (e u : ℕ) where
  update_many-none :
      (statuses : List CheckinStatus) (f : Checkin → Checkin) (rows : List Checkin)
      → All (λ c. da_inscricao e u c ≡ false) rows
      → update_many (com_status e u statuses) f rows ≡ rows
  unfolding update_many
  update_many-none statuses f [] h = refl
  update_many-none statuses f (c ∷ cs) h =
      rw h.0 (ap (λ l. c ∷ l) (update_many-none statuses f cs h.1))

  reabrir-none :
      (f : Checkin → Checkin) (rows : List Checkin)
      → All (λ c. da_inscricao e u c ≡ false) rows
      → update_many (da_inscricao e u) f rows ≡ rows
  unfolding update_many
  reabrir-none f [] h = refl
  reabrir-none f (c ∷ cs) h = rw h.0 (ap (λ l. c ∷ l) (reabrir-none f cs h.1))

  any-none :
      (statuses : List CheckinStatus) (rows : List Checkin)
      → All (λ c. da_inscricao e u c ≡ false) rows
      → any (com_status e u statuses) rows ≡ false
  any-none statuses [] h = refl
  any-none statuses (c ∷ cs) h = rw h.0 (any-none statuses cs h.1)

  desfazer-concluir :
      (op t : ℕ) (notes : Option ℕ) (c : Checkin)
      → any (same_status c.status) (queued ∷ in_progress ∷ []) ≡ true
      → NotEnded c
      → desfazer (concluir op t notes c) ≡ reaberto notes c
  unfolding desfazer concluir
  desfazer-concluir op t none c open_ w = let (at, by) = w (ground arith) in ground arith
  desfazer-concluir op t (some n) c open_ w = let (at, by) = w (ground arith) in ground arith

  -- The person's row is found done, and going back on it gives the row in progress.
  abbrev Reaberto : (op t : ℕ) (notes : Option ℕ) → List Checkin → Type 0
  Reaberto op t notes rows =
      let ended = update_many (aberto e u) (concluir op t notes) rows in
      ((d : Checkin) × (find_checkin ended e u ≡ some d) × (d.status ≡ done))
      × (update_many (com_status e u (done ∷ [])) desfazer ended
          ≡ update_many (da_inscricao e u) (reaberto notes) rows)

  ended-Reaberto :
      (op t : ℕ) (notes : Option ℕ) (rows : List Checkin)
      → OneRow e u rows
      → All NotEnded rows
      → any (aberto e u) rows ≡ true
      → Reaberto op t notes rows
  unfolding update_many find_checkin concluir
  ended-Reaberto op t notes [] one w found = cc
  ended-Reaberto op t notes (c ∷ cs) one w found = elim (Bool-cases (da_inscricao e u c)) [
    | inl his ↦
        let others = one.0 his in
        let rest = any-none (queued ∷ in_progress ∷ []) cs others in
        let open_ : any (same_status c.status) (queued ∷ in_progress ∷ []) ≡ true =
          ground (arith, found, his, rest) in
        let f = concluir op t notes in
        let same : update_many (aberto e u) f cs ≡ cs =
          update_many-none (queued ∷ in_progress ∷ []) f cs others in
        let here : aberto e u c ≡ true = rw his open_ in
        rw here (
          (f c, rw his refl, refl),
          rw his (
              rw same (
                ap (λ d. d ∷ update_many (com_status e u (done ∷ [])) desfazer cs)
                  (desfazer-concluir op t notes c open_ w.0)
                ∙ ap (λ l. reaberto notes c ∷ l)
                    (update_many-none (done ∷ []) desfazer cs others
                      ∙ sym (reabrir-none (reaberto notes) cs others)))),
        )
    | inr not_his ↦
        let miss : aberto e u c ≡ false = rw not_his refl in
        let (row, back) = ended-Reaberto op t notes cs one.1 w.1 (ground (arith, found, miss)) in
        rw miss ((row.0, rw not_his row.1, row.2), rw not_his (ap (λ l. c ∷ l) back))
  ]

  complete-eq-ok :
      (op t : ℕ) (notes : Option ℕ) (rows : List Checkin) {rows' : List Checkin}
      → complete e u op t notes rows ≡ ok rows'
      → (any (aberto e u) rows ≡ true)
        × (update_many (aberto e u) (concluir op t notes) rows ≡ rows')
  unfolding complete
  complete-eq-ok op t notes rows h = (ground arith, ground arith)

  -- An end that went through can be undone at once, where the table has one row for the person in the
  -- event and rows that are not done have no stamp of an end. Then every row is as it was before the
  -- end, but that the person's row is in progress, also if they had not been called yet, and keeps the
  -- notes of the end if it had any.
  pub undo-complete :
      (op t : ℕ) (notes : Option ℕ) (s : Recepcao) {rows' : List Checkin}
      → OneRow e u s.checkins
      → All NotEnded s.checkins
      → complete e u op t notes s.checkins ≡ ok rows'
      → undo e u (record s { checkins = rows' })
        ≡ ok (record s { checkins = update_many (da_inscricao e u) (reaberto notes) s.checkins })
  unfolding undo
  undo-complete op t notes s {rows'} one w h =
      let (found, same) = complete-eq-ok op t notes s.checkins h in
      let ((d, at, is_done), back) = ended-Reaberto op t notes s.checkins one w found in
      subst
        (λ rows.
          undo e u (record s { checkins = rows })
          ≡ ok (record s { checkins = update_many (da_inscricao e u) (reaberto notes) s.checkins }))
        same (rw (undo, at) (rw is_done (ap (λ rows. ok (record s { checkins = rows })) back)))
