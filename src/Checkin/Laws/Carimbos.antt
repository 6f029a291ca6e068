-- ===== src/Checkin/Laws/Carimbos.antt =====
-- The rows of src/checkin/checkin.service.ts: a status and its stamps.
use sistema_iccv_backend.Common.{
  ok-inj, require->>, ℕ, ◌≡◌, refl, inl, inr, Bool, true, false, ◌&&◌, Option, none, some, List, [],
  ◌∷◌, arith, ◌==◌, if◌then◌else◌, Bool-cases, Option-cases, filter, All, All-append, nat_eq,
  Result, ok, err, or_throw, >>=-eq-ok,
}
use sistema_iccv_backend.Checkin.{
  fila_vazia, CheckinStatus, pending, queued, in_progress, done, same_status, Checkin, CheckinError,
  da_inscricao, find_checkin, update_many, entregar, chamar, concluir, desfazer, reverter,
  com_status, call, complete,
}
use sistema_iccv_backend.Checkin.Balcao.{
  Participante, Recepcao, novo_checkin, entregar_cracha, find_registration, primeiro, call_next,
  release_auto_bedroom, undo, undo_badge_delivery,
}

abbrev pub is_some : Option ℕ → Bool
is_some none = false
is_some (some n) = true

-- The stamps that a status goes with: the badge from the queue on, the call before it none, and the
-- end with the end only.
abbrev pub Stamps : CheckinStatus → Checkin → Type 0
Stamps pending c = (c.badge_delivered_at ≡ none) × (c.called_at ≡ none) × (c.done_at ≡ none)
Stamps queued c = (is_some c.badge_delivered_at ≡ true) × (c.called_at ≡ none) × (c.done_at ≡ none)
Stamps in_progress c = (is_some c.badge_delivered_at ≡ true) × (c.done_at ≡ none)
Stamps done c = (is_some c.badge_delivered_at ≡ true) × (is_some c.done_at ≡ true)

abbrev pub IsStamped : Checkin → Type 0
IsStamped c = Stamps c.status c

pub update_many-All :
    (P : Checkin → Type 0) (where_ : Checkin → Bool) (f : Checkin → Checkin) (rows : List Checkin)
    → ((c : Checkin) → where_ c ≡ true → P c → P (f c))
    → All P rows
    → All P (update_many where_ f rows)
unfolding update_many
update_many-All P where_ f [] keeps h = tt
update_many-All P where_ f (c ∷ cs) keeps h = elim (Bool-cases (where_ c)) [
  | inl e ↦ rw e (keeps c e h.0, update_many-All P where_ f cs keeps h.1)
  | inr e ↦ rw e (h.0, update_many-All P where_ f cs keeps h.1)
]

chamar-IsStamped :
    (op t e u : ℕ) (c : Checkin)
    → com_status e u (queued ∷ []) c ≡ true
    → IsStamped c
    → IsStamped (chamar op t c)
unfolding chamar
chamar-IsStamped op t e u c here h = ground arith

concluir-IsStamped :
    (op t e u : ℕ) (notes : Option ℕ) (c : Checkin)
    → com_status e u (queued ∷ in_progress ∷ []) c ≡ true
    → IsStamped c
    → IsStamped (concluir op t notes c)
unfolding concluir
concluir-IsStamped op t e u notes c here h = ground arith

desfazer-IsStamped : (c : Checkin) → IsStamped c → IsStamped (desfazer c)
unfolding desfazer
desfazer-IsStamped c h = ground arith

guarded_inv {ℓ} :
    {A : Type ℓ} (t : Bool) (x : A) (e : CheckinError) {y : A}
    → Path (Result CheckinError A) (if t then ok x else err e) (ok y)
    → x ≡ y
guarded_inv true x e h = cc
guarded_inv false x e h = cc

pub call-All-IsStamped :
    (e u op t : ℕ) (rows : List Checkin) {rows' : List Checkin}
    → call e u op t rows ≡ ok rows'
    → All IsStamped rows
    → All IsStamped rows'
unfolding call
call-All-IsStamped e u op t rows h w =
    rw (← guarded_inv _ (update_many (com_status e u (queued ∷ [])) (chamar op t) rows) _ h) (
      update_many-All IsStamped (com_status e u (queued ∷ [])) (chamar op t) rows
        (chamar-IsStamped op t e u) w)

pub complete-All-IsStamped :
    (e u op t : ℕ) (notes : Option ℕ) (rows : List Checkin) {rows' : List Checkin}
    → complete e u op t notes rows ≡ ok rows'
    → All IsStamped rows
    → All IsStamped rows'
unfolding complete
complete-All-IsStamped e u op t notes rows h w =
    let where_ = com_status e u (queued ∷ in_progress ∷ []) in
    rw (← guarded_inv _ (update_many where_ (concluir op t notes) rows) _ h) (
      update_many-All IsStamped where_ (concluir op t notes) rows
        (concluir-IsStamped op t e u notes) w)

pub call_next-All-IsStamped :
    (e op t : ℕ) (rows : List Checkin) {rows' : List Checkin}
    → call_next e op t rows ≡ ok rows'
    → All IsStamped rows
    → All IsStamped rows'
unfolding call_next
call_next-All-IsStamped e op t rows h w =
    let (c, _, k) =
      >>=-eq-ok {A = Checkin}
        (or_throw (primeiro (filter (λ c. c.event_id == e && same_status c.status queued) rows))
          fila_vazia)
        _ h in
    call-All-IsStamped e c.user_id op t rows k w

pub entregar_cracha-All-IsStamped :
    (e u op t : ℕ) (rows : List Checkin) {rows' : List Checkin}
    → entregar_cracha e u op t rows ≡ ok rows'
    → All IsStamped rows
    → All IsStamped rows'
unfolding entregar_cracha entregar
entregar_cracha-All-IsStamped e u op t rows h w = elim (Option-cases (find_checkin rows e u)) [
  | inl none' ↦
      let same = ok-inj (rw (entregar_cracha, none') at h) in
      rw (← same)
        (All-append IsStamped rows (novo_checkin e u op t ∷ []) w ((refl, refl, refl), tt))
  | inr (c, found) ↦
      let where_ = com_status e u (pending ∷ []) in
      rw
        (← guarded_inv _ (update_many where_ (entregar op t) rows) _
          (rw (entregar_cracha, found) at h))
        (update_many-All IsStamped where_ (entregar op t) rows (λ c here k. (refl, refl, refl)) w)
]

release-All-IsStamped :
    (e u : ℕ) (id : Option ℕ) (s : Recepcao)
    → All IsStamped s.checkins
    → All IsStamped (release_auto_bedroom e u id s).checkins
unfolding release_auto_bedroom
release-All-IsStamped e u none s w = w
release-All-IsStamped e u (some id) s w =
    update_many-All IsStamped (da_inscricao e u) (λ c. record c { auto_bedroom_id = none })
      s.checkins (λ c here h. ground arith) w

freed-All-IsStamped :
    (t : Bool) (e u : ℕ) (id : Option ℕ) (s : Recepcao)
    → All IsStamped s.checkins
    → All IsStamped (if t then release_auto_bedroom e u id s else s).checkins
freed-All-IsStamped true e u id s w = release-All-IsStamped e u id s w
freed-All-IsStamped false e u id s w = w

pub undo-All-IsStamped :
    (e u : ℕ) (s : Recepcao) {s' : Recepcao}
    → undo e u s ≡ ok s'
    → All IsStamped s.checkins
    → All IsStamped s'.checkins
unfolding undo
undo-All-IsStamped e u s {s'} h w =
    let (atual, _, k1) = >>=-eq-ok {A = Checkin} (or_throw (find_checkin s.checkins e u) _) _ h in
    let (_, k2) = require->> _ _ _ k1 in
    let where_ = com_status e u (atual.status ∷ []) in
    let back = record s { checkins = update_many where_ desfazer s.checkins } in
    let same : (if same_status atual.status queued
          then release_auto_bedroom e u atual.auto_bedroom_id back
          else back)
        ≡ s' =
      ok-inj k2 in
    rw (← same) (
      freed-All-IsStamped (same_status atual.status queued) e u atual.auto_bedroom_id back (
        update_many-All IsStamped where_ desfazer s.checkins (λ c here k. desfazer-IsStamped c k)
          w))

pub undo_badge_delivery-All-IsStamped :
    (e u : ℕ) (s : Recepcao) {s' : Recepcao}
    → undo_badge_delivery e u s ≡ ok s'
    → All IsStamped s.checkins
    → All IsStamped s'.checkins
unfolding undo_badge_delivery reverter
undo_badge_delivery-All-IsStamped e u s {s'} h w =
    let (_, _, k1) = >>=-eq-ok {A = Participante} (or_throw (find_registration s e u) _) _ h in
    let (before, _, k2) = >>=-eq-ok {A = Checkin} (or_throw (find_checkin s.checkins e u) _) _ k1 in
    let (_, k3) = require->> _ _ _ k2 in
    let where_ = com_status e u (queued ∷ in_progress ∷ done ∷ []) in
    let same : release_auto_bedroom e u before.auto_bedroom_id
          (record s { checkins = update_many where_ reverter s.checkins })
        ≡ s' =
      ok-inj k3 in
    rw (← same) (
      release-All-IsStamped e u before.auto_bedroom_id
        (record s { checkins = update_many where_ reverter s.checkins })
        (update_many-All IsStamped where_ reverter s.checkins (λ c here k. (refl, refl, refl)) w))
