-- ===== src/Checkin/Laws/Passos.antt =====
-- Every sequence of the operations of src/checkin/checkin.service.ts.
use sistema_iccv_backend.Common.{
  ok-inj, ℕ, ◌≡◌, Option, none, some, List, [], arith, ◌==◌, any, All, nat_eq, ok, or_throw,
  >>=-eq-ok,
}
use sistema_iccv_backend.Checkin.{Checkin, da_inscricao, call, complete}
use sistema_iccv_backend.Checkin.Quartos.{Quarto, allocate_bedroom}
use sistema_iccv_backend.Checkin.Balcao.{
  Participante, Recepcao, entregar_cracha, marcar_quarto, find_registration, deliver_badge,
  call_next, undo, undo_badge_delivery,
}
use sistema_iccv_backend.Checkin.Laws.Carimbos.{
  IsStamped, update_many-All, call-All-IsStamped, complete-All-IsStamped, call_next-All-IsStamped,
  entregar_cracha-All-IsStamped, undo-All-IsStamped, undo_badge_delivery-All-IsStamped,
}

module _ (por_nome : List Quarto → List Quarto) where
  -- One operation that went through, by anybody and at any time.
  pub data Step (s : Recepcao) : Recepcao → Type 0 where
    entrega : (e u op t : ℕ) {s' : Recepcao} → deliver_badge por_nome e u op t s ≡ ok s' → Step s s'
    chama :
        (e u op t : ℕ) {rows : List Checkin}
        → call e u op t s.checkins ≡ ok rows
        → Step s (record s { checkins = rows })
    chama_proximo :
        (e op t : ℕ) {rows : List Checkin}
        → call_next e op t s.checkins ≡ ok rows
        → Step s (record s { checkins = rows })
    conclui :
        (e u op t : ℕ) (notes : Option ℕ) {rows : List Checkin}
        → complete e u op t notes s.checkins ≡ ok rows
        → Step s (record s { checkins = rows })
    desfaz : (e u : ℕ) {s' : Recepcao} → undo e u s ≡ ok s' → Step s s'
    reverte : (e u : ℕ) {s' : Recepcao} → undo_badge_delivery e u s ≡ ok s' → Step s s'

  -- What the operations reach from an event where nobody has arrived.
  pub data Reach : Recepcao → Type 0 where
    start : {s : Recepcao} → s.checkins ≡ [] → Reach s
    next : {s s' : Recepcao} → Reach s → Step s s' → Reach s'

  marcar-All-IsStamped :
      (e u : ℕ) (id : Option ℕ) (rows : List Checkin)
      → All IsStamped rows
      → All IsStamped (marcar_quarto e u id rows)
  unfolding marcar_quarto
  marcar-All-IsStamped e u none rows w = w
  marcar-All-IsStamped e u (some id) rows w =
      update_many-All IsStamped (da_inscricao e u) (λ c. record c { auto_bedroom_id = some id })
        rows (λ c here h. ground arith) w

  deliver_badge-All-IsStamped :
      (e u op t : ℕ) (s : Recepcao) {s' : Recepcao}
      → deliver_badge por_nome e u op t s ≡ ok s'
      → All IsStamped s.checkins
      → All IsStamped s'.checkins
  unfolding deliver_badge
  deliver_badge-All-IsStamped e u op t s {s'} h w =
      let (r, _, k1) = >>=-eq-ok {A = Participante} (or_throw (find_registration s e u) _) _ h in
      let (rows, delivered, k2) = >>=-eq-ok (entregar_cracha e u op t s.checkins) _ k1 in
      let given =
        allocate_bedroom por_nome (any (λ j. j == e) s.com_quartos) s.quartos e u r.grupos
          s.ocupacoes in
      let same : record s { checkins = marcar_quarto e u given.0 rows; ocupacoes = given.1 } ≡ s' =
        ok-inj k2 in
      rw (← same) (
        marcar-All-IsStamped e u given.0 rows
          (entregar_cracha-All-IsStamped e u op t s.checkins delivered w))

  Step-All-IsStamped :
      {s s' : Recepcao} → Step s s' → All IsStamped s.checkins → All IsStamped s'.checkins
  Step-All-IsStamped {s} (entrega e u op t h) w = deliver_badge-All-IsStamped e u op t s h w
  Step-All-IsStamped {s} (chama e u op t h) w = call-All-IsStamped e u op t s.checkins h w
  Step-All-IsStamped {s} (chama_proximo e op t h) w = call_next-All-IsStamped e op t s.checkins h w
  Step-All-IsStamped {s} (conclui e u op t notes h) w =
      complete-All-IsStamped e u op t notes s.checkins h w
  Step-All-IsStamped {s} (desfaz e u h) w = undo-All-IsStamped e u s h w
  Step-All-IsStamped {s} (reverte e u h) w = undo_badge_delivery-All-IsStamped e u s h w

  -- However the operators work, in every row reached from tables without a check-in the stamps go
  -- with the status: no stamp before the badge; the badge's only while the person waits; in
  -- progress the badge's and not the end's; and at the end both the badge's and the end's.
  pub Reach-All-IsStamped : {s : Recepcao} → Reach s → All IsStamped s.checkins
  Reach-All-IsStamped (start {s} empty) = rw empty tt
  Reach-All-IsStamped (next r step) = Step-All-IsStamped step (Reach-All-IsStamped r)
