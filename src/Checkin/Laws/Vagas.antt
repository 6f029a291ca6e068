-- ===== src/Checkin/Laws/Vagas.antt =====
-- The bedrooms given with the badge, in src/checkin/checkin.service.ts.
use sistema_iccv_backend.Common.{
  mem_of_append, ok-inj, ℕ, ◌+◌, ◌≤◌, ◌<◌, ◌≡◌, refl, subst, inl, inr, Bool, true, not, ◌&&◌, ◌||◌,
  some, List, [], ◌∷◌, ◌++◌, Memᴰ, arith, ◌==◌, ==_iff, if◌then◌else◌, Bool-cases, filter, any,
  mem_of_filter, includes, nat_eq, ok, or_throw, >>=-eq-ok,
}
use sistema_iccv_backend.Checkin.Quartos.{
  Quarto, Ocupacao, ocupantes, com_vaga, candidate_bedrooms, ocupar_um, allocate_bedroom,
}
use sistema_iccv_backend.Checkin.Balcao.{
  Participante, Recepcao, entregar_cracha, marcar_quarto, find_registration, deliver_badge,
}

-- No bedroom with a limit holds more people than it.
abbrev pub IsHoused : List Quarto → List Ocupacao → Type 0
IsHoused quartos ocupacoes =
    (q : Quarto) (limit : ℕ)
    → Memᴰ q quartos
    → q.capacity ≡ some limit
    → ocupantes ocupacoes q.id ≤ limit

-- A bedroom's id is its own.
abbrev pub HasOwnIds : List Quarto → Type 0
HasOwnIds quartos = (q r : Quarto) → Memᴰ q quartos → Memᴰ r quartos → q.id ≡ r.id → q ≡ r

ocupantes-one_more :
    (os : List Ocupacao) (o : Ocupacao) (id : ℕ)
    → ocupantes (os ++ o ∷ []) id ≡ ocupantes os id + (if o.bedroom_id == id then 1 else 0)
unfolding ocupantes
ocupantes-one_more [] o id = ground arith
ocupantes-one_more (x ∷ os) o id = ground (arith, ocupantes-one_more os o id)

room_left :
    (os : List Ocupacao) (q : Quarto) (limit : ℕ)
    → com_vaga os q ≡ true
    → q.capacity ≡ some limit
    → ocupantes os q.id < limit
unfolding com_vaga
room_left os q limit room at = ground arith

one_more_fits :
    (quartos : List Quarto) (e u : ℕ) (x : Quarto) (os : List Ocupacao)
    → HasOwnIds quartos
    → Memᴰ x quartos
    → com_vaga os x ≡ true
    → IsHoused quartos os
    → IsHoused quartos (os ++ record { user_id = u; bedroom_id = x.id; event_id = e } ∷ [])
one_more_fits quartos e u x os own here room fits q limit m at =
    let one =
      ocupantes-one_more os (record { user_id = u; bedroom_id = x.id; event_id = e }) q.id in
    elim (Bool-cases (x.id == q.id)) [
      | inr other ↦ ground (arith, one, fits q limit m at)
      | inl same ↦
          let equal = own x q here m ((==_iff x.id q.id).0 same) in
          let left = room_left os q limit (subst (λ r. com_vaga os r ≡ true) equal room) at in
          ground (arith, one, left)
    ]

ocupar_um-IsHoused :
    (quartos : List Quarto) (e u : ℕ) (qs : List Quarto) (os : List Ocupacao)
    → HasOwnIds quartos
    → ((q : Quarto) → Memᴰ q qs → Memᴰ q quartos)
    → IsHoused quartos os
    → IsHoused quartos (ocupar_um e u qs os).1
unfolding ocupar_um com_vaga
ocupar_um-IsHoused quartos e u [] os own inside fits = fits
ocupar_um-IsHoused quartos e u (x ∷ qs) os own inside fits = elim (Bool-cases (com_vaga os x)) [
  | inr full ↦
      rw full (ocupar_um-IsHoused quartos e u qs os own (λ q m. inside q (Memᴰ.tail m)) fits)
  | inl room ↦ rw room (one_more_fits quartos e u x os own (inside x (Memᴰ.head refl)) room fits)
]

candidate-mem :
    (por_nome : List Quarto → List Quarto) (quartos : List Quarto) (os : List Ocupacao) (e : ℕ)
    (grupos : List ℕ)
    → ((qs : List Quarto) (q : Quarto) → Memᴰ q (por_nome qs) → Memᴰ q qs)
    → (q : Quarto) → Memᴰ q (candidate_bedrooms por_nome quartos os e grupos)
    → Memᴰ q quartos
unfolding candidate_bedrooms
candidate-mem por_nome quartos os e grupos sorts q m =
    let daqui = filter (λ q. q.event_id == e) quartos in
    let vagos = filter (com_vaga os) daqui in
    let free : Memᴰ q vagos =
      elim (mem_of_append
        (por_nome (filter (λ q. any (λ tag. includes tag grupos) q.group_tags) vagos)) _ m) [
          | inl g ↦ (mem_of_filter _ vagos (sorts _ q g)).0
          | inr a ↦ (mem_of_filter _ vagos (sorts _ q a)).0
        ] in
    (mem_of_filter _ quartos (mem_of_filter _ daqui free).0).0

allocate_bedroom-IsHoused :
    (por_nome : List Quarto → List Quarto) (modulo : Bool) (quartos : List Quarto) (e u : ℕ)
    (grupos : List ℕ) (os : List Ocupacao)
    → ((qs : List Quarto) (q : Quarto) → Memᴰ q (por_nome qs) → Memᴰ q qs)
    → HasOwnIds quartos
    → IsHoused quartos os
    → IsHoused quartos (allocate_bedroom por_nome modulo quartos e u grupos os).1
unfolding allocate_bedroom candidate_bedrooms
allocate_bedroom-IsHoused por_nome modulo quartos e u grupos os sorts own fits =
    elim (Bool-cases (not modulo || any (λ o. o.user_id == u && o.event_id == e) os)) [
      | inl none_given ↦ rw none_given fits
      | inr tries ↦ rw tries (
          ocupar_um-IsHoused quartos e u (candidate_bedrooms por_nome quartos os e grupos) os own
            (candidate-mem por_nome quartos os e grupos sorts) fits)
    ]

-- Giving a badge never puts one person too many in a bedroom: if the sort returns only members of
-- its list, the ids of the bedrooms are their own and no bedroom holds more people than its limit,
-- then none does after the badge is given, with or without a bedroom.
pub deliver_badge-IsHoused :
    (por_nome : List Quarto → List Quarto) (e u op t : ℕ) (s : Recepcao) {s' : Recepcao}
    → ((qs : List Quarto) (q : Quarto) → Memᴰ q (por_nome qs) → Memᴰ q qs)
    → HasOwnIds s.quartos
    → IsHoused s.quartos s.ocupacoes
    → deliver_badge por_nome e u op t s ≡ ok s'
    → IsHoused s'.quartos s'.ocupacoes
unfolding deliver_badge
deliver_badge-IsHoused por_nome e u op t s {s'} sorts own fits h =
    let (r, _, k1) = >>=-eq-ok {A = Participante} (or_throw (find_registration s e u) _) _ h in
    let (rows, _, k2) = >>=-eq-ok (entregar_cracha e u op t s.checkins) _ k1 in
    let modulo = any (λ j. j == e) s.com_quartos in
    let given = allocate_bedroom por_nome modulo s.quartos e u r.grupos s.ocupacoes in
    let same : record s { checkins = marcar_quarto e u given.0 rows; ocupacoes = given.1 } ≡ s' =
      ok-inj k2 in
    rw (← same)
      (allocate_bedroom-IsHoused por_nome modulo s.quartos e u r.grupos s.ocupacoes sorts own fits)
