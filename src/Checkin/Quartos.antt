-- ===== src/Checkin/Quartos.antt =====
-- The bedrooms that src/checkin/checkin.service.ts gives with the badge.
use sistema_iccv_backend.Common.{
  ℕ, Bool, false, not, ◌&&◌, ◌||◌, Option, none, some, List, [], ◌∷◌, ◌++◌, ltb, ◌==◌,
  if◌then◌else◌, filter, any, length, is_empty, includes, nat_eq,
}

pub record Quarto : Type 0 where
  pub id : ℕ
  pub event_id : ℕ
  pub capacity : Option ℕ
  pub group_tags : List ℕ

-- `BedroomsOnUsers`, with the event of the bedroom.
pub record Ocupacao : Type 0 where
  pub user_id : ℕ
  pub bedroom_id : ℕ
  pub event_id : ℕ

unfoldable pub ocupantes : List Ocupacao → (bedroom_id : ℕ) → ℕ
ocupantes ocupacoes bedroom_id = length (filter (λ o. o.bedroom_id == bedroom_id) ocupacoes)

-- `!!capacity && users < capacity`; a capacity of 0 is falsy, and takes nobody either way.
unfoldable pub com_vaga : List Ocupacao → Quarto → Bool
unfolding ocupantes
com_vaga ocupacoes q = elim q.capacity [ none ↦ false | some c ↦ ltb (ocupantes ocupacoes q.id) c ]

-- `por_nome` stands for `sort(porNome)`, the sort of the language by the name as people read it.
module _ (por_nome : List Quarto → List Quarto) where
  unfoldable pub candidate_bedrooms :
      List Quarto → List Ocupacao → (event_id : ℕ) → (grupos : List ℕ) → List Quarto
  unfolding com_vaga
  candidate_bedrooms quartos ocupacoes event_id grupos =
      let vagos = filter (com_vaga ocupacoes) (filter (λ q. q.event_id == event_id) quartos) in
      por_nome (filter (λ q. any (λ tag. includes tag grupos) q.group_tags) vagos)
      ++ por_nome (filter (λ q. is_empty q.group_tags) vagos)

-- The transaction of one candidate, which counts again, and the loop over them.
unfoldable pub ocupar_um :
    (event_id user_id : ℕ) → List Quarto → List Ocupacao → Option ℕ × List Ocupacao
unfolding com_vaga
ocupar_um event_id user_id [] ocupacoes = (none, ocupacoes)
ocupar_um event_id user_id (q ∷ qs) ocupacoes =
    let rest = ocupar_um event_id user_id qs ocupacoes in
    if com_vaga ocupacoes q
    then (
      some q.id,
      ocupacoes ++ record { user_id = user_id; bedroom_id = q.id; event_id = event_id } ∷ [],
    )
    else rest

module _ (por_nome : List Quarto → List Quarto) where
  -- `modulo` says whether the event has the bedrooms module.
  unfoldable pub allocate_bedroom :
      (modulo : Bool)
      → List Quarto
      → (event_id user_id : ℕ) → (grupos : List ℕ) → List Ocupacao
      → Option ℕ × List Ocupacao
  unfolding candidate_bedrooms ocupar_um
  allocate_bedroom modulo quartos event_id user_id grupos ocupacoes =
      if not modulo || any (λ o. o.user_id == user_id && o.event_id == event_id) ocupacoes
      then (none, ocupacoes)
      else ocupar_um event_id user_id
          (candidate_bedrooms por_nome quartos ocupacoes event_id grupos) ocupacoes
