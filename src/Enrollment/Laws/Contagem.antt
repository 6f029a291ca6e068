-- ===== src/Enrollment/Laws/Contagem.antt =====
-- Counts over the registrations, for the proofs on src/event/event.service.ts.
use sistema_iccv_backend.Common.{
  ℕ, ◌<◌, ◌≡◌, refl, inl, inr, Bool, true, false, not, ◌&&◌, some, List, [], ◌∷◌, map, Memᴰ, arith,
  leb, ◌==◌, ==_iff, ==_refl, Bool-cases, length, filter, includes, nat_eq,
}
use sistema_iccv_backend.Store.{get}
use sistema_iccv_backend.Enrollment.Cadastro.{Papel, Registro}
use sistema_iccv_backend.Enrollment.Inscricao.{
  Pedido, no_grupo, vagas_tomadas, da_pessoa, novo_registro, counts_de,
}
use sistema_iccv_backend.Enrollment.Laws.Loop.{do_grupo}

pub ltb_of_not : (capacity n : ℕ) → not (leb capacity n) ≡ true → n < capacity
ltb_of_not capacity n h = ground arith

pub not-true : (b : Bool) → not b ≡ true → b ≡ false
not-true true h = cc
not-true false h = refl

pub get-counts :
    (registros : List Registro) (e g : ℕ) (grupos : List ℕ)
    → Memᴰ g grupos
    → get (counts_de registros e grupos) g ≡ some (vagas_tomadas registros e g)
unfolding get
get-counts registros e g [] m = elim m [ ]
get-counts registros e g (j ∷ js) (Memᴰ.head same) = rw (← same, ==_refl g)
get-counts registros e g (j ∷ js) (Memᴰ.tail m) = elim (Bool-cases (j == g)) [
  | inl s ↦ let same : j ≡ g = (==_iff j g).0 s in rw (s, same)
  | inr s ↦ rw (s, get-counts registros e g js m)
]

-- The new registrations of a group, counted in the event and counted for the person.
pub in_event :
    (q : Pedido) (g : ℕ) (ps : List Papel)
    → length (filter (no_grupo q.event_id g) (map (novo_registro q) ps))
      ≡ length (filter (do_grupo g) (map (novo_registro q) ps))
in_event q g [] = refl
in_event q g (p ∷ ps) = ground (arith, in_event q g ps, ==_refl q.event_id)

-- `rs` of one person in one group of an event.
abbrev pub na_vez : (user_id event_id grupo_id : ℕ) → Registro → Bool
na_vez user_id event_id grupo_id r = da_pessoa user_id event_id r && do_grupo grupo_id r

pub of_person :
    (q : Pedido) (g : ℕ) (ps : List Papel)
    → length (filter (na_vez q.user_id q.event_id g) (map (novo_registro q) ps))
      ≡ length (filter (do_grupo g) (map (novo_registro q) ps))
of_person q g [] = refl
of_person q g (p ∷ ps) = ground (arith, of_person q g ps, ==_refl q.event_id, ==_refl q.user_id)

pub of_others :
    (q : Pedido) (u e g : ℕ) (ps : List Papel)
    → (q.user_id == u && q.event_id == e) ≡ false
    → length (filter (na_vez u e g) (map (novo_registro q) ps)) ≡ 0
of_others q u e g [] h = refl
of_others q u e g (p ∷ ps) h = ground (arith, of_others q u e g ps h)

pub in_others :
    (q : Pedido) (e g : ℕ) (ps : List Papel)
    → (q.event_id == e) ≡ false
    → length (filter (no_grupo e g) (map (novo_registro q) ps)) ≡ 0
in_others q e g [] h = refl
in_others q e g (p ∷ ps) h = ground (arith, in_others q e g ps h)

pub none_before :
    (u e g : ℕ) (rs : List Registro)
    → includes g (map (λ r. r.papel.grupo.id) (filter (da_pessoa u e) rs)) ≡ false
    → length (filter (na_vez u e g) rs) ≡ 0
none_before u e g [] h = refl
none_before u e g (r ∷ rs) h = elim (Bool-cases (da_pessoa u e r)) [
  | inl b ↦ ground (arith, none_before u e g rs (ground arith))
  | inr b ↦ ground (arith, none_before u e g rs (ground arith))
]
