-- ===== src/Enrollment/Laws/Loop.antt =====
-- The loop of `_registerUserInEventTx` of src/event/event.service.ts: who gets a seat, and how many
-- seats of a group one request takes.
use sistema_iccv_backend.Common.{
  ℕ, ◌+◌, ◌≡◌, refl, sym, ap, ◌∙◌, ◌⊎◌, inl, inr, Bool, true, false, not, if◌then◌else◌, List, [],
  ◌∷◌, ◌++◌, map, Memᴰ, arith, ◌==◌, ==_iff, Bool-cases, length, filter, includes, nat_eq,
}
use sistema_iccv_backend.Enrollment.Cadastro.{Papel, Registro, Cadastro}
use sistema_iccv_backend.Enrollment.Inscricao.{
  Pedido, repete, grupos_de, novo_registro, com_registro, com_espera, tem_vaga, resultado_de,
  processar,
}

module _ {ℓ} {A : Type ℓ} where
  pub append-nil : (xs : List A) → xs ++ [] ≡ xs
  append-nil [] = refl
  append-nil (x ∷ xs) = ap (λ l. x ∷ l) (append-nil xs)

  pub after_one :
      (xs : List A) (x : A) (ys : List A) {ws : List A}
      → ws ≡ (xs ++ x ∷ []) ++ ys
      → ws ≡ xs ++ x ∷ ys
  after_one xs x ys h = h ∙ append_one xs
    where
      append_one : (xs : List A) → (xs ++ x ∷ []) ++ ys ≡ xs ++ x ∷ ys
      append_one [] = refl
      append_one (y ∷ xs) = ap (λ l. y ∷ l) (append_one xs)

  pub length-filter-append :
      (p : A → Bool) (xs ys : List A)
      → length (filter p (xs ++ ys)) ≡ length (filter p xs) + length (filter p ys)
  length-filter-append p [] ys = omega arith
  length-filter-append p (x ∷ xs) ys = ground (arith, length-filter-append p xs ys)

-- The roles that the loop seats, and those that it puts on the waitlist.
abbrev pub com_vaga : List (ℕ × ℕ) → List Papel → List Papel
com_vaga counts ps = filter (tem_vaga counts) ps

abbrev pub sem_vaga : List (ℕ × ℕ) → List Papel → List Papel
sem_vaga counts ps = filter (λ p. not (tem_vaga counts p)) ps

pub processar_registros :
    (q : Pedido) (counts : List (ℕ × ℕ)) (ps : List Papel) (c : Cadastro)
    → (processar q counts ps c).0.registros
      ≡ c.registros ++ map (novo_registro q) (com_vaga counts ps)
unfolding processar
processar_registros q counts [] c = sym (append-nil c.registros)
processar_registros q counts (p ∷ ps) c = elim (Bool-cases (tem_vaga counts p)) [
  | inl e ↦ rw e (
      after_one c.registros (novo_registro q p) (map (novo_registro q) (com_vaga counts ps))
        (processar_registros q counts ps (com_registro q p c)))
  | inr e ↦ rw e (processar_registros q counts ps (com_espera q p c))
]

pub processar_respostas :
    (q : Pedido) (counts : List (ℕ × ℕ)) (ps : List Papel) (c : Cadastro)
    → (processar q counts ps c).1 ≡ map (resultado_de counts) ps
unfolding processar
processar_respostas q counts [] c = refl
processar_respostas q counts (p ∷ ps) c =
    ap (λ l. resultado_de counts p ∷ l)
      (processar_respostas q counts ps
        (if tem_vaga counts p then com_registro q p c else com_espera q p c))

abbrev pub do_grupo : ℕ → Registro → Bool
do_grupo g r = r.papel.grupo.id == g

abbrev pub novos : Pedido → List (ℕ × ℕ) → List Papel → ℕ → ℕ
novos q counts ps g = length (filter (do_grupo g) (map (novo_registro q) (com_vaga counts ps)))

no_new :
    (q : Pedido) (counts : List (ℕ × ℕ)) (ps : List Papel) (g : ℕ)
    → includes g (grupos_de ps) ≡ false
    → novos q counts ps g ≡ 0
no_new q counts [] g h = refl
no_new q counts (p ∷ ps) g h = elim (Bool-cases (tem_vaga counts p)) [
  | inl e ↦ ground (arith, no_new q counts ps g (ground arith))
  | inr e ↦ ground (arith, no_new q counts ps g (ground arith))
]

-- The new registrations in one group: none, or the one of a role that has room.
pub novos_no_grupo :
    (q : Pedido) (counts : List (ℕ × ℕ)) (ps : List Papel) (g : ℕ)
    → repete (grupos_de ps) ≡ false
    → (novos q counts ps g ≡ 0)
      ⊎ ((novos q counts ps g ≡ 1)
          × ((p : Papel) × Memᴰ p ps × (p.grupo.id ≡ g) × (tem_vaga counts p ≡ true)))
novos_no_grupo q counts [] g h = inl refl
novos_no_grupo q counts (p ∷ ps) g h = elim (Bool-cases (p.grupo.id == g)) [
  | inl e ↦
      let same : p.grupo.id ≡ g = (==_iff p.grupo.id g).0 e in
      let none_left : novos q counts ps g ≡ 0 = no_new q counts ps g (ground arith) in
      elim (Bool-cases (tem_vaga counts p)) [
        | inl v ↦ inr (ground arith, (p, Memᴰ.head refl, same, v))
        | inr v ↦ inl (ground arith)
      ]
  | inr e ↦ elim (novos_no_grupo q counts ps g (ground arith)) [
    | inl n ↦ inl (ground arith)
    | inr t ↦ let (n, (p', m, same, v)) = t in inr (ground arith, (p', Memᴰ.tail m, same, v))
  ]
]
