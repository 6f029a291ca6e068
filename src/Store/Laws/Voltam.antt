-- ===== src/Store/Laws/Voltam.antt =====
-- Purchases that count again never take more than what is left, and keep their money straight.
use sistema_iccv_backend.Common.{
  ℕ, ◌+◌, ◌-◌, ◌≤◌, ◌≡◌, refl, sym, ap, ◌≢◌, inl, inr, Bool, true, false, none, some, List, [], ◌∷◌,
  ◌++◌, Memᴰ, arith, ltb, ◌==◌, ==_iff, any, All, All-append, All-map, Bool-cases, Option-cases,
  if◌then◌else◌,
}
use sistema_iccv_backend.Store.Reativacao.{
  Item, Compra, Restantes, com_resto, separar, valor, Reativacao, recusada, reativar_uma,
  reativar_desde, reativar_compras,
}

-- The units of a variant in a list of items, and in a list of purchases.
unfoldable pub unidades : ℕ → List Item → ℕ
unidades v [] = 0
unidades v (i ∷ is) = (if i.variant_id == v then i.quantity else 0) + unidades v is

unfoldable pub unidades_em : ℕ → List Compra → ℕ
unfolding unidades
unidades_em v [] = 0
unidades_em v (c ∷ cs) = unidades v c.itens + unidades_em v cs

unidades_em-append :
    (v : ℕ) (xs ys : List Compra) → unidades_em v (xs ++ ys) ≡ unidades_em v xs + unidades_em v ys
unfolding unidades_em
unidades_em-append v [] ys = omega arith
unidades_em-append v (x ∷ xs) ys = omega (arith, unidades_em-append v xs ys)

-- What stays with the payment and what is left over make up what there was.
separar-conserva :
    (itens : List Item) (r : Restantes) (v n : ℕ)
    → r v ≡ some n
    → (m : ℕ) × ((separar r itens).restantes v ≡ some m)
      × (unidades v (separar r itens).ficam + m ≡ n)
unfolding separar unidades
separar-conserva [] r v n h = (n, h, omega arith)
separar-conserva (item ∷ itens) r v n h = elim (Option-cases (r item.variant_id)) [
  | inl free ↦
      let (m, left, sum) = separar-conserva itens r v n h in
      (
        m,
        ground arith,
        let apart : item.variant_id ≢ v = λ (e : item.variant_id ≡ v). cc in ground (arith, apart),
      )
  | inr (resta, has) ↦ elim (Bool-cases (ltb resta item.quantity)) [
    | inl over ↦
        let (m, left, sum) = separar-conserva itens r v n h in (m, ground arith, ground arith)
    | inr fits ↦
        let r' = com_resto r item.variant_id (resta - item.quantity) in
        elim (Bool-cases (v == item.variant_id)) [
          | inl same ↦
              let e : v ≡ item.variant_id = (==_iff v item.variant_id).0 same in
              let eq : resta ≡ n = ground (arith, ap r e) in
              let (m, left, sum) = separar-conserva itens r' v (n - item.quantity) (ground arith) in
              (m, ground arith, ground arith)
          | inr apart ↦
              let (m, left, sum) = separar-conserva itens r' v n (ground arith) in
              (m, ground arith, ground arith)
        ]
  ]
]

separar-valor :
    (itens : List Item) (r : Restantes)
    → valor itens ≡ valor (separar r itens).fora + valor (separar r itens).ficam
unfolding separar valor
separar-valor [] r = refl
separar-valor (item ∷ itens) r = elim (Option-cases (r item.variant_id)) [
  | inl free ↦ ground (arith, separar-valor itens r)
  | inr (resta, has) ↦ ground (
    arith,
    separar-valor itens r,
    separar-valor itens (com_resto r item.variant_id (resta - item.quantity)),
  )
]

-- A purchase as it comes back.
abbrev voltou : Compra → Reativacao → Compra
voltou c acc =
    let s = separar acc.restantes c.itens in
    record c { amount = c.amount - valor s.fora; itens = s.ficam }

reativados-back :
    (c : Compra) (acc : Reativacao)
    → recusada c (separar acc.restantes c.itens) ≡ false
    → (reativar_uma c acc).reativados ≡ acc.reativados ++ voltou c acc ∷ []
unfolding reativar_uma
reativados-back c acc h = rw h refl

reativados-refused :
    (c : Compra) (acc : Reativacao)
    → recusada c (separar acc.restantes c.itens) ≡ true
    → (reativar_uma c acc).reativados ≡ acc.reativados
unfolding reativar_uma
reativados-refused c acc h = rw h refl

reativar_uma-conserva :
    (c : Compra) (acc : Reativacao) (v n : ℕ)
    → acc.restantes v ≡ some n
    → (m : ℕ) × ((reativar_uma c acc).restantes v ≡ some m)
      × (unidades_em v (reativar_uma c acc).reativados + m ≡ unidades_em v acc.reativados + n)
unfolding reativar_uma unidades_em
reativar_uma-conserva c acc v n h =
    let s = separar acc.restantes c.itens in
    let (m, left, sum) = separar-conserva c.itens acc.restantes v n h in
    elim (Bool-cases (recusada c s)) [
      | inl refused ↦ (n, ground arith, ground arith)
      | inr back ↦ (
        m,
        ground arith,
        omega (
          arith,
          ap (unidades_em v) (reativados-back c acc back),
          unidades_em-append v acc.reativados (voltou c acc ∷ []),
          sum,
        ),
      )
    ]

reativar_desde-conserva :
    (cs : List Compra) (acc : Reativacao) (v n : ℕ)
    → acc.restantes v ≡ some n
    → (m : ℕ) × ((reativar_desde acc cs).restantes v ≡ some m)
      × (unidades_em v (reativar_desde acc cs).reativados + m ≡ unidades_em v acc.reativados + n)
unfolding reativar_desde
reativar_desde-conserva [] acc v n h = (n, h, refl)
reativar_desde-conserva (c ∷ cs) acc v n h =
    let (m, left, sum) = reativar_uma-conserva c acc v n h in
    let (m', left', sum') = reativar_desde-conserva cs (reativar_uma c acc) v m left in
    (m', left', omega arith)

-- Of a variant of which `n` units are left, the reactivated purchases together take no more than
-- `n`: what they take and what is left afterwards make up exactly `n`.
pub reativar_compras-conserva :
    (compras : List Compra) (restantes : Restantes) (v n : ℕ)
    → restantes v ≡ some n
    → (m : ℕ) × ((reativar_compras restantes compras).restantes v ≡ some m)
      × (unidades_em v (reativar_compras restantes compras).reativados + m ≡ n)
unfolding reativar_compras unidades_em
reativar_compras-conserva compras restantes v n h =
    let (m, left, sum) =
      reativar_desde-conserva compras
        (record { reativados = []; itens_removidos = []; recusa = none; restantes = restantes }) v n
        h in
    (m, left, ground arith)

-- A reactivated payment came from a canceled one with the same id and, if that one's amount covered
-- its items, has lost exactly the price of the items that it lost.
abbrev pub ComesFrom : List Compra → Compra → Type 0
ComesFrom compras c' =
    (c : Compra) × Memᴰ c compras
    × (c'.id ≡ c.id)
    × (valor c.itens ≤ c.amount → c'.amount + valor c.itens ≡ c.amount + valor c'.itens)

reativar_uma-ComesFrom :
    (todas : List Compra) (c : Compra) (acc : Reativacao)
    → Memᴰ c todas
    → All (ComesFrom todas) acc.reativados
    → All (ComesFrom todas) (reativar_uma c acc).reativados
reativar_uma-ComesFrom todas c acc m h =
    let s = separar acc.restantes c.itens in
    elim (Bool-cases (recusada c s)) [
      | inl refused ↦ rw (reativados-refused c acc refused) h
      | inr back ↦ rw (reativados-back c acc back) (
          All-append (ComesFrom todas) acc.reativados (voltou c acc ∷ []) h
            ((c, m, refl, λ covers. omega (arith, separar-valor c.itens acc.restantes)), tt))
    ]

reativar_desde-ComesFrom :
    (todas cs : List Compra) (acc : Reativacao)
    → All (λ c. Memᴰ c todas) cs
    → All (ComesFrom todas) acc.reativados
    → All (ComesFrom todas) (reativar_desde acc cs).reativados
unfolding reativar_desde
reativar_desde-ComesFrom todas [] acc m h = h
reativar_desde-ComesFrom todas (c ∷ cs) acc m h =
    reativar_desde-ComesFrom todas cs (reativar_uma c acc) m.1
      (reativar_uma-ComesFrom todas c acc m.0 h)

All-self {ℓ} : {A : Type ℓ} (xs : List A) → All (λ x. Memᴰ x xs) xs
All-self [] = tt
All-self (x ∷ xs) = (Memᴰ.head refl, All-map _ _ xs (λ y m. Memᴰ.tail m) (All-self xs))

-- Every reactivated payment is one of the asked ones, and its amount drops by exactly the price of
-- the items that it loses, if it covered its items before.
pub reativar_compras-ComesFrom :
    (compras : List Compra) (restantes : Restantes)
    → All (ComesFrom compras) (reativar_compras restantes compras).reativados
unfolding reativar_compras
reativar_compras-ComesFrom compras restantes =
    reativar_desde-ComesFrom compras compras _ (All-self compras) tt

abbrev ids_include : ℕ → List Compra → Bool
ids_include id cs = any (λ x. x.id == id) cs

ids_include-append :
    (id : ℕ) (xs ys : List Compra) → ids_include id xs ≡ true → ids_include id (xs ++ ys) ≡ true
ids_include-append id [] ys h = cc
ids_include-append id (x ∷ xs) ys h = ground (arith, ids_include-append id xs ys)

ids_include-last :
    (id : ℕ) (xs : List Compra) (c : Compra) → c.id ≡ id → ids_include id (xs ++ c ∷ []) ≡ true
ids_include-last id [] c h = ground arith
ids_include-last id (x ∷ xs) c h = ground (arith, ids_include-last id xs c h)

reativar_desde-keeps :
    (cs : List Compra) (acc : Reativacao) (id : ℕ)
    → ids_include id acc.reativados ≡ true
    → ids_include id (reativar_desde acc cs).reativados ≡ true
unfolding reativar_desde
reativar_desde-keeps [] acc id h = h
reativar_desde-keeps (c ∷ cs) acc id h =
    reativar_desde-keeps cs (reativar_uma c acc) id
      (elim (Bool-cases (recusada c (separar acc.restantes c.itens))) [
        | inl refused ↦ rw (reativados-refused c acc refused) h
        | inr back ↦ rw (reativados-back c acc back) (ids_include-append id acc.reativados _ h)
      ])

reativar_desde-ticket :
    (cs : List Compra) (acc : Reativacao) (c : Compra)
    → Memᴰ c cs
    → c.com_ingresso ≡ true
    → ids_include c.id (reativar_desde acc cs).reativados ≡ true
unfolding reativar_desde
reativar_desde-ticket [] acc c m h = elim m [ ]
reativar_desde-ticket (x ∷ cs) acc c (Memᴰ.tail m) h =
    reativar_desde-ticket cs (reativar_uma x acc) c m h
reativar_desde-ticket (x ∷ cs) acc c (Memᴰ.head same) h =
    let back : recusada x (separar acc.restantes x.itens) ≡ false = rw (← same, h) refl in
    reativar_desde-keeps cs (reativar_uma x acc) c.id (
      rw (reativados-back x acc back) (
        ids_include-last c.id acc.reativados (voltou x acc) (ap (λ (k : Compra). k.id) (sym same))))

-- A payment with a ticket always comes back, whatever became of its products.
pub reativar_compras-ticket :
    (compras : List Compra) (restantes : Restantes) (c : Compra)
    → Memᴰ c compras
    → c.com_ingresso ≡ true
    → any (λ x. x.id == c.id) (reativar_compras restantes compras).reativados ≡ true
unfolding reativar_compras
reativar_compras-ticket compras restantes c m h = reativar_desde-ticket compras _ c m h
