-- ===== src/Tesouraria/Laws/Sugestao.antt =====
-- The suggestion of src/tesouraria/conciliacao.ts is a matching that no better pair undoes.
use sistema_iccv_backend.Common.{
  ℕ, ◌≤◌, ◌≡◌, refl, sym, ap, subst, ◌≢◌, true, false, not, ◌||◌, List, [], ◌∷◌, ◌++◌, Memᴰ, arith,
  leb, ◌==◌, includes, nat_eq, All, All-append, All-map, All-mem, Bool-cases, inl, inr, ◌⊎◌,
}
use sistema_iccv_backend.Tesouraria.Sugestao.{
  ParaConciliar, Candidato, casam, candidato, candidatos_de, candidatos, inserir, ordenar, escolher,
  escolhidos,
}

-- The candidate is of two entries that match.
pub record ComesFrom (t : ℕ) (bs ms : List ParaConciliar) (c : Candidato) : Type 0 where
  pub b : ParaConciliar
  pub m : ParaConciliar
  pub in_banco : Memᴰ b bs
  pub in_manuais : Memᴰ m ms
  pub match : casam t b m ≡ true
  pub same : c ≡ candidato b m

-- No id of the one is an id of the other.
pub record Disjoint (c d : Candidato) : Type 0 where
  pub bb : c.banco_id ≢ d.banco_id
  pub bm : c.banco_id ≢ d.manual_id
  pub mb : c.manual_id ≢ d.banco_id
  pub mm : c.manual_id ≢ d.manual_id

-- They share the bank's entry or the manual one; as `usados` holds the ids of both sides, ids that
-- are the same count across the sides too.
abbrev pub Shares : Candidato → Candidato → Type 0
Shares c d =
    (c.banco_id ≡ d.banco_id)
    ⊎ (c.banco_id ≡ d.manual_id)
    ⊎ (c.manual_id ≡ d.banco_id)
    ⊎ (c.manual_id ≡ d.manual_id)

abbrev pub DisjointAll : List Candidato → Type 0
DisjointAll [] = Unit
DisjointAll (c ∷ cs) = All (Disjoint c) cs × DisjointAll cs

abbrev IsSorted : List Candidato → Type 0
IsSorted [] = Unit
IsSorted (c ∷ cs) = All (λ d. c.nota ≤ d.nota) cs × IsSorted cs

inserir-All :
    (P : Candidato → Type 0) (c : Candidato) (cs : List Candidato)
    → P c
    → All P cs
    → All P (inserir c cs)
unfolding inserir
inserir-All P c [] p ps = (p, tt)
inserir-All P c (d ∷ ds) p ps = elim (Bool-cases (leb c.nota d.nota)) [
  | inl e ↦ rw e (p, ps)
  | inr e ↦ rw e (ps.0, inserir-All P c ds p ps.1)
]

inserir-IsSorted : (c : Candidato) (cs : List Candidato) → IsSorted cs → IsSorted (inserir c cs)
unfolding inserir
inserir-IsSorted c [] s = (tt, tt)
inserir-IsSorted c (d ∷ ds) s = elim (Bool-cases (leb c.nota d.nota)) [
  | inl e ↦
      let le : c.nota ≤ d.nota = ground arith in
      rw e
        ((le, All-map (λ x. d.nota ≤ x.nota) (λ x. c.nota ≤ x.nota) ds (λ x h. omega arith) s.0), s)
  | inr e ↦
      let ge : d.nota ≤ c.nota = ground arith in
      rw e (inserir-All (λ x. d.nota ≤ x.nota) c ds ge s.0, inserir-IsSorted c ds s.1)
]

ordenar-IsSorted : (cs : List Candidato) → IsSorted (ordenar cs)
unfolding ordenar
ordenar-IsSorted [] = tt
ordenar-IsSorted (c ∷ cs) = inserir-IsSorted c (ordenar cs) (ordenar-IsSorted cs)

ordenar-All : (P : Candidato → Type 0) (cs : List Candidato) → All P cs → All P (ordenar cs)
unfolding ordenar
ordenar-All P [] ps = tt
ordenar-All P (c ∷ cs) ps = inserir-All P c (ordenar cs) ps.0 (ordenar-All P cs ps.1)

mem-cons : {x y : Candidato} {ys : List Candidato} → Memᴰ x (y ∷ ys) → (x ≡ y) ⊎ Memᴰ x ys
mem-cons (Memᴰ.head same) = inl same
mem-cons (Memᴰ.tail m) = inr m

mem-inserir-head : (c : Candidato) (cs : List Candidato) → Memᴰ c (inserir c cs)
unfolding inserir
mem-inserir-head c [] = Memᴰ.head refl
mem-inserir-head c (d ∷ ds) = elim (Bool-cases (leb c.nota d.nota)) [
  | inl e ↦ rw e (Memᴰ.head refl)
  | inr e ↦ rw e (Memᴰ.tail (mem-inserir-head c ds))
]

mem-inserir :
    (c : Candidato) {x : Candidato} (cs : List Candidato) → Memᴰ x cs → Memᴰ x (inserir c cs)
unfolding inserir
mem-inserir c [] m = elim m [ ]
mem-inserir c {x} (d ∷ ds) m = elim (Bool-cases (leb c.nota d.nota)) [
  | inl e ↦ rw e (Memᴰ.tail m)
  | inr e ↦ rw e (elim (mem-cons m) [
    | inl same ↦ Memᴰ.head same
    | inr later ↦ Memᴰ.tail (mem-inserir c ds later)
  ])
]

mem-ordenar : {x : Candidato} (cs : List Candidato) → Memᴰ x cs → Memᴰ x (ordenar cs)
unfolding ordenar
mem-ordenar [] m = elim m [ ]
mem-ordenar (c ∷ cs) (Memᴰ.head same) =
    subst (λ y. Memᴰ y (inserir c (ordenar cs))) (sym same) (mem-inserir-head c (ordenar cs))
mem-ordenar (c ∷ cs) (Memᴰ.tail m) = mem-inserir c (ordenar cs) (mem-ordenar cs m)

-- What the loop takes: free of `usados`, apart from each other, and in the list.
abbrev Livre : List ℕ → Candidato → Type 0
Livre usados c = (includes c.banco_id usados ≡ false) × (includes c.manual_id usados ≡ false)

escolher-All :
    (P : Candidato → Type 0) (usados : List ℕ) (cs : List Candidato)
    → All P cs
    → All P (escolher usados cs)
unfolding escolher
escolher-All P usados [] ps = tt
escolher-All P usados (c ∷ cs) ps =
    elim (Bool-cases (not (includes c.banco_id usados || includes c.manual_id usados))) [
      | inl e ↦ rw e (ps.0, escolher-All P (c.manual_id ∷ c.banco_id ∷ usados) cs ps.1)
      | inr e ↦ rw e (escolher-All P usados cs ps.1)
    ]

before_more :
    (c : Candidato) (usados : List ℕ) (d : Candidato)
    → Livre (c.manual_id ∷ c.banco_id ∷ usados) d
    → Livre usados d × Disjoint c d
before_more c usados d l = (
  (ground arith, ground arith),
  record { bb = ground arith; bm = ground arith; mb = ground arith; mm = ground arith },
)

escolher-Livre : (usados : List ℕ) (cs : List Candidato) → All (Livre usados) (escolher usados cs)
unfolding escolher
escolher-Livre usados [] = tt
escolher-Livre usados (c ∷ cs) =
    elim (Bool-cases (not (includes c.banco_id usados || includes c.manual_id usados))) [
      | inl e ↦ rw e (
        (ground arith, ground arith),
        All-map _ _ _ (λ d l. (before_more c usados d l).0)
            (escolher-Livre (c.manual_id ∷ c.banco_id ∷ usados) cs),
      )
      | inr e ↦ rw e (escolher-Livre usados cs)
    ]

escolher-DisjointAll : (usados : List ℕ) (cs : List Candidato) → DisjointAll (escolher usados cs)
unfolding escolher
escolher-DisjointAll usados [] = tt
escolher-DisjointAll usados (c ∷ cs) =
    elim (Bool-cases (not (includes c.banco_id usados || includes c.manual_id usados))) [
      | inl e ↦ rw e (
        All-map _ _ _ (λ d l. (before_more c usados d l).1)
            (escolher-Livre (c.manual_id ∷ c.banco_id ∷ usados) cs),
        escolher-DisjointAll (c.manual_id ∷ c.banco_id ∷ usados) cs,
      )
      | inr e ↦ rw e (escolher-DisjointAll usados cs)
    ]

-- A candidate that was passed over gave way to one at least as good.
abbrev pub Beaten : List Candidato → Candidato → Type 0
Beaten taken c = (d : Candidato) × Memᴰ d taken × Shares c d × (d.nota ≤ c.nota)

abbrev Usado : List ℕ → Candidato → Type 0
Usado usados c = (includes c.banco_id usados || includes c.manual_id usados) ≡ true

used_more :
    (t : Candidato) (usados : List ℕ) (c : Candidato)
    → Usado (t.manual_id ∷ t.banco_id ∷ usados) c
    → Usado usados c ⊎ Shares c t
used_more t usados c u =
    elim (Bool-cases (includes c.banco_id usados || includes c.manual_id usados)) [
      | inl e ↦ inl e
      | inr e ↦ elim (Bool-cases (t.banco_id == c.banco_id)) [
        | inl bb ↦ inr (inl (ground arith))
        | inr no_bb ↦ elim (Bool-cases (t.manual_id == c.banco_id)) [
          | inl bm ↦ inr (inr (inl (ground arith)))
          | inr no_bm ↦ elim (Bool-cases (t.banco_id == c.manual_id)) [
            | inl mb ↦ inr (inr (inr (inl (ground arith))))
            | inr no_mb ↦ inr (inr (inr (inr (ground arith))))
          ]
        ]
      ]
    ]

Beaten-later : {taken : List Candidato} {c t : Candidato} → Beaten taken c → Beaten (t ∷ taken) c
Beaten-later (d, m, shared, le) = (d, Memᴰ.tail m, shared, le)

escolher-Beaten :
    (usados : List ℕ) (cs : List Candidato) {c : Candidato}
    → IsSorted cs
    → Memᴰ c cs
    → Usado usados c ⊎ Beaten (escolher usados cs) c
unfolding escolher
escolher-Beaten usados [] s m = elim m [ ]
escolher-Beaten usados (t ∷ cs) {c} s m =
    elim (Bool-cases (not (includes t.banco_id usados || includes t.manual_id usados))) [
      | inl free ↦ rw free (elim (mem-cons m) [
        | inl same ↦ rw same (inr (t, Memᴰ.head refl, inl refl, omega arith))
        | inr later ↦
            elim (escolher-Beaten (t.manual_id ∷ t.banco_id ∷ usados) cs {c = c} s.1 later) [
              | inr beaten ↦ inr (Beaten-later beaten)
              | inl used ↦ elim (used_more t usados c used) [
                | inl before ↦ inl before
                | inr shared ↦
                    inr (t, Memᴰ.head refl, shared, All-mem (λ d. t.nota ≤ d.nota) cs s.0 later)
              ]
            ]
      ])
      | inr taken ↦ rw taken (elim (mem-cons m) [
        | inl same ↦ rw same (inl (ground arith))
        | inr later ↦ escolher-Beaten usados cs {c = c} s.1 later
      ])
    ]

module _ (t : ℕ) where
  candidatos_de-All :
      (b : ParaConciliar) (bs ms all_ms : List ParaConciliar)
      → Memᴰ b bs
      → ((m : ParaConciliar) → Memᴰ m ms → Memᴰ m all_ms)
      → All (ComesFrom t bs all_ms) (candidatos_de t b ms)
  unfolding candidatos_de
  candidatos_de-All b bs [] all_ms inb sub = tt
  candidatos_de-All b bs (m ∷ ms) all_ms inb sub =
      let rest = candidatos_de-All b bs ms all_ms inb (λ x h. sub x (Memᴰ.tail h)) in
      elim (Bool-cases (casam t b m)) [
        | inr e ↦ rw e rest
        | inl e ↦ rw e (
          record {
            b = b;
            m = m;
            in_banco = inb;
            in_manuais = sub m (Memᴰ.head refl);
            match = e;
            same = refl;
          },
          rest,
        )
      ]

  candidatos-All :
      (bs all_bs ms : List ParaConciliar)
      → ((b : ParaConciliar) → Memᴰ b bs → Memᴰ b all_bs)
      → All (ComesFrom t all_bs ms) (candidatos t bs ms)
  unfolding candidatos
  candidatos-All [] all_bs ms sub = tt
  candidatos-All (b ∷ bs) all_bs ms sub =
      All-append (ComesFrom t all_bs ms) (candidatos_de t b ms) (candidatos t bs ms)
        (candidatos_de-All b all_bs ms ms (sub b (Memᴰ.head refl)) (λ m h. h))
        (candidatos-All bs all_bs ms (λ x h. sub x (Memᴰ.tail h)))

  mem-append_left : {x : Candidato} (xs ys : List Candidato) → Memᴰ x xs → Memᴰ x (xs ++ ys)
  mem-append_left (y ∷ xs) ys (Memᴰ.head same) = Memᴰ.head same
  mem-append_left (y ∷ xs) ys (Memᴰ.tail m) = Memᴰ.tail (mem-append_left xs ys m)
  mem-append_left [] ys m = elim m [ ]

  mem-append_right : {y : Candidato} (xs ys : List Candidato) → Memᴰ y ys → Memᴰ y (xs ++ ys)
  mem-append_right [] ys m = m
  mem-append_right (x ∷ xs) ys m = Memᴰ.tail (mem-append_right xs ys m)

  candidatos_de-mem :
      (b m : ParaConciliar) (ms : List ParaConciliar)
      → Memᴰ m ms
      → casam t b m ≡ true
      → Memᴰ (candidato b m) (candidatos_de t b ms)
  unfolding candidatos_de
  candidatos_de-mem b m [] h e = elim h [ ]
  candidatos_de-mem b m (x ∷ ms) (Memᴰ.head same) e =
      let here : casam t b x ≡ true = subst (λ y. casam t b y ≡ true) same e in
      rw here (Memᴰ.head (ap (candidato b) same))
  candidatos_de-mem b m (x ∷ ms) (Memᴰ.tail h) e = elim (Bool-cases (casam t b x)) [
    | inl yes_ ↦ rw yes_ (Memᴰ.tail (candidatos_de-mem b m ms h e))
    | inr no_ ↦ rw no_ (candidatos_de-mem b m ms h e)
  ]

  candidatos-mem :
      (b m : ParaConciliar) (bs ms : List ParaConciliar)
      → Memᴰ b bs
      → Memᴰ m ms
      → casam t b m ≡ true
      → Memᴰ (candidato b m) (candidatos t bs ms)
  unfolding candidatos
  candidatos-mem b m [] ms hb hm e = elim hb [ ]
  candidatos-mem b m (x ∷ bs) ms (Memᴰ.head same) hm e =
      mem-append_left (candidatos_de t x ms) (candidatos t bs ms) (
        subst (λ y. Memᴰ (candidato b m) (candidatos_de t y ms)) same
          (candidatos_de-mem b m ms hm e))
  candidatos-mem b m (x ∷ bs) ms (Memᴰ.tail hb) hm e =
      mem-append_right (candidatos_de t x ms) (candidatos t bs ms)
        (candidatos-mem b m bs ms hb hm e)

  -- The candidates taken are of entries that match, and no id stands in two of them; and of two
  -- entries that match and were not paired, one is in a pair whose score is at least as good.
  pub escolhidos_lem :
      (bs ms : List ParaConciliar)
      → All (ComesFrom t bs ms) (escolhidos t bs ms)
        × DisjointAll (escolhidos t bs ms)
        × ((b m : ParaConciliar)
            → Memᴰ b bs
            → Memᴰ m ms
            → casam t b m ≡ true
            → Beaten (escolhidos t bs ms) (candidato b m))
  unfolding escolhidos
  escolhidos_lem bs ms = (
    escolher-All (ComesFrom t bs ms) [] _
        (ordenar-All (ComesFrom t bs ms) (candidatos t bs ms) (candidatos-All bs bs ms (λ b h. h))),
    escolher-DisjointAll [] (ordenar (candidatos t bs ms)),
    λ b m hb hm e.
        elim (escolher-Beaten [] (ordenar (candidatos t bs ms))
          (ordenar-IsSorted (candidatos t bs ms))
          (mem-ordenar (candidatos t bs ms) (candidatos-mem b m bs ms hb hm e))) [
            | inl used ↦ cc
            | inr beaten ↦ beaten
          ],
  )
