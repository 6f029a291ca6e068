-- ===== src/Tesouraria/Laws/Pares.antt =====
-- The loop of `conciliarSugeridos` of src/tesouraria/conciliacao.service.ts on pairs that are ready.
use sistema_iccv_backend.Common.{
  ℕ, ◌≡◌, refl, sym, ap, subst, ◌∙◌, ==_ne, ◌≢◌, true, false, not, ◌&&◌, Option, some, List, [],
  ◌∷◌, arith, ◌==◌, any, All, All-map, Bool-cases, inl, inr, ok,
}
use sistema_iccv_backend.Tesouraria.{same_type, is_pluggy, FinancialEntry}
use sistema_iccv_backend.Tesouraria.Sugestao.{Par}
use sistema_iccv_backend.Tesouraria.Conciliacao.{
  tem, find_entry, aponta, apontado, update_by_id, conferir_par, com_par, com_classificacao,
  gravar_par, conciliar, conciliar_pares,
}

All-map2 {ℓ κ ι υ} :
    {A : Type ℓ} (P : A → Type κ) (Q : A → Type ι) (R : A → Type υ) (xs : List A)
    → ((x : A) → P x → Q x → R x)
    → All P xs
    → All Q xs
    → All R xs
All-map2 P Q R [] f p q = tt
All-map2 P Q R (x ∷ xs) f p q = (f x p.0 q.0, All-map2 P Q R xs f p.1 q.1)

-- Two entries that `conciliar` accepts.
pub record Ready (church_id : ℕ) (rows : List FinancialEntry) (p : Par) : Type 0 where
  pub banco : FinancialEntry
  pub m : FinancialEntry
  pub banco_found : find_entry rows church_id p.banco_id ≡ some banco
  pub manual_found : find_entry rows church_id p.manual_id ≡ some m
  pub imported : is_pluggy banco.source ≡ true
  pub typed : is_pluggy m.source ≡ false
  pub same_types : same_type banco.type m.type ≡ true
  pub bank_free : apontado rows p.banco_id ≡ false
  pub manual_free : tem m.reconciled_with_id ≡ false

pub record Apart (p q : Par) : Type 0 where
  pub bb : p.banco_id ≢ q.banco_id
  pub bm : p.banco_id ≢ q.manual_id
  pub mb : p.manual_id ≢ q.banco_id
  pub mm : p.manual_id ≢ q.manual_id

abbrev pub ApartAll : List Par → Type 0
ApartAll [] = Unit
ApartAll (p ∷ ps) = All (Apart p) ps × ApartAll ps

pub find_entry-id :
    (rows : List FinancialEntry) (c id : ℕ) {e : FinancialEntry}
    → find_entry rows c id ≡ some e
    → e.id ≡ id
unfolding find_entry
find_entry-id [] c id h = cc
find_entry-id (r ∷ rows) c id {e} h = ground (arith, find_entry-id rows c id {e = e})

-- A write on another id leaves a search by id as it was.
pub find_entry-update :
    (rows : List FinancialEntry) (c id other : ℕ) (f : FinancialEntry → FinancialEntry)
    → id ≢ other
    → ((e : FinancialEntry) → (f e).id ≡ e.id)
    → find_entry (update_by_id other f rows) c id ≡ find_entry rows c id
unfolding find_entry update_by_id
find_entry-update [] c id other f ne keep = refl
find_entry-update (r ∷ rows) c id other f ne keep =
    ground (arith, keep r, find_entry-update rows c id other f ne keep)

-- No entry points to `id` after a write that makes none point to it.
apontado-update :
    (rows : List FinancialEntry) (id other : ℕ) (f : FinancialEntry → FinancialEntry)
    → ((e : FinancialEntry) → aponta id e ≡ false → aponta id (f e) ≡ false)
    → apontado rows id ≡ false
    → apontado (update_by_id other f rows) id ≡ false
unfolding update_by_id
apontado-update [] id other f keep h = refl
apontado-update (r ∷ rows) id other f keep h = elim (Bool-cases (r.id == other)) [
  | inl e ↦ rw e (ground (arith, keep r, apontado-update rows id other f keep))
  | inr e ↦ rw e (ground (arith, apontado-update rows id other f keep))
]

-- The table that a pair leaves.
abbrev pub pareados :
    (banco m : FinancialEntry) → Option ℕ → ℕ → List FinancialEntry → List FinancialEntry
pareados banco m actor agora rows =
    update_by_id banco.id (com_classificacao banco m actor)
      (update_by_id m.id (com_par banco.id actor agora) rows)

any_and :
    (id mine : ℕ) (rows : List FinancialEntry)
    → apontado rows id ≡ false
    → any (λ e. aponta id e && not (e.id == mine)) rows ≡ false
any_and id mine [] h = refl
any_and id mine (r ∷ rows) h = ground (arith, any_and id mine rows)

-- A pair that is ready goes through.
pub conciliar-Ready :
    (c : ℕ) (rows : List FinancialEntry) (p : Par) (actor : Option ℕ) (agora : ℕ)
    (r : Ready c rows p)
    → conciliar c p.banco_id p.manual_id actor agora rows
      ≡ ok (pareados r.banco r.m actor agora rows)
unfolding conciliar conferir_par gravar_par
conciliar-Ready c rows p actor agora r =
    ground (arith, find_entry-id rows c p.banco_id r.banco_found, any_and r.banco.id r.m.id rows)

module _ (c : ℕ) (actor : Option ℕ) (agora : ℕ) where
  find_entry-pareados :
      (rows : List FinancialEntry) (p : Par) (r : Ready c rows p) (id : ℕ)
      → id ≢ p.banco_id
      → id ≢ p.manual_id
      → find_entry (pareados r.banco r.m actor agora rows) c id ≡ find_entry rows c id
  find_entry-pareados rows p r id nb nm =
      let same_b = find_entry-id rows c p.banco_id r.banco_found in
      let same_m = find_entry-id rows c p.manual_id r.manual_found in
      find_entry-update _ c id r.banco.id (com_classificacao r.banco r.m actor)
        (λ same. nb (same ∙ same_b)) (λ e. refl)
      ∙ find_entry-update rows c id r.m.id (com_par r.banco.id actor agora)
          (λ same. nm (same ∙ same_m)) (λ e. refl)

  -- And leaves the pairs that have no entry in common with it ready.
  Ready-pareados :
      (rows : List FinancialEntry) (p q : Par) (r : Ready c rows p)
      → Apart p q
      → Ready c rows q
      → Ready c (pareados r.banco r.m actor agora rows) q
  Ready-pareados rows p q r a s =
      let same_b = find_entry-id rows c p.banco_id r.banco_found in
      record {
        banco = s.banco;
        m = s.m;
        banco_found =
            find_entry-pareados rows p r q.banco_id (λ e. a.bb (sym e)) (λ e. a.mb (sym e))
            ∙ s.banco_found;
        manual_found =
            find_entry-pareados rows p r q.manual_id (λ e. a.bm (sym e)) (λ e. a.mm (sym e))
            ∙ s.manual_found;
        imported = s.imported;
        typed = s.typed;
        same_types = s.same_types;
        bank_free =
            apontado-update _ q.banco_id r.banco.id (com_classificacao r.banco r.m actor) (λ e h. h)
              (apontado-update rows q.banco_id r.m.id (com_par r.banco.id actor agora)
                (λ e h. ==_ne r.banco.id q.banco_id (λ same. a.bb (sym same_b ∙ same)))
                s.bank_free);
        manual_free = s.manual_free;
      }

  -- In the table the manual entry points to the bank's.
  abbrev pub Paired : List FinancialEntry → Par → Type 0
  Paired rows p =
      (e : FinancialEntry) × (find_entry rows c p.manual_id ≡ some e)
      × (e.reconciled_with_id ≡ some p.banco_id)

  pub found_after :
      (rows : List FinancialEntry) (id : ℕ) (f : FinancialEntry → FinancialEntry)
      {e : FinancialEntry}
      → ((x : FinancialEntry) → (f x).id ≡ x.id)
      → ((x : FinancialEntry) → (f x).church_id ≡ x.church_id)
      → find_entry rows c id ≡ some e
      → find_entry (update_by_id id f rows) c id ≡ some (f e)
  unfolding find_entry update_by_id
  found_after [] id f ki kc h = cc
  found_after (r ∷ rows) id f {e} ki kc h =
      ground (arith, ki r, kc r, found_after rows id f {e = e} ki kc)

  pub manual_after :
      (rows : List FinancialEntry) (p : Par) (r : Ready c rows p)
      → p.manual_id ≢ p.banco_id
      → find_entry (pareados r.banco r.m actor agora rows) c p.manual_id
        ≡ some (com_par r.banco.id actor agora r.m)
  manual_after rows p r ne =
      let same_b = find_entry-id rows c p.banco_id r.banco_found in
      let same_m = find_entry-id rows c p.manual_id r.manual_found in
      find_entry-update _ c p.manual_id r.banco.id (com_classificacao r.banco r.m actor)
        (λ same. ne (same ∙ same_b)) (λ e. refl)
      ∙ subst
          (λ id.
            find_entry (update_by_id id (com_par r.banco.id actor agora) rows) c p.manual_id
            ≡ some (com_par r.banco.id actor agora r.m))
          (sym same_m)
          (found_after rows p.manual_id (com_par r.banco.id actor agora) (λ x. refl) (λ x. refl)
            r.manual_found)

  Paired-pareados :
      (rows : List FinancialEntry) (p : Par) (r : Ready c rows p)
      → p.manual_id ≢ p.banco_id
      → Paired (pareados r.banco r.m actor agora rows) p
  Paired-pareados rows p r ne = (
    com_par r.banco.id actor agora r.m,
    manual_after rows p r ne,
    ap some (find_entry-id rows c p.banco_id r.banco_found),
  )

  -- An entry that no pair is about.
  abbrev Outside : List Par → ℕ → Type 0
  Outside ps id = All (λ q. (id ≢ q.banco_id) × (id ≢ q.manual_id)) ps

  pub Ready-ne : (rows : List FinancialEntry) (p : Par) → Ready c rows p → p.manual_id ≢ p.banco_id
  Ready-ne rows p r same =
      let both = subst (λ id. find_entry rows c id ≡ some r.m) same r.manual_found in
      ground (arith, r.banco_found, r.imported, r.typed)

  -- Pairs that are ready, with no entry in two of them, all go through.
  pub conciliar_pares-Paired :
      (ps : List Par) (rows : List FinancialEntry)
      → All (Ready c rows) ps
      → ApartAll ps
      → (final : List FinancialEntry) × (conciliar_pares c ps actor agora rows ≡ ok final)
        × All (Paired final) ps
        × ((id : ℕ) → Outside ps id → find_entry final c id ≡ find_entry rows c id)
  unfolding conciliar_pares
  conciliar_pares-Paired [] rows ready apart = (rows, refl, tt, λ id o. refl)
  conciliar_pares-Paired (p ∷ ps) rows ready apart =
      let r = ready.0 in
      let rows' = pareados r.banco r.m actor agora rows in
      let ready' =
        All-map2 (Apart p) (Ready c rows) (Ready c rows') ps
          (λ q a s. Ready-pareados rows p q r a s) apart.0 ready.1 in
      let (final, done, paired, kept) = conciliar_pares-Paired ps rows' ready' apart.1 in
      let (e, found, points) = Paired-pareados rows p r (Ready-ne rows p r) in
      (
        final,
        rw (conciliar-Ready c rows p actor agora r) done,
        (
          (
            e,
            kept p.manual_id (All-map (Apart p) _ ps (λ q a. (a.mb, a.mm)) apart.0) ∙ found,
            points,
          ),
          paired,
        ),
        λ id o. kept id o.1 ∙ find_entry-pareados rows p r id o.0.0 o.0.1,
      )
