-- ===== src/Tesouraria/Laws/Somas.antt =====
-- Sums over the ledger of src/tesouraria/lancamentos.service.ts when one entry changes, and what the
-- checks of `conciliar` of src/tesouraria/conciliacao.service.ts have seen.
use sistema_iccv_backend.Common.{
  ℕ, ◌+◌, ◌≡◌, ◌∙◌, refl, sym, ap, subst, ◌≢◌, true, false, ◌&&◌, Option, some, List, [], ◌∷◌, map,
  arith, ◌==◌, ==_ne, ==_refl, if◌then◌else◌, find?, All, Memᴰ, mem_of_find?, ok, >>=-eq-ok,
  or_throw, or_throw-eq-ok,
}
use sistema_iccv_backend.Tesouraria.{same_type, is_pluggy, FinancialEntry}
use sistema_iccv_backend.Tesouraria.Conciliacao.{
  tem, find_entry, apontado, update_by_id, conferir_par, gravar_par, conciliar,
  lancamento_nao_encontrado,
}
use sistema_iccv_backend.Tesouraria.Lancamentos.{soma}
use sistema_iccv_backend.Tesouraria.Laws.Pares.{Ready, pareados, find_entry-id}
use sistema_iccv_backend.Tesouraria.Laws.Sugeridos.{DistinctIds, apart_of_mem}

pub update-DistinctIds :
    (id : ℕ) (f : FinancialEntry → FinancialEntry) (rows : List FinancialEntry)
    → ((e : FinancialEntry) → (f e).id ≡ e.id)
    → DistinctIds rows
    → DistinctIds (update_by_id id f rows)
unfolding update_by_id
update-DistinctIds id f [] keep d = tt
update-DistinctIds id f (r ∷ rows) keep d =
    let same : (if r.id == id then f r else r).id ≡ r.id = ground (arith, keep r) in
    (rw same (apart r.id rows d.0), update-DistinctIds id f rows keep d.1)
  where
    apart :
        (i : ℕ) (es : List FinancialEntry)
        → All (λ e. e.id ≢ i) es
        → All (λ e. e.id ≢ i) (map (λ e. if e.id == id then f e else e) es)
    apart i [] w = tt
    apart i (e ∷ es) w = (ground (arith, keep e, w.0), apart i es w.1)

pub find_entry-in :
    (rows : List FinancialEntry) (c id : ℕ) {e : FinancialEntry}
    → find_entry rows c id ≡ some e
    → Memᴰ e rows
unfolding find_entry
find_entry-in rows c id h = (mem_of_find? _ rows h).0

-- What the checks have seen.
conferir_par-eq-ok :
    (c b_id m_id : ℕ) (rows : List FinancialEntry) (banco m : FinancialEntry)
    {both : FinancialEntry × FinancialEntry}
    → find_entry rows c b_id ≡ some banco
    → find_entry rows c m_id ≡ some m
    → conferir_par c b_id m_id rows ≡ ok both
    → (is_pluggy banco.source ≡ true)
      × (is_pluggy m.source ≡ false)
      × (same_type banco.type m.type ≡ true)
      × (apontado rows banco.id ≡ false)
      × (tem m.reconciled_with_id ≡ false)
      × (both ≡ (banco, m))
unfolding conferir_par
conferir_par-eq-ok c b_id m_id rows banco m fb fm h =
    (ground arith, ground arith, ground arith, ground arith, ground arith, ground arith)

conferir_par-found :
    (c b_id m_id : ℕ) (rows : List FinancialEntry) {both : FinancialEntry × FinancialEntry}
    → conferir_par c b_id m_id rows ≡ ok both
    → (banco : FinancialEntry) × (m : FinancialEntry) × (find_entry rows c b_id ≡ some banco)
      × (find_entry rows c m_id ≡ some m)
unfolding conferir_par
conferir_par-found c b_id m_id rows h =
    let missing = lancamento_nao_encontrado in
    let (banco, h1, k) =
      >>=-eq-ok {A = FinancialEntry} (or_throw (find_entry rows c b_id) missing) _ h in
    let (m, h2, _) =
      >>=-eq-ok {A = FinancialEntry} (or_throw (find_entry rows c m_id) missing) _ k in
    (banco, m, or_throw-eq-ok _ _ h1, or_throw-eq-ok _ _ h2)

gravar_par-eq-ok :
    (banco m : FinancialEntry) (actor : Option ℕ) (agora : ℕ) (rows : List FinancialEntry)
    {final : List FinancialEntry}
    → gravar_par banco m actor agora rows ≡ ok final
    → pareados banco m actor agora rows ≡ final
unfolding gravar_par
gravar_par-eq-ok banco m actor agora rows h = ground arith

-- What went through was ready.
pub conciliar-eq-ok :
    (c b_id m_id : ℕ) (actor : Option ℕ) (agora : ℕ) (rows : List FinancialEntry)
    {final : List FinancialEntry}
    → conciliar c b_id m_id actor agora rows ≡ ok final
    → (r : Ready c rows (record { banco_id = b_id; manual_id = m_id })) × (pareados r.banco r.m
          actor agora rows
        ≡ final)
unfolding conciliar
conciliar-eq-ok c b_id m_id actor agora rows {final} h =
    let (both, checked, written) = >>=-eq-ok (conferir_par c b_id m_id rows) _ h in
    let (banco, m, fb, fm) = conferir_par-found c b_id m_id rows checked in
    let (imported, typed, types, free, loose, same) =
      conferir_par-eq-ok c b_id m_id rows banco m fb fm checked in
    (
      record {
        banco = banco;
        m = m;
        banco_found = fb;
        manual_found = fm;
        imported = imported;
        typed = typed;
        same_types = types;
        bank_free = subst (λ id. apontado rows id ≡ false) (find_entry-id rows c b_id fb) free;
        manual_free = loose;
      },
      gravar_par-eq-ok banco m actor agora rows
          (subst (λ x. gravar_par x.0 x.1 actor agora rows ≡ ok final) same written),
    )

pub find-paired :
    (rows : List FinancialEntry) (c id : ℕ) (e : FinancialEntry)
    → find_entry rows c id ≡ some e
    → tem e.reconciled_with_id ≡ true
    → find? (λ x. x.id == id && x.church_id == c && tem x.reconciled_with_id) rows ≡ some e
unfolding find_entry
find-paired [] c id e h w = cc
find-paired (x ∷ rows) c id e h w = ground (arith, find-paired rows c id e)

module _ (p : FinancialEntry → ℕ) where
  soma-other :
      (id : ℕ) (f : FinancialEntry → FinancialEntry) (rows : List FinancialEntry)
      → All (λ e. e.id ≢ id) rows
      → soma p (update_by_id id f rows) ≡ soma p rows
  unfolding soma update_by_id
  soma-other id f [] w = refl
  soma-other id f (r ∷ rows) w =
      rw (==_ne r.id id w.0) (ap (λ s. p r + s) (soma-other id f rows w.1))

  -- One entry changes: the sum changes by what it counts.
  pub soma-update :
      (r : FinancialEntry) (f : FinancialEntry → FinancialEntry) (rows : List FinancialEntry)
      → DistinctIds rows
      → Memᴰ r rows
      → soma p (update_by_id r.id f rows) + p r ≡ soma p rows + p (f r)
  unfolding soma update_by_id
  soma-update r f [] d m = elim m [ ]
  soma-update r f (x ∷ rows) d (Memᴰ.head same) =
      subst (λ y. soma p (update_by_id y.id f (x ∷ rows)) + p y ≡ soma p (x ∷ rows) + p (f y))
        (sym same) (rw (==_refl x.id) (omega (arith, soma-other x.id f rows d.0)))
  soma-update r f (x ∷ rows) d (Memᴰ.tail m) =
      let ne = apart_of_mem x.id rows {e = r} d.0 m in
      rw (==_ne x.id r.id (λ same. ne (sym same))) (omega (arith, soma-update r f rows d.1 m))

-- An entry that is not the one written stays.
pub mem-update_by_id :
    (id : ℕ) (f : FinancialEntry → FinancialEntry) (rows : List FinancialEntry) {e : FinancialEntry}
    → e.id ≢ id
    → Memᴰ e rows
    → Memᴰ e (update_by_id id f rows)
unfolding update_by_id
mem-update_by_id id f [] ne m = elim m [ ]
mem-update_by_id id f (x ∷ rows) {e} ne (Memᴰ.head same) =
    let other : (x.id == id) ≡ false = ==_ne x.id id (λ at. ne (ap (λ y. y.id) same ∙ at)) in
    rw other (Memᴰ.head same)
mem-update_by_id id f (x ∷ rows) ne (Memᴰ.tail m) = Memᴰ.tail (mem-update_by_id id f rows ne m)
