-- ===== src/Tesouraria/Laws/Sugeridos.antt =====
-- `conciliarSugeridos` of src/tesouraria/conciliacao.service.ts: all that is suggested goes through.
use sistema_iccv_backend.Common.{
  ℕ, ◌≡◌, sym, subst, ◌≢◌, Bool, true, Option, some, List, [], ◌∷◌, map, arith, leb, ◌==◌, ==_refl,
  filter, All, Bool-cases, inl, inr, Memᴰ, mem_of_filter, mem_of_map, ok,
}
use sistema_iccv_backend.Tesouraria.{FinancialEntry}
use sistema_iccv_backend.Tesouraria.Sugestao.{
  ParaConciliar, Candidato, casam, candidato, escolhidos, Par, par, tolerancia_dias, sugerir_pares,
}
use sistema_iccv_backend.Tesouraria.Conciliacao.{
  find_entry, para_sugestao, banco_pendente, manual_pendente, sugeridos, data_do_banco,
  inserir_linha, ordenar_linhas, conciliar_sugeridos,
}
use sistema_iccv_backend.Tesouraria.Laws.Sugestao.{ComesFrom, Disjoint, DisjointAll, escolhidos_lem}
use sistema_iccv_backend.Tesouraria.Laws.Pares.{
  Ready, Apart, ApartAll, Paired, conciliar_pares-Paired,
}

-- The primary key of the table.
abbrev pub DistinctIds : List FinancialEntry → Type 0
DistinctIds [] = Unit
DistinctIds (e ∷ rows) = All (λ f. f.id ≢ e.id) rows × DistinctIds rows

pub apart_of_mem :
    (id : ℕ) (rows : List FinancialEntry) {e : FinancialEntry}
    → All (λ f. f.id ≢ id) rows
    → Memᴰ e rows
    → e.id ≢ id
apart_of_mem id (r ∷ rows) w (Memᴰ.head same) = subst (λ f. f.id ≢ id) (sym same) w.0
apart_of_mem id (r ∷ rows) w (Memᴰ.tail m) = apart_of_mem id rows w.1 m
apart_of_mem id [] w m = elim m [ ]

find_entry-here :
    (r : FinancialEntry) (rows : List FinancialEntry) (c : ℕ)
    → (r.church_id == c) ≡ true
    → find_entry (r ∷ rows) c r.id ≡ some r
unfolding find_entry
find_entry-here r rows c h = ground (arith, ==_refl r.id)

pub find_entry-mem :
    (rows : List FinancialEntry) (c : ℕ) {e : FinancialEntry}
    → DistinctIds rows
    → Memᴰ e rows
    → (e.church_id == c) ≡ true
    → find_entry rows c e.id ≡ some e
unfolding find_entry
find_entry-mem [] c d m h = elim m [ ]
find_entry-mem (r ∷ rows) c {e} d (Memᴰ.head same) h =
    subst (λ x. find_entry (r ∷ rows) c x.id ≡ some x) (sym same)
      (find_entry-here r rows c (subst (λ x. (x.church_id == c) ≡ true) same h))
find_entry-mem (r ∷ rows) c {e} d (Memᴰ.tail m) h =
    ground (arith, apart_of_mem r.id rows {e = e} d.0 m, find_entry-mem rows c {e = e} d.1 m h)

module _ (do_periodo : FinancialEntry → Bool) (c : ℕ) (rows : List FinancialEntry) where
  abbrev bancos : List ParaConciliar
  bancos = map para_sugestao (filter (banco_pendente do_periodo c rows) rows)

  abbrev manuais : List ParaConciliar
  manuais = map para_sugestao (filter (manual_pendente do_periodo c rows) rows)

  suggested-Ready :
      (k : Candidato)
      → DistinctIds rows
      → ComesFrom tolerancia_dias bancos manuais k
      → Ready c rows (par k)
  suggested-Ready k d w =
      let (b, mb, same_b) = mem_of_map para_sugestao _ w.in_banco in
      let (m, mm, same_m) = mem_of_map para_sugestao _ w.in_manuais in
      let (b_in, b_ok) = mem_of_filter (banco_pendente do_periodo c rows) rows mb in
      let (m_in, m_ok) = mem_of_filter (manual_pendente do_periodo c rows) rows mm in
      let match : casam tolerancia_dias (para_sugestao b) (para_sugestao m) ≡ true =
        rw (same_b, same_m) w.match in
      let ids : k ≡ candidato (para_sugestao b) (para_sugestao m) = rw (same_b, same_m) w.same in
      subst (λ x. Ready c rows (par x)) (sym ids)
        (record {
          banco = b;
          m = m;
          banco_found = find_entry-mem rows c d b_in (ground arith);
          manual_found = find_entry-mem rows c d m_in (ground arith);
          imported = ground arith;
          typed = ground arith;
          same_types = ground arith;
          bank_free = ground arith;
          manual_free = ground arith;
        })

  map-Ready :
      (ks : List Candidato)
      → DistinctIds rows
      → All (ComesFrom tolerancia_dias bancos manuais) ks
      → All (Ready c rows) (map par ks)
  map-Ready [] d w = tt
  map-Ready (k ∷ ks) d w = (suggested-Ready k d w.0, map-Ready ks d w.1)

  map-Apart :
      (k : Candidato) (ks : List Candidato) → All (Disjoint k) ks → All (Apart (par k)) (map par ks)
  map-Apart k [] w = tt
  map-Apart k (l ∷ ks) w =
      (record { bb = w.0.bb; bm = w.0.bm; mb = w.0.mb; mm = w.0.mm }, map-Apart k ks w.1)

  map-ApartAll : (ks : List Candidato) → DisjointAll ks → ApartAll (map par ks)
  map-ApartAll [] w = tt
  map-ApartAll (k ∷ ks) w = (map-Apart k ks w.0, map-ApartAll ks w.1)

  inserir_linha-All :
      (P : Par → Type 0) (p : Par) (ps : List Par)
      → P p
      → All P ps
      → All P (inserir_linha rows p ps)
  unfolding inserir_linha
  inserir_linha-All P p [] x w = (x, tt)
  inserir_linha-All P p (q ∷ qs) x w =
      elim (Bool-cases (leb (data_do_banco rows q) (data_do_banco rows p))) [
        | inl e ↦ rw e (x, w)
        | inr e ↦ rw e (w.0, inserir_linha-All P p qs x w.1)
      ]

  Apart-sym : (p q : Par) → Apart p q → Apart q p
  Apart-sym p q a = record {
    bb = λ e. a.bb (sym e);
    bm = λ e. a.mb (sym e);
    mb = λ e. a.bm (sym e);
    mm = λ e. a.mm (sym e);
  }

  inserir_linha-ApartAll :
      (p : Par) (ps : List Par)
      → All (Apart p) ps
      → ApartAll ps
      → ApartAll (inserir_linha rows p ps)
  unfolding inserir_linha
  inserir_linha-ApartAll p [] a w = (tt, tt)
  inserir_linha-ApartAll p (q ∷ qs) a w =
      elim (Bool-cases (leb (data_do_banco rows q) (data_do_banco rows p))) [
        | inl e ↦ rw e (a, w)
        | inr e ↦ rw e (
          inserir_linha-All (Apart q) p qs (Apart-sym p q a.0) w.0,
          inserir_linha-ApartAll p qs a.1 w.1,
        )
      ]

  ordenar_linhas-All :
      (P : Par → Type 0) (ps : List Par) → All P ps → All P (ordenar_linhas rows ps)
  unfolding ordenar_linhas
  ordenar_linhas-All P [] w = tt
  ordenar_linhas-All P (p ∷ ps) w =
      inserir_linha-All P p (ordenar_linhas rows ps) w.0 (ordenar_linhas-All P ps w.1)

  ordenar_linhas-ApartAll : (ps : List Par) → ApartAll ps → ApartAll (ordenar_linhas rows ps)
  unfolding ordenar_linhas
  ordenar_linhas-ApartAll [] w = tt
  ordenar_linhas-ApartAll (p ∷ ps) w =
      inserir_linha-ApartAll p (ordenar_linhas rows ps) (ordenar_linhas-All (Apart p) ps w.0)
        (ordenar_linhas-ApartAll ps w.1)

  -- With no other request meanwhile, the loop over the suggested pairs never fails: every pair that
  -- is suggested for the period goes through, and at the end each manual entry of them points to
  -- the bank's entry of its pair.
  pub conciliar_sugeridos_ok :
      (actor : Option ℕ) (agora : ℕ)
      → DistinctIds rows
      → (final : List FinancialEntry) × (conciliar_sugeridos do_periodo c actor agora rows
          ≡ ok final)
        × All (Paired c actor agora final) (ordenar_linhas rows (sugeridos do_periodo c rows))
  unfolding conciliar_sugeridos sugeridos sugerir_pares
  conciliar_sugeridos_ok actor agora d =
      let (from, apart, _) = escolhidos_lem tolerancia_dias bancos manuais in
      let ks = escolhidos tolerancia_dias bancos manuais in
      let (final, done, paired, _) =
        conciliar_pares-Paired c actor agora (ordenar_linhas rows (map par ks)) rows
          (ordenar_linhas-All (Ready c rows) (map par ks) (map-Ready ks d from))
          (ordenar_linhas-ApartAll (map par ks) (map-ApartAll ks apart)) in
      (final, done, paired)
