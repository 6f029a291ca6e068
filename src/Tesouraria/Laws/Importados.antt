-- ===== src/Tesouraria/Laws/Importados.antt =====
-- Entries imported from the bank, under the operations of src/tesouraria/lancamentos.service.ts and
-- src/tesouraria/conciliacao.service.ts but the import itself, which only adds entries.
use sistema_iccv_backend.Common.{
  ℕ, ◌≡◌, refl, sym, subst, ◌≢◌, Bool, true, not, Option, List, [], ◌∷◌, arith, ◌==◌, filter, All,
  Bool-cases, inl, inr, Memᴰ, ok,
}
use sistema_iccv_backend.Tesouraria.{is_pluggy, FinancialEntry}
use sistema_iccv_backend.Tesouraria.Conciliacao.{
  com_par, com_classificacao, conciliar, sem_par, desfazer, com_marca, marcar_nao_consta,
}
use sistema_iccv_backend.Tesouraria.Lancamentos.{
  Membro, CreateEntry, criar, UpdateEntry, atualizar, remover,
}
use sistema_iccv_backend.Tesouraria.Laws.Sugeridos.{DistinctIds}
use sistema_iccv_backend.Tesouraria.Laws.Somas.{update-DistinctIds, conciliar-eq-ok}
use sistema_iccv_backend.Tesouraria.Laws.Alteracoes.{
  Frozen-refl, Frozen-trans, update-Stays, criar-eq-ok, atualizar-eq-ok, remover-eq-ok,
  desfazer-eq-ok, marcar-eq-ok, com_marca-Frozen, sem_par-Frozen, com_marca-id, pareados-Stays,
  atualizar-Stays, remover-Stays, Stays,
}

-- One operation that went through, by anybody and at any time.
pub data Step (rows : List FinancialEntry) : List FinancialEntry → Type 0 where
  cria :
      (ms : List Membro) (c novo : ℕ) (dto : CreateEntry) (actor : Option ℕ)
      {next : List FinancialEntry}
      → All (λ e. e.id ≢ novo) rows
      → criar ms c novo dto actor rows ≡ ok next
      → Step rows next
  atualiza :
      (ms : List Membro) (c id : ℕ) (dto : UpdateEntry) (actor : Option ℕ)
      {next : List FinancialEntry}
      → atualizar ms c id dto actor rows ≡ ok next
      → Step rows next
  remove : (c id : ℕ) {next : List FinancialEntry} → remover c id rows ≡ ok next → Step rows next
  concilia :
      (c b m : ℕ) (actor : Option ℕ) (t : ℕ) {next : List FinancialEntry}
      → conciliar c b m actor t rows ≡ ok next
      → Step rows next
  desfaz : (c m : ℕ) {next : List FinancialEntry} → desfazer c m rows ≡ ok next → Step rows next
  marca :
      (c m : ℕ) (nao_consta : Bool) (actor : Option ℕ) (t : ℕ) {next : List FinancialEntry}
      → marcar_nao_consta c m nao_consta actor t rows ≡ ok next
      → Step rows next

pub data Steps (rows : List FinancialEntry) : List FinancialEntry → Type 0 where
  here : Steps rows rows
  after : {mid next : List FinancialEntry} → Steps rows mid → Step mid next → Steps rows next

-- One operation.
Step-Stays :
    {rows next : List FinancialEntry} {e : FinancialEntry}
    → Step rows next
    → DistinctIds rows
    → Memᴰ e rows
    → is_pluggy e.source ≡ true
    → Stays e next
Step-Stays {rows} {next} {e} (cria ms c novo dto actor fresh h) d m imported =
    subst (Stays e) (criar-eq-ok ms c novo dto actor rows h) (e, Memᴰ.tail m, Frozen-refl e)
Step-Stays {rows} {next} {e} (atualiza ms c id dto actor h) d m imported =
    let (atual, found, same) = atualizar-eq-ok ms c id dto actor rows h in
    subst (Stays e) same (atualizar-Stays c id dto actor rows atual e d found m imported)
Step-Stays {rows} {next} {e} (remove c id h) d m imported =
    let (atual, found, typed, same) = remover-eq-ok c id rows h in
    subst (Stays e) same
      (e, remover-Stays c id rows atual e d found typed m imported, Frozen-refl e)
Step-Stays {rows} {next} {e} (concilia c b k actor t h) d m imported =
    let (r, same) = conciliar-eq-ok c b k actor t rows h in
    subst (Stays e) same (pareados-Stays r.banco r.m actor t rows m)
Step-Stays {rows} {next} {e} (desfaz c k h) d m imported =
    subst (Stays e) (desfazer-eq-ok c k rows h) (update-Stays k sem_par rows m (sem_par-Frozen e))
Step-Stays {rows} {next} {e} (marca c k x actor t h) d m imported =
    subst (Stays e) (marcar-eq-ok c k x actor t rows h)
      (update-Stays k (com_marca x actor t) rows m (com_marca-Frozen x actor t e))

filter-apart :
    (id i : ℕ) (rows : List FinancialEntry)
    → All (λ f. f.id ≢ i) rows
    → All (λ f. f.id ≢ i) (filter (λ x. not (x.id == id)) rows)
filter-apart id i [] w = tt
filter-apart id i (r ∷ rows) w = elim (Bool-cases (r.id == id)) [
  | inl e ↦ rw e (filter-apart id i rows w.1)
  | inr e ↦ rw e (w.0, filter-apart id i rows w.1)
]

filter-DistinctIds :
    (id : ℕ) (rows : List FinancialEntry)
    → DistinctIds rows
    → DistinctIds (filter (λ x. not (x.id == id)) rows)
filter-DistinctIds id [] d = tt
filter-DistinctIds id (r ∷ rows) d = elim (Bool-cases (r.id == id)) [
  | inl e ↦ rw e (filter-DistinctIds id rows d.1)
  | inr e ↦ rw e (filter-apart id r.id rows d.0, filter-DistinctIds id rows d.1)
]

Step-DistinctIds :
    {rows next : List FinancialEntry} → Step rows next → DistinctIds rows → DistinctIds next
Step-DistinctIds {rows} (cria ms c novo dto actor fresh h) d =
    subst DistinctIds (criar-eq-ok ms c novo dto actor rows h) (fresh, d)
Step-DistinctIds {rows} (atualiza ms c id dto actor h) d =
    let (atual, found, same) = atualizar-eq-ok ms c id dto actor rows h in
    subst DistinctIds same (update-DistinctIds id _ rows (λ e. ground arith) d)
Step-DistinctIds {rows} (remove c id h) d =
    let (atual, found, typed, same) = remover-eq-ok c id rows h in
    subst DistinctIds same (filter-DistinctIds id rows d)
Step-DistinctIds {rows} (concilia c b k actor t h) d =
    let (r, same) = conciliar-eq-ok c b k actor t rows h in
    subst DistinctIds same (
      update-DistinctIds r.banco.id (com_classificacao r.banco r.m actor) _ (λ e. refl)
        (update-DistinctIds r.m.id (com_par r.banco.id actor t) rows (λ e. refl) d))
Step-DistinctIds {rows} (desfaz c k h) d =
    subst DistinctIds (desfazer-eq-ok c k rows h) (update-DistinctIds k sem_par rows (λ e. refl) d)
Step-DistinctIds {rows} (marca c k x actor t h) d =
    subst DistinctIds (marcar-eq-ok c k x actor t rows h)
      (update-DistinctIds k (com_marca x actor t) rows (com_marca-id x actor t) d)

Steps-DistinctIds :
    {rows next : List FinancialEntry} → Steps rows next → DistinctIds rows → DistinctIds next
Steps-DistinctIds here d = d
Steps-DistinctIds (after ss s) d = Step-DistinctIds s (Steps-DistinctIds ss d)

-- Whatever the treasury does, an entry imported from the bank is never lost, and its church, type,
-- amount, date and method stay as the bank gave them.
pub Steps-Stays :
    {rows next : List FinancialEntry} {e : FinancialEntry}
    → Steps rows next
    → DistinctIds rows
    → Memᴰ e rows
    → is_pluggy e.source ≡ true
    → Stays e next
Steps-Stays {e = e} here d m imported = (e, m, Frozen-refl e)
Steps-Stays {e = e} (after ss s) d m imported =
    let (e1, m1, z1) = Steps-Stays {e = e} ss d m imported in
    let still = subst (λ x. is_pluggy x ≡ true) (sym z1.source) imported in
    let (e2, m2, z2) = Step-Stays {e = e1} s (Steps-DistinctIds ss d) m1 still in
    (e2, m2, Frozen-trans e e1 e2 z1 z2)
