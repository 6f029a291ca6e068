-- ===== src/Tesouraria/Laws/Alteracoes.antt =====
-- What each operation of src/tesouraria/lancamentos.service.ts and
-- src/tesouraria/conciliacao.service.ts did to the table, and to what the bank says of an entry.
use sistema_iccv_backend.Common.{
  ℕ, ◌≡◌, refl, sym, ap, subst, ◌∙◌, ◌≢◌, Bool, true, false, not, ◌&&◌, Option, some, List, [], ◌∷◌,
  arith, ◌==◌, if◌then◌else◌, filter, Bool-cases, inl, inr, Memᴰ, mem_map, mem_filter, ok,
  >>=-eq-ok, or_throw, or_throw-eq-ok, mem_of_find?,
}
use sistema_iccv_backend.Tesouraria.{is_pluggy, FinancialEntry}
use sistema_iccv_backend.Tesouraria.Conciliacao.{
  lancamento_nao_encontrado, find_entry, update_by_id, com_par, com_classificacao, sem_par,
  desfazer, com_marca, marcar_nao_consta,
}
use sistema_iccv_backend.Tesouraria.Lancamentos.{
  Membro, CreateEntry, lancado, criar, UpdateEntry, editado, com_valores, atualizar, remover,
}
use sistema_iccv_backend.Tesouraria.Laws.Pares.{pareados}
use sistema_iccv_backend.Tesouraria.Laws.Sugeridos.{DistinctIds, apart_of_mem}

true-ne-false : true ≢ false
true-ne-false h = cc

-- What the bank says of an entry.
pub record Frozen (e e' : FinancialEntry) : Type 0 where
  pub id : e'.id ≡ e.id
  pub church_id : e'.church_id ≡ e.church_id
  pub type : e'.type ≡ e.type
  pub amount : e'.amount ≡ e.amount
  pub date : e'.date ≡ e.date
  pub method : e'.method ≡ e.method
  pub source : e'.source ≡ e.source

pub Frozen-refl : (e : FinancialEntry) → Frozen e e
Frozen-refl e = record {
  id = refl;
  church_id = refl;
  type = refl;
  amount = refl;
  date = refl;
  method = refl;
  source = refl;
}

pub Frozen-trans : (a b c : FinancialEntry) → Frozen a b → Frozen b c → Frozen a c
Frozen-trans a b c f g = record {
  id = g.id ∙ f.id;
  church_id = g.church_id ∙ f.church_id;
  type = g.type ∙ f.type;
  amount = g.amount ∙ f.amount;
  date = g.date ∙ f.date;
  method = g.method ∙ f.method;
  source = g.source ∙ f.source;
}

-- The entry is still there, with what the bank says of it.
abbrev pub Stays : FinancialEntry → List FinancialEntry → Type 0
Stays e rows = (e' : FinancialEntry) × Memᴰ e' rows × Frozen e e'

pub update-Stays :
    (id : ℕ) (f : FinancialEntry → FinancialEntry) (rows : List FinancialEntry) {e : FinancialEntry}
    → Memᴰ e rows
    → Frozen e (f e)
    → Stays e (update_by_id id f rows)
unfolding update_by_id
update-Stays id f rows {e} m z = (
  (if e.id == id then f e else e),
  mem_map (λ x. if x.id == id then f x else x) rows m,
  elim (Bool-cases (e.id == id)) [ inl h ↦ rw h z | inr h ↦ rw h (Frozen-refl e) ],
)

-- Two entries of the table with one id are the same.
pub unique :
    (rows : List FinancialEntry) {a b : FinancialEntry}
    → DistinctIds rows
    → Memᴰ a rows
    → Memᴰ b rows
    → a.id ≡ b.id
    → a ≡ b
unique [] d ma mb same = elim ma [ ]
unique (x ∷ rows) d (Memᴰ.head p) (Memᴰ.head q) same = p ∙ sym q
unique (x ∷ rows) {a} {b} d (Memᴰ.head p) (Memᴰ.tail mb) same =
    absurd (apart_of_mem x.id rows {e = b} d.0 mb (sym same ∙ ap (λ e. e.id) p))
unique (x ∷ rows) {a} {b} d (Memᴰ.tail ma) (Memᴰ.head q) same =
    absurd (apart_of_mem x.id rows {e = a} d.0 ma (same ∙ ap (λ e. e.id) q))
unique (x ∷ rows) d (Memᴰ.tail ma) (Memᴰ.tail mb) same = unique rows d.1 ma mb same

-- The row that a search found is the imported entry, if it has its id.
pub found_is :
    (rows : List FinancialEntry) (c id : ℕ) {atual e : FinancialEntry}
    → DistinctIds rows
    → find_entry rows c id ≡ some atual
    → Memᴰ e rows
    → (e.id == id) ≡ true
    → e ≡ atual
unfolding find_entry
found_is rows c id {atual} {e} d h m same =
    let (m', p) = mem_of_find? (λ x. x.id == id && x.church_id == c) rows h in
    unique rows d m m' (ground arith)

-- What an operation that went through did to the table.
pub criar-eq-ok :
    (ms : List Membro) (c novo : ℕ) (dto : CreateEntry) (actor : Option ℕ)
    (rows : List FinancialEntry) {next : List FinancialEntry}
    → criar ms c novo dto actor rows ≡ ok next
    → lancado c novo dto actor ∷ rows ≡ next
unfolding criar
criar-eq-ok ms c novo dto actor rows h = ground arith

pub atualizar-eq-ok :
    (ms : List Membro) (c id : ℕ) (dto : UpdateEntry) (actor : Option ℕ)
    (rows : List FinancialEntry) {next : List FinancialEntry}
    → atualizar ms c id dto actor rows ≡ ok next
    → (atual : FinancialEntry) × (find_entry rows c id ≡ some atual)
      × (update_by_id id
            (λ e. editado dto actor (if is_pluggy atual.source then e else com_valores dto e))
            rows
          ≡ next)
unfolding atualizar
atualizar-eq-ok ms c id dto actor rows h =
    let (atual, found, k) =
      >>=-eq-ok {A = FinancialEntry} (or_throw (find_entry rows c id) lancamento_nao_encontrado) _
        h in
    (atual, or_throw-eq-ok _ _ found, ground arith)

pub remover-eq-ok :
    (c id : ℕ) (rows : List FinancialEntry) {next : List FinancialEntry}
    → remover c id rows ≡ ok next
    → (atual : FinancialEntry) × (find_entry rows c id ≡ some atual)
      × (is_pluggy atual.source ≡ false)
      × (filter (λ e. not (e.id == id)) rows ≡ next)
unfolding remover
remover-eq-ok c id rows h =
    let (atual, found, k) =
      >>=-eq-ok {A = FinancialEntry} (or_throw (find_entry rows c id) lancamento_nao_encontrado) _
        h in
    (atual, or_throw-eq-ok _ _ found, ground arith, ground arith)

pub desfazer-eq-ok :
    (c m : ℕ) (rows : List FinancialEntry) {next : List FinancialEntry}
    → desfazer c m rows ≡ ok next
    → update_by_id m sem_par rows ≡ next
unfolding desfazer
desfazer-eq-ok c m rows h = ground arith

pub marcar-eq-ok :
    (c m : ℕ) (x : Bool) (actor : Option ℕ) (t : ℕ) (rows : List FinancialEntry)
    {next : List FinancialEntry}
    → marcar_nao_consta c m x actor t rows ≡ ok next
    → update_by_id m (com_marca x actor t) rows ≡ next
unfolding marcar_nao_consta
marcar-eq-ok c m x actor t rows h = ground arith

pub com_marca-Frozen :
    (x : Bool) (actor : Option ℕ) (t : ℕ) (e : FinancialEntry) → Frozen e (com_marca x actor t e)
com_marca-Frozen true actor t e = ground arith
com_marca-Frozen false actor t e = ground arith

pub sem_par-Frozen : (e : FinancialEntry) → Frozen e (sem_par e)
sem_par-Frozen e = ground arith

pub com_par-Frozen :
    (id : ℕ) (actor : Option ℕ) (t : ℕ) (e : FinancialEntry) → Frozen e (com_par id actor t e)
com_par-Frozen id actor t e = ground arith

pub com_classificacao-Frozen :
    (banco m : FinancialEntry) (actor : Option ℕ) (e : FinancialEntry)
    → Frozen e (com_classificacao banco m actor e)
com_classificacao-Frozen banco m actor e = ground arith

pub com_marca-id :
    (x : Bool) (actor : Option ℕ) (t : ℕ) (e : FinancialEntry) → (com_marca x actor t e).id ≡ e.id
com_marca-id x actor t e = (com_marca-Frozen x actor t e).id

pub pareados-Stays :
    (banco m : FinancialEntry) (actor : Option ℕ) (t : ℕ) (rows : List FinancialEntry)
    {e : FinancialEntry}
    → Memᴰ e rows
    → Stays e (pareados banco m actor t rows)
pareados-Stays banco m actor t rows {e} old =
    let (e1, m1, z1) =
      update-Stays m.id (com_par banco.id actor t) rows old (com_par-Frozen banco.id actor t e) in
    let (e2, m2, z2) =
      update-Stays banco.id (com_classificacao banco m actor) _ m1
        (com_classificacao-Frozen banco m actor e1) in
    (e2, m2, Frozen-trans e e1 e2 z1 z2)

pub editado-Frozen :
    (dto : UpdateEntry) (actor : Option ℕ) (atual e : FinancialEntry)
    → is_pluggy atual.source ≡ true
    → Frozen e (editado dto actor (if is_pluggy atual.source then e else com_valores dto e))
editado-Frozen dto actor atual e h = ground arith

pub atualizar-Stays :
    (c id : ℕ) (dto : UpdateEntry) (actor : Option ℕ) (rows : List FinancialEntry)
    (atual e : FinancialEntry)
    → DistinctIds rows
    → find_entry rows c id ≡ some atual
    → Memᴰ e rows
    → is_pluggy e.source ≡ true
    → Stays e (
        update_by_id id
          (λ x. editado dto actor (if is_pluggy atual.source then x else com_valores dto x))
          rows)
unfolding update_by_id
atualizar-Stays c id dto actor rows atual e d found m imported =
    let f : FinancialEntry → FinancialEntry =
      λ x. editado dto actor (if is_pluggy atual.source then x else com_valores dto x) in
    (
      if e.id == id then f e else e,
      mem_map (λ x. if x.id == id then f x else x) rows m,
      elim (Bool-cases (e.id == id)) [
        | inr other ↦ rw other (Frozen-refl e)
        | inl same ↦
            let found_one = found_is rows c id {atual = atual} {e = e} d found m same in
            rw same (
              editado-Frozen dto actor atual e
                (subst (λ x. is_pluggy x.source ≡ true) found_one imported))
      ],
    )

pub remover-Stays :
    (c id : ℕ) (rows : List FinancialEntry) (atual e : FinancialEntry)
    → DistinctIds rows
    → find_entry rows c id ≡ some atual
    → is_pluggy atual.source ≡ false
    → Memᴰ e rows
    → is_pluggy e.source ≡ true
    → Memᴰ e (filter (λ x. not (x.id == id)) rows)
remover-Stays c id rows atual e d found typed m imported = elim (Bool-cases (e.id == id)) [
  | inr other ↦ mem_filter (λ x. not (x.id == id)) rows m (rw other)
  | inl same ↦
      let found_one = found_is rows c id {atual = atual} {e = e} d found m same in
      absurd
        (true-ne-false (sym (subst (λ x. is_pluggy x.source ≡ true) found_one imported) ∙ typed))
]
