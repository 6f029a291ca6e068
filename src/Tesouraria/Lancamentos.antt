-- ===== src/Tesouraria/Lancamentos.antt =====
-- src/tesouraria/lancamentos.service.ts: `criar`, `atualizar`, `remover` and the totals of `listar`;
-- with the categories of src/tesouraria/categorias.ts. Descriptions arrive trimmed.
use sistema_iccv_backend.Common.{
  ℕ, ◌+◌, Bool, true, false, not, ◌&&◌, ◌||◌, Option, none, some, List, [], ◌∷◌, ◌==◌,
  if◌then◌else◌, filter, any, Result, ok, ◌>>◌, ◌>>=◌, require, or_throw,
}
use sistema_iccv_backend.Tesouraria.{
  FinancialEntryType, income, expense, same_type, manual, is_pluggy, FinancialCategory, tithe,
  offering, donation, event_income, other_income, FinancialEntry, administrative, is_administrative,
}
use sistema_iccv_backend.Tesouraria.Conciliacao.{
  LedgerError, lancamento_nao_encontrado, categoria_de_outro_tipo, nao_e_membro, importado_travado,
  importado_nao_se_apaga, find_entry, update_by_id, tem,
}

-- `CATEGORIAS_POR_TIPO`, read from the category's side.
abbrev pub tipo_da_categoria : FinancialCategory → FinancialEntryType
tipo_da_categoria tithe = income
tipo_da_categoria offering = income
tipo_da_categoria donation = income
tipo_da_categoria event_income = income
tipo_da_categoria other_income = income
tipo_da_categoria _ = expense

abbrev pub categoria_cabe_no_tipo : FinancialCategory → FinancialEntryType → Bool
categoria_cabe_no_tipo categoria tipo = same_type (tipo_da_categoria categoria) tipo

-- The members of the churches.
pub record Membro : Type 0 where
  pub user_id : ℕ
  pub church_id : ℕ

abbrev pub e_membro : List Membro → (church_id : ℕ) → Option ℕ → Bool
e_membro membros church_id none = true
e_membro membros church_id (some id) =
    any (λ m. m.user_id == id && m.church_id == church_id) membros

pub record CreateEntry : Type 0 where
  pub type : FinancialEntryType
  pub category : FinancialCategory
  pub amount : ℕ
  pub date : ℕ
  pub description : ℕ
  pub method : Option ℕ
  pub user_id : Option ℕ

abbrev pub lancado : (church_id novo_id : ℕ) → CreateEntry → (actor : Option ℕ) → FinancialEntry
lancado church_id novo_id dto actor = record {
  id = novo_id;
  church_id = church_id;
  type = dto.type;
  category = dto.category;
  amount = dto.amount;
  date = dto.date;
  description = dto.description;
  method = dto.method;
  user_id = dto.user_id;
  source = manual;
  created_by_id = actor;
  updated_by_id = actor;
  reconciled_with_id = none;
  reconciled_at = none;
  reconciled_by_id = none;
  not_in_bank_at = none;
  not_in_bank_by_id = none;
  account = administrative;
  allocations = [];
}

unfoldable pub criar :
    List Membro
    → (church_id novo_id : ℕ) → CreateEntry
    → (actor : Option ℕ) → List FinancialEntry
    → Result LedgerError (List FinancialEntry)
criar membros church_id novo_id dto actor rows = do
  require (categoria_cabe_no_tipo dto.category dto.type) categoria_de_outro_tipo
  require (e_membro membros church_id dto.user_id) nao_e_membro
  ok (lancado church_id novo_id dto actor ∷ rows)

-- A field that the body leaves out is `none`; `method` and `user_id` may also be set to null.
pub record UpdateEntry : Type 0 where
  pub type : Option FinancialEntryType
  pub category : Option FinancialCategory
  pub amount : Option ℕ
  pub date : Option ℕ
  pub description : Option ℕ
  pub method : Option (Option ℕ)
  pub user_id : Option (Option ℕ)

abbrev pub novo_ou {ℓ} : {A : Type ℓ} → Option A → A → A
novo_ou none atual = atual
novo_ou (some novo) atual = novo

abbrev same_option : Option ℕ → Option ℕ → Bool
same_option none none = true
same_option (some a) (some b) = a == b
same_option _ _ = false

-- Whether a locked field of an imported entry would change.
abbrev pub mexeu : UpdateEntry → FinancialEntry → Bool
mexeu dto atual =
    not (same_type (novo_ou dto.type atual.type) atual.type)
    || not (novo_ou dto.amount atual.amount == atual.amount)
    || not (novo_ou dto.date atual.date == atual.date)
    || not (same_option (novo_ou dto.method atual.method) atual.method)

-- `if (dto.userId)`: an explicit null is not checked.
abbrev pub pessoa_do_dto : Option (Option ℕ) → Option ℕ
pessoa_do_dto none = none
pessoa_do_dto (some user_id) = user_id

abbrev pub editado : UpdateEntry → (actor : Option ℕ) → FinancialEntry → FinancialEntry
editado dto actor e = record e {
  category = novo_ou dto.category e.category;
  description = novo_ou dto.description e.description;
  user_id = novo_ou dto.user_id e.user_id;
  updated_by_id = actor;
}

abbrev pub com_valores : UpdateEntry → FinancialEntry → FinancialEntry
com_valores dto e = record e {
  type = novo_ou dto.type e.type;
  amount = novo_ou dto.amount e.amount;
  date = novo_ou dto.date e.date;
  method = novo_ou dto.method e.method;
}

unfoldable pub atualizar :
    List Membro
    → (church_id id : ℕ) → UpdateEntry
    → (actor : Option ℕ) → List FinancialEntry
    → Result LedgerError (List FinancialEntry)
unfolding find_entry update_by_id
atualizar membros church_id id dto actor rows = do
  atual ← or_throw (find_entry rows church_id id) lancamento_nao_encontrado
  require (not (is_pluggy atual.source && mexeu dto atual)) importado_travado
  require
      (categoria_cabe_no_tipo (novo_ou dto.category atual.category) (novo_ou dto.type atual.type))
      categoria_de_outro_tipo
  require (e_membro membros church_id (pessoa_do_dto dto.user_id)) nao_e_membro
  ok (
      update_by_id id
        (λ e. editado dto actor (if is_pluggy atual.source then e else com_valores dto e)) rows)

-- `reconciledWith` is set to null when the entry it points to goes; the bank's never go.
unfoldable pub remover :
    (church_id id : ℕ) → List FinancialEntry → Result LedgerError (List FinancialEntry)
unfolding find_entry
remover church_id id rows = do
  atual ← or_throw (find_entry rows church_id id) lancamento_nao_encontrado
  require (not (is_pluggy atual.source)) importado_nao_se_apaga
  ok (filter (λ e. not (e.id == id)) rows)

-- What the totals of `listar` add up of an entry, `_sum` and `distribuidos`: its amount, and what of
-- it was allocated to events and congregations.
pub data Coluna : Type 0 where
  bruto distribuido : Coluna

abbrev pub soma_dos : List ℕ → ℕ
soma_dos [] = 0
soma_dos (n ∷ ns) = n + soma_dos ns

abbrev pub valor : Coluna → FinancialEntry → ℕ
valor bruto e = e.amount
valor distribuido e = soma_dos e.allocations

-- `doPeriodo` with `CONTA_NOS_TOTAIS`, and what a total asks of the type and the category.
-- `do_periodo` is what the query asks of the date.
abbrev pub conta :
    (do_periodo : ℕ → Bool)
    → (church_id : ℕ) → (quais : FinancialEntryType → FinancialCategory → Bool) → FinancialEntry
    → Bool
conta do_periodo church_id quais e =
    e.church_id == church_id
    && is_administrative e.account
    && do_periodo e.date
    && not (tem e.reconciled_with_id)
    && quais e.type e.category

abbrev pub peso : (FinancialEntry → Bool) → Coluna → FinancialEntry → ℕ
peso p coluna e = if p e then valor coluna e else 0

unfoldable pub soma : (FinancialEntry → ℕ) → List FinancialEntry → ℕ
soma p [] = 0
soma p (e ∷ rows) = p e + soma p rows

abbrev pub do_tipo : FinancialEntryType → FinancialEntryType → FinancialCategory → Bool
do_tipo tipo t categoria = same_type t tipo

abbrev pub de_dizimo : FinancialEntryType → FinancialCategory → Bool
de_dizimo t tithe = true
de_dizimo t _ = false

-- A total, of which the screen shows the difference: what was allocated elsewhere is taken off.
pub record Total : Type 0 where
  pub somado : ℕ
  pub retirado : ℕ

unfoldable pub total :
    (do_periodo : ℕ → Bool)
    → (church_id : ℕ) → (quais : FinancialEntryType → FinancialCategory → Bool)
    → List FinancialEntry
    → Total
unfolding soma
total do_periodo church_id quais rows = record {
  somado = soma (peso (conta do_periodo church_id quais) bruto) rows;
  retirado = soma (peso (conta do_periodo church_id quais) distribuido) rows;
}

-- `resumo`, of which the balance is the difference of the first two.
pub record Resumo : Type 0 where
  pub entradas : Total
  pub saidas : Total
  pub dizimos : Total

unfoldable pub resumo : (do_periodo : ℕ → Bool) → (church_id : ℕ) → List FinancialEntry → Resumo
unfolding total
resumo do_periodo church_id rows = record {
  entradas = total do_periodo church_id (do_tipo income) rows;
  saidas = total do_periodo church_id (do_tipo expense) rows;
  dizimos = total do_periodo church_id de_dizimo rows;
}
