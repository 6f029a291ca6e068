-- ===== src/Tesouraria.antt =====
-- The ledger of src/tesouraria: src/tesouraria/conciliacao.ts (Sugestao), the operations on pairs of
-- src/tesouraria/conciliacao.service.ts (Conciliacao), and those on single entries of
-- src/tesouraria/lancamentos.service.ts with the categories of src/tesouraria/categorias.ts
-- (Lancamentos). Amounts are cents, dates are days.
use sistema_iccv_backend.Common.{ℕ, Bool, true, false, Option, List}
pub mod Sugestao
pub mod Conciliacao
pub mod Lancamentos
pub mod Laws
mod Tests

pub data FinancialEntryType : Type 0 where
  income expense : FinancialEntryType

abbrev pub same_type : FinancialEntryType → FinancialEntryType → Bool
same_type income income = true
same_type expense expense = true
same_type _ _ = false

pub data FinancialEntrySource : Type 0 where
  manual pluggy : FinancialEntrySource

abbrev pub is_pluggy : FinancialEntrySource → Bool
is_pluggy pluggy = true
is_pluggy manual = false

pub data FinancialCategory : Type 0 where
  tithe offering donation event_income other_income : FinancialCategory
  utilities rent maintenance salaries supplies missions event_expense bank_fees other_expense :
      FinancialCategory

pub data TreasuryAccount : Type 0 where
  administrative events congregations : TreasuryAccount

abbrev pub is_administrative : TreasuryAccount → Bool
is_administrative administrative = true
is_administrative _ = false

-- With the amounts of its rows of `TreasuryAllocation`, which the entry's deletion takes along.
pub record FinancialEntry : Type 0 where
  pub id : ℕ
  pub church_id : ℕ
  pub type : FinancialEntryType
  pub category : FinancialCategory
  pub amount : ℕ
  pub date : ℕ
  pub description : ℕ
  pub method : Option ℕ
  pub user_id : Option ℕ
  pub source : FinancialEntrySource
  pub created_by_id : Option ℕ
  pub updated_by_id : Option ℕ
  pub reconciled_with_id : Option ℕ
  pub reconciled_at : Option ℕ
  pub reconciled_by_id : Option ℕ
  pub not_in_bank_at : Option ℕ
  pub not_in_bank_by_id : Option ℕ
  pub account : TreasuryAccount
  pub allocations : List ℕ
