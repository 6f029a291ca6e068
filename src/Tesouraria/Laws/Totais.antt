-- ===== src/Tesouraria/Laws/Totais.antt =====
-- The totals of src/tesouraria/lancamentos.service.ts under src/tesouraria/conciliacao.service.ts.
use sistema_iccv_backend.Common.{
  ℕ, Bool, true, false, ◌&&◌, Option, none, List, ◌==◌, if◌then◌else◌,
}
use sistema_iccv_backend.Tesouraria.{
  FinancialEntryType, FinancialCategory, TreasuryAccount, administrative, FinancialEntry,
}
use sistema_iccv_backend.Tesouraria.Conciliacao.{com_classificacao}
use sistema_iccv_backend.Tesouraria.Lancamentos.{
  Coluna, bruto, distribuido, Total, total, valor, conta, peso,
}

-- One of the two sums of a total.
abbrev pub de : Coluna → Total → ℕ
de bruto t = t.somado
de distribuido t = t.retirado

-- An entry of the administrative account that points to none.
abbrev pub vale : TreasuryAccount → Option ℕ → Bool
vale administrative none = true
vale _ _ = false

-- The bank's entry with the classification of the manual one.
abbrev pub classificado : (banco m : FinancialEntry) → (actor : Option ℕ) → FinancialEntry
classificado banco m actor = com_classificacao banco m actor banco

module _ (do_periodo : ℕ → Bool) (c : ℕ) (quais : FinancialEntryType → FinancialCategory → Bool)
    (coluna : Coluna) where
  abbrev p : FinancialEntry → ℕ
  p = peso (conta do_periodo c quais) coluna

  -- What an entry counts: of the administrative account, not paired, of the church and the period.
  abbrev pub pesa : FinancialEntry → ℕ
  pesa e =
      if vale e.account e.reconciled_with_id
        && (e.church_id == c && (do_periodo e.date && quais e.type e.category))
      then valor coluna e
      else 0

  abbrev pub t : List FinancialEntry → ℕ
  t rows = de coluna (total do_periodo c quais rows)
