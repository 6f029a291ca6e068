-- ===== src/Tesouraria/Tests.antt =====
-- A small ledger of src/tesouraria: two tithes from the bank, two entered by hand.
use sistema_iccv_backend.Common.{
  ℕ, ◌≡◌, refl, true, none, some, Option, List, [], ◌∷◌, Memᴰ, arith, All, ok, err,
}
use sistema_iccv_backend.Tesouraria.{
  income, administrative, manual, pluggy, FinancialEntrySource, tithe, other_income,
  FinancialCategory, FinancialEntry,
}
use sistema_iccv_backend.Tesouraria.Sugestao.{
  ParaConciliar, casam, candidato, candidatos_de, candidatos, inserir, ordenar, escolher,
  escolhidos, sugerir_pares,
}
use sistema_iccv_backend.Tesouraria.Conciliacao.{
  find_entry, update_by_id, conferir_par, gravar_par, conciliar, sugeridos, ordenar_linhas,
  conciliar_sugeridos, ja_conciliado, para_sugestao, com_par, com_classificacao,
}
use sistema_iccv_backend.Tesouraria.Lancamentos.{total, resumo, soma}
use sistema_iccv_backend.Tesouraria.Laws.Sugestao.{ComesFrom, DisjointAll, Beaten, escolhidos_lem}
use sistema_iccv_backend.Tesouraria.Laws.Pares.{Paired}
use sistema_iccv_backend.Tesouraria.Laws.Sugeridos.{DistinctIds, conciliar_sugeridos_ok}
use sistema_iccv_backend.Tesouraria.Laws.Alteracoes.{Stays}
use sistema_iccv_backend.Tesouraria.Laws.Importados.{concilia, here, after, Steps-Stays}

abbrev lancamento :
    (id date : ℕ) → FinancialEntrySource → FinancialCategory → Option ℕ → FinancialEntry
lancamento id date source category user_id = record {
  id = id;
  church_id = 1;
  type = income;
  category = category;
  amount = 10000;
  date = date;
  description = 0;
  method = none;
  user_id = user_id;
  source = source;
  created_by_id = none;
  updated_by_id = none;
  reconciled_with_id = none;
  reconciled_at = none;
  reconciled_by_id = none;
  not_in_bank_at = none;
  not_in_bank_by_id = none;
  account = administrative;
  allocations = [];
}

abbrev do_banco : FinancialEntry
do_banco = lancamento 1 100 pluggy other_income none

abbrev outro_do_banco : FinancialEntry
outro_do_banco = lancamento 2 102 pluggy other_income none

abbrev dizimo : FinancialEntry
dizimo = lancamento 3 101 manual tithe (some 50)

abbrev outro_dizimo : FinancialEntry
outro_dizimo = lancamento 4 102 manual tithe (some 51)

abbrev livro : List FinancialEntry
livro = do_banco ∷ outro_do_banco ∷ dizimo ∷ outro_dizimo ∷ []

distinct : DistinctIds livro
distinct = omega arith

abbrev lado_do_banco : List ParaConciliar
lado_do_banco = para_sugestao do_banco ∷ para_sugestao outro_do_banco ∷ []

abbrev lado_manual : List ParaConciliar
lado_manual = para_sugestao dizimo ∷ para_sugestao outro_dizimo ∷ []

escolhidos_lem_example :
    All (ComesFrom 3 lado_do_banco lado_manual) (escolhidos 3 lado_do_banco lado_manual)
    × DisjointAll (escolhidos 3 lado_do_banco lado_manual)
    × ((b m : ParaConciliar)
        → Memᴰ b lado_do_banco
        → Memᴰ m lado_manual
        → casam 3 b m ≡ true
        → Beaten (escolhidos 3 lado_do_banco lado_manual) (candidato b m))
escolhidos_lem_example = escolhidos_lem 3 lado_do_banco lado_manual

-- The same day wins over the day after.
do_mesmo_dia :
    sugerir_pares 3 lado_do_banco lado_manual
    ≡ record { banco_id = 2; manual_id = 4 } ∷ record { banco_id = 1; manual_id = 3 } ∷ []
unfolding sugerir_pares escolhidos candidatos_de candidatos inserir ordenar escolher
do_mesmo_dia = refl

conciliar_sugeridos_ok_example :
    (final : List FinancialEntry) × (conciliar_sugeridos (λ e. true) 1 none 7 livro ≡ ok final)
    × All (Paired 1 none 7 final) (ordenar_linhas livro (sugeridos (λ e. true) 1 livro))
conciliar_sugeridos_ok_example = conciliar_sugeridos_ok (λ e. true) 1 livro none 7 distinct

abbrev pareado : List FinancialEntry
unfolding update_by_id
pareado =
    update_by_id 1 (com_classificacao do_banco dizimo none)
      (update_by_id 3 (com_par 1 none 7) livro)

passou : conciliar 1 1 3 none 7 livro ≡ ok pareado
unfolding conciliar conferir_par gravar_par find_entry update_by_id
passou = refl

conta_uma_vez : resumo (λ d. true) 1 pareado ≡ record {
  entradas = record { somado = 30000; retirado = 0 };
  saidas = record { somado = 0; retirado = 0 };
  dizimos = record { somado = 20000; retirado = 0 };
}
unfolding resumo total soma update_by_id
conta_uma_vez = refl

um_par_so : conciliar 1 1 4 none 8 pareado ≡ err ja_conciliado
unfolding conciliar conferir_par gravar_par find_entry update_by_id
um_par_so = refl

Steps-Stays_example : Stays do_banco pareado
Steps-Stays_example =
    Steps-Stays {e = do_banco} (after here (concilia 1 1 3 none 7 passou)) distinct (Memᴰ.head refl)
      refl
