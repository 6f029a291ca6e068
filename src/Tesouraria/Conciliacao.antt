-- ===== src/Tesouraria/Conciliacao.antt =====
-- src/tesouraria/conciliacao.service.ts: `conciliar`, `conciliarSugeridos`, `desfazer` and
-- `marcarNaoConsta`. The table is the list of its entries; the pairs of `conciliarSugeridos` are
-- those that `listar` suggests for the entries of the period.
use sistema_iccv_backend.Common.{
  ℕ, Bool, true, false, not, ◌&&◌, ◌||◌, Option, none, some, List, [], ◌∷◌, map, leb, ◌==◌,
  if◌then◌else◌, filter, any, find?, Result, ok, ◌>>◌, ◌>>=◌, require, or_throw,
}
use sistema_iccv_backend.Tesouraria.{same_type, is_pluggy, FinancialEntry}
use sistema_iccv_backend.Tesouraria.Sugestao.{ParaConciliar, Par, tolerancia_dias, sugerir_pares}

pub data LedgerError : Type 0 where
  -- 404
  lancamento_nao_encontrado conciliacao_nao_encontrada : LedgerError
  -- 400
  banco_nao_importado outro_nao_manual tipos_diferentes so_o_manual periodo_invalido : LedgerError
  categoria_de_outro_tipo nao_e_membro importado_travado importado_nao_se_apaga : LedgerError
  -- 409
  ja_conciliado ja_conciliada_por_outro : LedgerError

abbrev pub tem : Option ℕ → Bool
tem none = false
tem (some id) = true

-- `manual.userId ?? banco.userId`.
abbrev pub ou : Option ℕ → Option ℕ → Option ℕ
ou none b = b
ou (some a) b = some a

unfoldable pub find_entry : List FinancialEntry → (church_id id : ℕ) → Option FinancialEntry
find_entry rows church_id id = find? (λ e. e.id == id && e.church_id == church_id) rows

-- `reconciledWithId` is this id.
abbrev pub aponta : ℕ → FinancialEntry → Bool
aponta id e = elim e.reconciled_with_id [ none ↦ false | some b ↦ b == id ]

-- `reconciledBy`, of the bank's entry.
abbrev pub apontado : List FinancialEntry → ℕ → Bool
apontado rows id = any (aponta id) rows

-- `update({ where: { id } })`.
unfoldable pub update_by_id :
    ℕ → (FinancialEntry → FinancialEntry) → List FinancialEntry → List FinancialEntry
update_by_id id f rows = map (λ e. if e.id == id then f e else e) rows

-- The two reads and their checks.
unfoldable pub conferir_par :
    (church_id banco_id manual_id : ℕ)
    → List FinancialEntry
    → Result LedgerError (FinancialEntry × FinancialEntry)
unfolding find_entry
conferir_par church_id banco_id manual_id rows = do
  banco ← or_throw (find_entry rows church_id banco_id) lancamento_nao_encontrado
  m ← or_throw (find_entry rows church_id manual_id) lancamento_nao_encontrado
  require (is_pluggy banco.source) banco_nao_importado
  require (not (is_pluggy m.source)) outro_nao_manual
  require (same_type banco.type m.type) tipos_diferentes
  require (not (apontado rows banco.id || tem m.reconciled_with_id)) ja_conciliado
  ok (banco, m)

abbrev pub com_par :
    (banco_id : ℕ) → (actor : Option ℕ) → (agora : ℕ) → FinancialEntry → FinancialEntry
com_par banco_id actor agora e = record e {
  reconciled_with_id = some banco_id;
  reconciled_at = some agora;
  reconciled_by_id = actor;
  not_in_bank_at = none;
  not_in_bank_by_id = none;
}

abbrev pub com_classificacao :
    (banco m : FinancialEntry) → (actor : Option ℕ) → FinancialEntry → FinancialEntry
com_classificacao banco m actor e = record e {
  category = m.category;
  user_id = ou m.user_id banco.user_id;
  updated_by_id = actor;
}

-- The two writes, on a pair read earlier. `reconciledWithId` is unique: the table refuses a second
-- entry that points to the same one.
unfoldable pub gravar_par :
    (banco m : FinancialEntry)
    → (actor : Option ℕ) → (agora : ℕ) → List FinancialEntry
    → Result LedgerError (List FinancialEntry)
unfolding update_by_id
gravar_par banco m actor agora rows = do
  require (not (any (λ e. aponta banco.id e && not (e.id == m.id)) rows)) ja_conciliada_por_outro
  let pareado = update_by_id m.id (com_par banco.id actor agora) rows
  ok (update_by_id banco.id (com_classificacao banco m actor) pareado)

-- With no other request between the reads and the writes.
unfoldable pub conciliar :
    (church_id banco_id manual_id : ℕ)
    → (actor : Option ℕ) → (agora : ℕ) → List FinancialEntry
    → Result LedgerError (List FinancialEntry)
unfolding conferir_par gravar_par
conciliar church_id banco_id manual_id actor agora rows = do
  (banco, m) ← conferir_par church_id banco_id manual_id rows
  gravar_par banco m actor agora rows

-- The loop of `conciliarSugeridos`.
unfoldable pub conciliar_pares :
    (church_id : ℕ)
    → List Par
    → (actor : Option ℕ) → (agora : ℕ) → List FinancialEntry
    → Result LedgerError (List FinancialEntry)
unfolding conciliar
conciliar_pares church_id [] actor agora rows = ok rows
conciliar_pares church_id (p ∷ pares) actor agora rows = do
  next ← conciliar church_id p.banco_id p.manual_id actor agora rows
  conciliar_pares church_id pares actor agora next

abbrev pub para_sugestao : FinancialEntry → ParaConciliar
para_sugestao e = record {
  id = e.id;
  type = e.type;
  amount = e.amount;
  date = e.date;
  user_id = e.user_id;
}

-- `listar`, the entries it suggests pairs for. `do_periodo` is what its query asks of an entry
-- beside the church: the account, no allocation, and the dates.
abbrev pub banco_pendente :
    (FinancialEntry → Bool)
    → (church_id : ℕ) → (todas : List FinancialEntry) → FinancialEntry
    → Bool
banco_pendente do_periodo church_id todas e =
    e.church_id == church_id
    && do_periodo e
    && is_pluggy e.source
    && not (tem e.reconciled_with_id || apontado todas e.id)

abbrev pub manual_pendente :
    (FinancialEntry → Bool)
    → (church_id : ℕ) → (todas : List FinancialEntry) → FinancialEntry
    → Bool
manual_pendente do_periodo church_id todas e =
    e.church_id == church_id
    && do_periodo e
    && not (is_pluggy e.source)
    && not (tem e.reconciled_with_id || apontado todas e.id)
    && not (tem e.not_in_bank_at)

unfoldable pub sugeridos :
    (FinancialEntry → Bool) → (church_id : ℕ) → List FinancialEntry → List Par
unfolding sugerir_pares
sugeridos do_periodo church_id rows =
    sugerir_pares tolerancia_dias
      (map para_sugestao (filter (banco_pendente do_periodo church_id rows) rows))
      (map para_sugestao (filter (manual_pendente do_periodo church_id rows) rows))

-- The date of a suggested line is that of its bank entry; the latest come first, by a stable sort.
abbrev pub data_do_banco : List FinancialEntry → Par → ℕ
data_do_banco rows p = elim (find? (λ e. e.id == p.banco_id) rows) [ none ↦ 0 | some e ↦ e.date ]

unfoldable pub inserir_linha : List FinancialEntry → Par → List Par → List Par
inserir_linha rows p [] = p ∷ []
inserir_linha rows p (q ∷ qs) =
    if leb (data_do_banco rows q) (data_do_banco rows p)
    then p ∷ q ∷ qs
    else q ∷ inserir_linha rows p qs

unfoldable pub ordenar_linhas : List FinancialEntry → List Par → List Par
unfolding inserir_linha
ordenar_linhas rows [] = []
ordenar_linhas rows (p ∷ pares) = inserir_linha rows p (ordenar_linhas rows pares)

unfoldable pub conciliar_sugeridos :
    (FinancialEntry → Bool)
    → (church_id : ℕ) → (actor : Option ℕ) → (agora : ℕ) → List FinancialEntry
    → Result LedgerError (List FinancialEntry)
unfolding sugeridos ordenar_linhas conciliar_pares
conciliar_sugeridos do_periodo church_id actor agora rows =
    conciliar_pares church_id (ordenar_linhas rows (sugeridos do_periodo church_id rows)) actor
      agora rows

abbrev pub sem_par : FinancialEntry → FinancialEntry
sem_par e = record e { reconciled_with_id = none; reconciled_at = none; reconciled_by_id = none }

unfoldable pub desfazer :
    (church_id manual_id : ℕ) → List FinancialEntry → Result LedgerError (List FinancialEntry)
unfolding update_by_id
desfazer church_id manual_id rows = do
  _ ←
      or_throw
        (find? (λ e. e.id == manual_id && e.church_id == church_id && tem e.reconciled_with_id)
          rows)
        conciliacao_nao_encontrada
  ok (update_by_id manual_id sem_par rows)

abbrev pub com_marca :
    (nao_consta : Bool) → (actor : Option ℕ) → (agora : ℕ) → FinancialEntry → FinancialEntry
com_marca true actor agora e = record e { not_in_bank_at = some agora; not_in_bank_by_id = actor }
com_marca false actor agora e = record e { not_in_bank_at = none; not_in_bank_by_id = none }

unfoldable pub marcar_nao_consta :
    (church_id manual_id : ℕ)
    → (nao_consta : Bool) → (actor : Option ℕ) → (agora : ℕ) → List FinancialEntry
    → Result LedgerError (List FinancialEntry)
unfolding find_entry update_by_id
marcar_nao_consta church_id manual_id nao_consta actor agora rows = do
  m ← or_throw (find_entry rows church_id manual_id) lancamento_nao_encontrado
  require (not (is_pluggy m.source)) so_o_manual
  require (not (tem m.reconciled_with_id)) ja_conciliado
  ok (update_by_id manual_id (com_marca nao_consta actor agora) rows)
