-- ===== src/Tesouraria/Sugestao.antt =====
-- src/tesouraria/conciliacao.ts: the pairs of bank and manual entries that are suggested.
use sistema_iccv_backend.Common.{
  ℕ, ◌+◌, ◌-◌, ◌*◌, Bool, false, not, ◌&&◌, ◌||◌, Option, some, List, [], ◌∷◌, ◌++◌, map, ltb, leb,
  ◌==◌, if◌then◌else◌, includes, nat_eq,
}
use sistema_iccv_backend.Tesouraria.{FinancialEntryType, same_type}

pub record ParaConciliar : Type 0 where
  pub id : ℕ
  pub type : FinancialEntryType
  pub amount : ℕ
  pub date : ℕ
  pub user_id : Option ℕ

abbrev pub tolerancia_dias : ℕ
tolerancia_dias = 3

abbrev pub dias_entre : ℕ → ℕ → ℕ
dias_entre a b = if leb a b then b - a else a - b

-- `b.userId && b.userId === m.userId`.
abbrev pub mesmo_dizimista : Option ℕ → Option ℕ → Bool
mesmo_dizimista (some a) (some b) = a == b
mesmo_dizimista _ _ = false

-- `nota` is twice the source's score plus one, which orders the candidates as the score does.
pub record Candidato : Type 0 where
  pub banco_id : ℕ
  pub manual_id : ℕ
  pub nota : ℕ

abbrev pub nota_de : ParaConciliar → ParaConciliar → ℕ
nota_de b m = 2 * dias_entre b.date m.date + (if mesmo_dizimista b.user_id m.user_id then 0 else 1)

-- Same type, same cents, and dates near enough.
abbrev pub casam : (tolerancia : ℕ) → ParaConciliar → ParaConciliar → Bool
casam tolerancia b m =
    same_type b.type m.type
    && b.amount == m.amount
    && not (ltb tolerancia (dias_entre b.date m.date))

abbrev pub candidato : ParaConciliar → ParaConciliar → Candidato
candidato b m = record { banco_id = b.id; manual_id = m.id; nota = nota_de b m }

-- The inner loop, and the outer one.
unfoldable pub candidatos_de :
    (tolerancia : ℕ) → ParaConciliar → List ParaConciliar → List Candidato
candidatos_de tolerancia b [] = []
candidatos_de tolerancia b (m ∷ manuais) =
    let resto = candidatos_de tolerancia b manuais in
    if casam tolerancia b m then candidato b m ∷ resto else resto

unfoldable pub candidatos : (tolerancia : ℕ) → (banco manuais : List ParaConciliar) → List Candidato
unfolding candidatos_de
candidatos tolerancia [] manuais = []
candidatos tolerancia (b ∷ banco) manuais =
    candidatos_de tolerancia b manuais ++ candidatos tolerancia banco manuais

-- `candidatos.sort((x, y) => x.nota - y.nota)`: stable, by score.
unfoldable pub inserir : Candidato → List Candidato → List Candidato
inserir c [] = c ∷ []
inserir c (d ∷ ds) = if leb c.nota d.nota then c ∷ d ∷ ds else d ∷ inserir c ds

unfoldable pub ordenar : List Candidato → List Candidato
unfolding inserir
ordenar [] = []
ordenar (c ∷ cs) = inserir c (ordenar cs)

-- The last loop: the candidates taken, of which the pairs are the ids.
unfoldable pub escolher : (usados : List ℕ) → List Candidato → List Candidato
escolher usados [] = []
escolher usados (c ∷ cs) =
    let livre = not (includes c.banco_id usados || includes c.manual_id usados) in
    let resto = escolher (if livre then c.manual_id ∷ c.banco_id ∷ usados else usados) cs in
    if livre then c ∷ resto else resto

unfoldable pub escolhidos : (tolerancia : ℕ) → (banco manuais : List ParaConciliar) → List Candidato
unfolding candidatos ordenar escolher
escolhidos tolerancia banco manuais = escolher [] (ordenar (candidatos tolerancia banco manuais))

pub record Par : Type 0 where
  pub banco_id : ℕ
  pub manual_id : ℕ

abbrev pub par : Candidato → Par
par c = record { banco_id = c.banco_id; manual_id = c.manual_id }

unfoldable pub sugerir_pares : (tolerancia : ℕ) → (banco manuais : List ParaConciliar) → List Par
unfolding escolhidos
sugerir_pares tolerancia banco manuais = map par (escolhidos tolerancia banco manuais)
