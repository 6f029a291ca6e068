-- ===== src/PdfQueue.antt =====
-- src/pdf/fila.ts: the queue of the PDF generations. The module's variables are the state, and each
-- stretch of code between two suspension points (`await`) is one operation.
pub mod Invariant
pub mod Fairness
mod Tests
use sistema_iccv_backend.Common.{
  ℕ, zero, suc, ◌+◌, ◌-◌, Bool, true, false, not, Option, none, some, List, [], ◌∷◌, ◌++◌, ltb, leb,
  ◌==◌, if◌then◌else◌, filter, length, includes, nat_eq,
}

abbrev pub simultaneas : ℕ
simultaneas = 1

abbrev pub maximo_na_fila : ℕ
maximo_na_fila = 20

-- An entry of `esperando`. `vez` is the object's identity, and `pedido` the request's code.
pub record Espera : Type 0 where
  pub vez : ℕ
  pub pedido : ℕ

-- `liberados` and `rodando` are the requests whose code runs: those whose promise is resolved and
-- whose continuation (`gerando.add`) has still to run, and those whose task runs. `proxima_vez` is
-- the next identity.
pub record Fila : Type 0 where
  pub esperando : List Espera
  pub gerando : List ℕ
  pub vagas_ocupadas : ℕ
  pub liberados : List Espera
  pub rodando : List ℕ
  pub proxima_vez : ℕ

pub inicio : Fila
inicio = record {
  esperando = [];
  gerando = [];
  vagas_ocupadas = 0;
  liberados = [];
  rodando = [];
  proxima_vez = 0;
}

-- `Set.add` and `Set.delete`.
abbrev pub set_add : ℕ → List ℕ → List ℕ
set_add p s = if includes p s then s else p ∷ s

abbrev pub set_delete : ℕ → List ℕ → List ℕ
set_delete p s = filter (λ q. not (q == p)) s

-- What the caller of `naFilaDePdf` meets first: the task starts, the request waits (under an
-- identity), or the queue is full (429).
pub data Entrada : Type 0 where
  comecou lotada : Entrada
  espera : ℕ → Entrada

-- `gerando.add(pedido)` and the start of the task.
unfoldable pub comecar : Fila → ℕ → Fila
comecar f pedido = record f { gerando = set_add pedido f.gerando; rodando = pedido ∷ f.rodando }

-- `naFilaDePdf` up to its first suspension.
unfoldable pub entrar : Fila → ℕ → Fila × Entrada
unfolding comecar
entrar f pedido =
    if ltb f.vagas_ocupadas simultaneas
    then (comecar (record f { vagas_ocupadas = f.vagas_ocupadas + 1 }) pedido, comecou)
    else if leb maximo_na_fila (length f.esperando)
    then (f, lotada)
    else (
      record f {
        esperando = f.esperando ++ record { vez = f.proxima_vez; pedido = pedido } ∷ [];
        proxima_vez = f.proxima_vez + 1;
      },
      espera f.proxima_vez,
    )

-- `esperando.splice(indice, 1)` at the first entry with this identity; none is no change.
unfoldable pub remover : ℕ → List Espera → List Espera
remover vez [] = []
remover vez (e ∷ es) = let rest = e ∷ remover vez es in if e.vez == vez then es else rest

-- The listener of `abort`.
unfoldable pub desistir : Fila → ℕ → Fila
unfolding remover
desistir f vez = record f { esperando = remover vez f.esperando }

-- What runs when `liberar` has resolved the promise of an entry.
unfoldable pub continuar : Fila → Fila
unfolding comecar
continuar f = elim f.liberados [ [] ↦ f | e ∷ es ↦ comecar (record f { liberados = es }) e.pedido ]

-- `tarefa` ended, well or not: it no longer runs.
unfoldable pub parar : ℕ → List ℕ → List ℕ
parar pedido [] = []
parar pedido (p ∷ ps) = let rest = p ∷ parar pedido ps in if p == pedido then ps else rest

-- The `finally` block: the slot goes to the first in the queue, and is given back if there is none.
passar_vaga : Fila → List Espera → Fila
passar_vaga f [] = record f { vagas_ocupadas = f.vagas_ocupadas - 1 }
passar_vaga f (proximo ∷ resto) = record f {
  esperando = resto;
  liberados = f.liberados ++ proximo ∷ [];
}

unfoldable pub terminar : Fila → ℕ → Fila
unfolding passar_vaga parar
terminar f pedido =
    passar_vaga
      (record f { gerando = set_delete pedido f.gerando; rodando = parar pedido f.rodando })
      f.esperando

pub data SituacaoNaFila : Type 0 where
  na_fila : ℕ → SituacaoNaFila
  gerando desconhecido : SituacaoNaFila

abbrev suc_index : Option ℕ → Option ℕ
suc_index none = none
suc_index (some i) = some (suc i)

-- `esperando.findIndex(...)`
unfoldable pub indice_do_pedido : ℕ → List Espera → Option ℕ
indice_do_pedido pedido [] = none
indice_do_pedido pedido (e ∷ es) =
    let later = suc_index (indice_do_pedido pedido es) in
    if e.pedido == pedido then some 0 else later

unfoldable pub situacao_na_fila : Fila → ℕ → SituacaoNaFila
unfolding indice_do_pedido
situacao_na_fila f pedido = elim (indice_do_pedido pedido f.esperando) [
  | some indice ↦ na_fila (indice + 1)
  | none ↦ if includes pedido f.gerando then gerando else desconhecido
]
