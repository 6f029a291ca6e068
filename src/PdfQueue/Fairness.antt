-- ===== src/PdfQueue/Fairness.antt =====
-- Who is served, and when.
use sistema_iccv_backend.Common.{
  ℕ, zero, suc, ◌≡◌, refl, inl, inr, some, List, [], ◌∷◌, arith, ==_refl, ==_iff, Option-cases,
}
use sistema_iccv_backend.PdfQueue.{
  Fila, Espera, continuar, terminar, indice_do_pedido, situacao_na_fila, na_fila,
}

-- The running task ends, and what it released goes on.
avancar_de : Fila → List ℕ → Fila
avancar_de f [] = f
avancar_de f (p ∷ ps) = continuar (terminar f p)

unfoldable pub avancar : Fila → Fila
unfolding avancar_de
avancar f = avancar_de f f.rodando

unfoldable pub avancar_vezes : ℕ → Fila → Fila
avancar_vezes zero f = f
avancar_vezes (suc n) f = avancar_vezes n (avancar f)

-- One task runs, and nothing is between two tasks.
abbrev pub IsServing : Fila → Type 0
IsServing f = ((p : ℕ) × (f.rodando ≡ p ∷ [])) × (f.liberados ≡ [])

avancar_lem :
    (f : Fila) (e : Espera) (es : List Espera)
    → IsServing f
    → f.esperando ≡ e ∷ es
    → ((avancar f).rodando ≡ e.pedido ∷ [])
      × ((avancar f).liberados ≡ [])
      × ((avancar f).esperando ≡ es)
unfolding avancar terminar continuar
avancar_lem f e es ((p, alone), free) waiting = ground (arith, ==_refl p)

served :
    (k q : ℕ) (f : Fila) (es : List Espera)
    → IsServing f
    → f.esperando ≡ es
    → indice_do_pedido q es ≡ some k
    → (avancar_vezes (suc k) f).rodando ≡ q ∷ []
unfolding avancar_vezes indice_do_pedido
served k q f [] s w h = cc
served zero q f (e ∷ es) s w h = ground (arith, avancar_lem f e es s w, ==_iff e.pedido q)
served (suc k) q f (e ∷ es) s w h =
    let (runs, free, rest) = avancar_lem f e es s w in
    served k q (avancar f) es ((e.pedido, runs), free) rest (ground arith)

-- The position that the front shows is a promise: while one task runs and no other has been
-- released, a request shown at position `n` is the one that runs after `n` tasks have ended, if
-- nothing but those endings happens meanwhile.
pub situacao_na_fila-avancar_vezes :
    (f : Fila) (q n : ℕ)
    → IsServing f
    → situacao_na_fila f q ≡ na_fila n
    → (avancar_vezes n f).rodando ≡ q ∷ []
unfolding situacao_na_fila
situacao_na_fila-avancar_vezes f q n s h = elim (Option-cases (indice_do_pedido q f.esperando)) [
  | inl none' ↦ ground arith
  | inr (k, at) ↦
      let same : n ≡ suc k = ground arith in rw same (served k q f f.esperando s refl at)
]
