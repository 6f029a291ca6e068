-- ===== src/PdfQueue/Tests.antt =====
-- Runs of the queue of src/pdf/fila.ts.
use sistema_iccv_backend.Common.{◌≡◌, refl, [], ◌∷◌}
use sistema_iccv_backend.PdfQueue.{Fila, inicio, entrar, desistir, situacao_na_fila, comecar}
use sistema_iccv_backend.PdfQueue.Invariant.{Inv, Step, Reach, Reach-Inv}
use sistema_iccv_backend.PdfQueue.Fairness.{
  avancar_vezes, IsServing, situacao_na_fila-avancar_vezes,
}

-- Three requests: one runs, two wait.
abbrev ocupada : Fila
ocupada = (entrar (entrar (entrar inicio 7).0 8).0 9).0

abbrev ocupada-Reach : Reach ocupada
ocupada-Reach =
    Reach.next (Reach.next (Reach.next Reach.start (Step.entra 7)) (Step.entra 8)) (Step.entra 9)

Reach-Inv_example : Inv (desistir ocupada 0)
Reach-Inv_example = Reach-Inv (Reach.next ocupada-Reach (Step.desiste 0))

ocupada-IsServing : IsServing ocupada
unfolding entrar inicio comecar
ocupada-IsServing = ((7, refl), refl)

situacao_na_fila-avancar_vezes_example : (avancar_vezes 2 ocupada).rodando ≡ 9 ∷ []
unfolding entrar inicio situacao_na_fila
situacao_na_fila-avancar_vezes_example =
    situacao_na_fila-avancar_vezes ocupada 9 2 ocupada-IsServing refl
