-- ===== src/PdfQueue/Invariant.antt =====
-- At most one PDF at a time, and at most twenty waiting, whatever the interleaving.
use sistema_iccv_backend.Common.{
  ℕ, ◌+◌, ◌≤◌, ◌≡◌, refl, ◌≢◌, List, [], ◌∷◌, Memᴰ, arith, length, length-append, ==_refl, nat_eq,
}
use sistema_iccv_backend.PdfQueue.{
  Fila, Espera, simultaneas, maximo_na_fila, inicio, entrar, desistir, continuar, terminar, remover,
}

pub record Inv (f : Fila) : Type 0 where
  -- every slot is held by a task that runs or is about to
  pub slots : f.vagas_ocupadas ≡ length f.rodando + length f.liberados
  pub limit : f.vagas_ocupadas ≤ simultaneas
  pub bounded : length f.esperando ≤ maximo_na_fila
  -- nobody waits while a slot is free
  pub busy : f.esperando ≢ [] → f.vagas_ocupadas ≡ simultaneas
  pub shown : f.gerando ≡ f.rodando

inicio-Inv : Inv inicio
unfolding inicio
inicio-Inv = ground arith

length-remover : (vez : ℕ) (es : List Espera) → length (remover vez es) ≤ length es
unfolding remover
length-remover vez [] = omega arith
length-remover vez (e ∷ es) = ground (arith, length-remover vez es)

remover-nil : (vez : ℕ) (es : List Espera) → remover vez es ≢ [] → es ≢ []
unfolding remover
remover-nil vez [] h = h
remover-nil vez (e ∷ es) h = λ p. cc

length-zero {ℓ} : {A : Type ℓ} (xs : List A) → length xs ≡ 0 → xs ≡ []
length-zero [] h = refl
length-zero (x ∷ xs) h = absurd (omega arith)

single : (p : ℕ) (xs : List ℕ) → Memᴰ p xs → length xs ≤ 1 → xs ≡ p ∷ []
single p [] m h = elim m [ ]
single p (x ∷ []) (Memᴰ.head same) h = rw same
single p (x ∷ []) (Memᴰ.tail m) h = elim m [ ]
single p (x ∷ y ∷ xs) m h = absurd (omega arith)

entrar-Inv : (f : Fila) (pedido : ℕ) → Inv f → Inv (entrar f pedido).0
unfolding entrar
entrar-Inv f pedido v = ground (
  arith,
  length-zero f.rodando,
  length-append f.esperando (record { vez = f.proxima_vez; pedido = pedido } ∷ []),
)

desistir-Inv : (f : Fila) (vez : ℕ) → Inv f → Inv (desistir f vez)
unfolding desistir
desistir-Inv f vez v = ground (arith, length-remover vez f.esperando, remover-nil vez f.esperando)

continuar-Inv : (f : Fila) → Inv f → Inv (continuar f)
unfolding continuar
continuar-Inv f v = go f.liberados refl
  where
    go : (ls : List Espera) → f.liberados ≡ ls → Inv (continuar f)
    go [] e = ground arith
    go (l ∷ ls) e = ground (arith, length-zero f.rodando)

terminar-Inv : (f : Fila) (pedido : ℕ) → Memᴰ pedido f.rodando → Inv f → Inv (terminar f pedido)
unfolding terminar
terminar-Inv f pedido m v = go f.esperando refl
  where
    alone : f.rodando ≡ pedido ∷ []
    alone = single pedido f.rodando m (omega (arith, v.slots, v.limit))

    go : (es : List Espera) → f.esperando ≡ es → Inv (terminar f pedido)
    go [] e = ground (arith, alone, ==_refl pedido)
    go (l ∷ ls) e =
        ground (
          arith,
          alone,
          ==_refl pedido,
          length-zero f.liberados,
          length-append f.liberados (l ∷ []),
        )

-- What the event loop may do next with the queue: serve a new call, abort one, run the continuation
-- of a released one, or see the task of a running one end.
pub data Step (f : Fila) : Fila → Type 0 where
  entra : (pedido : ℕ) → Step f (entrar f pedido).0
  desiste : (vez : ℕ) → Step f (desistir f vez)
  continua : Step f (continuar f)
  termina : (pedido : ℕ) → Memᴰ pedido f.rodando → Step f (terminar f pedido)

pub data Reach : Fila → Type 0 where
  start : Reach inicio
  next : {f g : Fila} → Reach f → Step f g → Reach g

Step-Inv : {f g : Fila} → Step f g → Inv f → Inv g
Step-Inv {f} (entra pedido) v = entrar-Inv f pedido v
Step-Inv {f} (desiste vez) v = desistir-Inv f vez v
Step-Inv {f} continua v = continuar-Inv f v
Step-Inv {f} (termina pedido m) v = terminar-Inv f pedido m v

-- In every state that the queue reaches, whatever the order of arrivals, give-ups and endings: the
-- slots taken are those of the tasks that run or have been released, at most one; at most twenty
-- requests wait; nobody waits while a slot is free; and the set shown as being generated is that of
-- the running tasks.
pub Reach-Inv : {f : Fila} → Reach f → Inv f
Reach-Inv start = inicio-Inv
Reach-Inv (next r s) = Step-Inv s (Reach-Inv r)
