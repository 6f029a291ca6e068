-- ===== src/Pagamentos/Laws/Painel.antt =====
-- What the panel does to one payment (`updatePaymentStatus`, `refundPayment` and
-- `updateProductsDelivery` of src/payment/payment.service.ts).
use sistema_iccv_backend.Common.{
  ℕ, ◌≡◌, ◌∙◌, refl, sym, ap, subst, Bool, true, false, not, ◌&&◌, Option, none, some, List, [],
  ◌∷◌, map, arith, ◌==◌, if◌then◌else◌, filter, any, Memᴰ, includes, nat_eq, mem_map, mem_filter,
  includes_of_mem, Bool-cases, inl, inr, ==_refl, ok, or_throw, >>=-eq-ok, require->>,
  or_throw-eq-ok, ok-subst, mem_of_find?, ==_iff,
}
use sistema_iccv_backend.Pricing.{PaymentStatus, paid, refunded}
use sistema_iccv_backend.Store.Reativacao.{Compra, Restantes, reativar_compras}
use sistema_iccv_backend.Pagamentos.{
  Payment, PaymentCheckout, Caixa, find_payment, is_active, inactive, UpdatePaymentStatusDto,
  permitido, status_libera, compras, com_reativacao, or_else, editado, gravar, a_invalidar,
  invalidar, update_payment_status, nao_encontrado,
}

-- The checkouts that a payment could still be paid at.
abbrev pub aberto : ℕ → PaymentCheckout → Bool
aberto payment_id c = c.payment_id == payment_id && is_active c.status

abbrev fechar : List ℕ → PaymentCheckout → PaymentCheckout
fechar ids c =
    if includes c.checkout_id ids && is_active c.status then record c { status = inactive } else c

any-fechar :
    (payment_id : ℕ) (ids : List ℕ) (xs : List PaymentCheckout)
    → ((c : PaymentCheckout)
        → Memᴰ c xs
        → aberto payment_id c ≡ true
        → includes c.checkout_id ids ≡ true)
    → any (aberto payment_id) (map (fechar ids) xs) ≡ false
any-fechar payment_id ids [] h = refl
any-fechar payment_id ids (c ∷ xs) h =
    let rest = any-fechar payment_id ids xs (λ d m. h d (Memᴰ.tail m)) in
    elim (Bool-cases (aberto payment_id c)) [
      | inl e ↦
          let hit = h c (Memᴰ.head refl) e in
          let on : is_active c.status ≡ true = ground (arith, e) in
          rw hit (rw on (ground (arith, rest)))
      | inr e ↦ elim (Bool-cases (includes c.checkout_id ids && is_active c.status)) [
        | inl hit ↦ rw hit (ground (arith, rest))
        | inr miss ↦ rw miss (rw e rest)
      ]
    ]

pub any-invalidar :
    (payment_id : ℕ) (xs : List PaymentCheckout)
    → any (aberto payment_id) (invalidar payment_id xs) ≡ false
unfolding invalidar
any-invalidar payment_id xs = any-fechar payment_id (a_invalidar payment_id xs) xs λ c m open_.
    includes_of_mem c.checkout_id (a_invalidar payment_id xs)
      (mem_map (λ c. c.checkout_id) _ (mem_filter (aberto payment_id) xs m open_))

-- Of the row written back: found again, and the others as they were.
find_payment-gravar :
    (n : Payment) (xs : List Payment) {p : Payment}
    → find_payment xs n.id ≡ some p
    → find_payment (gravar n xs) n.id ≡ some n
unfolding gravar
find_payment-gravar n [] found = cc
find_payment-gravar n (x ∷ xs) {p} found = elim (Bool-cases (x.id == n.id)) [
  | inl e ↦ rw e (rw (==_refl n.id) refl)
  | inr e ↦ rw e (rw e (find_payment-gravar n xs {p = p} (ground (arith, found, e))))
]

filter-gravar :
    (n : Payment) (xs : List Payment)
    → filter (λ p. not (p.id == n.id)) (gravar n xs) ≡ filter (λ p. not (p.id == n.id)) xs
unfolding gravar
filter-gravar n [] = refl
filter-gravar n (x ∷ xs) = elim (Bool-cases (x.id == n.id)) [
  | inl e ↦ rw e (rw (==_refl n.id) refl)
  | inr e ↦ rw e (rw e (ap (λ ys. x ∷ ys) (filter-gravar n xs)))
]

-- The row as the reactivation leaves it has the status and the id that it had.
abbrev Keeps : Payment → Payment → Type 0
Keeps lido atual = (atual.id ≡ lido.id) × (atual.status ≡ lido.status)

com_reativacao-Keeps :
    (lido : Payment) (reativados : List Compra) (recusa : Option ℕ) {atual : Payment}
    → com_reativacao lido reativados recusa ≡ ok atual
    → Keeps lido atual
unfolding com_reativacao
com_reativacao-Keeps lido [] none h = ok-subst (Keeps lido) h (refl, refl)
com_reativacao-Keeps lido [] (some v) h = cc
com_reativacao-Keeps lido (c ∷ cs) recusa h =
    ok-subst (Keeps lido) {x = record lido { amount = c.amount; itens = c.itens }} h (refl, refl)

-- The payment as it is written, by the panel's rules.
atual-Keeps :
    (restantes : Restantes) (dto : UpdatePaymentStatusDto) (lido : Payment) {atual : Payment}
    → (if status_libera dto.status
        then ok lido
        else let r = reativar_compras restantes (compras lido) in
          com_reativacao lido r.reativados r.recusa)
      ≡ ok atual
    → Keeps lido atual
atual-Keeps restantes dto lido h = elim (Bool-cases (status_libera dto.status)) [
  | inl e ↦ ok-subst (Keeps lido) (rw e at h) (refl, refl)
  | inr e ↦ com_reativacao-Keeps lido _ _ (rw e at h)
]

-- A payment leaves the status paid only to be refunded.
abbrev pub Sai : (antes depois : PaymentStatus) → Type 0
Sai paid depois = depois ≡ refunded
Sai _ depois = Unit

permitido-Sai :
    (antes : PaymentStatus) (novo : Option PaymentStatus)
    → permitido antes novo ≡ true
    → Sai antes (or_else novo antes)
permitido-Sai paid none h = cc
permitido-Sai paid (some refunded) h = refl
permitido-Sai paid (some _) h = cc
permitido-Sai _ novo h = tt

-- One payment was written, whose status may have changed as `Sai` says, and no other.
abbrev pub UmSo : (payment_id : ℕ) → (antes depois : List Payment) → Type 0
UmSo payment_id antes depois =
    (lido : Payment) × (escrito : Payment) × (find_payment antes payment_id ≡ some lido)
    × (find_payment depois payment_id ≡ some escrito)
    × Sai lido.status escrito.status
    × (filter (λ p. not (p.id == payment_id)) depois ≡ filter (λ p. not (p.id == payment_id)) antes)

gravar-UmSo :
    (payment_id : ℕ) (xs : List Payment) (lido n : Payment)
    → find_payment xs payment_id ≡ some lido
    → n.id ≡ lido.id
    → Sai lido.status n.status
    → UmSo payment_id xs (gravar n xs)
gravar-UmSo payment_id xs lido n found same sai =
    let at = (==_iff lido.id payment_id).0 (mem_of_find? (λ p. p.id == payment_id) xs found).1 in
    subst (λ i. find_payment xs i ≡ some lido → UmSo i xs (gravar n xs)) (same ∙ at)
      (λ f. (lido, n, f, find_payment-gravar n xs {p = lido} f, sai, filter-gravar n xs)) found

-- An edition on the panel that goes through changes one payment, which was on record, and a paid
-- payment leaves that status only to be refunded. Every other payment stays as it was. And no checkout is left at which the edited one could still be paid.
pub update_payment_status-UmSo :
    (restantes : Restantes) (payment_id : ℕ) (dto : UpdatePaymentStatusDto) (caixa : Caixa)
    {after : Caixa}
    → update_payment_status restantes payment_id dto caixa ≡ ok after
    → UmSo payment_id caixa.payments after.payments
      × (any (aberto payment_id) after.checkouts ≡ false)
unfolding update_payment_status editado
update_payment_status-UmSo restantes payment_id dto caixa {after} h =
    let (lido, found, k) =
      >>=-eq-ok {A = Payment} (or_throw (find_payment caixa.payments payment_id) nao_encontrado) _
        h in
    let (allowed, k') = require->> _ _ _ k in
    let (_, k'') = require->> _ _ _ k' in
    let (atual, written, done) = >>=-eq-ok {A = Payment} _ _ k'' in
    let (same, status) = atual-Keeps restantes dto lido written in
    ok-subst
      (λ a.
        UmSo payment_id caixa.payments a.payments × (any (aberto payment_id) a.checkouts ≡ false))
      done
      (
        gravar-UmSo payment_id caixa.payments lido (editado dto lido atual)
            (or_throw-eq-ok _ _ found) same
            (subst (λ s. Sai lido.status (or_else dto.status s)) (sym status)
              (permitido-Sai lido.status dto.status allowed)),
        any-invalidar payment_id caixa.checkouts,
      )
