-- ===== src/Common/Lists.antt =====
-- Lists: JavaScript's `filter`, `some`, `every`, `find`, `includes` over Boolean tests, and lengths
-- over the native numbers.
use Prim.Native.Nat.{ℕ, suc, ◌+◌, ◌≤◌}
use mathlib.Core.Path.{◌≡◌, refl, sym, ap, subst, ◌∙◌}
use mathlib.Core.Logic.{◌⊎◌, inl, inr}
use mathlib.Core.Bool.{Bool, true, false, not, ◌&&◌, ◌||◌}
use mathlib.Core.List.{List, [], ◌∷◌, ◌++◌, map, Memᴰ}
use mathlib.Core.Option.{Option, none, some}
use native.Mathlib.Omega.{arith}
use sistema_iccv_backend.Common.Tests.{if◌then◌else◌, Eq, Bool-cases}

module _ {ℓ} {A : Type ℓ} where
  abbrev pub length : List A → ℕ
  length [] = 0
  length (x ∷ xs) = suc (length xs)

  abbrev pub filter : (A → Bool) → List A → List A
  filter p [] = []
  filter p (x ∷ xs) = let rest = filter p xs in if p x then x ∷ rest else rest

  abbrev pub any : (A → Bool) → List A → Bool
  any p [] = false
  any p (x ∷ xs) = p x || any p xs

  abbrev pub all : (A → Bool) → List A → Bool
  all p [] = true
  all p (x ∷ xs) = p x && all p xs

  abbrev pub find? : (A → Bool) → List A → Option A
  find? p [] = none
  find? p (x ∷ xs) = let rest = find? p xs in if p x then some x else rest

  abbrev pub is_empty : List A → Bool
  is_empty [] = true
  is_empty (x ∷ xs) = false

  abbrev pub All {κ} : (A → Type κ) → List A → Type κ
  All P [] = Unit
  All P (x ∷ xs) = P x × All P xs

  pub length-append : (xs ys : List A) → length (xs ++ ys) ≡ length xs + length ys
  length-append [] ys = omega arith
  length-append (x ∷ xs) ys = omega (arith, length-append xs ys)

  pub length-filter-le : (p : A → Bool) (xs : List A) → length (filter p xs) ≤ length xs
  length-filter-le p [] = omega arith
  length-filter-le p (x ∷ xs) = ground (arith, length-filter-le p xs)

  pub All-append {κ} :
      (Good : A → Type κ) (front back : List A)
      → All Good front
      → All Good back
      → All Good (front ++ back)
  All-append Good [] back first second = second
  All-append Good (x ∷ front) back first second =
      let (here, later) = first in (here, All-append Good front back later second)

  pub All-mem {κ} : (P : A → Type κ) (xs : List A) {x : A} → All P xs → Memᴰ x xs → P x
  All-mem P [] h m = elim m [ ]
  All-mem P (y ∷ xs) h (Memᴰ.head same) = subst P (sym same) h.0
  All-mem P (y ∷ xs) h (Memᴰ.tail m) = All-mem P xs h.1 m

  pub All-map {κ ι} :
      (P : A → Type κ) (Q : A → Type ι) (xs : List A) → ((x : A) → P x → Q x) → All P xs → All Q xs
  All-map P Q [] f h = tt
  All-map P Q (x ∷ xs) f h = (f x h.0, All-map P Q xs f h.1)

  pub All-of {κ} : (P : A → Type κ) (xs : List A) → ((x : A) → P x) → All P xs
  All-of P [] f = tt
  All-of P (x ∷ xs) f = (f x, All-of P xs f)

  pub All-zip {κ ι} :
      (P : A → Type κ) (Q : A → Type ι) (xs : List A)
      → All P xs
      → All Q xs
      → All (λ x. P x × Q x) xs
  All-zip P Q [] hp hq = tt
  All-zip P Q (x ∷ xs) hp hq = ((hp.0, hq.0), All-zip P Q xs hp.1 hq.1)

  pub mem_of_any :
      (p : A → Bool) (xs : List A) → any p xs ≡ true → (x : A) × Memᴰ x xs × (p x ≡ true)
  mem_of_any p [] h = cc
  mem_of_any p (x ∷ xs) h = elim (Bool-cases (p x)) [
    | inl e ↦ (x, Memᴰ.head refl, e)
    | inr e ↦ let (y, m, q) = mem_of_any p xs (ground arith) in (y, Memᴰ.tail m, q)
  ]

  pub mem_of_find? :
      (p : A → Bool) (xs : List A) {x : A} → find? p xs ≡ some x → Memᴰ x xs × (p x ≡ true)
  mem_of_find? p [] h = cc
  mem_of_find? p (y ∷ xs) {x} h = elim (Bool-cases (p y)) [
    | inl e ↦ let same : x ≡ y = ground arith in (Memᴰ.head same, rw same e)
    | inr e ↦ let (m, q) = mem_of_find? p xs {x = x} (ground arith) in (Memᴰ.tail m, q)
  ]

  pub mem_of_filter :
      (p : A → Bool) (xs : List A) {x : A} → Memᴰ x (filter p xs) → Memᴰ x xs × (p x ≡ true)
  mem_of_filter p [] m = elim m [ ]
  mem_of_filter p (y ∷ xs) {x} m = elim (Bool-cases (p y)) [
    | inl e ↦ kept (mem_of_filter p xs {x = x}) e (rw e at m)
    | inr e ↦ let (m', q) = mem_of_filter p xs {x = x} (rw e at m) in (Memᴰ.tail m', q)
  ]
    where
      kept :
          (Memᴰ x (filter p xs) → Memᴰ x xs × (p x ≡ true))
          → p y ≡ true
          → Memᴰ x (y ∷ filter p xs)
          → Memᴰ x (y ∷ xs) × (p x ≡ true)
      kept deeper e (Memᴰ.head same) = (Memᴰ.head same, rw same e)
      kept deeper e (Memᴰ.tail m') = let (later, q) = deeper m' in (Memᴰ.tail later, q)

  pub mem_of_append :
      (front : List A) (back : List A) {x : A} → Memᴰ x (front ++ back) → Memᴰ x front ⊎ Memᴰ x back
  mem_of_append [] back m = inr m
  mem_of_append (y ∷ front) back (Memᴰ.head same) = inl (Memᴰ.head same)
  mem_of_append (y ∷ front) back (Memᴰ.tail m) = elim (mem_of_append front back m) [
    | inl first ↦ inl (Memᴰ.tail first)
    | inr second ↦ inr second
  ]

  pub any_of_mem : (p : A → Bool) (xs : List A) {x : A} → Memᴰ x xs → p x ≡ true → any p xs ≡ true
  any_of_mem p [] m h = elim m [ ]
  any_of_mem p (y ∷ xs) (Memᴰ.head same) h = rw (← same, h)
  any_of_mem p (y ∷ xs) (Memᴰ.tail m) h = ground (arith, any_of_mem p xs m h)

module _ {ℓ} {A : Type ℓ} ⦃e : Eq A⦄ where
  abbrev pub includes : A → List A → Bool
  includes a [] = false
  includes a (x ∷ xs) = e.same x a || includes a xs

  pub mem_of_includes : (a : A) (xs : List A) → includes a xs ≡ true → Memᴰ a xs
  mem_of_includes a [] h = cc
  mem_of_includes a (x ∷ xs) h = elim (Bool-cases (e.same x a)) [
    | inl s ↦ Memᴰ.head (sym ((e.same_iff x a).0 s))
    | inr s ↦ Memᴰ.tail (mem_of_includes a xs (ground arith))
  ]

  pub includes_of_mem : (a : A) (xs : List A) → Memᴰ a xs → includes a xs ≡ true
  includes_of_mem a [] m = elim m [ ]
  includes_of_mem a (x ∷ xs) (Memᴰ.head same) = rw (← same, (e.same_iff a a).1 refl)
  includes_of_mem a (x ∷ xs) (Memᴰ.tail m) = ground (arith, includes_of_mem a xs m)

module _ {ℓ κ} {A : Type ℓ} {B : Type κ} (f : A → B) where
  pub mem_of_map : (xs : List A) {y : B} → Memᴰ y (map f xs) → (x : A) × Memᴰ x xs × (f x ≡ y)
  mem_of_map [] m = elim m [ ]
  mem_of_map (x ∷ xs) (Memᴰ.head same) = (x, Memᴰ.head refl, sym same)
  mem_of_map (x ∷ xs) (Memᴰ.tail m) = let (y, m', e) = mem_of_map xs m in (y, Memᴰ.tail m', e)

  pub mem_map : {x : A} (xs : List A) → Memᴰ x xs → Memᴰ (f x) (map f xs)
  mem_map [] m = elim m [ ]
  mem_map (y ∷ xs) (Memᴰ.head same) = Memᴰ.head (ap f same)
  mem_map (y ∷ xs) (Memᴰ.tail m) = Memᴰ.tail (mem_map xs m)

module _ {ℓ} {A : Type ℓ} (p : A → Bool) where
  pub mem_filter : {x : A} (xs : List A) → Memᴰ x xs → p x ≡ true → Memᴰ x (filter p xs)
  mem_filter [] m h = elim m [ ]
  mem_filter (y ∷ xs) (Memᴰ.head same) h = rw (← same, h) (Memᴰ.head refl)
  mem_filter (y ∷ xs) (Memᴰ.tail m) h = elim (Bool-cases (p y)) [
    | inl e ↦ rw e (Memᴰ.tail (mem_filter xs m h))
    | inr e ↦ rw e (mem_filter xs m h)
  ]

-- The rows of `own` are gone, and the others stay as they were.
abbrev pub Removed {ℓ} : {A : Type ℓ} → (own : A → Bool) → (before after : List A) → Type ℓ
Removed own before after =
    (filter own after ≡ []) × (filter (λ x. not (own x)) after ≡ filter (λ x. not (own x)) before)

-- `deleteMany`, by a test that says of every row what `own` says.
pub filter-Removed {ℓ} :
    {A : Type ℓ} (own p : A → Bool) (xs : List A)
    → ((x : A) → own x ≡ p x)
    → Removed own xs (filter (λ x. not (p x)) xs)
filter-Removed own p [] h = (refl, refl)
filter-Removed own p (x ∷ xs) h =
    let (gone, kept) = filter-Removed own p xs h in
    elim (Bool-cases (own x)) [
      | inl e ↦ let e' : p x ≡ true = sym (h x) ∙ e in rw (e', e) (gone, kept)
      | inr e ↦ let e' : p x ≡ false = sym (h x) ∙ e in rw e' (rw e (gone, ap (λ ys. x ∷ ys) kept))
    ]
