-- ===== src/Prelude/Lists.antt =====
-- JavaScript's arrays and sets of strings as lists: `filter`, `includes`, `find` and `new Set`.
use Prim.Native.Nat.{ℕ, zero, suc}
use mathlib.Core.Path.{◌≡◌, refl, sym, ap, ◌∙◌}
use mathlib.Core.Logic.{inl, inr}
use mathlib.Core.Bool.{Bool, false, not, ◌&&◌, ◌||◌}
use mathlib.Core.List.{List, [], ◌∷◌, ◌++◌}
use mathlib.Core.Option.{Option, none, some}
use native.Mathlib.Omega.{arith}
use iziphone.Prelude.Tests.{◌==◌, if◌then◌else◌, Bool-cases, ==_iff}

module _ {ℓ} {A : Type ℓ} where
  abbrev pub filter : (A → Bool) → List A → List A
  filter p [] = []
  filter p (x ∷ xs) = if p x then x ∷ filter p xs else filter p xs

  abbrev pub find : (A → Bool) → List A → Option A
  find p [] = none
  find p (x ∷ xs) = if p x then some x else find p xs

  abbrev pub any : (A → Bool) → List A → Bool
  any p [] = false
  any p (x ∷ xs) = p x || any p xs

  abbrev pub length : List A → ℕ
  length [] = zero
  length (x ∷ xs) = suc (length xs)

  pub filter-append :
      (p : A → Bool) (xs ys : List A) → filter p (xs ++ ys) ≡ filter p xs ++ filter p ys
  filter-append p [] ys = refl
  filter-append p (x ∷ xs) ys = ground (arith, filter-append p xs ys)

  pub filter_comm : (p q : A → Bool) (xs : List A) → filter p (filter q xs) ≡ filter q (filter p xs)
  filter_comm p q [] = refl
  filter_comm p q (x ∷ xs) = ground (arith, filter_comm p q xs)

-- `xs.includes(x)`
abbrev pub elem : ℕ → List ℕ → Bool
elem x [] = false
elem x (y ∷ ys) = x == y || elem x ys

-- The elements of `new Set(xs)`, in the order in which they were first inserted.
abbrev pub unique : List ℕ → List ℕ
unique [] = []
unique (x ∷ xs) = x ∷ filter (λ y. not (y == x)) (unique xs)

-- No element twice.
abbrev pub Distinct : List ℕ → Type 0
Distinct [] = Unit
Distinct (x ∷ xs) = (elem x xs ≡ false) × Distinct xs

pub elem-append : (x : ℕ) (xs ys : List ℕ) → elem x (xs ++ ys) ≡ (elem x xs || elem x ys)
elem-append x [] ys = refl
elem-append x (y ∷ xs) ys = ground (arith, elem-append x xs ys)

pub elem-filter : (p : ℕ → Bool) (x : ℕ) (xs : List ℕ) → elem x (filter p xs) ≡ (elem x xs && p x)
elem-filter p x [] = refl
elem-filter p x (y ∷ xs) = ground (arith, elem-filter p x xs)

pub elem-unique : (x : ℕ) (xs : List ℕ) → elem x (unique xs) ≡ elem x xs
elem-unique x [] = refl
elem-unique x (y ∷ xs) =
    ground (arith, elem-unique x xs, elem-filter (λ z. not (z == y)) x (unique xs))

pub Distinct-filter : (p : ℕ → Bool) (xs : List ℕ) → Distinct xs → Distinct (filter p xs)
Distinct-filter p [] d = tt
Distinct-filter p (x ∷ xs) d = ground (arith, Distinct-filter p xs d.1, elem-filter p x xs)

pub Distinct-unique : (xs : List ℕ) → Distinct (unique xs)
Distinct-unique [] = tt
Distinct-unique (x ∷ xs) = (
  ground (arith, elem-filter (λ z. not (z == x)) x (unique xs)),
  Distinct-filter (λ z. not (z == x)) (unique xs) (Distinct-unique xs),
)

-- A filter that drops `x` does not see `x` go.
pub filter-filter_ne :
    (p : ℕ → Bool) (x : ℕ) (ys : List ℕ)
    → p x ≡ false
    → filter p (filter (λ z. not (z == x)) ys) ≡ filter p ys
filter-filter_ne p x [] h = refl
filter-filter_ne p x (y ∷ ys) h = elim (Bool-cases (y == x)) [
  | inl e ↦
      let ye : y ≡ x = (==_iff y x).0 e in
      let px : p y ≡ false = rw ye h in rw e (rw px (filter-filter_ne p x ys h))
  | inr e ↦ rw e (ground (arith, filter-filter_ne p x ys h))
]

-- Taking the duplicates out commutes with a filter.
pub unique-filter : (p : ℕ → Bool) (xs : List ℕ) → unique (filter p xs) ≡ filter p (unique xs)
unique-filter p [] = refl
unique-filter p (x ∷ xs) = elim (Bool-cases (p x)) [
  | inl e ↦ rw e (
      ap (◌∷◌ x) (
        ap (filter (λ y. not (y == x))) (unique-filter p xs)
        ∙ filter_comm (λ y. not (y == x)) p (unique xs)))
  | inr e ↦ rw e (unique-filter p xs ∙ sym (filter-filter_ne p x (unique xs) e))
]
