-- ===== src/Prelude/Lists.antt =====
-- Lists measured by native numbers, under the library's names, and Python's `any`, `all`, `in`.
use Prim.Native.Nat.{ℕ, zero, suc, ◌+◌}
use Prim.Native.String.{String, ◌++◌ as append}
use mathlib.Core.Path.{◌≡◌, refl, subst}
use mathlib.Core.Logic.{inl, inr}
use mathlib.Core.Bool.{Bool, true, false, ◌&&◌, ◌||◌}
use mathlib.Core.Option.{Option, none, some}
use mathlib.Core.List.{List, [], ◌∷◌, ◌++◌}
use native.Mathlib.Omega.{arith}
use boiler_reviews.Prelude.Tests.{if◌then◌else◌, Bool-cases}
use boiler_reviews.Prelude.Classes.{Eq, ◌==◌}

module _ {ℓ} {A : Type ℓ} where
  abbrev pub length : List A → ℕ
  length [] = 0
  length (x ∷ xs) = suc (length xs)

  abbrev pub any : (A → Bool) → List A → Bool
  any p [] = false
  any p (x ∷ xs) = p x || any p xs

  abbrev pub all : (A → Bool) → List A → Bool
  all p [] = true
  all p (x ∷ xs) = p x && all p xs

  -- `[x for x in xs if p(x)]`
  abbrev pub select : (A → Bool) → List A → List A
  select p [] = []
  select p (x ∷ xs) = let rest = select p xs in if p x then x ∷ rest else rest

  -- `xs[:n]`
  abbrev pub take : ℕ → List A → List A
  take n [] = []
  take zero (x ∷ xs) = []
  take (suc n) (x ∷ xs) = x ∷ take n xs

  pub length-append : (xs ys : List A) → length (xs ++ ys) ≡ length xs + length ys
  length-append [] ys = omega arith
  length-append (x ∷ xs) ys = omega (arith, length-append xs ys)

module _ {ℓ} {A : Type ℓ} ⦃e : Eq A⦄ where
  -- `a in xs`
  abbrev pub contains : List A → A → Bool
  contains [] a = false
  contains (x ∷ xs) a = x == a || contains xs a

-- A predicate on every item, as nested pairs.
abbrev pub All {ℓ κ} : {A : Type ℓ} → (A → Type κ) → List A → Type κ
All P [] = Unit
All P (x ∷ xs) = P x × All P xs

module _ {ℓ κ} {A : Type ℓ} (P : A → Type κ) where
  pub take-All : (n : ℕ) (xs : List A) → All P xs → All P (take n xs)
  take-All n [] h = tt
  take-All zero (x ∷ xs) h = tt
  take-All (suc n) (x ∷ xs) (p, h) = (p, take-All n xs h)

  pub select-All : (p : A → Bool) (xs : List A) → All P xs → All P (select p xs)
  select-All p [] h = tt
  select-All p (x ∷ xs) (here, there) = elim (Bool-cases (p x)) [
    | inl fits ↦ rw fits (here, select-All p xs there)
    | inr fails ↦ rw fails (select-All p xs there)
  ]

  pub All-with :
      (p : A → Bool) (xs : List A) → All P xs → All (λ x. P x × (p x ≡ true)) (select p xs)
  All-with p [] h = tt
  All-with p (x ∷ xs) (here, there) = elim (Bool-cases (p x)) [
    | inl fits ↦ rw fits ((here, fits), All-with p xs there)
    | inr fails ↦ rw fails (All-with p xs there)
  ]

-- The pieces of an f-string, joined.
abbrev pub concat : List String → String
concat [] = ""
concat (s ∷ rest) = append s (concat rest)

pub contains-All {ℓ κ} :
    {A : Type ℓ} ⦃e : Eq A⦄ (P : A → Type κ) (xs : List A) (a : A)
    → All P xs
    → contains xs a ≡ true
    → P a
contains-All P [] a h c = absurd (cc)
contains-All ⦃e⦄ P (x ∷ xs) a (here, there) c = elim (Bool-cases (x == a)) [
  | inl same ↦ subst P ((e.beq_iff x a).0 same) here
  | inr other ↦ contains-All P xs a there (rw other at c)
]

-- The first item that fits, as `session.scalar(select(...).where(...))` returns it.
abbrev pub first {ℓ} : {A : Type ℓ} → (A → Bool) → List A → Option A
first p [] = none
first p (x ∷ xs) = if p x then some x else first p xs

-- `xs.extend(ys)` of one list after the other.
unfoldable pub join {ℓ} : {A : Type ℓ} → List (List A) → List A
join [] = []
join (xs ∷ rest) = xs ++ join rest

pub append-empty {ℓ} : {A : Type ℓ} (xs ys : List A) → xs ++ ys ≡ [] → (xs ≡ []) × (ys ≡ [])
append-empty [] ys h = (refl, h)
append-empty (x ∷ xs) ys h = absurd (cc)

-- Lists that join to nothing are all empty.
pub join-empty {ℓ} : {A : Type ℓ} (xss : List (List A)) → join xss ≡ [] → All (λ xs. xs ≡ []) xss
unfolding join
join-empty [] h = tt
join-empty (xs ∷ rest) h =
    let (here, there) = append-empty xs (join rest) h in (here, join-empty rest there)
