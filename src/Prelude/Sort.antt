-- ===== src/Prelude/Sort.antt =====
-- Python's `sorted`, and the order of texts.
use Prim.Native.String.{String, compare}
use Prim.Native.Nat.{Ordering}
use mathlib.Core.Path.{◌≡◌, refl}
use mathlib.Core.Logic.{◌≢◌, inl, inr}
use mathlib.Core.Bool.{Bool, true, false, ◌||◌}
use native.Mathlib.Omega.{arith}
use mathlib.Core.List.{List, [], ◌∷◌}
use boiler_reviews.Prelude.Tests.{if◌then◌else◌, Bool-cases}
use boiler_reviews.Prelude.Classes.{string_eq, ◌==◌}
use boiler_reviews.Prelude.Lists.{All, contains}

-- `a <= b` on texts, which Python compares by code points.
abbrev pub leb_text : String → String → Bool
leb_text a b = elim (compare a b) [ Ordering.gt ↦ false | _ ↦ true ]

module _ {A : Type 0} (before : A → A → Bool) where
  abbrev pub insert_by : A → List A → List A
  insert_by x [] = x ∷ []
  insert_by x (y ∷ ys) = if before x y then x ∷ y ∷ ys else y ∷ insert_by x ys

  -- `sorted`, which is stable.
  unfoldable pub sorted_by : List A → List A
  sorted_by [] = []
  sorted_by (x ∷ xs) = insert_by x (sorted_by xs)

module _ {A : Type 0} (P : A → Type 0) (before : A → A → Bool) where
  pub insert_by-All : (x : A) (xs : List A) → P x → All P xs → All P (insert_by before x xs)
  insert_by-All x [] p h = (p, tt)
  insert_by-All x (y ∷ ys) p (q, h) = elim (Bool-cases (before x y)) [
    | inl first ↦ rw first (p, (q, h))
    | inr later ↦ rw later (q, insert_by-All x ys p h)
  ]

  insert_by-All_back : (x : A) (xs : List A) → All P (insert_by before x xs) → P x × All P xs
  insert_by-All_back x [] (p, h) = (p, tt)
  insert_by-All_back x (y ∷ ys) h = elim (Bool-cases (before x y)) [
    | inl first ↦ let (p, rest) = rw first at h in (p, rest)
    | inr later ↦
        let (q, rest) = rw later at h in
        let (p, others) = insert_by-All_back x ys rest in (p, (q, others))
  ]

  -- What holds of every item of the sorted list holds of every item of the list.
  pub sorted_by-All_back : (xs : List A) → All P (sorted_by before xs) → All P xs
  unfolding sorted_by
  sorted_by-All_back [] h = tt
  sorted_by-All_back (x ∷ xs) h =
      let (p, rest) = insert_by-All_back x (sorted_by before xs) h in
      (p, sorted_by-All_back xs rest)

  pub sorted_by-All : (xs : List A) → All P xs → All P (sorted_by before xs)
  unfolding sorted_by
  sorted_by-All [] h = tt
  sorted_by-All (x ∷ xs) (p, h) = insert_by-All x (sorted_by before xs) p (sorted_by-All xs h)

module _ {A : Type 0} (before : A → A → Bool) where
  insert_by-nonempty : (x : A) (xs : List A) → insert_by before x xs ≢ []
  insert_by-nonempty x [] = λ e. cc
  insert_by-nonempty x (y ∷ ys) = elim (Bool-cases (before x y)) [
    | inl first ↦ rw first (λ e. cc)
    | inr later ↦ rw later (λ e. cc)
  ]

  pub sorted_by-nonempty : (xs : List A) → xs ≢ [] → sorted_by before xs ≢ []
  unfolding sorted_by
  sorted_by-nonempty [] h = h
  sorted_by-nonempty (x ∷ xs) h = insert_by-nonempty x (sorted_by before xs)

contains-insert_by :
    (x m : String) (ys : List String)
    → contains (insert_by leb_text x ys) m ≡ (x == m || contains ys m)
contains-insert_by x m [] = refl
contains-insert_by x m (y ∷ ys) = elim (Bool-cases (leb_text x y)) [
  | inl first ↦ rw first refl
  | inr later ↦ rw later (ground (arith, contains-insert_by x m ys))
]

pub contains-sorted_by :
    (m : String) (xs : List String) → contains (sorted_by leb_text xs) m ≡ contains xs m
unfolding sorted_by
contains-sorted_by m [] = refl
contains-sorted_by m (x ∷ xs) =
    ground (arith, contains-insert_by x m (sorted_by leb_text xs), contains-sorted_by m xs)
