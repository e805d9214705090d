-- ===== src/Prelude/Table.antt =====
-- A database table with a primary key: a list of rows, read and written through the key.
-- `find` is `session.get`, `put` is the write-back of a changed row.
use mathlib.Core.Path.{◌≡◌, refl}
use mathlib.Core.Bool.{Bool, true, false}
use mathlib.Core.Option.{Option, none, some}
use mathlib.Core.List.{List, [], ◌∷◌, ◌++◌}
use native.Mathlib.Omega.{arith}
use boiler_reviews.Prelude.Tests.{if◌then◌else◌}
use boiler_reviews.Prelude.Classes.{Eq, ◌==◌}

abbrev pub or_else {ℓ} : {A : Type ℓ} → Option A → Option A → Option A
or_else none b = b
or_else (some a) b = some a

abbrev pub is_some {ℓ} : {A : Type ℓ} → Option A → Bool
is_some none = false
is_some (some a) = true

module _ {ℓ κ} {A : Type ℓ} {K : Type κ} ⦃e : Eq K⦄ (key : A → K) where
  unfoldable pub find : K → List A → Option A
  find k [] = none
  find k (x ∷ xs) = if key x == k then some x else find k xs

  unfoldable pub put : A → List A → List A
  put a [] = []
  put a (x ∷ xs) = if key x == key a then a ∷ xs else x ∷ put a xs

  unfoldable pub delete : K → List A → List A
  delete k [] = []
  delete k (x ∷ xs) = if key x == k then xs else x ∷ delete k xs

  pub find-key : (k : K) (a : A) (xs : List A) → find k xs ≡ some a → key a ≡ k
  unfolding find
  find-key k a [] h = cc
  find-key k a (x ∷ xs) h = ground (arith, e.beq_iff (key x) k, find-key k a xs)

  pub find-put :
      (k : K) (a : A) (xs : List A)
      → find k (put a xs)
        ≡ (if key a == k then (if is_some (find k xs) then some a else none) else find k xs)
  unfolding find put
  find-put k a [] = ground arith
  find-put k a (x ∷ xs) =
      ground (
        arith,
        e.beq_iff (key x) k,
        e.beq_iff (key x) (key a),
        e.beq_iff (key a) k,
        find-put k a xs,
      )

  pub find-append : (k : K) (xs ys : List A) → find k (xs ++ ys) ≡ or_else (find k xs) (find k ys)
  unfolding find
  find-append k [] ys = refl
  find-append k (x ∷ xs) ys = ground (arith, find-append k xs ys)

  -- The primary key: no two rows agree on it.
  abbrev pub HasUniqueKeys : List A → Type ℓ
  HasUniqueKeys [] = Unit
  HasUniqueKeys (x ∷ xs) = (find (key x) xs ≡ none) × HasUniqueKeys xs

  pub put-HasUniqueKeys : (a : A) (xs : List A) → HasUniqueKeys xs → HasUniqueKeys (put a xs)
  unfolding put
  put-HasUniqueKeys a [] h = tt
  put-HasUniqueKeys a (x ∷ xs) h = ground (
    arith,
    e.beq_iff (key x) (key a),
    e.beq_iff (key a) (key x),
    find-put (key x) a xs,
    put-HasUniqueKeys a xs h.1,
  )

  pub append-HasUniqueKeys :
      (xs : List A) (a : A)
      → HasUniqueKeys xs
      → find (key a) xs ≡ none
      → HasUniqueKeys (xs ++ a ∷ [])
  unfolding find
  append-HasUniqueKeys [] a h n = (refl, tt)
  append-HasUniqueKeys (x ∷ xs) a h n = ground (
    arith,
    e.beq_iff (key x) (key a),
    e.beq_iff (key a) (key x),
    find-append (key x) xs (a ∷ []),
    append-HasUniqueKeys xs a h.1,
  )

  pub find-delete :
      (k j : K) (xs : List A)
      → HasUniqueKeys xs
      → find k (delete j xs) ≡ (if j == k then none else find k xs)
  unfolding find delete
  find-delete k j [] u = ground arith
  find-delete k j (x ∷ xs) u =
      ground
        (arith, e.beq_iff (key x) k, e.beq_iff (key x) j, e.beq_iff j k, find-delete k j xs u.1)

  pub delete-HasUniqueKeys : (j : K) (xs : List A) → HasUniqueKeys xs → HasUniqueKeys (delete j xs)
  unfolding delete
  delete-HasUniqueKeys j [] u = tt
  delete-HasUniqueKeys j (x ∷ xs) u =
      ground (arith, find-delete (key x) j xs u.1, delete-HasUniqueKeys j xs u.1)
