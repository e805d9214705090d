-- ===== src/Planning/Frontier.antt =====
-- `pareto_frontier` of src/boiler_reviews/planning/alternatives.py: what it keeps and what it leaves out.
use boiler_reviews.Prelude.{
  ℕ, zero, suc, ◌≤◌, ◌≡◌, refl, sym, ap, ◌∙◌, inl, inr, Bool, true, false, List, [], ◌∷◌, ◌++◌,
  arith, ◌&&◌, ◌||◌, not, select, any, All, if◌then◌else◌, Bool-cases,
}
use mathlib.Core.Path.{subst}
use boiler_reviews.Planning.Model.{PlanRequest}
use boiler_reviews.Planning.Alternatives.{
  PlanResult, better_or_equal, dominates, is_alternative, vector, frontier_from, pareto_frontier,
}
use boiler_reviews.Planning.Dominance.{
  better_or_equal_refl, better_or_equal_trans, dominates_irreflexive, dominates_better,
  dominates_trans,
}

-- A property that holds of x holds of an item of the list.
abbrev IsIn : PlanResult → List PlanResult → Type 0
IsIn x xs = (p : PlanResult → Bool) → p x ≡ true → any p xs ≡ true

any-IsIn :
    (p : PlanResult → Bool) (xs : List PlanResult)
    → any p xs ≡ true
    → (x : PlanResult) × IsIn x xs × (p x ≡ true)
any-IsIn p [] h = absurd (cc)
any-IsIn p (x ∷ xs) h = elim (Bool-cases (p x)) [
  | inl here ↦ (x, (λ q k. ground (arith, k)), here)
  | inr there ↦
      let (y, found, fits) = any-IsIn p xs (rw there at h) in
      (y, (λ q k. ground (arith, found q k)), fits)
]

any-select :
    (p q : PlanResult → Bool) (xs : List PlanResult)
    → any (λ x. q x && p x) xs ≡ true
    → any q (select p xs) ≡ true
any-select p q [] h = absurd (cc)
any-select p q (x ∷ xs) h = ground (arith, h, any-select p q xs)

any_weaken :
    (p q : PlanResult → Bool) (xs : List PlanResult)
    → ((x : PlanResult) → p x ≡ true → q x ≡ true)
    → any p xs ≡ true
    → any q xs ≡ true
any_weaken p q [] imp h = absurd (cc)
any_weaken p q (x ∷ xs) imp h = ground (arith, h, imp x, any_weaken p q xs imp)

any-append :
    (p : PlanResult → Bool) (xs ys : List PlanResult) → any p (xs ++ ys) ≡ (any p xs || any p ys)
any-append p [] ys = refl
any-append p (x ∷ xs) ys = ground (arith, any-append p xs ys)

append_assoc :
    (xs : List PlanResult) (x : PlanResult) (ys : List PlanResult)
    → (xs ++ x ∷ []) ++ ys ≡ xs ++ x ∷ ys
append_assoc [] x ys = refl
append_assoc (z ∷ xs) x ys = ap (λ zs. z ∷ zs) (append_assoc xs x ys)

All-IsIn :
    (P : PlanResult → Type 0) (xs : List PlanResult)
    → ((x : PlanResult) → IsIn x xs → P x)
    → All P xs
All-IsIn P [] h = tt
All-IsIn P (x ∷ xs) h = (
  h x (λ q k. ground (arith, k)),
  All-IsIn P xs (λ y found. h y (λ q k. ground (arith, found q k))),
)

abbrev count : (PlanResult → Bool) → List PlanResult → ℕ
count p [] = 0
count p (x ∷ xs) = let rest = count p xs in if p x then suc rest else rest

count_weaken :
    (p q : PlanResult → Bool) (xs : List PlanResult)
    → ((x : PlanResult) → p x ≡ true → q x ≡ true)
    → count p xs ≤ count q xs
count_weaken p q [] imp = omega arith
count_weaken p q (x ∷ xs) imp = ground (arith, imp x, count_weaken p q xs imp)

count_less :
    (p q : PlanResult → Bool) (xs : List PlanResult)
    → ((x : PlanResult) → p x ≡ true → q x ≡ true)
    → any (λ x. q x && not (p x)) xs ≡ true
    → suc (count p xs) ≤ count q xs
count_less p q [] imp h = absurd (cc)
count_less p q (x ∷ xs) imp h =
    ground (arith, h, imp x, count_weaken p q xs imp, count_less p q xs imp)

select_fits :
    (p : PlanResult → Bool) (xs : List PlanResult)
    → All (λ x. p x ≡ false) (select (λ x. not (p x)) xs)
select_fits p [] = tt
select_fits p (x ∷ xs) = elim (Bool-cases (p x)) [
  | inl out ↦ rw out (select_fits p xs)
  | inr stays ↦ rw stays (stays, select_fits p xs)
]

module _ (r : PlanRequest) where
  abbrev beats : PlanResult → PlanResult → Bool
  beats x y = dominates (vector r x) (vector r y)

  -- The first result is at least as good as the second in every objective.
  abbrev pub is_as_good : PlanResult → PlanResult → Bool
  is_as_good x y = better_or_equal (vector r x) (vector r y)

  abbrev is_beaten : List PlanResult → PlanResult → Bool
  is_beaten xs x = any (λ other. beats other x) xs

  -- The comparison with itself changes nothing.
  is_beaten_self :
      (before rest : List PlanResult) (x : PlanResult)
      → is_beaten (before ++ x ∷ rest) x ≡ is_beaten (before ++ rest) x
  is_beaten_self before rest x =
      any-append (λ other. beats other x) before (x ∷ rest)
      ∙ (ap (λ b. any (λ other. beats other x) before || (b || any (λ other. beats other x) rest))
            (dominates_irreflexive (vector r x))
          ∙ sym (any-append (λ other. beats other x) before rest))

  frontier_from-select :
      (before rest : List PlanResult)
      → frontier_from r before rest ≡ select (λ x. not (is_beaten (before ++ rest) x)) rest
  unfolding frontier_from
  frontier_from-select before [] = refl
  frontier_from-select before (x ∷ rest) =
      let tail =
        frontier_from-select (before ++ x ∷ []) rest
        ∙ ap (λ all. select (λ y. not (is_beaten all y)) rest) (append_assoc before x rest) in
      elim (Bool-cases (is_beaten (before ++ rest) x)) [
        | inl beaten ↦ rw (is_beaten_self before rest x, beaten) tail
        | inr unbeaten ↦ rw (is_beaten_self before rest x, unbeaten) (ap (λ xs. x ∷ xs) tail)
      ]

  module _ (xs : List PlanResult) where
    abbrev kept : List PlanResult
    kept = select (λ y. not (is_beaten xs y)) xs

    unbeaten_kept :
        (x : PlanResult)
        → IsIn x xs
        → is_beaten xs x ≡ false
        → any (λ f. is_as_good f x) kept ≡ true
    unbeaten_kept x found unbeaten =
        any-select (λ y. not (is_beaten xs y)) (λ f. is_as_good f x) xs
          (found (λ f. is_as_good f x && not (is_beaten xs f))
            (rw (better_or_equal_refl (vector r x), unbeaten) refl))

    -- A result that beats another is beaten by fewer.
    beaten_less :
        (n : ℕ) (x : PlanResult)
        → is_beaten xs x ≡ true
        → count (λ o. beats o x) xs ≤ n
        → (y : PlanResult) × IsIn y xs
          × (suc (count (λ o. beats o y) xs) ≤ n)
          × (is_as_good y x ≡ true)
    beaten_less n x beaten few =
        let (y, there, better) = any-IsIn (λ o. beats o x) xs beaten in
        let fewer =
          count_less (λ o. beats o y) (λ o. beats o x) xs
            (λ o h. dominates_trans (vector r o) (vector r y) (vector r x) h better)
            (there (λ o. beats o x && not (beats o y))
              (rw (better, dominates_irreflexive (vector r y)) refl)) in
        (y, there, omega (arith, few, fewer), dominates_better (vector r y) (vector r x) better)

    reach :
        (n : ℕ) (x : PlanResult)
        → IsIn x xs
        → count (λ o. beats o x) xs ≤ n
        → any (λ f. is_as_good f x) kept ≡ true
    reach zero x found few = elim (Bool-cases (is_beaten xs x)) [
      | inr unbeaten ↦ unbeaten_kept x found unbeaten
      | inl beaten ↦
          let (y, there, fewer, better) = beaten_less zero x beaten few in
          absurd (omega (arith, fewer))
    ]
    reach (suc n) x found few = elim (Bool-cases (is_beaten xs x)) [
      | inr unbeaten ↦ unbeaten_kept x found unbeaten
      | inl beaten ↦
          let (y, there, fewer, better) = beaten_less (suc n) x beaten few in
          any_weaken (λ f. is_as_good f y) (λ f. is_as_good f x) kept
            (λ f h. better_or_equal_trans (vector r f) (vector r y) (vector r x) h better)
            (reach n y there (omega (arith, fewer)))
    ]

pareto_frontier_covers :
    (r : PlanRequest) (results : List PlanResult)
    → All
        (λ x. any (λ f. is_as_good r f x) (pareto_frontier r results) ≡ true)
        (select is_alternative results)
unfolding pareto_frontier
pareto_frontier_covers r results =
    let feasible = select is_alternative results in
    All-IsIn (λ x. any (λ f. is_as_good r f x) (pareto_frontier r results) ≡ true) feasible
      (λ x found.
        ap (any (λ f. is_as_good r f x)) (frontier_from-select r [] feasible)
        ∙ reach r feasible (count (λ o. beats r o x) feasible) x found (omega arith))

pareto_frontier_unbeaten :
    (r : PlanRequest) (results : List PlanResult)
    → All
        (λ f.
          any (λ x. dominates (vector r x) (vector r f)) (select is_alternative results) ≡ false)
        (pareto_frontier r results)
unfolding pareto_frontier
pareto_frontier_unbeaten r results =
    let feasible = select is_alternative results in
    subst (All (λ f. is_beaten r feasible f ≡ false)) (sym (frontier_from-select r [] feasible))
      (select_fits (is_beaten r feasible) feasible)

-- No feasible result dominates one of the frontier, and every feasible result with an assignment has one in
-- the frontier that is at least as good in all four objectives.
pub pareto_frontier_lem :
    (r : PlanRequest) (results : List PlanResult)
    → All
        (λ f.
          any (λ x. dominates (vector r x) (vector r f)) (select is_alternative results) ≡ false)
        (pareto_frontier r results)
      × All
          (λ x. any (λ f. is_as_good r f x) (pareto_frontier r results) ≡ true)
          (select is_alternative results)
pareto_frontier_lem r results =
    (pareto_frontier_unbeaten r results, pareto_frontier_covers r results)
