-- ===== src/Planning/Turns.antt =====
-- One turn of the loop of `enumerate_optimum`: what it does to the best assignment so far.
use mathlib.Core.Path.{subst}
use boiler_reviews.Prelude.{
  ℕ, ◌≡◌, ◌≢◌, refl, sym, Bool, true, false, none, some, List, [], ◌∷◌, map, length, arith, ◌==◌,
  string_eq, nat_eq, ◌⊎◌, inl, inr, Bool-cases,
}
use boiler_reviews.Prelude.Int.{ℤ, pos, ltb_ℤ, ◌-ℤ◌}
use boiler_reviews.Exec.Errors.{Result, Error, ok, err}
use boiler_reviews.Planning.Model.{PlanRequest, Assignment, TermSpec}
use boiler_reviews.Planning.Validator.{validate_plan, is_empty_list}
use boiler_reviews.Planning.Oracle.{
  objective_value, planned_terms, max_of, load, range_from, Best, better, improve, improve_if,
  assignment_of,
}

-- The best is a valid assignment with its objective value, and no valid one of the `seen` beats it.
abbrev pub IsBeaten : PlanRequest → ℤ → Assignment → Type 0
IsBeaten r score a =
    (validate_plan r a).valid ≡ true
    → (w : ℤ) × (objective_value r a ≡ ok w) × (ltb_ℤ score w ≡ false)

abbrev pub Bounds : PlanRequest → Best → List ℕ → Type 0
Bounds r none values = (validate_plan r (assignment_of r values)).valid ≡ false
Bounds r (some (score, b)) values = IsBeaten r score (assignment_of r values)

abbrev pub IsAttained : PlanRequest → Best → Type 0
IsAttained r none = Unit
IsAttained r (some (score, b)) =
    ((validate_plan r b).valid ≡ true) × (objective_value r b ≡ ok score)

Result-cases : {A : Type 0} (x : Result A) → ((a : A) × (x ≡ ok a)) ⊎ ((e : Error) × (x ≡ err e))
Result-cases (ok a) = inl (a, refl)
Result-cases (err e) = inr (e, refl)

-- What one turn of the loop does to the best.
Turn : PlanRequest → Bool → Best → Best → Assignment → Type 0
Turn r b best best' a =
    ((b ≡ false) × (best' ≡ best))
    ⊎ ((b ≡ true) × (score : ℤ) × (objective_value r a ≡ ok score) × (best' ≡ better best score a))

improve_if-Turn :
    (r : PlanRequest) (b : Bool) (best best' : Best) (a : Assignment)
    → improve_if b r best a ≡ ok best'
    → Turn r b best best' a
unfolding Turn
improve_if-Turn r false best best' a e = inl (refl, cc)
improve_if-Turn r true best best' a e = elim (Result-cases (objective_value r a)) [
  | inl (score, is) ↦ inr (refl, score, is, ground (arith, is, e))
  | inr (x, is) ↦ absurd (ground (arith, is, e))
]

improve-Turn :
    (r : PlanRequest) (best best' : Best) (a : Assignment)
    → improve r best a ≡ ok best'
    → Turn r (validate_plan r a).valid best best' a
unfolding improve
improve-Turn r best best' a e = improve_if-Turn r (validate_plan r a).valid best best' a e

better-IsAttained :
    (r : PlanRequest) (best : Best) (score : ℤ) (a : Assignment)
    → IsAttained r best
    → (validate_plan r a).valid ≡ true
    → objective_value r a ≡ ok score
    → IsAttained r (better best score a)
better-IsAttained r none score a h valid is = (valid, is)
better-IsAttained r (some (s, b)) score a h valid is = elim (Bool-cases (ltb_ℤ s score)) [
  | inl more ↦ rw more (valid, is)
  | inr less ↦ rw less h
]

raised-IsBeaten :
    (r : PlanRequest) (s score : ℤ) (a : Assignment)
    → ltb_ℤ s score ≡ true
    → IsBeaten r s a
    → IsBeaten r score a
raised-IsBeaten r s score a more h valid = let (w, is, least) = h valid in (w, is, ground arith)

better-keeps :
    (r : PlanRequest) (best : Best) (score : ℤ) (a : Assignment) (values : List ℕ)
    → Bounds r best values
    → Bounds r (better best score a) values
better-keeps r none score a values h = λ valid. absurd (cc)
better-keeps r (some (s, b)) score a values h = elim (Bool-cases (ltb_ℤ s score)) [
  | inl more ↦ rw more (raised-IsBeaten r s score (assignment_of r values) more h)
  | inr less ↦ rw less h
]

better-Bounds :
    (r : PlanRequest) (best : Best) (score : ℤ) (values : List ℕ)
    → objective_value r (assignment_of r values) ≡ ok score
    → Bounds r (better best score (assignment_of r values)) values
better-Bounds r none score values is = λ valid. (score, is, ground arith)
better-Bounds r (some (s, b)) score values is = elim (Bool-cases (ltb_ℤ s score)) [
  | inl more ↦ rw more (λ valid. (score, is, ground arith))
  | inr less ↦ rw less (λ valid. (score, is, less))
]

pub improve-IsAttained :
    (r : PlanRequest) (best best' : Best) (a : Assignment)
    → improve r best a ≡ ok best'
    → IsAttained r best
    → IsAttained r best'
unfolding Turn
improve-IsAttained r best best' a e h = elim (improve-Turn r best best' a e) [
  | inl (invalid, same) ↦ subst (IsAttained r) (sym same) h
  | inr (valid, score, is, raised) ↦
      subst (IsAttained r) (sym raised) (better-IsAttained r best score a h valid is)
]

not_valid-Bounds :
    (r : PlanRequest) (best : Best) (values : List ℕ)
    → (validate_plan r (assignment_of r values)).valid ≡ false
    → Bounds r best values
not_valid-Bounds r none values h = h
not_valid-Bounds r (some (s, b)) values h = λ valid. absurd (cc)

pub improve-Bounds :
    (r : PlanRequest) (best best' : Best) (values : List ℕ)
    → improve r best (assignment_of r values) ≡ ok best'
    → Bounds r best' values
unfolding Turn
improve-Bounds r best best' values e = elim (improve-Turn r best best' (assignment_of r values) e) [
  | inl (invalid, same) ↦ not_valid-Bounds r best' values invalid
  | inr (valid, score, is, raised) ↦
      subst (λ x. Bounds r x values) (sym raised) (better-Bounds r best score values is)
]

pub improve-keeps :
    (r : PlanRequest) (best best' : Best) (a : Assignment) (values : List ℕ)
    → improve r best a ≡ ok best'
    → Bounds r best values
    → Bounds r best' values
unfolding Turn
improve-keeps r best best' a values e h = elim (improve-Turn r best best' a e) [
  | inl (invalid, same) ↦ subst (λ x. Bounds r x values) (sym same) h
  | inr (valid, score, is, raised) ↦
      subst (λ x. Bounds r x values) (sym raised) (better-keeps r best score a values h)
]

max_of-ok :
    (r : PlanRequest) (a : Assignment) (terms : List TermSpec)
    → terms ≢ []
    → (m : ℤ) × (max_of (map (load r a) (range_from 1 (length terms))) ≡ ok m)
max_of-ok r a [] some_term = absurd (some_term refl)
max_of-ok r a (t ∷ terms) some_term = (_, refl)

-- With a term, every assignment has an objective value.
objective_value-ok :
    (r : PlanRequest) (a : Assignment)
    → r.terms ≢ []
    → (score : ℤ) × (objective_value r a ≡ ok score)
unfolding objective_value
objective_value-ok r a some_term = elim (Bool-cases (is_empty_list (planned_terms a))) [
  | inl empty ↦ rw empty (_, refl)
  | inr planned ↦ rw planned (elim (Bool-cases (r.objective == "balanced_workload")) [
    | inl balanced ↦
        rw balanced (let (m, is) = max_of-ok r a r.terms some_term in (pos 0 -ℤ m, rw is refl))
    | inr other ↦ rw other (elim (Bool-cases (r.objective == "preference_satisfaction")) [
      | inl preferred ↦ rw preferred (_, refl)
      | inr earliest ↦ rw earliest (_, refl)
    ])
  ])
]

improve_if-ok :
    (r : PlanRequest) (b : Bool) (best : Best) (a : Assignment)
    → r.terms ≢ []
    → (best' : Best) × (improve_if b r best a ≡ ok best')
improve_if-ok r false best a some_term = (best, refl)
improve_if-ok r true best a some_term =
    let (score, is) = objective_value-ok r a some_term in (better best score a, rw is refl)

pub improve-ok :
    (r : PlanRequest) (best : Best) (a : Assignment)
    → r.terms ≢ []
    → (best' : Best) × (improve r best a ≡ ok best')
unfolding improve
improve-ok r best a some_term = improve_if-ok r (validate_plan r a).valid best a some_term
