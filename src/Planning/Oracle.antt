-- ===== src/Planning/Oracle.antt =====
-- `objective_value` and `enumerate_optimum` of src/boiler_reviews/planning/oracle.py.
use boiler_reviews.Prelude.{
  ℕ, zero, suc, ◌+◌, String, Bool, true, false, Option, none, some, List, [], ◌∷◌, ◌++◌, map,
  length, ◌==◌, nat_eq, string_eq, option_eq, ◌&&◌, not, if◌then◌else◌, leb, select,
}
use boiler_reviews.Prelude.Int.{ℤ, pos, ltb_ℤ, ◌-ℤ◌}
use boiler_reviews.Prelude.Dict.{dict_of, lookup, distinct}
use boiler_reviews.Exec.Errors.{Result, ok, err, value_error}
use boiler_reviews.Exec.Attempt.{◌>>=◌}
use boiler_reviews.Planning.Model.{CourseSpec, PlanRequest, Assignment, course_code, term_index}
use boiler_reviews.Planning.Validator.{sum, is_empty_list, validate_plan}

pub record OracleResult : Type 0 where
  pub feasible : Bool
  pub assignment : Option Assignment
  pub objective_value : Option ℤ
  pub checked_assignments : ℕ
  pub truncated : Bool

-- The terms of the courses that are planned.
abbrev pub planned_terms : Assignment → List ℕ
planned_terms a = select (λ term. not (term == 0)) (map (λ p. p.1) a)

-- `range(1, n + 1)`
abbrev pub range_from : ℕ → ℕ → List ℕ
range_from start zero = []
range_from start (suc n) = start ∷ range_from (suc start) n

abbrev pub load : PlanRequest → Assignment → ℕ → ℤ
load r a term =
    sum (map (λ c. c.workload_hours) (select (λ c. lookup c.code a == some term) r.courses))

abbrev pub larger : ℤ → ℤ → ℤ
larger a b = if ltb_ℤ a b then b else a

abbrev pub largest : ℤ → List ℤ → ℤ
largest a [] = a
largest a (b ∷ bs) = largest (larger a b) bs

-- `max(...)`
abbrev pub max_of : List ℤ → Result ℤ
max_of [] = err (value_error "max() iterable argument is empty")
max_of (a ∷ rest) = ok (largest a rest)

-- `assignment.get(course.code, 0)`
abbrev pub is_planned : Assignment → CourseSpec → Bool
is_planned a c = not (lookup c.code a == none) && not (lookup c.code a == some 0)

unfoldable pub objective_value : PlanRequest → Assignment → Result ℤ
unfolding lookup
objective_value r a =
    if is_empty_list (planned_terms a)
    then ok (pos 0)
    else if r.objective == "balanced_workload"
    then (do m ← max_of (map (load r a) (range_from 1 (length r.terms))); ok (pos 0 -ℤ m))
    else if r.objective == "preference_satisfaction"
    then ok (sum (map (λ c. c.preference_score) (select (is_planned a) r.courses)))
    else ok (sum (map (λ term. pos (length r.terms + 1) -ℤ pos term) (planned_terms a)))

abbrev pub insert_sorted : ℕ → List ℕ → List ℕ
insert_sorted n [] = n ∷ []
insert_sorted n (m ∷ ms) = if leb n m then n ∷ m ∷ ms else m ∷ insert_sorted n ms

-- `sorted`
abbrev pub sorted : List ℕ → List ℕ
sorted [] = []
sorted (n ∷ ns) = insert_sorted n (sorted ns)

abbrev pub offered : PlanRequest → List ℕ → List ℕ
offered r [] = distinct (map term_index r.terms)
offered r (t ∷ terms) = t ∷ terms

-- The terms that a course may have, and 0 for none.
unfoldable pub choices : PlanRequest → CourseSpec → List ℕ
unfolding distinct
choices r c = 0 ∷ sorted (offered r c.available_terms)

abbrev pub prefix_all : List ℕ → List (List ℕ) → List (List ℕ)
prefix_all [] rests = []
prefix_all (x ∷ xs) rests = map (λ rest. x ∷ rest) rests ++ prefix_all xs rests

-- `itertools.product`
unfoldable pub product : List (List ℕ) → List (List ℕ)
product [] = [] ∷ []
product (xs ∷ xss) = prefix_all xs (product xss)

abbrev pub zip : List String → List ℕ → List (String × ℕ)
zip [] values = []
zip (code ∷ codes) [] = []
zip (code ∷ codes) (value ∷ values) = (code, value) ∷ zip codes values

unfoldable pub assignment_of : PlanRequest → List ℕ → Assignment
unfolding dict_of
assignment_of r values = dict_of (λ p. p.0) (zip (map course_code r.courses) values)

abbrev pub Best : Type 0
Best = Option (ℤ × Assignment)

abbrev pub better : Best → ℤ → Assignment → Best
better none score a = some (score, a)
better (some (s, b)) score a = if ltb_ℤ s score then some (score, a) else some (s, b)

abbrev pub improve_if : Bool → PlanRequest → Best → Assignment → Result Best
improve_if false r best a = ok best
improve_if true r best a = do score ← objective_value r a; ok (better best score a)

-- The body of the loop up to the count.
unfoldable pub improve : PlanRequest → Best → Assignment → Result Best
unfolding validate_plan objective_value
improve r best a = improve_if (validate_plan r a).valid r best a

abbrev pub result_of : Best → ℕ → Bool → OracleResult
result_of none n truncated = record {
  feasible = false;
  assignment = none;
  objective_value = none;
  checked_assignments = n;
  truncated = truncated;
}
result_of (some (score, a)) n truncated = record {
  feasible = true;
  assignment = some a;
  objective_value = some score;
  checked_assignments = n;
  truncated = truncated;
}

-- The loop over the product; `n` are checked.
unfoldable pub enumerate : PlanRequest → ℕ → List (List ℕ) → Best → ℕ → Result OracleResult
unfolding improve assignment_of
enumerate r limit [] best n = ok (result_of best n false)
enumerate r limit (values ∷ rest) best n = do
  best' ← improve r best (assignment_of r values)
  if leb limit (suc n)
      then ok (result_of best' (suc n) true)
      else enumerate r limit rest best' (suc n)

unfoldable pub enumerate_optimum : PlanRequest → ℕ → Result OracleResult
unfolding enumerate product choices
enumerate_optimum r limit = enumerate r limit (product (map (choices r) r.courses)) none 0
