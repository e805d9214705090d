-- ===== src/Planning/Tests.antt =====
-- Plans at concrete inputs: two courses, the second after the first, in two terms.
use boiler_reviews.Prelude.{
  ◌≡◌, ◌≤◌, ℕ, refl, String, Bool, true, false, none, some, List, [], ◌∷◌, map, length, join,
}
use boiler_reviews.Prelude.Int.{pos, ◌+ℤ◌, ◌-ℤ◌}
use boiler_reviews.Prelude.Dict.{lookup, dict_of, distinct}
use boiler_reviews.Prelude.Table.{find}
use boiler_reviews.Prelude.Decimal.{digits}
use boiler_reviews.Exec.Errors.{ok}
use boiler_reviews.Catalog.Ast.{course_ref}
use boiler_reviews.Planning.Model.{
  PlanRequest, CourseSpec, TermSpec, Assignment, course_map, term_map, validate_input,
}
use boiler_reviews.Planning.Validator.{
  validate_plan, plan_errors, assignment_errors, entry_errors, planned_errors, term_error,
  requirement_errors, check, check_course,
}
use boiler_reviews.Planning.Constraints.{IsPlan}
use boiler_reviews.Planning.Sound.{validate_plan-IsPlan}
use boiler_reviews.Planning.Oracle.{
  enumerate_optimum, enumerate, improve, objective_value, assignment_of, product, choices,
  result_of, Best,
}
use boiler_reviews.Planning.Turns.{IsAttained, Bounds}
use boiler_reviews.Planning.Optimum.{enumerate_optimum_lem, Picks}

abbrev first_course : CourseSpec
first_course = record {
  code = "AA101";
  credit_units = pos 3000;
  available_terms = 1 ∷ [];
  prerequisites = none;
  workload_hours = pos 3;
  preference_score = pos 0;
  co_requisites = [];
  requirement_groups = "core" ∷ [];
}

abbrev second_course : CourseSpec
second_course = record first_course {
  code = "BB101";
  available_terms = 2 ∷ [];
  prerequisites = some (course_ref (record { code = "AA101" }));
}

abbrev term : String → ℕ → TermSpec
term id index = record { id = id; index = index; min_credits = 0; max_credits = 3 }

abbrev request : PlanRequest
request = record {
  courses = first_course ∷ second_course ∷ [];
  terms = term "t1" 1 ∷ term "t2" 2 ∷ [];
  requirements =
      record {
        id = "core";
        label = "Core";
        course_codes = "AA101" ∷ "BB101" ∷ [];
        min_courses = pos 2;
        min_credits = pos 6;
        allow_double_counting = false;
      }
      ∷ [];
  completed = [];
  completed_credits = pos 0;
  grades = [];
  permissions = [];
  placements = [];
  pinned = [];
  excluded = [];
  objective = "earliest_completion";
}

abbrev plan : Assignment
plan = ("AA101", 1) ∷ ("BB101", 2) ∷ []

plan_valid : (validate_plan request plan).valid ≡ true
unfolding validate_plan plan_errors validate_input assignment_errors entry_errors planned_errors
    term_error requirement_errors check check_course course_map term_map dict_of lookup join ◌+ℤ◌
    find
plan_valid = refl

validate_plan-IsPlan_example : IsPlan request plan
validate_plan-IsPlan_example = validate_plan-IsPlan request plan plan_valid

enumerate_optimum_lem_example :
    (best : Best) × (checked : ℕ) × (truncated : Bool) × (enumerate_optimum request 100
      ≡ ok (result_of best checked truncated))
    × IsAttained request best
    × (truncated ≡ false
        → (values : List ℕ) → Picks (map (choices request) request.courses) values
        → Bounds request best values)
    × (truncated ≡ false → checked ≡ length (product (map (choices request) request.courses)))
    × (truncated ≡ true → 100 ≤ checked)
enumerate_optimum_lem_example = enumerate_optimum_lem request 100 (λ e. cc)

enumerate_runs : enumerate_optimum request 100 ≡ ok (result_of (some (pos 3, plan)) 4 false)
unfolding enumerate_optimum enumerate improve objective_value assignment_of product choices distinct
    validate_plan plan_errors validate_input assignment_errors entry_errors planned_errors
    term_error requirement_errors check check_course course_map term_map dict_of lookup join ◌+ℤ◌
    ◌-ℤ◌ digits find
enumerate_runs = refl
