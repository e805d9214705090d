-- ===== src/Catalog/Tests.antt =====
-- Prerequisites at concrete inputs.
use boiler_reviews.Prelude.{◌≡◌, refl, String, true, false, Option, none, [], ◌∷◌}
use boiler_reviews.Prelude.Int.{ℤ, pos}
use boiler_reviews.Prelude.Json.{Json}
use boiler_reviews.Exec.Errors.{ok}
use boiler_reviews.Catalog.Ast.{
  Expr, course_ref, all_of, any_of, grade_at_least, predicate, nil, cons,
}
use boiler_reviews.Catalog.Evaluate.{
  Student, unknown, evaluate, evaluate_course, evaluate_grade, evaluate_predicate, conjunction,
  disjunction, get_or, grade_meets_order,
}
use boiler_reviews.Catalog.Kleene.{holds, verdict, evaluate-state}
use boiler_reviews.Catalog.Codec.{as_dict, expr_from_dict}
use boiler_reviews.Catalog.RoundTrip.{expr_from_dict-as_dict, IsWellFormed}

-- (MA 161 with a C, or department permission) and CS 180.
abbrev sample : Expr
sample = all_of (
    cons
      (any_of (
        cons (grade_at_least (record { code = "MA 161" }) "C")
          (cons (predicate "permission" "CS") nil)))
      (cons (course_ref (record { code = "CS 180" })) nil))

abbrev student : Student
student = record {
  completed = "MA 161" ∷ "CS 180" ∷ [];
  in_term = [];
  earned_credits = pos 30;
  permissions = [];
  placements = [];
  grades = ("MA 161", "D") ∷ [];
}

sample_unknown : (evaluate sample student).state ≡ unknown
unfolding evaluate evaluate_course evaluate_grade evaluate_predicate conjunction disjunction
    grade_meets_order get_or
sample_unknown = refl

evaluate-state_example :
    (evaluate sample student).state
    ≡ verdict (holds false student sample) (holds true student sample)
evaluate-state_example = evaluate-state student sample

abbrev no_text : Json → String
no_text v = "{}"

abbrev no_int : String → Option ℤ
no_int s = none

expr_from_dict-as_dict_example : expr_from_dict no_text no_int (as_dict sample) ≡ ok sample
unfolding IsWellFormed
expr_from_dict-as_dict_example =
    expr_from_dict-as_dict no_text no_int sample ((tt, (refl, tt)), (tt, tt))
