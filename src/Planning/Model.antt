-- ===== src/Planning/Model.antt =====
-- src/boiler_reviews/planning/model.py. A frozenset is the list of its members. `TermSpec` refuses an
-- index below one and negative credits, so terms and their bounds are natural numbers; 0 in an
-- assignment stands for a course that is not planned.
use boiler_reviews.Prelude.{
  ℕ, String, Bool, true, false, Option, List, [], ◌∷◌, ◌++◌, map, length, ◌==◌, nat_eq, string_eq,
  ◌&&◌, ◌||◌, not, if◌then◌else◌, contains, concat, ltb,
}
use boiler_reviews.Prelude.Int.{ℤ, pos, ltb_ℤ}
use boiler_reviews.Prelude.Decimal.{str_nat}
use boiler_reviews.Prelude.Table.{find, is_some}
use boiler_reviews.Prelude.Dict.{dict_of}
use boiler_reviews.Exec.Errors.{Result, ok, err, value_error}
use boiler_reviews.Catalog.Ast.{Expr}

pub record TermSpec : Type 0 where
  pub id : String
  pub index : ℕ
  pub min_credits : ℕ
  pub max_credits : ℕ

-- `__post_init__`
abbrev pub new_term : TermSpec → Result TermSpec
new_term t =
    if ltb t.index 1 || ltb t.max_credits t.min_credits
    then err (value_error "term bounds are invalid")
    else ok t

pub record CourseSpec : Type 0 where
  pub code : String
  pub credit_units : ℤ
  pub available_terms : List ℕ
  pub prerequisites : Option Expr
  pub workload_hours : ℤ
  pub preference_score : ℤ
  pub co_requisites : List String
  pub requirement_groups : List String

pub record RequirementGroup : Type 0 where
  pub id : String
  pub label : String
  pub course_codes : List String
  pub min_courses : ℤ
  pub min_credits : ℤ
  pub allow_double_counting : Bool

pub record PlanRequest : Type 0 where
  pub courses : List CourseSpec
  pub terms : List TermSpec
  pub requirements : List RequirementGroup
  pub completed : List String
  pub completed_credits : ℤ
  pub grades : List (String × String)
  pub permissions : List String
  pub placements : List String
  pub pinned : List (String × ℕ)
  pub excluded : List String
  pub objective : String

-- A course code and its term.
abbrev pub Assignment : Type 0
Assignment = List (String × ℕ)

abbrev pub course_code : CourseSpec → String
course_code c = c.code

abbrev pub term_index : TermSpec → ℕ
term_index t = t.index

abbrev pub group_id : RequirementGroup → String
group_id g = g.id

unfoldable pub course_map : PlanRequest → List CourseSpec
unfolding dict_of
course_map r = dict_of course_code r.courses

unfoldable pub term_map : PlanRequest → List TermSpec
unfolding dict_of
term_map r = dict_of term_index r.terms

-- `course_map.get(code)`
abbrev pub course_at : String → PlanRequest → Option CourseSpec
course_at code r = find course_code code (course_map r)

abbrev pub is_course : PlanRequest → String → Bool
is_course r code = is_some (course_at code r)

abbrev pub is_term : PlanRequest → ℕ → Bool
is_term r index = is_some (find term_index index (term_map r))

abbrev pub report : Bool → List String → List String
report true message = concat message ∷ []
report false message = []

abbrev pub pin_errors : PlanRequest → List (String × ℕ) → List String
pin_errors r [] = []
pin_errors r ((code, index) ∷ pins) =
    (if is_course r code
      then report (not (is_term r index))
          ("pinned course " ∷ code ∷ " references unknown term " ∷ str_nat index ∷ [])
      else report true ("pinned course " ∷ code ∷ " is not in the catalog" ∷ []))
    ++ pin_errors r pins

abbrev pub unknown_groups : PlanRequest → String → List String → List String
unknown_groups r code [] = []
unknown_groups r code (g ∷ groups) =
    report (not (contains (map group_id r.requirements) g))
      (code ∷ " references unknown requirement group " ∷ g ∷ [])
    ++ unknown_groups r code groups

abbrev pub unknown_coreqs : PlanRequest → String → List String → List String
unknown_coreqs r code [] = []
unknown_coreqs r code (c ∷ coreqs) =
    report (not (is_course r c) && not (contains r.completed c))
      (code ∷ " references unknown co-requisite " ∷ c ∷ [])
    ++ unknown_coreqs r code coreqs

abbrev pub course_errors : PlanRequest → List CourseSpec → List String
course_errors r [] = []
course_errors r (c ∷ courses) =
    report (not (ltb_ℤ (pos 0) c.credit_units)) (c.code ∷ " has non-positive credits" ∷ [])
    ++ (unknown_groups r c.code c.requirement_groups
        ++ (unknown_coreqs r c.code c.co_requisites ++ course_errors r courses))

unfoldable pub validate_input : PlanRequest → List String
unfolding course_map term_map
validate_input r =
    report (not (length (course_map r) == length r.courses)) ("duplicate course identity" ∷ [])
    ++ (report (not (length (term_map r) == length r.terms)) ("duplicate term index" ∷ [])
        ++ (pin_errors r r.pinned ++ course_errors r r.courses))
