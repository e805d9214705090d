-- ===== src/Planning/Validator.antt =====
-- `_evaluate` and `validate_plan` of src/boiler_reviews/planning/validator.py.
use boiler_reviews.Prelude.{
  ℕ, zero, suc, String, Bool, true, false, Option, none, some, List, [], ◌∷◌, ◌++◌, map, length,
  ◌==◌, nat_eq, string_eq, ◌&&◌, not, if◌then◌else◌, contains, any, all, select, concat, join, ltb,
}
use boiler_reviews.Prelude.Int.{ℤ, pos, ltb_ℤ, ◌+ℤ◌}
use boiler_reviews.Prelude.Decimal.{str_nat, str_int, floor_div}
use boiler_reviews.Prelude.Dict.{lookup, distinct}
use boiler_reviews.Catalog.Ast.{
  Expr, Exprs, course_ref, all_of, any_of, co_requisite, grade_at_least, credits_at_least,
  predicate, nil, cons,
}
use boiler_reviews.Catalog.Evaluate.{grade_meets_order}
use boiler_reviews.Planning.Model.{
  TermSpec, CourseSpec, RequirementGroup, PlanRequest, Assignment, course_map, term_map, course_at,
  is_course, is_term, report, validate_input,
}

pub record ValidationResult : Type 0 where
  pub valid : Bool
  pub violations : List String

abbrev pub sum : List ℤ → ℤ
sum [] = pos 0
sum (n ∷ ns) = n +ℤ sum ns

abbrev pub is_empty_list {ℓ} : {A : Type ℓ} → List A → Bool
is_empty_list [] = true
is_empty_list (x ∷ xs) = false

abbrev units_of : Option CourseSpec → ℤ
units_of none = pos 0
units_of (some c) = c.credit_units

-- The credits of the entries that `p` selects, in thousandths; other codes than the request's are skipped.
abbrev pub units : PlanRequest → (String → ℕ → Bool) → Assignment → ℤ
units r p [] = pos 0
units r p ((code, term) ∷ a) =
    if p code term && is_course r code
    then units_of (course_at code r) +ℤ units r p a
    else units r p a

abbrev pub credits : PlanRequest → (String → ℕ → Bool) → Assignment → ℤ
credits r p a = floor_div (units r p a) 1000

abbrev pub Check : Type 0
Check = Bool × List String

-- `not ok` comes with its message.
abbrev pub checked : Bool → List String → Check
checked ok message = (ok, report (not ok) message)

abbrev pub when_planned : Bool → ℕ → ℕ → Bool
when_planned true planned target = planned == target
when_planned false planned target = ltb planned target

abbrev relation_text : Bool → String
relation_text true = "in"
relation_text false = "before"

abbrev placed : String → Bool → ℕ → Option ℕ → Check
placed code coreq target none = checked false (code ∷ " is not completed or scheduled" ∷ [])
placed code coreq target (some zero) = checked false (code ∷ " is not completed or scheduled" ∷ [])
placed code coreq target (some (suc n)) =
    checked (when_planned coreq (suc n) target)
      (code ∷ " must be " ∷ relation_text coreq ∷ " term " ∷ str_nat target ∷ [])

unfoldable pub check_course : PlanRequest → Assignment → Bool → ℕ → String → Check
unfolding lookup
check_course r a coreq target code =
    if contains r.completed code then (true, []) else placed code coreq target (lookup code a)

unfoldable pub check_grade : PlanRequest → String → String → Check
unfolding grade_meets_order
check_grade r code grade =
    if contains r.completed code
    then checked (grade_meets_order code grade r.grades) (code ∷ " grade is below " ∷ grade ∷ [])
    else checked false (code ∷ " must be completed with grade " ∷ grade ∷ [])

-- `term and term < target_term`
abbrev pub is_before : ℕ → String → ℕ → Bool
is_before target code term = not (term == 0) && ltb term target

unfoldable pub check_credits : PlanRequest → Assignment → ℕ → ℤ → Check
unfolding course_map
check_credits r a target n =
    checked (not (ltb_ℤ (r.completed_credits +ℤ credits r (is_before target) a) n))
      ("at least " ∷ str_int n ∷ " credits must be earned before term " ∷ str_nat target ∷ [])

unfoldable pub check_predicate : PlanRequest → String → String → Check
check_predicate r kind value =
    checked (contains (if kind == "permission" then r.permissions else r.placements) value)
      (kind ∷ " " ∷ value ∷ " is unresolved" ∷ [])

abbrev pub all_reasons : List Check → List String
all_reasons [] = []
all_reasons ((ok, reasons) ∷ results) = reasons ++ all_reasons results

abbrev pub is_ok : Check → Bool
is_ok (ok, reasons) = ok

-- `_evaluate` of an expression that is there.
unfoldable mutual
  pub check : PlanRequest → Assignment → Bool → ℕ → Expr → Check
  check r a coreq target (course_ref c) = check_course r a coreq target c.code
  check r a coreq target (grade_at_least c grade) = check_grade r c.code grade
  check r a coreq target (credits_at_least n) = check_credits r a target n
  check r a coreq target (predicate kind value) = check_predicate r kind value
  check r a coreq target (all_of items) =
      let results = check_items r a coreq target items in (all is_ok results, all_reasons results)
  check r a coreq target (any_of items) =
      let results = check_items r a coreq target items in (any is_ok results, all_reasons results)
  check r a coreq target (co_requisite items) =
      let results = check_items r a true target items in (all is_ok results, all_reasons results)

  pub check_items : PlanRequest → Assignment → Bool → ℕ → Exprs → List Check
  check_items r a coreq target nil = []
  check_items r a coreq target (cons e items) =
      check r a coreq target e ∷ check_items r a coreq target items

-- `f"{code}: {reason}"`
abbrev prefixed : String → List String → List String
prefixed code reasons = map (λ reason. concat (code ∷ ": " ∷ reason ∷ [])) reasons

abbrev pub prerequisite_errors : PlanRequest → Assignment → String → ℕ → Option Expr → List String
prerequisite_errors r a code term none = []
prerequisite_errors r a code term (some e) =
    let (ok, reasons) = check r a false term e in if ok then [] else prefixed code reasons

abbrev pub pin_violated : PlanRequest → String → ℕ → Option ℕ → List String
pin_violated r code term none = []
pin_violated r code term (some pin) =
    report (not (pin == term)) (code ∷ " violates pinned term " ∷ str_nat pin ∷ [])

abbrev pub elsewhere : ℕ → Option ℕ → Bool
elsewhere term none = false
elsewhere term (some other) = not (other == term)

abbrev pub coreq_error : Assignment → String → ℕ → String → List String
coreq_error a code term c =
    report (elsewhere term (lookup c a))
      (code ∷ " and " ∷ c ∷ " must be co-requisite in term " ∷ str_nat term ∷ [])

-- The body of the loop from `if term == 0` on.
unfoldable pub planned_errors : PlanRequest → Assignment → CourseSpec → String → ℕ → List String
unfolding check lookup
planned_errors r a c code zero = []
planned_errors r a c code (suc n) = join (
    report (not (is_empty_list c.available_terms) && not (contains c.available_terms (suc n)))
      (code ∷ " is unavailable in term " ∷ str_nat (suc n) ∷ [])
    ∷ report (contains r.excluded code) (code ∷ " is excluded" ∷ [])
    ∷ pin_violated r code (suc n) (lookup code r.pinned)
    ∷ prerequisite_errors r a code (suc n) c.prerequisites
    ∷ join (map (coreq_error a code (suc n)) c.co_requisites)
    ∷ [])

unfoldable pub entry_errors :
    PlanRequest → Assignment → String → ℕ → Option CourseSpec → List String
unfolding planned_errors term_map lookup
entry_errors r a code term none = []
entry_errors r a code term (some c) = join (
    report (not (is_term r term) && not (term == 0))
      (code ∷ " uses unknown term " ∷ str_nat term ∷ [])
    ∷ pin_violated r code term (lookup code r.pinned)
    ∷ planned_errors r a c code term
    ∷ [])

unfoldable pub assignment_errors : PlanRequest → Assignment → Assignment → List String
unfolding entry_errors course_map
assignment_errors r a entries = join (map (λ p. entry_errors r a p.0 p.1 (course_at p.0 r)) entries)

abbrev pub is_in : ℕ → String → ℕ → Bool
is_in index code term = term == index

unfoldable pub term_error : PlanRequest → Assignment → TermSpec → List String
unfolding course_map
term_error r a t =
    let n = credits r (is_in t.index) a in
    join (
      report (ltb_ℤ n (pos t.min_credits)) (
        "term "
        ∷ str_nat t.index
        ∷ " has "
        ∷ str_int n
        ∷ " credits below minimum "
        ∷ str_nat t.min_credits
        ∷ [])
      ∷ report (ltb_ℤ (pos t.max_credits) n) (
          "term "
          ∷ str_nat t.index
          ∷ " has "
          ∷ str_int n
          ∷ " credits above maximum "
          ∷ str_nat t.max_credits
          ∷ [])
      ∷ [])

-- The codes of the group that are planned.
abbrev pub is_selected : PlanRequest → RequirementGroup → String × ℕ → Bool
is_selected r g (code, term) = not (term == 0) && is_course r code && contains g.course_codes code

abbrev pub selected_codes : PlanRequest → RequirementGroup → Assignment → List String
selected_codes r g a = map (λ p. p.0) (select (is_selected r g) a)

abbrev pub course_units : PlanRequest → List String → List ℤ
course_units r codes = map (λ code. units_of (course_at code r)) codes

-- The loop over `selected`: the codes that are allocated, and the violations.
abbrev pub allocate : List String → List String → List String × List String
allocate allocated [] = (allocated, [])
allocate allocated (code ∷ codes) =
    let (allocated', errors) =
      allocate (if contains allocated code then allocated else code ∷ allocated) codes in
    (
      allocated',
      report (contains allocated code) (code ∷ " is allocated to multiple requirement groups" ∷ [])
          ++ errors,
    )

abbrev pub allocate_unless : Bool → List String → List String → List String × List String
allocate_unless true allocated codes = (allocated, [])
allocate_unless false allocated codes = allocate allocated codes

abbrev pub requirement_credits : PlanRequest → Assignment → RequirementGroup → ℤ
requirement_credits r a g = floor_div (sum (course_units r (selected_codes r g a))) 1000

unfoldable pub requirement_errors :
    PlanRequest → Assignment → List String → List RequirementGroup → List String
unfolding course_map
requirement_errors r a allocated [] = []
requirement_errors r a allocated (g ∷ groups) =
    let selected = selected_codes r g a in
    let n = requirement_credits r a g in
    let (allocated', errors) = allocate_unless g.allow_double_counting allocated selected in
    join (
      report (ltb_ℤ (pos (length selected)) g.min_courses) (
        "requirement "
        ∷ g.label
        ∷ " needs "
        ∷ str_int g.min_courses
        ∷ " course(s), got "
        ∷ str_nat (length selected)
        ∷ [])
      ∷ report (ltb_ℤ n g.min_credits) (
          "requirement "
          ∷ g.label
          ∷ " needs "
          ∷ str_int g.min_credits
          ∷ " credits, got "
          ∷ str_int n
          ∷ [])
      ∷ errors
      ∷ requirement_errors r a allocated' groups
      ∷ [])

unfoldable pub plan_errors : PlanRequest → Assignment → List String
unfolding validate_input assignment_errors term_error requirement_errors
plan_errors r a = join (
    validate_input r
    ∷ report (any (λ p. not (is_course r p.0)) a)
        ("plan contains a course outside the request" ∷ [])
    ∷ assignment_errors r a a
    ∷ join (map (term_error r a) (term_map r))
    ∷ requirement_errors r a [] r.requirements
    ∷ [])

unfoldable pub validate_plan : PlanRequest → Assignment → ValidationResult
unfolding plan_errors distinct
validate_plan r a = record {
  valid = is_empty_list (plan_errors r a);
  violations = distinct (plan_errors r a);
}
