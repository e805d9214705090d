-- ===== src/Catalog/Evaluate.antt =====
-- `evaluate` of src/boiler_reviews/catalog/graph.py. A reason is the message's template with the
-- values that fill it in; grade points are in tenths.
use boiler_reviews.Prelude.{
  ℕ, String, Bool, true, false, List, [], ◌∷◌, ◌++◌, ◌==◌, string_eq, ◌&&◌, ◌||◌, if◌then◌else◌,
  contains, any, all, leb,
}
use boiler_reviews.Prelude.Int.{ℤ, ltb_ℤ}
use boiler_reviews.Catalog.Ast.{
  CourseRef, Expr, Exprs, course_ref, all_of, any_of, co_requisite, grade_at_least,
  credits_at_least, predicate, nil, cons,
}

pub data State : Type 0 where
  satisfied unsatisfied unknown : State

pub data Reason : Type 0 where
  completed_or_corequisite complete_first : String → Reason
  grade_meets requires_grade supplied not_verified : String → String → Reason
  requires_credits : ℤ → Reason

pub record Eligibility : Type 0 where
  pub state : State
  pub reasons : List Reason

-- The keyword arguments of `evaluate`.
pub record Student : Type 0 where
  pub completed : List String
  pub in_term : List String
  pub earned_credits : ℤ
  pub permissions : List String
  pub placements : List String
  pub grades : List (String × String)

-- `d.get(key, default)`
unfoldable pub get_or : {A : Type 0} → A → String → List (String × A) → A
get_or default key [] = default
get_or default key ((k, a) ∷ d) = if k == key then a else get_or default key d

abbrev pub order : List (String × ℕ)
order =
    ("A+", 43)
    ∷ ("A", 40)
    ∷ ("A-", 37)
    ∷ ("B+", 33)
    ∷ ("B", 30)
    ∷ ("B-", 27)
    ∷ ("C+", 23)
    ∷ ("C", 20)
    ∷ ("C-", 17)
    ∷ ("D", 10)
    ∷ ("F", 0)
    ∷ []

-- Whether the course's grade, F if there is none, is as good as the one that is asked for.
unfoldable pub grade_meets_order : String → String → List (String × String) → Bool
unfolding get_or
grade_meets_order code grade grades =
    leb (get_or 0 grade order) (get_or 0 (get_or "F" code grades) order)

abbrev pub values_of : String → Student → List String
values_of kind s = if kind == "permission" then s.permissions else s.placements

abbrev pub is_satisfied : Eligibility → Bool
is_satisfied e = elim e.state [ satisfied ↦ true | unsatisfied ↦ false | unknown ↦ false ]

abbrev pub is_unsatisfied : Eligibility → Bool
is_unsatisfied e = elim e.state [ satisfied ↦ false | unsatisfied ↦ true | unknown ↦ false ]

abbrev pub is_unknown : Eligibility → Bool
is_unknown e = elim e.state [ satisfied ↦ false | unsatisfied ↦ false | unknown ↦ true ]

abbrev pub all_reasons : List Eligibility → List Reason
all_reasons [] = []
all_reasons (r ∷ results) = r.reasons ++ all_reasons results

abbrev pub decided : State → List Reason → Eligibility
decided state reasons = record { state = state; reasons = reasons }

-- The branch of `AllOf`.
unfoldable pub conjunction : List Eligibility → Eligibility
conjunction results =
    if any is_unsatisfied results
    then decided unsatisfied (all_reasons results)
    else if any is_unknown results
    then decided unknown (all_reasons results)
    else decided satisfied (all_reasons results)

-- The branch of `AnyOf`.
unfoldable pub disjunction : List Eligibility → Eligibility
disjunction results =
    if any is_satisfied results
    then decided satisfied (all_reasons results)
    else if all is_unsatisfied results
    then decided unsatisfied (all_reasons results)
    else decided unknown (all_reasons results)

unfoldable pub evaluate_course : CourseRef → Student → Eligibility
evaluate_course c s =
    if contains s.completed c.code || contains s.in_term c.code
    then decided satisfied (completed_or_corequisite c.code ∷ [])
    else decided unsatisfied (complete_first c.code ∷ [])

unfoldable pub evaluate_grade : CourseRef → String → Student → Eligibility
unfolding grade_meets_order
evaluate_grade c grade s =
    if contains s.completed c.code && grade_meets_order c.code grade s.grades
    then decided satisfied (grade_meets c.code grade ∷ [])
    else decided unsatisfied (requires_grade c.code grade ∷ [])

unfoldable pub evaluate_credits : ℤ → Student → Eligibility
evaluate_credits credits s =
    decided (if ltb_ℤ s.earned_credits credits then unsatisfied else satisfied)
      (requires_credits credits ∷ [])

unfoldable pub evaluate_predicate : String → String → Student → Eligibility
evaluate_predicate kind value s =
    if contains (values_of kind s) value
    then decided satisfied (supplied kind value ∷ [])
    else decided unknown (not_verified kind value ∷ [])

unfoldable mutual
  pub evaluate : Expr → Student → Eligibility
  evaluate (course_ref c) s = evaluate_course c s
  evaluate (grade_at_least c grade) s = evaluate_grade c grade s
  evaluate (credits_at_least credits) s = evaluate_credits credits s
  evaluate (predicate kind value) s = evaluate_predicate kind value s
  evaluate (all_of items) s = conjunction (evaluate_items items s)
  evaluate (any_of items) s = disjunction (evaluate_items items s)
  evaluate (co_requisite items) s = conjunction (evaluate_items items s)

  pub evaluate_items : Exprs → Student → List Eligibility
  evaluate_items nil s = []
  evaluate_items (cons e items) s = evaluate e s ∷ evaluate_items items s
