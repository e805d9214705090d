-- ===== src/Planning/Met.antt =====
-- When a plan meets a prerequisite, without the messages; and `_evaluate` gives a reason whenever it
-- says no, if no choice is empty.
use boiler_reviews.Prelude.{
  ℕ, zero, suc, ◌≡◌, refl, String, Bool, true, false, Option, none, some, List, [], ◌∷◌, ◌++◌, ◌==◌,
  nat_eq, string_eq, ◌&&◌, ◌||◌, not, arith, if◌then◌else◌, contains, any, all, inl, inr,
  Bool-cases, Option-cases,
}
use boiler_reviews.Prelude.Int.{ltb_ℤ, ◌+ℤ◌}
use boiler_reviews.Prelude.Dict.{lookup}
use boiler_reviews.Catalog.Ast.{
  Expr, Exprs, course_ref, all_of, any_of, co_requisite, grade_at_least, credits_at_least,
  predicate, nil, cons,
}
use boiler_reviews.Catalog.Evaluate.{grade_meets_order}
use boiler_reviews.Planning.Model.{PlanRequest, Assignment}
use boiler_reviews.Planning.Validator.{
  Check, is_ok, all_reasons, checked, credits, is_before, is_empty_list, check, check_items,
  check_course, check_grade, check_credits, check_predicate, when_planned,
}

-- The course is planned, and in the term or before it.
abbrev pub is_timely : Bool → ℕ → Option ℕ → Bool
is_timely coreq target none = false
is_timely coreq target (some term) = not (term == 0) && when_planned coreq term target

unfoldable mutual
  pub met : PlanRequest → Assignment → Bool → ℕ → Expr → Bool
  met r a coreq target (course_ref c) =
      contains r.completed c.code || is_timely coreq target (lookup c.code a)
  met r a coreq target (grade_at_least c grade) =
      contains r.completed c.code && grade_meets_order c.code grade r.grades
  met r a coreq target (credits_at_least n) =
      not (ltb_ℤ (r.completed_credits +ℤ credits r (is_before target) a) n)
  met r a coreq target (predicate kind value) =
      contains (if kind == "permission" then r.permissions else r.placements) value
  met r a coreq target (all_of items) = all_met r a coreq target items
  met r a coreq target (any_of items) = any_met r a coreq target items
  met r a coreq target (co_requisite items) = all_met r a true target items

  pub all_met : PlanRequest → Assignment → Bool → ℕ → Exprs → Bool
  all_met r a coreq target nil = true
  all_met r a coreq target (cons e items) = met r a coreq target e && all_met r a coreq target items

  pub any_met : PlanRequest → Assignment → Bool → ℕ → Exprs → Bool
  any_met r a coreq target nil = false
  any_met r a coreq target (cons e items) = met r a coreq target e || any_met r a coreq target items

abbrev has_items : Exprs → Bool
has_items nil = false
has_items (cons e items) = true

-- No choice between no alternatives.
unfoldable mutual
  pub has_choices : Expr → Bool
  has_choices (course_ref c) = true
  has_choices (grade_at_least c grade) = true
  has_choices (credits_at_least n) = true
  has_choices (predicate kind value) = true
  has_choices (all_of items) = all_have_choices items
  has_choices (co_requisite items) = all_have_choices items
  has_choices (any_of items) = has_items items && all_have_choices items

  pub all_have_choices : Exprs → Bool
  all_have_choices nil = true
  all_have_choices (cons e items) = has_choices e && all_have_choices items

check_course-met :
    (r : PlanRequest) (a : Assignment) (coreq : Bool) (target : ℕ) (code : String)
    → is_ok (check_course r a coreq target code)
      ≡ (contains r.completed code || is_timely coreq target (lookup code a))
unfolding check_course
check_course-met r a coreq target code = elim (Option-cases (lookup code a)) [
  | inl missing ↦ rw missing (ground arith)
  | inr (zero, found) ↦ rw found (ground arith)
  | inr (suc n, found) ↦ rw found (ground arith)
]

check_grade-met :
    (r : PlanRequest) (code grade : String)
    → is_ok (check_grade r code grade)
      ≡ (contains r.completed code && grade_meets_order code grade r.grades)
unfolding check_grade
check_grade-met r code grade = elim (Bool-cases (contains r.completed code)) [
  | inl done ↦ rw done
  | inr undone ↦ rw undone
]

mutual
  unfolding check met check_credits check_predicate

  -- The first component of `_evaluate` is whether the prerequisite is met.
  pub check-met :
      (r : PlanRequest) (a : Assignment) (coreq : Bool) (target : ℕ) (e : Expr)
      → is_ok (check r a coreq target e) ≡ met r a coreq target e
  check-met r a coreq target (course_ref c) = check_course-met r a coreq target c.code
  check-met r a coreq target (grade_at_least c grade) = check_grade-met r c.code grade
  check-met r a coreq target (credits_at_least n) = refl
  check-met r a coreq target (predicate kind value) = refl
  check-met r a coreq target (all_of items) = all-met r a coreq target items
  check-met r a coreq target (any_of items) = any-met r a coreq target items
  check-met r a coreq target (co_requisite items) = all-met r a true target items

  all-met :
      (r : PlanRequest) (a : Assignment) (coreq : Bool) (target : ℕ) (items : Exprs)
      → all is_ok (check_items r a coreq target items) ≡ all_met r a coreq target items
  all-met r a coreq target nil = refl
  all-met r a coreq target (cons e items) =
      rw (check-met r a coreq target e, all-met r a coreq target items) refl

  any-met :
      (r : PlanRequest) (a : Assignment) (coreq : Bool) (target : ℕ) (items : Exprs)
      → any is_ok (check_items r a coreq target items) ≡ any_met r a coreq target items
  any-met r a coreq target nil = refl
  any-met r a coreq target (cons e items) =
      rw (check-met r a coreq target e, any-met r a coreq target items) refl

-- A check that says no has a reason.
abbrev pub Explains : Check → Type 0
Explains (ok, reasons) = is_empty_list reasons ≡ true → ok ≡ true

pub checked-Explains : (ok : Bool) (message : List String) → Explains (checked ok message)
checked-Explains true message h = refl
checked-Explains false message h = absurd (cc)

check_course-Explains :
    (r : PlanRequest) (a : Assignment) (coreq : Bool) (target : ℕ) (code : String)
    → Explains (check_course r a coreq target code)
unfolding check_course
check_course-Explains r a coreq target code h = elim (Option-cases (lookup code a)) [
  | inl missing ↦ ground (arith, missing)
  | inr (zero, found) ↦ ground (arith, found)
  | inr (suc n, found) ↦ ground (arith, found)
]

check_grade-Explains : (r : PlanRequest) (code grade : String) → Explains (check_grade r code grade)
unfolding check_grade
check_grade-Explains r code grade = elim (Bool-cases (contains r.completed code)) [
  | inl done ↦ rw done (checked-Explains _ _)
  | inr undone ↦
      rw undone (checked-Explains false (code ∷ " must be completed with grade " ∷ grade ∷ []))
]

pub is_empty_list-append :
    {A : Type 0} (xs ys : List A)
    → is_empty_list (xs ++ ys) ≡ (is_empty_list xs && is_empty_list ys)
is_empty_list-append [] ys = refl
is_empty_list-append (x ∷ xs) ys = refl

mutual
  unfolding check has_choices check_credits check_predicate

  pub check-Explains :
      (r : PlanRequest) (a : Assignment) (coreq : Bool) (target : ℕ) (e : Expr)
      → has_choices e ≡ true
      → Explains (check r a coreq target e)
  check-Explains r a coreq target (course_ref c) w = check_course-Explains r a coreq target c.code
  check-Explains r a coreq target (grade_at_least c grade) w = check_grade-Explains r c.code grade
  check-Explains r a coreq target (credits_at_least n) w = checked-Explains _ _
  check-Explains r a coreq target (predicate kind value) w = checked-Explains _ _
  check-Explains r a coreq target (all_of items) w = all-explains r a coreq target items w
  check-Explains r a coreq target (co_requisite items) w = all-explains r a true target items w
  check-Explains r a coreq target (any_of items) w = any-explains r a coreq target items w

  any-explains :
      (r : PlanRequest) (a : Assignment) (coreq : Bool) (target : ℕ) (items : Exprs)
      → (has_items items && all_have_choices items) ≡ true
      → is_empty_list (all_reasons (check_items r a coreq target items)) ≡ true
      → any is_ok (check_items r a coreq target items) ≡ true
  any-explains r a coreq target nil w h = absurd (cc)
  any-explains r a coreq target (cons e items) w h =
      let said : is_empty_list (check r a coreq target e).1 ≡ true = ground (
        arith,
        is_empty_list-append (check r a coreq target e).1
            (all_reasons (check_items r a coreq target items)),
      ) in
      ground (arith, check-Explains r a coreq target e (ground arith) said)

  all-explains :
      (r : PlanRequest) (a : Assignment) (coreq : Bool) (target : ℕ) (items : Exprs)
      → all_have_choices items ≡ true
      → is_empty_list (all_reasons (check_items r a coreq target items)) ≡ true
      → all is_ok (check_items r a coreq target items) ≡ true
  all-explains r a coreq target nil w h = refl
  all-explains r a coreq target (cons e items) w h =
      let both =
        is_empty_list-append (check r a coreq target e).1
          (all_reasons (check_items r a coreq target items)) in
      let first : is_ok (check r a coreq target e) ≡ true =
        check-Explains r a coreq target e (ground arith) (ground (arith, both)) in
      let rest = all-explains r a coreq target items (ground arith) (ground (arith, both)) in
      rw (first, rest) refl
