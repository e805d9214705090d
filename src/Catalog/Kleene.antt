-- ===== src/Catalog/Kleene.antt =====
-- The three states of `evaluate` against a plain reading of the expression in two cases: nothing more
-- is granted to the student, or every permission and placement is.
use boiler_reviews.Prelude.{
  ◌≡◌, refl, Bool, true, false, List, arith, string_eq, ◌&&◌, ◌||◌, not, if◌then◌else◌, contains,
  any, all,
}
use boiler_reviews.Prelude.Int.{ltb_ℤ}
use boiler_reviews.Catalog.Ast.{
  Expr, Exprs, course_ref, all_of, any_of, co_requisite, grade_at_least, credits_at_least,
  predicate, nil, cons,
}
use boiler_reviews.Catalog.Evaluate.{
  State, Reason, decided, satisfied, unsatisfied, unknown, Student, evaluate, evaluate_items,
  evaluate_course, evaluate_grade, evaluate_credits, evaluate_predicate, conjunction, disjunction,
  grade_meets_order, values_of, is_satisfied, is_unsatisfied, is_unknown,
}

-- Whether an expression holds, where `granted` says that every permission and placement is given.
unfoldable mutual
  pub holds : Bool → Student → Expr → Bool
  holds granted s (course_ref c) = contains s.completed c.code || contains s.in_term c.code
  holds granted s (grade_at_least c grade) =
      contains s.completed c.code && grade_meets_order c.code grade s.grades
  holds granted s (credits_at_least credits) = not (ltb_ℤ s.earned_credits credits)
  holds granted s (predicate kind value) = granted || contains (values_of kind s) value
  holds granted s (all_of items) = all_hold granted s items
  holds granted s (co_requisite items) = all_hold granted s items
  holds granted s (any_of items) = any_holds granted s items

  pub all_hold : Bool → Student → Exprs → Bool
  all_hold granted s nil = true
  all_hold granted s (cons e items) = holds granted s e && all_hold granted s items

  pub any_holds : Bool → Student → Exprs → Bool
  any_holds granted s nil = false
  any_holds granted s (cons e items) = holds granted s e || any_holds granted s items

abbrev pub verdict : Bool → Bool → State
verdict true _ = satisfied
verdict false true = unknown
verdict false false = unsatisfied

-- A grant takes nothing away.
mutual
  unfolding holds

  grow : (s : Student) (e : Expr) → holds false s e ≡ true → holds true s e ≡ true
  grow s (course_ref c) h = h
  grow s (grade_at_least c grade) h = h
  grow s (credits_at_least credits) h = h
  grow s (predicate kind value) h = refl
  grow s (all_of items) h = grow_all s items h
  grow s (co_requisite items) h = grow_all s items h
  grow s (any_of items) h = grow_any s items h

  grow_all :
      (s : Student) (items : Exprs) → all_hold false s items ≡ true → all_hold true s items ≡ true
  grow_all s nil h = refl
  grow_all s (cons e items) h = ground (arith, grow s e, grow_all s items)

  grow_any :
      (s : Student) (items : Exprs) → any_holds false s items ≡ true → any_holds true s items ≡ true
  grow_any s nil h = h
  grow_any s (cons e items) h = ground (arith, grow s e, grow_any s items)

-- An expression that no grant can change is satisfied or unsatisfied.
settled :
    (b : Bool) (x y : List Reason)
    → (if b then decided satisfied x else decided unsatisfied y).state ≡ verdict b b
settled true x y = refl
settled false x y = refl

mutual
  unfolding holds evaluate conjunction disjunction evaluate_course evaluate_grade evaluate_credits
      evaluate_predicate

  agree :
      (s : Student) (e : Expr) → (evaluate e s).state ≡ verdict (holds false s e) (holds true s e)
  agree s (course_ref c) = settled _ _ _
  agree s (grade_at_least c grade) = settled _ _ _
  agree s (credits_at_least credits) = ground arith
  agree s (predicate kind value) = ground arith
  agree s (all_of items) = ground (arith, agree_all s items, grow_all s items)
  agree s (co_requisite items) = ground (arith, agree_all s items, grow_all s items)
  agree s (any_of items) = ground (arith, agree_any s items, grow_any s items)

  agree_all :
      (s : Student) (items : Exprs)
      → (any is_unsatisfied (evaluate_items items s) ≡ not (all_hold true s items))
        × ((any is_unsatisfied (evaluate_items items s) || any is_unknown (evaluate_items items s))
            ≡ not (all_hold false s items))
  agree_all s nil = (refl, refl)
  agree_all s (cons e items) = ground (arith, agree s e, grow s e, agree_all s items)

  agree_any :
      (s : Student) (items : Exprs)
      → (any is_satisfied (evaluate_items items s) ≡ any_holds false s items)
        × (all is_unsatisfied (evaluate_items items s) ≡ not (any_holds true s items))
  agree_any s nil = (refl, refl)
  agree_any s (cons e items) = ground (arith, agree s e, grow s e, agree_any s items)

-- `evaluate` says satisfied exactly when the expression holds as things stand, unsatisfied exactly
-- when it fails even with every permission and placement granted, and unknown in between.
pub evaluate-state :
    (s : Student) (e : Expr) → (evaluate e s).state ≡ verdict (holds false s e) (holds true s e)
evaluate-state s e = agree s e
