-- ===== src/Catalog/Ast.antt =====
-- The prerequisite expressions of src/boiler_reviews/catalog/ast.py.
use boiler_reviews.Prelude.{String}
use boiler_reviews.Prelude.Int.{ℤ}

pub record CourseRef : Type 0 where
  pub code : String

-- The subclasses of `Expr`; `Exprs` is the tuple of items.
mutual
  pub data Expr : Type 0 where
    course_ref : CourseRef → Expr
    all_of any_of co_requisite : Exprs → Expr
    grade_at_least : CourseRef → String → Expr
    credits_at_least : ℤ → Expr
    predicate : String → String → Expr

  pub data Exprs : Type 0 where
    nil : Exprs
    cons : Expr → Exprs → Exprs
