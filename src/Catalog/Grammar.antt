-- ===== src/Catalog/Grammar.antt =====
-- The grammar that src/boiler_reviews/catalog/parser.py reads, as trees over tokens, with the tokens of
-- a tree and the expression that it stands for.
use boiler_reviews.Prelude.{
  ℕ, suc, ◌+◌, ◌*◌, ◌≤◌, ◌≡◌, String, List, [], ◌∷◌, ◌++◌, arith, length, length-append,
}
use boiler_reviews.Catalog.Ast.{
  CourseRef, Expr, Exprs, course_ref, all_of, any_of, co_requisite, grade_at_least,
  credits_at_least, predicate, nil, cons,
}
use boiler_reviews.Catalog.Tokens.{
  Texts, TokenKind, conj, disj, coreq, lparen, rparen, comma, credits, grade, placement, permission,
  course, Token,
}
use boiler_reviews.Catalog.Parser.{
  normalize_course_code, first_number, first_grade, argument, unless_one,
}

-- The text of a token and where it starts.
pub record Lexeme : Type 0 where
  pub text : String
  pub at : ℕ

abbrev pub token : TokenKind → Lexeme → Token
token k l = record { kind = k; value = l.text; position = l.at }

-- any    = all { OR all }
-- all    = single { AND single }
-- single = ( any ) | COREQ ( any { , any } ) | CREDITS | PLACEMENT | PERMISSION | COURSE [ GRADE ]
mutual
  pub data AnyTree : Type 0 where
    just : AllTree → AnyTree
    or : AllTree → Lexeme → AnyTree → AnyTree

  pub data AllTree : Type 0 where
    sole : SingleTree → AllTree
    and : SingleTree → Lexeme → AllTree → AllTree

  pub data SingleTree : Type 0 where
    parens : Lexeme → AnyTree → Lexeme → SingleTree
    coreqs : Lexeme → Lexeme → CommaTree → Lexeme → SingleTree
    credits_item placement_item permission_item course_item : Lexeme → SingleTree
    graded_item : Lexeme → Lexeme → SingleTree

  pub data CommaTree : Type 0 where
    last : AnyTree → CommaTree
    then_comma : AnyTree → Lexeme → CommaTree → CommaTree

unfoldable mutual
  pub any_tokens : AnyTree → List Token
  any_tokens (just a) = all_tokens a
  any_tokens (or a l d) = all_tokens a ++ token disj l ∷ any_tokens d

  pub all_tokens : AllTree → List Token
  all_tokens (sole s) = single_tokens s
  all_tokens (and s l a) = single_tokens s ++ token conj l ∷ all_tokens a

  pub single_tokens : SingleTree → List Token
  single_tokens (parens l d r) = token lparen l ∷ (any_tokens d ++ token rparen r ∷ [])
  single_tokens (coreqs c l ds r) =
      token coreq c ∷ token lparen l ∷ (comma_tokens ds ++ token rparen r ∷ [])
  single_tokens (credits_item l) = token credits l ∷ []
  single_tokens (placement_item l) = token placement l ∷ []
  single_tokens (permission_item l) = token permission l ∷ []
  single_tokens (course_item l) = token course l ∷ []
  single_tokens (graded_item l g) = token course l ∷ token grade g ∷ []

  pub comma_tokens : CommaTree → List Token
  comma_tokens (last d) = any_tokens d
  comma_tokens (then_comma d l ds) = any_tokens d ++ token comma l ∷ comma_tokens ds

abbrev pub course_of : Texts → Lexeme → CourseRef
course_of t l = record { code = normalize_course_code t l.text }

module _ (t : Texts) where
  unfoldable mutual
    pub any_exprs : AnyTree → Exprs
    any_exprs (just a) = cons (unless_one all_of (all_exprs a)) nil
    any_exprs (or a l d) = cons (unless_one all_of (all_exprs a)) (any_exprs d)

    pub all_exprs : AllTree → Exprs
    all_exprs (sole s) = cons (single_expr s) nil
    all_exprs (and s l a) = cons (single_expr s) (all_exprs a)

    pub single_expr : SingleTree → Expr
    single_expr (parens l d r) = unless_one any_of (any_exprs d)
    single_expr (coreqs c l ds r) = co_requisite (comma_exprs ds)
    single_expr (credits_item l) = credits_at_least (t.int_of (first_number t l.text))
    single_expr (placement_item l) = predicate "placement" (argument l.text)
    single_expr (permission_item l) = predicate "permission" (argument l.text)
    single_expr (course_item l) = course_ref (course_of t l)
    single_expr (graded_item l g) = grade_at_least (course_of t l) (first_grade t g.text)

    pub comma_exprs : CommaTree → Exprs
    comma_exprs (last d) = cons (unless_one any_of (any_exprs d)) nil
    comma_exprs (then_comma d l ds) = cons (unless_one any_of (any_exprs d)) (comma_exprs ds)

  -- The expression of a whole tree.
  abbrev pub meaning : AnyTree → Expr
  meaning d = unless_one any_of (any_exprs d)

-- The units of fuel that reading a tree takes.
unfoldable mutual
  pub any_cost : AnyTree → ℕ
  any_cost (just a) = suc (all_cost a)
  any_cost (or a l d) = suc (all_cost a + any_cost d)

  pub all_cost : AllTree → ℕ
  all_cost (sole s) = suc (single_cost s)
  all_cost (and s l a) = suc (single_cost s + all_cost a)

  pub single_cost : SingleTree → ℕ
  single_cost (parens l d r) = suc (any_cost d)
  single_cost (coreqs c l ds r) = suc (comma_cost ds)
  single_cost (credits_item l) = 1
  single_cost (placement_item l) = 1
  single_cost (permission_item l) = 1
  single_cost (course_item l) = 1
  single_cost (graded_item l g) = 1

  pub comma_cost : CommaTree → ℕ
  comma_cost (last d) = suc (any_cost d)
  comma_cost (then_comma d l ds) = suc (any_cost d + comma_cost ds)

length-append_tokens : (xs ys : List Token) → length (xs ++ ys) ≡ length xs + length ys
length-append_tokens = length-append

ruleset lengths = (arith, length-append_tokens)

mutual
  unfolding any_cost any_tokens

  any_cost_le : (d : AnyTree) → any_cost d ≤ 3 * length (any_tokens d)
  any_cost_le (just a) = omega (lengths, all_cost_le a)
  any_cost_le (or a l d) = omega (lengths, all_cost_le a, any_cost_le d)

  all_cost_le : (a : AllTree) → all_cost a + 1 ≤ 3 * length (all_tokens a)
  all_cost_le (sole s) = omega (lengths, single_cost_le s)
  all_cost_le (and s l a) = omega (lengths, single_cost_le s, all_cost_le a)

  single_cost_le : (s : SingleTree) → single_cost s + 2 ≤ 3 * length (single_tokens s)
  single_cost_le (parens l d r) = omega (lengths, any_cost_le d)
  single_cost_le (coreqs c l ds r) = omega (lengths, comma_cost_le ds)
  single_cost_le (credits_item l) = omega arith
  single_cost_le (placement_item l) = omega arith
  single_cost_le (permission_item l) = omega arith
  single_cost_le (course_item l) = omega arith
  single_cost_le (graded_item l g) = omega arith

  comma_cost_le : (ds : CommaTree) → comma_cost ds ≤ 3 * length (comma_tokens ds) + 1
  comma_cost_le (last d) = omega (lengths, any_cost_le d)
  comma_cost_le (then_comma d l ds) = omega (lengths, any_cost_le d, comma_cost_le ds)

-- The fuel of `parse` pays for every tree of its tokens.
pub any_cost-le : (d : AnyTree) → any_cost d ≤ 3 * length (any_tokens d) + 3
any_cost-le d = omega (arith, any_cost_le d)
