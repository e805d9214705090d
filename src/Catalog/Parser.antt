-- ===== src/Catalog/Parser.antt =====
-- The recursive descent of src/boiler_reviews/catalog/parser.py. A method takes the tokens that are left
-- and returns those after what it read. Fuel bounds the depth of the calls and the rounds of the loops:
-- `parse` gives three units for each token and three more, which is enough.
use Prim.Native.Char.{Char, code}
use Prim.Native.String.{[] as end, ◌∷◌ as char}
use boiler_reviews.Prelude.{
  ℕ, zero, suc, ◌+◌, ◌-◌, ◌*◌, String, Bool, false, List, [], ◌∷◌, ◌==◌, nat_eq, string_eq, ◌||◌,
  if◌then◌else◌, length, concat,
}
use boiler_reviews.Prelude.Text.{is_space, strip}
use boiler_reviews.Prelude.Decimal.{str_nat}
use boiler_reviews.Exec.Errors.{Result, ok, err, Error, value_error, recursion_error}
use boiler_reviews.Exec.Attempt.{◌>>=◌}
use boiler_reviews.Catalog.Ast.{
  Expr, Exprs, course_ref, all_of, any_of, co_requisite, grade_at_least, credits_at_least,
  predicate, nil, cons,
}
use boiler_reviews.Catalog.Tokens.{
  Texts, TokenKind, conj, disj, coreq, lparen, rparen, comma, credits, grade, placement, permission,
  course, Token, is_grade_letter, is_sign, prefix, text_length,
}

abbrev pub kind_number : TokenKind → ℕ
kind_number conj = 0
kind_number disj = 1
kind_number coreq = 2
kind_number lparen = 3
kind_number rparen = 4
kind_number comma = 5
kind_number credits = 6
kind_number grade = 7
kind_number placement = 8
kind_number permission = 9
kind_number course = 10

abbrev kind_name : TokenKind → String
kind_name conj = "AND"
kind_name disj = "OR"
kind_name coreq = "COREQ"
kind_name lparen = "LPAREN"
kind_name rparen = "RPAREN"
kind_name comma = "COMMA"
kind_name credits = "CREDITS"
kind_name grade = "GRADE"
kind_name placement = "PLACEMENT"
kind_name permission = "PERMISSION"
kind_name course = "COURSE"

-- `self.accept(kind) is not None`
abbrev pub starts : TokenKind → List Token → Bool
starts k [] = false
starts k (t ∷ ts) = kind_number t.kind == kind_number k

abbrev pub tail : List Token → List Token
tail [] = []
tail (t ∷ ts) = ts

abbrev pub position_of : List Token → String
position_of [] = "-1"
position_of (t ∷ ts) = str_nat t.position

abbrev pub require : TokenKind → List Token → Result (List Token)
require k ts =
    if starts k ts
    then ok (tail ts)
    else err
        (value_error (concat ("expected " ∷ kind_name k ∷ " at position " ∷ position_of ts ∷ [])))

-- `re.sub(r"[\s-]+", "", value)`
unfoldable pub without_separators : String → String
unfolding is_space
without_separators end = end
without_separators (char c s) =
    let rest = without_separators s in
    if is_space (code c) || code c == b'-' then rest else char c rest

abbrev pub normalize_course_code : Texts → String → String
normalize_course_code t value = t.upper (without_separators value)

-- `re.search(r"\d+", value).group(0)`
unfoldable pub leading_digits : Texts → String → String
leading_digits t end = end
leading_digits t (char c s) =
    let rest = leading_digits t s in if t.is_digit (code c) then char c rest else end

unfoldable pub first_number : Texts → String → String
unfolding leading_digits
first_number t end = end
first_number t (char c s) =
    let rest = first_number t s in if t.is_digit (code c) then leading_digits t (char c s) else rest

-- `value[value.find("(") + 1 : -1]`
unfoldable pub after_parenthesis : String → String
after_parenthesis end = end
after_parenthesis (char c s) = let rest = after_parenthesis s in if code c == b'(' then s else rest

abbrev pub without_last : String → String
without_last s = prefix (text_length s - 1) s

abbrev pub argument : String → String
argument value = strip (without_last (after_parenthesis value))

-- `re.search(r"[A-Fa-f][+-]?", grade.value)`, and "B" where it finds nothing.
abbrev pub with_sign : Char → String → String
with_sign c end = char c end
with_sign c (char d s) = if is_sign (code d) then char c (char d end) else char c end

unfoldable pub first_grade : Texts → String → String
first_grade t end = "B"
first_grade t (char c s) =
    let rest = first_grade t s in if is_grade_letter (code c) then t.upper (with_sign c s) else rest

-- A method that reads an `A`.
abbrev pub Parser : Type 0 → Type 0
Parser A = List Token → Result (A × List Token)

-- What `parse_and`, `parse_or` do with their items.
abbrev pub unless_one : (Exprs → Expr) → Exprs → Expr
unless_one f nil = f nil
unless_one f (cons e nil) = e
unless_one f (cons e (cons e' es)) = f (cons e (cons e' es))

abbrev pub out_of_fuel : Error
out_of_fuel = recursion_error "out of fuel"

-- The token after a course.
abbrev pub graded : Texts → Token → List Token → Expr × List Token
graded t token [] = (course_ref (record { code = normalize_course_code t token.value }), [])
graded t token (g ∷ ts) =
    if kind_number g.kind == kind_number grade
    then (
      grade_at_least (record { code = normalize_course_code t token.value })
          (first_grade t g.value),
      ts,
    )
    else (course_ref (record { code = normalize_course_code t token.value }), g ∷ ts)

-- The branches of `parse_primary` that read no other expression.
unfoldable pub leaf : Texts → TokenKind → Token → List Token → Result (Expr × List Token)
unfolding first_grade first_number after_parenthesis strip without_separators
leaf t credits token ts = ok (credits_at_least (t.int_of (first_number t token.value)), ts)
leaf t placement token ts = ok (predicate "placement" (argument token.value), ts)
leaf t permission token ts = ok (predicate "permission" (argument token.value), ts)
leaf t course token ts = ok (graded t token ts)
leaf t _ token ts = err (
    value_error
      (concat ("expected course or predicate at position " ∷ str_nat token.position ∷ [])))

abbrev pub in_parens : Result (Exprs × List Token) → Result (Expr × List Token)
in_parens items = do (es, ts) ← items; ts ← require rparen ts; ok (unless_one any_of es, ts)

abbrev pub in_coreq : Result (Exprs × List Token) → Result (Expr × List Token)
in_coreq items = do (es, ts) ← items; ts ← require rparen ts; ok (co_requisite es, ts)

abbrev pub primary_of :
    Texts
    → Parser Exprs
    → Parser Exprs
    → TokenKind
    → Token
    → List Token
    → Result (Expr × List Token)
primary_of t or_items comma_items lparen token ts = in_parens (or_items ts)
primary_of t or_items comma_items coreq token ts = do
  ts ← require lparen ts
  in_coreq (comma_items ts)
primary_of t or_items comma_items k token ts = leaf t k token ts

-- The loop of a method: an item, and the further ones after each separator.
abbrev pub items_of : TokenKind → Parser Expr → Parser Exprs → Parser Exprs
items_of separator item more ts = do
  (e, ts) ← item ts
  if starts separator ts
      then (do (es, ts) ← more (tail ts); ok (cons e es, ts))
      else ok (cons e nil, ts)

abbrev pub whole : (Exprs → Expr) → Parser Exprs → Parser Expr
whole f items ts = do (es, ts) ← items ts; ok (unless_one f es, ts)

module _ (t : Texts) where
  unfoldable mutual
    pub or_items : ℕ → Parser Exprs
    or_items zero ts = err out_of_fuel
    or_items (suc f) ts = items_of disj (whole all_of (and_items f)) (or_items f) ts

    pub and_items : ℕ → Parser Exprs
    and_items zero ts = err out_of_fuel
    and_items (suc f) ts = items_of conj (parse_primary f) (and_items f) ts

    pub comma_items : ℕ → Parser Exprs
    comma_items zero ts = err out_of_fuel
    comma_items (suc f) ts = items_of comma (whole any_of (or_items f)) (comma_items f) ts

    pub parse_primary : ℕ → Parser Expr
    parse_primary zero ts = err out_of_fuel
    parse_primary (suc f) [] = err (value_error "expected prerequisite expression at end of input")
    parse_primary (suc f) (token ∷ ts) =
        primary_of t (or_items f) (comma_items f) token.kind token ts

  abbrev pub finish : Expr × List Token → Result Expr
  finish (e, []) = ok e
  finish (e, token ∷ ts) = err (
      value_error (
        concat
          ("unexpected " ∷ t.repr token.value ∷ " at position " ∷ str_nat token.position ∷ [])))

  -- `_Parser(tokens).parse()`
  unfoldable pub parse : List Token → Result Expr
  unfolding or_items
  parse ts = do r ← whole any_of (or_items (3 * length ts + 3)) ts; finish r
