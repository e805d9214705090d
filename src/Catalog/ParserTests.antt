-- ===== src/Catalog/ParserTests.antt =====
-- The prerequisite parser at concrete inputs.
use boiler_reviews.Prelude.{
  ℕ, ◌≡◌, refl, String, Bool, some, [], ◌∷◌, ◌||◌, ◌&&◌, leb, nat_eq, string_eq,
}
use boiler_reviews.Prelude.Int.{pos}
use boiler_reviews.Prelude.Text.{is_space, strip, lstrip, rstrip}
use boiler_reviews.Exec.Errors.{ok}
use boiler_reviews.Catalog.Ast.{grade_at_least}
use boiler_reviews.Catalog.Tokens.{Texts, disj, course, grade, is_letter, tokenize}
use boiler_reviews.Catalog.Parser.{
  or_items, leaf, parse, normalize_course_code, without_separators, first_grade,
}
use boiler_reviews.Catalog.Prerequisites.{parsed, parse_prerequisites}
use boiler_reviews.Catalog.Grammar.{
  Lexeme, token, AnyTree, just, or, sole, course_item, any_tokens, meaning,
}
use boiler_reviews.Catalog.Reads.{parse-any_tokens}
use boiler_reviews.Catalog.Accepts.{Verdict, parse-Verdict}
use boiler_reviews.Catalog.Grades.{after_grade, parse-grade}

abbrev is_ascii_digit : ℕ → Bool
is_ascii_digit c = leb b'0' c && leb c b'9'

-- ASCII texts in upper case.
abbrev ascii : Texts
ascii = record {
  is_digit = is_ascii_digit;
  is_word = λ c. is_letter c || is_ascii_digit c;
  upper = λ s. s;
  int_of = λ s. pos 0;
  repr = λ s. s;
}

abbrev lexeme_at : String → ℕ → Lexeme
lexeme_at text at = record { text = text; at = at }

abbrev tree : AnyTree
tree =
    or (sole (course_item (lexeme_at "CS 180" 0))) (lexeme_at "OR" 7)
      (just (sole (course_item (lexeme_at "MA 161" 10))))

tokenize_runs : tokenize ascii "CS 180 OR MA 161" ≡ ok (any_tokens tree)
unfolding tokenize any_tokens strip lstrip rstrip is_space
tokenize_runs = refl

parse-any_tokens_example : parse ascii (any_tokens tree) ≡ ok (meaning ascii tree)
parse-any_tokens_example = parse-any_tokens ascii tree

parse-Verdict_example :
    Verdict ascii
      (token disj (lexeme_at "OR" 0) ∷ [])
      (parse ascii (token disj (lexeme_at "OR" 0) ∷ []))
parse-Verdict_example = parse-Verdict ascii (token disj (lexeme_at "OR" 0) ∷ [])

parse-grade_example :
    parse ascii (
      token course (lexeme_at "CS101" 0)
      ∷ token grade (record { text = after_grade ">=B"; at = 6 })
      ∷ [])
    ≡ ok (grade_at_least (record { code = normalize_course_code ascii "CS101" }) "A")
parse-grade_example = parse-grade ascii (lexeme_at "CS101" 0) 6 ">=B"

-- "GRADE>=B" asks for an A.
minimum_grade :
    parse_prerequisites ascii (some "CS101 GRADE>=B")
    ≡ ok (record {
      status = parsed;
      ast = some (grade_at_least (record { code = "CS101" }) "A");
      diagnostics = [];
      tokens = token course (lexeme_at "CS101" 0) ∷ token grade (lexeme_at "GRADE>=B" 6) ∷ [];
    })
unfolding parse_prerequisites tokenize parse or_items leaf without_separators first_grade strip
    lstrip rstrip is_space
minimum_grade = refl
