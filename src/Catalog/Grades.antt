-- ===== src/Catalog/Grades.antt =====
-- The grade that the parser reads after a course.
use Prim.Native.String.{◌∷◌ as char}
use boiler_reviews.Prelude.{ℕ, ◌≡◌, refl, String, [], ◌∷◌}
use boiler_reviews.Exec.Errors.{ok}
use boiler_reviews.Catalog.Ast.{grade_at_least}
use boiler_reviews.Catalog.Tokens.{Texts, course, grade}
use boiler_reviews.Catalog.Parser.{first_grade, leaf, or_items, normalize_course_code, parse}
use boiler_reviews.Catalog.Grammar.{Lexeme, token}

-- The text "GRADE" and what follows it.
abbrev pub after_grade : String → String
after_grade rest = char "G" (char "R" (char "A" (char "D" (char "E" rest))))

-- Whatever grade is asked for: the search for a grade letter finds the "A" of the word GRADE.
pub parse-grade :
    (t : Texts) (c : Lexeme) (at : ℕ) (rest : String)
    → parse t (token course c ∷ token grade (record { text = after_grade rest; at = at }) ∷ [])
      ≡ ok (grade_at_least (record { code = normalize_course_code t c.text }) (t.upper "A"))
unfolding parse or_items leaf first_grade
parse-grade t c at rest = refl
