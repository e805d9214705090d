-- ===== src/Catalog/Tokens.antt =====
-- `tokenize` of src/boiler_reviews/catalog/parser.py: the alternatives of the regular expression, in
-- their order. What Python takes from the tables of Unicode, and `int` of a text of digits, are
-- parameters.
use Prim.Native.Char.{code}
use Prim.Native.String.{[] as end, ◌∷◌ as char}
use boiler_reviews.Prelude.{
  ℕ, zero, suc, ◌+◌, ◌-◌, String, Bool, Option, none, some, List, [], ◌∷◌, ◌==◌, nat_eq, string_eq,
  ◌&&◌, ◌||◌, not, if◌then◌else◌, leb, concat,
}
use boiler_reviews.Prelude.Int.{ℤ}
use boiler_reviews.Prelude.Text.{is_space, strip}
use boiler_reviews.Prelude.Decimal.{str_nat}
use boiler_reviews.Exec.Errors.{Result, ok, err, value_error}

pub record Texts : Type 0 where
  pub is_digit : ℕ → Bool
  pub is_word : ℕ → Bool
  pub upper : String → String
  pub int_of : String → ℤ
  pub repr : String → String

pub data TokenKind : Type 0 where
  conj disj coreq lparen rparen comma credits grade placement permission course : TokenKind

pub record Token : Type 0 where
  pub kind : TokenKind
  pub value : String
  pub position : ℕ

-- A part of the expression: what is left of the text after a match.
abbrev pub Matcher : Type 0
Matcher = String → Option String

infixl 60 ◌then_match◌
abbrev pub ◌then_match◌ : Matcher → Matcher → Matcher
◌then_match◌ p q s = elim (p s) [ none ↦ none | some rest ↦ q rest ]

abbrev pub literal : String → Matcher
literal end s = some s
literal (char c w) end = none
literal (char c w) (char d s) = if code c == code d then literal w s else none

-- `[...]`
abbrev pub one : (ℕ → Bool) → Matcher
one p end = none
one p (char c s) = if p (code c) then some s else none

-- `[...]*`
unfoldable pub skip : (ℕ → Bool) → String → String
skip p end = end
skip p (char c s) = let rest = skip p s in if p (code c) then rest else char c s

abbrev pub many : (ℕ → Bool) → Matcher
many p s = some (skip p s)

-- `[...]?`
abbrev pub optional : (ℕ → Bool) → Matcher
optional p end = some end
optional p (char c s) = if p (code c) then some s else some (char c s)

-- `[...]{low,high}` before something that does not fit: at most `high`, and at least `low`.
unfoldable pub between : (ℕ → Bool) → ℕ → ℕ → Matcher
between p low zero s = if low == 0 then some s else none
between p low (suc high) end = if low == 0 then some end else none
between p low (suc high) (char c s) =
    let rest = between p (low - 1) high s in
    if p (code c) then rest else (if low == 0 then some (char c s) else none)

abbrev pub is_letter : ℕ → Bool
is_letter c = (leb b'A' c && leb c b'Z') || (leb b'a' c && leb c b'z')

-- `[A-Fa-f]`
abbrev pub is_grade_letter : ℕ → Bool
is_grade_letter c = (leb b'A' c && leb c b'F') || (leb b'a' c && leb c b'f')

abbrev pub is_sign : ℕ → Bool
is_sign c = c == b'+' || c == b'-'

abbrev pub is_dash : ℕ → Bool
is_dash c = c == b'-' || c == 32

module _ (t : Texts) where
  -- `\b` after a letter.
  abbrev pub boundary : Matcher
  boundary end = some end
  boundary (char c s) = if t.is_word (code c) then none else some (char c s)

  abbrev pub spaces : Matcher
  spaces = many is_space

  abbrev pub at_least : String → Matcher → Matcher
  at_least word value =
      ((literal word then_match spaces) then_match (literal ">=" then_match spaces))
      then_match value

  -- `[^)]*`
  abbrev pub in_parentheses : String → Matcher
  in_parentheses word =
      ((literal word then_match spaces) then_match literal "(")
      then_match (many (λ c. not (c == b')')) then_match literal ")")

  abbrev pub credits_pattern : Matcher
  credits_pattern = at_least "CREDITS" (one t.is_digit then_match many t.is_digit)

  abbrev pub grade_pattern : Matcher
  grade_pattern = at_least "GRADE" (one is_grade_letter then_match optional is_sign)

  abbrev pub course_pattern : Matcher
  course_pattern =
      ((between is_letter 2 8 then_match spaces) then_match (optional is_dash then_match spaces))
      then_match (between t.is_digit 2 4 then_match optional is_letter)

  -- The alternatives after the one for spaces.
  abbrev pub alternatives : List (TokenKind × Matcher)
  alternatives =
      (conj, literal "AND" then_match boundary)
      ∷ (disj, literal "OR" then_match boundary)
      ∷ (coreq, literal "COREQ" then_match boundary)
      ∷ (lparen, literal "(")
      ∷ (rparen, literal ")")
      ∷ (comma, literal ",")
      ∷ (credits, credits_pattern)
      ∷ (grade, grade_pattern)
      ∷ (placement, in_parentheses "PLACEMENT")
      ∷ (permission, in_parentheses "PERMISSION")
      ∷ (course, course_pattern)
      ∷ []

abbrev pub first_match : List (TokenKind × Matcher) → String → Option (TokenKind × String)
first_match [] s = none
first_match ((k, p) ∷ ps) s = elim (p s) [ some rest ↦ some (k, rest) | none ↦ first_match ps s ]

abbrev pub text_length : String → ℕ
text_length end = 0
text_length (char c s) = suc (text_length s)

abbrev pub prefix : ℕ → String → String
prefix n end = end
prefix zero (char c s) = end
prefix (suc n) (char c s) = char c (prefix n s)

-- The length of the match that leaves `rest`.
abbrev pub consumed : String → String → ℕ
consumed s rest = text_length s - text_length rest

abbrev pub token_at : ℕ → String → TokenKind × String → Token
token_at position s (k, rest) = record {
  kind = k;
  value = strip (prefix (consumed s rest) s);
  position = position;
}

abbrev pub unsupported_at : ℕ → String
unsupported_at position =
    concat ("unsupported prerequisite syntax at position " ∷ str_nat position ∷ [])

abbrev pub add_token : Token → Result (List Token) → Result (List Token)
add_token token (ok tokens) = ok (token ∷ tokens)
add_token token (err e) = err e

-- The loop, a character at a time: `left` characters of the last match are still to be passed.
module _ (t : Texts) where
  abbrev pub next_tokens :
      ℕ → String → Option (TokenKind × String) → (ℕ → Result (List Token)) → Result (List Token)
  next_tokens position s none rest = err (value_error (unsupported_at position))
  next_tokens position s (some m) rest =
      add_token (token_at position s m) (rest (consumed s m.1 - 1))

  unfoldable pub tokens_from : ℕ → ℕ → String → Result (List Token)
  unfolding skip between is_space strip
  tokens_from position left end = ok []
  tokens_from position (suc left) (char c s) = tokens_from (position + 1) left s
  tokens_from position zero (char c s) =
      let rest = λ (left : ℕ). tokens_from (position + 1) left s in
      if is_space (code c)
      then rest 0
      else next_tokens position (char c s) (first_match (alternatives t) (char c s)) rest

  unfoldable pub tokenize : String → Result (List Token)
  unfolding tokens_from
  tokenize s = tokens_from 0 0 s
