-- ===== src/Catalog/Prerequisites.antt =====
-- `parse_prerequisites` and `ast_to_json` of src/boiler_reviews/catalog/parser.py.
use boiler_reviews.Prelude.{
  ℕ, String, Bool, Option, none, some, List, [], ◌∷◌, ◌==◌, string_eq, ◌||◌, if◌then◌else◌,
}
use boiler_reviews.Prelude.Json.{Json}
use boiler_reviews.Prelude.Text.{strip, is_empty}
use boiler_reviews.Exec.Errors.{Result, ok, err, value_error}
use boiler_reviews.Catalog.Ast.{Expr, all_of, nil}
use boiler_reviews.Catalog.Codec.{as_dict}
use boiler_reviews.Catalog.Tokens.{Texts, Token, tokenize}
use boiler_reviews.Catalog.Parser.{parse}

pub record Diagnostic : Type 0 where
  pub code : String
  pub message : String
  pub position : ℕ

pub data ParseStatus : Type 0 where
  parsed unsupported : ParseStatus

pub record ParseResult : Type 0 where
  pub status : ParseStatus
  pub ast : Option Expr
  pub diagnostics : List Diagnostic
  pub tokens : List Token

abbrev pub parsed_result : Expr → List Token → ParseResult
parsed_result e tokens = record { status = parsed; ast = some e; diagnostics = []; tokens = tokens }

abbrev pub unsupported_result : String → ParseResult
unsupported_result message = record {
  status = unsupported;
  ast = none;
  diagnostics = record { code = "unsupported_syntax"; message = message; position = 0 } ∷ [];
  tokens = [];
}

-- `source or ""`
abbrev pub text_of : Option String → String
text_of none = ""
text_of (some s) = s

module _ (t : Texts) where
  -- The `except` clause catches a `ValueError`; any other exception goes on.
  abbrev pub caught : List Token → Result Expr → Result ParseResult
  caught tokens (ok e) = ok (parsed_result e tokens)
  caught tokens (err (value_error message)) = ok (unsupported_result message)
  caught tokens (err e) = err e

  abbrev pub parse_tokens : Result (List Token) → Result ParseResult
  parse_tokens (ok tokens) = caught tokens (parse t tokens)
  parse_tokens (err e) = caught [] (err e)

  abbrev pub is_none_text : String → Bool
  is_none_text original =
      is_empty original || (t.upper original == "NONE" || t.upper original == "N/A")

  unfoldable pub parse_prerequisites : Option String → Result ParseResult
  unfolding strip tokenize parse
  parse_prerequisites source =
      let original = strip (text_of source) in
      if is_none_text original
      then ok (parsed_result (all_of nil) [])
      else parse_tokens (tokenize t original)

abbrev pub ast_to_json : ParseResult → Option Json
ast_to_json r = elim r.ast [ none ↦ none | some e ↦ some (as_dict e) ]
