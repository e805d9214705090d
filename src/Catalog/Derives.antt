-- ===== src/Catalog/Derives.antt =====
-- What the parser accepts is a tree of the grammar, and it has the fuel to answer on every input.
use mathlib.Core.List.{append_assoc}
use boiler_reviews.Prelude.{
  ℕ, zero, suc, ◌+◌, ◌≤◌, ◌<◌, ◌≡◌, refl, sym, ap, ◌∙◌, inl, inr, Bool, true, false, List, [], ◌∷◌,
  ◌++◌, arith, length, length-append, nat_eq, Bool-cases,
}
use boiler_reviews.Exec.Errors.{Result, ok, err, Error, recursion_error}
use boiler_reviews.Exec.Attempt.{◌>>=◌}
use boiler_reviews.Catalog.Ast.{Expr, Exprs, nil, cons}
use boiler_reviews.Catalog.Tokens.{
  TokenKind, conj, disj, coreq, lparen, rparen, comma, credits, grade, placement, permission,
  course, Token,
}
use boiler_reviews.Catalog.Parser.{Parser, kind_number, starts, tail, items_of}
use boiler_reviews.Catalog.Grammar.{Lexeme, token}

abbrev pub is_recursion : Error → Bool
is_recursion (recursion_error m) = true
is_recursion _ = false

-- The outcome of a method on `ts`: it has read the tokens of a tree, or it has refused.
abbrev pub Parses :
    {A T : Type 0} → (T → List Token) → (T → A) → List Token → Result (A × List Token) → Type 0
Parses {A} {T} tokens value ts (ok (x, rest)) = (d : T) × (tokens d ++ rest ≡ ts) × (value d ≡ x)
Parses tokens value ts (err e) = is_recursion e ≡ false

abbrev kinds : List TokenKind
kinds =
    conj ∷ disj ∷ coreq ∷ lparen ∷ rparen ∷ comma ∷ credits ∷ grade ∷ placement ∷ permission
    ∷ course ∷ []

abbrev kind_at : List TokenKind → ℕ → TokenKind
kind_at [] n = conj
kind_at (k ∷ ks) zero = k
kind_at (k ∷ ks) (suc n) = kind_at ks n

kind_at-kind_number : (k : TokenKind) → kind_at kinds (kind_number k) ≡ k
kind_at-kind_number conj = refl
kind_at-kind_number _ = refl

abbrev pub lexeme : Token → Lexeme
lexeme t = record { text = t.value; at = t.position }

pub token-lexeme : (t : Token) (k : TokenKind) → t.kind ≡ k → t ≡ token k (lexeme t)
token-lexeme t k h = ground arith

pub starts-kind :
    (k : TokenKind) (t : Token) (ts : List Token) → starts k (t ∷ ts) ≡ true → t.kind ≡ k
starts-kind k t ts h =
    let same = (nat_eq.beq_iff (kind_number t.kind) (kind_number k)).0 h in
    sym (kind_at-kind_number t.kind) ∙ ap (kind_at kinds) same ∙ kind_at-kind_number k

pub starts-token :
    (k : TokenKind) (ts : List Token)
    → starts k ts ≡ true
    → (l : Lexeme) × (ts ≡ token k l ∷ tail ts)
starts-token k [] h = absurd (cc)
starts-token k (t ∷ ts) h = (lexeme t, ap (λ x. x ∷ ts) (token-lexeme t k (starts-kind k t ts h)))

-- A list of items with separators: the three loops of the parser.
module _ {I T : Type 0} (separator : TokenKind) (item_tokens : I → List Token)
    (item_value : I → Expr) (tokens : T → List Token) (value : T → Exprs) (single : I → T)
    (more : I → Lexeme → T → T) (tokens-single : (i : I) → tokens (single i) ≡ item_tokens i)
    (value-single : (i : I) → value (single i) ≡ cons (item_value i) nil)
    (tokens-more : (i : I) (l : Lexeme) (d : T)
      → tokens (more i l d) ≡ item_tokens i ++ token separator l ∷ tokens d)
    (value-more : (i : I) (l : Lexeme) (d : T)
      → value (more i l d) ≡ cons (item_value i) (value d)) where
  after_separator :
      (i : I) (l : Lexeme) (ts rest : List Token) (e : Expr) (r : Result (Exprs × List Token))
      → item_tokens i ++ token separator l ∷ rest ≡ ts
      → item_value i ≡ e
      → Parses tokens value rest r
      → Parses tokens value ts (r >>= λ x. ok (cons e x.0, x.1))
  after_separator i l ts rest e (ok (es, rest')) here is (d, there, are) = (
    more i l d,
    ap (λ x. x ++ rest') (tokens-more i l d)
        ∙ append_assoc (item_tokens i) (token separator l ∷ tokens d) rest'
        ∙ ap (λ x. item_tokens i ++ token separator l ∷ x) there
        ∙ here,
    value-more i l d ∙ cc (is, are),
  )
  after_separator i l ts rest e (err x) here is h = h

  pub items_of-Parses :
      (r : Result (Expr × List Token)) (more_items : Parser Exprs) (ts : List Token)
      → ((i : I) → 0 < length (item_tokens i))
      → Parses item_tokens item_value ts r
      → ((rest : List Token)
          → length rest + 2 ≤ length ts
          → Parses tokens value rest (more_items rest))
      → Parses tokens value ts (items_of separator (λ _. r) more_items ts)
  items_of-Parses (err x) more_items ts nonempty h rest = h
  items_of-Parses (ok (e, rest)) more_items ts nonempty (i, here, is) others =
      elim (Bool-cases (starts separator rest)) [
        | inr stop ↦ rw stop (
          single i,
          ap (λ x. x ++ rest) (tokens-single i) ∙ here,
          value-single i ∙ ap (λ x. cons x nil) is,
        )
        | inl go ↦
            let (l, first) = starts-token separator rest go in
            let whole' : item_tokens i ++ token separator l ∷ tail rest ≡ ts =
              sym (ap (λ x. item_tokens i ++ x) first) ∙ here in
            rw go (
              after_separator i l ts (tail rest) e (more_items (tail rest)) whole' is (
                others (tail rest) (
                  omega (
                    arith,
                    nonempty i,
                    ap length whole',
                    length-append (item_tokens i) (token separator l ∷ tail rest),
                  ))))
      ]
