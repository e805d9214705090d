-- ===== src/Catalog/Accepts.antt =====
-- The parser accepts the grammar and nothing else.
use mathlib.Core.List.{append_assoc, append-nil}
use mathlib.Core.Path.{subst}
use boiler_reviews.Prelude.{
  ℕ, zero, suc, ◌+◌, ◌*◌, ◌≤◌, ◌<◌, ◌≡◌, refl, sym, ap, ◌∙◌, inl, inr, ◌≢◌, false, List, [], ◌∷◌,
  ◌++◌, arith, length, length-append, nat_eq, Bool-cases,
}
use boiler_reviews.Exec.Errors.{Result, ok, err, Error}
use boiler_reviews.Exec.Attempt.{◌>>=◌}
use boiler_reviews.Catalog.Ast.{Expr, Exprs, all_of, any_of, co_requisite}
use boiler_reviews.Catalog.Tokens.{
  Texts, TokenKind, conj, disj, coreq, lparen, rparen, comma, credits, grade, placement, permission,
  course, Token,
}
use boiler_reviews.Catalog.Parser.{
  Parser, starts, tail, unless_one, graded, leaf, in_parens, in_coreq, primary_of, whole, or_items,
  and_items, comma_items, parse_primary, finish, parse,
}
use boiler_reviews.Catalog.Grammar.{
  Lexeme, token, AnyTree, AllTree, SingleTree, just, or, sole, and, parens, coreqs, credits_item,
  placement_item, permission_item, course_item, graded_item, last, then_comma, any_tokens,
  all_tokens, single_tokens, comma_tokens, any_exprs, all_exprs, single_expr, comma_exprs, meaning,
}
use boiler_reviews.Catalog.Derives.{
  is_recursion, Parses, lexeme, starts-kind, starts-token, token-lexeme, items_of-Parses,
}
use boiler_reviews.Catalog.Reads.{parse-any_tokens}

length-append_tokens : (xs ys : List Token) → length (xs ++ ys) ≡ length xs + length ys
length-append_tokens = length-append

single-nonempty : (s : SingleTree) → 0 < length (single_tokens s)
unfolding single_tokens
single-nonempty (parens l d r) = omega arith
single-nonempty _ = omega arith

all-nonempty : (a : AllTree) → 0 < length (all_tokens a)
unfolding all_tokens
all-nonempty (sole s) = single-nonempty s
all-nonempty (and s l a) = omega (arith, single-nonempty s, length-append_tokens)

any-nonempty : (d : AnyTree) → 0 < length (any_tokens d)
unfolding any_tokens
any-nonempty (just a) = all-nonempty a
any-nonempty (or a l d) = omega (arith, all-nonempty a, length-append_tokens)

whole-Parses :
    {T : Type 0} (tokens : T → List Token) (value : T → Exprs) (f : Exprs → Expr) (ts : List Token)
    (r : Result (Exprs × List Token))
    → Parses tokens value ts r
    → Parses tokens (λ d. unless_one f (value d)) ts (whole f (λ _. r) ts)
whole-Parses tokens value f ts (ok (es, rest)) (d, here, is) = (d, here, ap (unless_one f) is)
whole-Parses tokens value f ts (err e) h = h

module _ (t : Texts) where
  require-Parses :
      (ts rest : List Token) (l : Token) (d : AnyTree) (es : Exprs)
      → l.kind ≡ lparen
      → any_tokens d ++ rest ≡ ts
      → any_exprs t d ≡ es
      → Parses single_tokens (single_expr t) (l ∷ ts) (in_parens (ok (es, rest)))
  unfolding single_tokens single_expr
  require-Parses ts rest l d es kind here is = elim (Bool-cases (starts rparen rest)) [
    | inr missing ↦ rw missing refl
    | inl closed ↦
        let (r, first) = starts-token rparen rest closed in
        rw closed (
          parens (lexeme l) d r,
          cc (
            append_assoc (any_tokens d) (token rparen r ∷ []) (tail rest),
            first,
            here,
            token-lexeme l lparen kind,
          ),
          ap (unless_one any_of) is,
        )
  ]

  in_parens-Parses :
      (ts : List Token) (l : Token) (r : Result (Exprs × List Token))
      → l.kind ≡ lparen
      → Parses any_tokens (any_exprs t) ts r
      → Parses single_tokens (single_expr t) (l ∷ ts) (in_parens r)
  in_parens-Parses ts l (ok (es, rest)) kind (d, here, is) =
      require-Parses ts rest l d es kind here is
  in_parens-Parses ts l (err e) kind h = h

  in_coreq-Parses :
      (ts : List Token) (c : Token) (l : Lexeme) (r : Result (Exprs × List Token))
      → c.kind ≡ coreq
      → Parses comma_tokens (comma_exprs t) ts r
      → Parses single_tokens (single_expr t) (c ∷ token lparen l ∷ ts) (in_coreq r)
  unfolding single_tokens single_expr
  in_coreq-Parses ts c l (ok (es, rest)) kind (ds, here, is) =
      elim (Bool-cases (starts rparen rest)) [
        | inr missing ↦ rw missing refl
        | inl closed ↦
            let (r, first) = starts-token rparen rest closed in
            rw closed (
              coreqs (lexeme c) l ds r,
              cc (
                append_assoc (comma_tokens ds) (token rparen r ∷ []) (tail rest),
                first,
                here,
                token-lexeme c coreq kind,
              ),
              ap co_requisite is,
            )
      ]
  in_coreq-Parses ts c l (err e) kind h = h

  graded-Parses :
      (c : Token) (ts : List Token)
      → c.kind ≡ course
      → Parses single_tokens (single_expr t) (c ∷ ts) (ok (graded t c ts))
  unfolding single_tokens single_expr
  graded-Parses c [] kind = (course_item (lexeme c), cc (token-lexeme c course kind), refl)
  graded-Parses c (g ∷ ts) kind = elim (Bool-cases (starts grade (g ∷ ts))) [
    | inr plain ↦ rw plain (course_item (lexeme c), cc (token-lexeme c course kind), refl)
    | inl good ↦ rw good (
      graded_item (lexeme c) (lexeme g),
      cc (token-lexeme c course kind, token-lexeme g grade (starts-kind grade g ts good)),
      refl,
    )
  ]

  -- The branches by the kind of the first token, with their calls.
  primary-Parses :
      (or_part comma_part : Parser Exprs) (k : TokenKind) (c : Token) (ts : List Token)
      → c.kind ≡ k
      → Parses any_tokens (any_exprs t) ts (or_part ts)
      → ((rest : List Token)
          → length rest + 1 ≡ length ts
          → Parses comma_tokens (comma_exprs t) rest (comma_part rest))
      → Parses single_tokens (single_expr t) (c ∷ ts) (primary_of t or_part comma_part k c ts)
  unfolding leaf single_tokens single_expr
  primary-Parses or_part comma_part lparen c ts kind inner coreqs' =
      in_parens-Parses ts c (or_part ts) kind inner
  primary-Parses or_part comma_part coreq c ts kind inner coreqs' =
      elim (Bool-cases (starts lparen ts)) [
        | inr missing ↦ rw missing refl
        | inl opened ↦
            let (l, first) = starts-token lparen ts opened in
            let size : length (tail ts) + 1 ≡ length ts = omega (arith, ap length first) in
            rw opened (
              subst
                (λ x.
                  Parses single_tokens (single_expr t) (c ∷ x) (in_coreq (comma_part (tail ts))))
                (sym first)
                (in_coreq-Parses (tail ts) c l (comma_part (tail ts)) kind
                  (coreqs' (tail ts) size)))
      ]
  primary-Parses or_part comma_part credits c ts kind inner coreqs' =
      (credits_item (lexeme c), cc (token-lexeme c credits kind), refl)
  primary-Parses or_part comma_part placement c ts kind inner coreqs' =
      (placement_item (lexeme c), cc (token-lexeme c placement kind), refl)
  primary-Parses or_part comma_part permission c ts kind inner coreqs' =
      (permission_item (lexeme c), cc (token-lexeme c permission kind), refl)
  primary-Parses or_part comma_part course c ts kind inner coreqs' = graded-Parses c ts kind
  primary-Parses or_part comma_part conj c ts kind inner coreqs' = refl
  primary-Parses or_part comma_part disj c ts kind inner coreqs' = refl
  primary-Parses or_part comma_part rparen c ts kind inner coreqs' = refl
  primary-Parses or_part comma_part comma c ts kind inner coreqs' = refl
  primary-Parses or_part comma_part grade c ts kind inner coreqs' = refl

  mutual
    unfolding or_items any_tokens any_exprs

    or_items-Parses :
        (f : ℕ) (ts : List Token)
        → 3 * length ts + 3 ≤ f
        → Parses any_tokens (any_exprs t) ts (or_items t f ts)
    or_items-Parses zero ts h = absurd (omega arith)
    or_items-Parses (suc f) ts h =
        items_of-Parses disj all_tokens (λ a. unless_one all_of (all_exprs t a)) any_tokens
          (any_exprs t) just or (λ i. refl) (λ i. refl) (λ i l d. refl) (λ i l d. refl)
          (whole all_of (and_items t f) ts) (or_items t f) ts all-nonempty
          (whole-Parses all_tokens (all_exprs t) all_of ts (and_items t f ts)
            (and_items-Parses f ts (omega arith)))
          (λ rest m. or_items-Parses f rest (omega arith))

    and_items-Parses :
        (f : ℕ) (ts : List Token)
        → 3 * length ts + 2 ≤ f
        → Parses all_tokens (all_exprs t) ts (and_items t f ts)
    and_items-Parses zero ts h = absurd (omega arith)
    and_items-Parses (suc f) ts h =
        items_of-Parses conj single_tokens (single_expr t) all_tokens (all_exprs t) sole and
          (λ i. refl) (λ i. refl) (λ i l d. refl) (λ i l d. refl) (parse_primary t f ts)
          (and_items t f) ts single-nonempty (parse_primary-Parses f ts (omega arith))
          (λ rest m. and_items-Parses f rest (omega arith))

    comma_items-Parses :
        (f : ℕ) (ts : List Token)
        → 3 * length ts + 4 ≤ f
        → Parses comma_tokens (comma_exprs t) ts (comma_items t f ts)
    comma_items-Parses zero ts h = absurd (omega arith)
    comma_items-Parses (suc f) ts h =
        items_of-Parses comma any_tokens (λ d. unless_one any_of (any_exprs t d)) comma_tokens
          (comma_exprs t) last then_comma (λ i. refl) (λ i. refl) (λ i l d. refl) (λ i l d. refl)
          (whole any_of (or_items t f) ts) (comma_items t f) ts any-nonempty
          (whole-Parses any_tokens (any_exprs t) any_of ts (or_items t f ts)
            (or_items-Parses f ts (omega arith)))
          (λ rest m. comma_items-Parses f rest (omega arith))

    parse_primary-Parses :
        (f : ℕ) (ts : List Token)
        → 3 * length ts + 1 ≤ f
        → Parses single_tokens (single_expr t) ts (parse_primary t f ts)
    parse_primary-Parses zero ts h = absurd (omega arith)
    parse_primary-Parses (suc f) [] h = refl
    parse_primary-Parses (suc f) (c ∷ ts) h =
        primary-Parses (or_items t f) (comma_items t f) c.kind c ts refl
          (or_items-Parses f ts (omega arith)) (λ rest m. comma_items-Parses f rest (omega arith))

  -- What `parse` makes of `ts`: an expression that a tree of the grammar stands for, or an error, which is
  -- not for want of fuel, if the grammar has no tree.
  abbrev pub Verdict : List Token → Result Expr → Type 0
  Verdict ts (ok e) = (d : AnyTree) × (any_tokens d ≡ ts) × (meaning t d ≡ e)
  Verdict ts (err x) = (is_recursion x ≡ false) × ((d : AnyTree) → any_tokens d ≢ ts)

  no-tree : (ts : List Token) (x : Error) → parse t ts ≡ err x → (d : AnyTree) → any_tokens d ≢ ts
  no-tree ts x h d e = cc (parse-any_tokens t d)

  finish-Verdict :
      (ts : List Token) (r : Result (Exprs × List Token))
      → (whole any_of (λ _. r) ts >>= finish t) ≡ parse t ts
      → Parses any_tokens (any_exprs t) ts r
      → Verdict ts (parse t ts)
  finish-Verdict ts (err x) same h = subst (Verdict ts) same (h, no-tree ts x (sym same))
  finish-Verdict ts (ok (es, [])) same (d, here, is) =
      subst (Verdict ts) same (d, sym (append-nil (any_tokens d)) ∙ here, ap (unless_one any_of) is)
  finish-Verdict ts (ok (es, c ∷ rest)) same (d, here, is) =
      subst (Verdict ts) same (refl, no-tree ts _ (sym same))

  -- `parse` accepts exactly the token lists of the grammar, and returns what the tree stands for.
  pub parse-Verdict : (ts : List Token) → Verdict ts (parse t ts)
  parse-Verdict ts =
      finish-Verdict ts (or_items t (3 * length ts + 3) ts) (unfold parse in refl)
        (or_items-Parses (3 * length ts + 3) ts (omega arith))
