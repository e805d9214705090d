-- ===== src/Catalog/Reads.antt =====
-- The parser reads every tree of the grammar.
use mathlib.Core.List.{append_assoc, append-nil}
use boiler_reviews.Prelude.{
  ℕ, zero, suc, ◌+◌, ◌*◌, ◌≤◌, ◌≡◌, refl, false, List, [], ◌∷◌, ◌++◌, arith, length, nat_eq,
}
use boiler_reviews.Exec.Errors.{ok}
use boiler_reviews.Catalog.Tokens.{Texts, conj, disj, rparen, comma, grade, course, Token}
use boiler_reviews.Catalog.Parser.{
  starts, graded, leaf, or_items, and_items, comma_items, parse_primary, parse,
}
use boiler_reviews.Catalog.Grammar.{
  Lexeme, token, AnyTree, AllTree, SingleTree, CommaTree, just, or, sole, and, parens, coreqs,
  credits_item, placement_item, permission_item, course_item, graded_item, last, then_comma,
  any_tokens, all_tokens, single_tokens, comma_tokens, any_exprs, all_exprs, single_expr,
  comma_exprs, meaning, any_cost, all_cost, single_cost, comma_cost, any_cost-le,
}

-- What follows does not go on with the tree.
abbrev SingleStop : List Token → Type 0
SingleStop rest = starts grade rest ≡ false

abbrev AllStop : List Token → Type 0
AllStop rest = (starts conj rest ≡ false) × (starts grade rest ≡ false)

abbrev AnyStop : List Token → Type 0
AnyStop rest = (starts disj rest ≡ false) × (starts conj rest ≡ false) × (starts grade rest ≡ false)

course-stops :
    (t : Texts) (l : Lexeme) (rest : List Token)
    → SingleStop rest
    → graded t (token course l) rest ≡ (single_expr t (course_item l), rest)
unfolding single_expr
course-stops t l [] s = refl
course-stops t l (r ∷ rest) s = rw s refl

module _ (t : Texts) where
  mutual
    unfolding any_tokens any_exprs any_cost or_items leaf

    reads_any :
        (d : AnyTree) (f : ℕ) (rest : List Token)
        → any_cost d ≤ f
        → AnyStop rest
        → or_items t f (any_tokens d ++ rest) ≡ ok (any_exprs t d, rest)
    reads_any (just a) zero rest h s = absurd (omega arith)
    reads_any (just a) (suc f) rest h (no_or, no_and, no_grade) =
        rw (reads_all a f rest (omega arith) (no_and, no_grade), no_or) refl
    reads_any (or a l d) zero rest h s = absurd (omega arith)
    reads_any (or a l d) (suc f) rest h s =
        rw
          (
            append_assoc (all_tokens a) (token disj l ∷ any_tokens d) rest,
            reads_all a f (token disj l ∷ (any_tokens d ++ rest)) (omega arith) (refl, refl),
            reads_any d f rest (omega arith) s,
          )
          refl

    reads_all :
        (a : AllTree) (f : ℕ) (rest : List Token)
        → all_cost a ≤ f
        → AllStop rest
        → and_items t f (all_tokens a ++ rest) ≡ ok (all_exprs t a, rest)
    reads_all (sole s) zero rest h stop = absurd (omega arith)
    reads_all (sole s) (suc f) rest h (no_and, no_grade) =
        rw (reads_single s f rest (omega arith) no_grade, no_and) refl
    reads_all (and s l a) zero rest h stop = absurd (omega arith)
    reads_all (and s l a) (suc f) rest h stop =
        rw
          (
            append_assoc (single_tokens s) (token conj l ∷ all_tokens a) rest,
            reads_single s f (token conj l ∷ (all_tokens a ++ rest)) (omega arith) refl,
            reads_all a f rest (omega arith) stop,
          )
          refl

    reads_single :
        (s : SingleTree) (f : ℕ) (rest : List Token)
        → single_cost s ≤ f
        → SingleStop rest
        → parse_primary t f (single_tokens s ++ rest) ≡ ok (single_expr t s, rest)
    reads_single (parens l d r) zero rest h stop = absurd (omega arith)
    reads_single (parens l d r) (suc f) rest h stop =
        rw
          (
            append_assoc (any_tokens d) (token rparen r ∷ []) rest,
            reads_any d f (token rparen r ∷ rest) (omega arith) (refl, refl, refl),
          )
          refl
    reads_single (coreqs c l ds r) zero rest h stop = absurd (omega arith)
    reads_single (coreqs c l ds r) (suc f) rest h stop =
        rw
          (
            append_assoc (comma_tokens ds) (token rparen r ∷ []) rest,
            reads_comma ds f (token rparen r ∷ rest) (omega arith) refl refl refl refl,
          )
          refl
    reads_single (credits_item l) zero rest h stop = absurd (omega arith)
    reads_single (credits_item l) (suc f) rest h stop = refl
    reads_single (placement_item l) zero rest h stop = absurd (omega arith)
    reads_single (placement_item l) (suc f) rest h stop = refl
    reads_single (permission_item l) zero rest h stop = absurd (omega arith)
    reads_single (permission_item l) (suc f) rest h stop = refl
    reads_single (course_item l) zero rest h stop = absurd (omega arith)
    reads_single (course_item l) (suc f) rest h stop = rw (course-stops t l rest stop) refl
    reads_single (graded_item l g) zero rest h stop = absurd (omega arith)
    reads_single (graded_item l g) (suc f) rest h stop = refl

    reads_comma :
        (ds : CommaTree) (f : ℕ) (rest : List Token)
        → comma_cost ds ≤ f
        → starts comma rest ≡ false
        → starts disj rest ≡ false
        → starts conj rest ≡ false
        → starts grade rest ≡ false
        → comma_items t f (comma_tokens ds ++ rest) ≡ ok (comma_exprs t ds, rest)
    reads_comma (last d) zero rest h no_comma no_or no_and no_grade = absurd (omega arith)
    reads_comma (last d) (suc f) rest h no_comma no_or no_and no_grade =
        rw (reads_any d f rest (omega arith) (no_or, no_and, no_grade), no_comma) refl
    reads_comma (then_comma d l ds) zero rest h no_comma no_or no_and no_grade =
        absurd (omega arith)
    reads_comma (then_comma d l ds) (suc f) rest h no_comma no_or no_and no_grade =
        rw
          (
            append_assoc (any_tokens d) (token comma l ∷ comma_tokens ds) rest,
            reads_any d f (token comma l ∷ (comma_tokens ds ++ rest)) (omega arith)
                (refl, refl, refl),
            reads_comma ds f rest (omega arith) no_comma no_or no_and no_grade,
          )
          refl

  -- The parser reads the tokens of a tree to the expression that the tree stands for.
  pub parse-any_tokens : (d : AnyTree) → parse t (any_tokens d) ≡ ok (meaning t d)
  unfolding parse
  parse-any_tokens d =
      let read =
        reads_any d (3 * length (any_tokens d) + 3) [] (any_cost-le d) (refl, refl, refl) in
      rw (rw append-nil at read) refl
