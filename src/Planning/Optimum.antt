-- ===== src/Planning/Optimum.antt =====
-- `enumerate_optimum` returns, and what it returns is a best valid assignment of the product.
use mathlib.Core.Path.{subst}
use boiler_reviews.Prelude.{
  ℕ, suc, ◌+◌, ◌≤◌, ◌≡◌, ◌≢◌, refl, Bool, true, false, none, List, [], ◌∷◌, ◌++◌, map, length,
  arith, ◌==◌, string_eq, nat_eq, leb, contains, All, inl, inr, Bool-cases,
}
use boiler_reviews.Exec.Errors.{ok}
use boiler_reviews.Planning.Model.{PlanRequest}
use boiler_reviews.Planning.Oracle.{
  Best, result_of, enumerate, enumerate_optimum, product, prefix_all, choices, assignment_of,
}
use boiler_reviews.Planning.Turns.{
  Bounds, IsAttained, improve-IsAttained, improve-Bounds, improve-keeps, improve-ok,
}

-- The result of a search through `rows` that found `final`, when it was not cut off.
record IsSearched (r : PlanRequest) (limit : ℕ) (rows : List (List ℕ)) (best : Best) (n : ℕ)
    : Type 0 where
  final : Best
  checked : ℕ
  truncated : Bool
  returns : enumerate r limit rows best n ≡ ok (result_of final checked truncated)
  attained : IsAttained r final
  bounds : truncated ≡ false → All (Bounds r final) rows
  keeps : (values : List ℕ) → Bounds r best values → Bounds r final values
  counted : truncated ≡ false → checked ≡ n + length rows
  cut_off : truncated ≡ true → limit ≤ checked

enumerate-IsSearched :
    (r : PlanRequest) (limit : ℕ) (rows : List (List ℕ)) (best : Best) (n : ℕ)
    → r.terms ≢ []
    → IsAttained r best
    → IsSearched r limit rows best n
unfolding enumerate
enumerate-IsSearched r limit [] best n some_term h = record {
  final = best;
  checked = n;
  truncated = false;
  returns = refl;
  attained = h;
  bounds = λ _. tt;
  keeps = λ values b. b;
  counted = λ _. omega arith;
  cut_off = λ e. absurd (cc);
}
enumerate-IsSearched r limit (values ∷ rows) best n some_term h =
    let (best', improved) = improve-ok r best (assignment_of r values) some_term in
    let attained = improve-IsAttained r best best' (assignment_of r values) improved h in
    let now = improve-Bounds r best best' values improved in
    let keeps =
      λ (other : List ℕ). improve-keeps r best best' (assignment_of r values) other improved in
    elim (Bool-cases (leb limit (suc n))) [
      | inl stop ↦ record {
        final = best';
        checked = suc n;
        truncated = true;
        returns = rw (improved, stop) refl;
        attained = attained;
        bounds = λ e. absurd (cc);
        keeps = keeps;
        counted = λ e. absurd (cc);
        cut_off = λ _. ground arith;
      }
      | inr go_on ↦
          let later = enumerate-IsSearched r limit rows best' (suc n) some_term attained in
          record {
            final = later.final;
            checked = later.checked;
            truncated = later.truncated;
            returns = rw (improved, go_on) later.returns;
            attained = later.attained;
            bounds = λ e. (later.keeps values now, later.bounds e);
            keeps = λ other b. later.keeps other (keeps other b);
            counted = λ e. omega (arith, later.counted e);
            cut_off = later.cut_off;
          }
    ]

-- One value out of each list.
unfoldable pub Picks : List (List ℕ) → List ℕ → Type 0
Picks [] [] = Unit
Picks [] (x ∷ xs) = ⊥
Picks (c ∷ cs) [] = ⊥
Picks (c ∷ cs) (x ∷ xs) = (contains c x ≡ true) × Picks cs xs

All-append : (P : List ℕ → Type 0) (xs ys : List (List ℕ)) → All P (xs ++ ys) → All P xs × All P ys
All-append P [] ys h = (tt, h)
All-append P (x ∷ xs) ys (h, hs) = let (left, right) = All-append P xs ys hs in ((h, left), right)

All-map :
    (P : List ℕ → Type 0) (x : ℕ) (rows : List (List ℕ))
    → All P (map (λ rest. x ∷ rest) rows)
    → All (λ rest. P (x ∷ rest)) rows
All-map P x [] h = tt
All-map P x (row ∷ rows) (h, hs) = (h, All-map P x rows hs)

prefix_all-All :
    (P : List ℕ → Type 0) (c : List ℕ) (rows : List (List ℕ)) (x : ℕ)
    → All P (prefix_all c rows)
    → contains c x ≡ true
    → All (λ rest. P (x ∷ rest)) rows
prefix_all-All P [] rows x h chosen = absurd (cc)
prefix_all-All P (y ∷ c) rows x h chosen =
    let (here, there) = All-append P (map (λ rest. y ∷ rest) rows) (prefix_all c rows) h in
    elim (Bool-cases (y == x)) [
      | inl same ↦
          subst (λ z. All (λ rest. P (z ∷ rest)) rows) ((nat_eq.beq_iff y x).0 same)
            (All-map P y rows here)
      | inr other ↦ prefix_all-All P c rows x there (ground arith)
    ]

-- The product holds every way to pick one value out of each list.
product-All :
    (cs : List (List ℕ)) (P : List ℕ → Type 0) (xs : List ℕ)
    → All P (product cs)
    → Picks cs xs
    → P xs
unfolding product Picks
product-All [] P [] h picked = h.0
product-All [] P (x ∷ xs) h picked = absurd picked
product-All (c ∷ cs) P [] h picked = absurd picked
product-All (c ∷ cs) P (x ∷ xs) h (chosen, picked) =
    product-All cs (λ rest. P (x ∷ rest)) xs (prefix_all-All P c (product cs) x h chosen) picked

-- With at least one term, `enumerate_optimum` returns. What it reports is nothing, or a valid
-- assignment with its objective value. If it was not truncated it has checked the whole product, and
-- of the assignments that give each course 0 or one of its terms, it reports nothing only if none is
-- valid, and otherwise one that no valid one beats; it is truncated only when the limit is reached.
pub enumerate_optimum_lem :
    (r : PlanRequest) (limit : ℕ)
    → r.terms ≢ []
    → (best : Best) × (checked : ℕ) × (truncated : Bool) × (enumerate_optimum r limit
        ≡ ok (result_of best checked truncated))
      × IsAttained r best
      × (truncated ≡ false
          → (values : List ℕ) → Picks (map (choices r) r.courses) values
          → Bounds r best values)
      × (truncated ≡ false → checked ≡ length (product (map (choices r) r.courses)))
      × (truncated ≡ true → limit ≤ checked)
unfolding enumerate_optimum
enumerate_optimum_lem r limit some_term =
    let found =
      enumerate-IsSearched r limit (product (map (choices r) r.courses)) none 0 some_term tt in
    (
      found.final,
      found.checked,
      found.truncated,
      found.returns,
      found.attained,
      λ e values.
          product-All (map (choices r) r.courses) (Bounds r found.final) values (found.bounds e),
      λ e. omega (arith, found.counted e),
      found.cut_off,
    )
