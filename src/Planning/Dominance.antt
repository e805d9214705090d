-- ===== src/Planning/Dominance.antt =====
-- The order on objective vectors of src/boiler_reviews/planning/alternatives.py.
use boiler_reviews.Prelude.{ℕ, Bool, true, false, ◌≡◌, refl, arith, ◌&&◌, ◌||◌, not, leb, ltb}
use boiler_reviews.Prelude.Int.{ℤ, ltb_ℤ}
use boiler_reviews.Planning.Alternatives.{
  ObjectiveVector, leb_ℤ, better_or_equal, strictly_better, dominates,
}

leb_ℤ_trans : (a b c : ℤ) → leb_ℤ a b ≡ true → leb_ℤ b c ≡ true → leb_ℤ a c ≡ true
leb_ℤ_trans a b c h k = ground arith

leb_ℤ-refl : (a : ℤ) → leb_ℤ a a ≡ true
leb_ℤ-refl a = ground arith

pub better_or_equal_refl : (a : ObjectiveVector) → better_or_equal a a ≡ true
unfolding better_or_equal
better_or_equal_refl a = ground (
  arith,
  leb_ℤ-refl a.peak_workload,
  leb_ℤ-refl a.preference_points,
  leb_ℤ-refl a.selected_credits,
)

four :
    (p q r s : Bool)
    → (p && (q && (r && s))) ≡ true
    → (p ≡ true) × (q ≡ true) × (r ≡ true) × (s ≡ true)
four p q r s h = ground (arith, h)

four_not : (p q r s : Bool) → (p || (q || (r || s))) ≡ not (not p && (not q && (not r && not s)))
four_not p q r s = ground arith

leb-not-ltb : (a b : ℕ) → leb a b ≡ not (ltb b a)
leb-not-ltb a b = ground arith

-- What is strictly better is not worse or equal.
strictly_better-not : (a b : ObjectiveVector) → strictly_better a b ≡ not (better_or_equal b a)
unfolding better_or_equal strictly_better
strictly_better-not a b = rw (leb-not-ltb b.completion_terms a.completion_terms) (
    four_not (ltb a.completion_terms b.completion_terms) (ltb_ℤ a.peak_workload b.peak_workload)
      (ltb_ℤ b.preference_points a.preference_points) (ltb_ℤ b.selected_credits a.selected_credits))

better_or_equal_parts :
    (a b : ObjectiveVector)
    → better_or_equal a b ≡ true
    → (leb a.completion_terms b.completion_terms ≡ true)
      × (leb_ℤ a.peak_workload b.peak_workload ≡ true)
      × (leb_ℤ b.preference_points a.preference_points ≡ true)
      × (leb_ℤ b.selected_credits a.selected_credits ≡ true)
unfolding better_or_equal
better_or_equal_parts a b h =
    four (leb a.completion_terms b.completion_terms) (leb_ℤ a.peak_workload b.peak_workload)
      (leb_ℤ b.preference_points a.preference_points) (leb_ℤ b.selected_credits a.selected_credits)
      h

pub better_or_equal_trans :
    (a b c : ObjectiveVector)
    → better_or_equal a b ≡ true
    → better_or_equal b c ≡ true
    → better_or_equal a c ≡ true
unfolding better_or_equal
better_or_equal_trans a b c h k =
    let (h1, h2, h3, h4) = better_or_equal_parts a b h in
    let (k1, k2, k3, k4) = better_or_equal_parts b c k in
    let t : leb a.completion_terms c.completion_terms ≡ true = ground (arith, h1, k1) in
    rw
      (
        t,
        leb_ℤ_trans a.peak_workload b.peak_workload c.peak_workload h2 k2,
        leb_ℤ_trans c.preference_points b.preference_points a.preference_points k3 h3,
        leb_ℤ_trans c.selected_credits b.selected_credits a.selected_credits k4 h4,
      )
      refl

-- An objective vector does not dominate itself.
pub dominates_irreflexive : (a : ObjectiveVector) → dominates a a ≡ false
unfolding dominates
dominates_irreflexive a =
    rw (better_or_equal_refl a, strictly_better-not a a, better_or_equal_refl a) refl

pub dominates_better : (a b : ObjectiveVector) → dominates a b ≡ true → better_or_equal a b ≡ true
unfolding dominates
dominates_better a b h = ground (arith, h)

pub dominates_trans :
    (a b c : ObjectiveVector) → dominates a b ≡ true → dominates b c ≡ true → dominates a c ≡ true
unfolding dominates
dominates_trans a b c h k = ground (
  arith,
  h,
  k,
  strictly_better-not a b,
  strictly_better-not b c,
  strictly_better-not a c,
  better_or_equal_trans a b c,
  better_or_equal_trans c a b,
  better_or_equal_trans b c a,
)
