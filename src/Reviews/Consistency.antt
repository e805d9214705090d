-- ===== src/Reviews/Consistency.antt =====
-- The invariant of the review tables: every review has its revisions, and the stored aggregates are
-- the totals over the public approved revisions.
use mathlib.Core.Path.{subst}
use boiler_reviews.Prelude.{
  ℕ, ◌<◌, ◌≡◌, refl, true, false, Option, none, some, List, [], ◌∷◌, arith, ◌==◌, nat_eq, pair_eq,
  All, Bool-cases, inl, inr,
}
use boiler_reviews.Prelude.Classes.{pair_beq_iff}
use boiler_reviews.Prelude.Table.{find, put, is_some, find-put}
use boiler_reviews.Reviews.Model.{
  draft, Review, ReviewRevision, CourseAggregate, Group, Store, review_group, review_id,
  revision_key,
}
use boiler_reviews.Reviews.Service.{is_public}
use boiler_reviews.Reviews.Totals.{Column, amount, amount_of, approved, contribution, total}
use boiler_reviews.Reviews.Sums.{Matches, Adds, AddsNothing}
use boiler_reviews.Reviews.Transition.{HasApproved}

-- A review's current revision and its approved one are in the table; a draft has no approved one.
pub record IsStored (vs : List ReviewRevision) (r : Review) : Type 0 where
  pub numbered : 0 < r.current_revision
  pub current : is_some (find revision_key (r.id, r.current_revision) vs) ≡ true
  pub has_approved : HasApproved vs r r.published_revision
  pub draft_unapproved : r.status ≡ draft → r.published_revision ≡ none

pub record IsConsistent (s : Store) : Type 0 where
  pub stored : All (IsStored s.revisions) s.reviews
  pub matches : Matches s.aggregates s.revisions s.reviews

pub All-find :
    (P : Review → Type 0) (rs : List Review) (k : ℕ) (r : Review)
    → All P rs
    → find review_id k rs ≡ some r
    → P r
unfolding find
All-find P [] k r h e = cc
All-find P (x ∷ rs) k r h e = elim (Bool-cases (x.id == k)) [
  | inl same ↦ (let one : x ≡ r = ground (arith, same) in subst P one h.0)
  | inr other ↦ All-find P rs k r h.1 (ground (arith, other))
]

pub All-put :
    (P : Review → Type 0) (rs : List Review) (r : Review)
    → All P rs
    → P r
    → All P (put review_id r rs)
unfolding put
All-put P [] r h p = tt
All-put P (x ∷ rs) r h p = elim (Bool-cases (x.id == r.id)) [
  | inl same ↦ rw same (p, h.1)
  | inr other ↦ rw other (h.0, All-put P rs r h.1 p)
]

-- Two writes of the same review are the last one.
pub put-put :
    (r r' : Review) (rs : List Review)
    → r.id ≡ r'.id
    → put review_id r (put review_id r' rs) ≡ put review_id r rs
unfolding put
put-put r r' [] h = refl
put-put r r' (x ∷ rs) h = ground (arith, put-put r r' rs h)

-- A stamp changes no amount.
approved-put :
    (c : Column) (vs : List ReviewRevision) (v v' : ReviewRevision) (r : Review) (o : Option ℕ)
    → find revision_key (revision_key v) vs ≡ some v
    → revision_key v' ≡ revision_key v
    → ((c : Column) → amount c v' ≡ amount c v)
    → amount_of c (approved (put revision_key v' vs) r o) ≡ amount_of c (approved vs r o)
unfolding approved
approved-put c vs v v' r none found key same = refl
approved-put c vs v v' r (some n) found key same =
    ground (
      arith,
      find-put revision_key (r.id, n) v' vs,
      pair_beq_iff (revision_key v') (r.id, n),
      same c,
    )

total-stamped :
    (c : Column) (g : Group) (vs : List ReviewRevision) (v v' : ReviewRevision) (rs : List Review)
    → find revision_key (revision_key v) vs ≡ some v
    → revision_key v' ≡ revision_key v
    → ((c : Column) → amount c v' ≡ amount c v)
    → total c g (put revision_key v' vs) rs ≡ total c g vs rs
unfolding total contribution
total-stamped c g vs v v' [] found key same = refl
total-stamped c g vs v v' (r ∷ rs) found key same = ground (
  arith,
  approved-put c vs v v' r r.published_revision found key same,
  total-stamped c g vs v v' rs found key same,
)

pub stamped-Matches :
    (rows : List CourseAggregate) (vs : List ReviewRevision) (v v' : ReviewRevision)
    (rs : List Review)
    → find revision_key (revision_key v) vs ≡ some v
    → revision_key v' ≡ revision_key v
    → ((c : Column) → amount c v' ≡ amount c v)
    → Matches rows vs rs
    → Matches rows (put revision_key v' vs) rs
stamped-Matches rows vs v v' rs found key same m = record {
  unique = m.unique;
  sums = λ c g. ground (arith, total-stamped c g vs v v' rs found key same, m.sums c g);
  nonempty = m.nonempty;
}

is_some-put :
    (vs : List ReviewRevision) (v' : ReviewRevision) (k : ℕ × ℕ)
    → is_some (find revision_key k vs) ≡ true
    → is_some (find revision_key k (put revision_key v' vs)) ≡ true
is_some-put vs v' k h = ground (arith, find-put revision_key k v' vs)

HasApproved-put :
    (vs : List ReviewRevision) (v' : ReviewRevision) (r : Review) (o : Option ℕ)
    → HasApproved vs r o
    → HasApproved (put revision_key v' vs) r o
HasApproved-put vs v' r none h = tt
HasApproved-put vs v' r (some n) h = (h.0, is_some-put vs v' (r.id, n) h.1)

pub put-IsStored :
    (vs : List ReviewRevision) (v' : ReviewRevision) (rs : List Review)
    → All (IsStored vs) rs
    → All (IsStored (put revision_key v' vs)) rs
put-IsStored vs v' [] h = tt
put-IsStored vs v' (r ∷ rs) (h, hs) = (
  record {
    numbered = h.numbered;
    current = is_some-put vs v' (r.id, r.current_revision) h.current;
    has_approved = HasApproved-put vs v' r r.published_revision h.has_approved;
    draft_unapproved = h.draft_unapproved;
  },
  put-IsStored vs v' rs hs,
)

-- A review that is not public, or has no approved revision, adds nothing.
pub AddsNothing-not_public :
    (vs : List ReviewRevision) (r : Review) → is_public r.status ≡ false → AddsNothing vs r
unfolding contribution
AddsNothing-not_public vs r h c g = rw h

pub AddsNothing-unapproved :
    (vs : List ReviewRevision) (r : Review)
    → approved vs r r.published_revision ≡ none
    → AddsNothing vs r
unfolding contribution
AddsNothing-unapproved vs r h c g = rw h (ground arith)

-- A public review adds its approved revision to its group.
pub Adds-approved :
    (vs : List ReviewRevision) (r : Review) (v : ReviewRevision)
    → is_public r.status ≡ true
    → approved vs r r.published_revision ≡ some v
    → Adds vs r (review_group r) v
unfolding contribution
Adds-approved vs r v public found c g = rw (public, found)
