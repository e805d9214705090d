-- ===== src/Reviews/Inserts.antt =====
-- New rows keep the invariant: a revision that is added, a review that is created or edited.
use boiler_reviews.Prelude.{
  ℕ, ◌+◌, ◌≡◌, refl, String, true, Option, none, some, List, [], ◌∷◌, ◌++◌, arith, nat_eq, pair_eq,
  All,
}
use boiler_reviews.Prelude.Classes.{pair_beq_iff}
use boiler_reviews.Prelude.Table.{find, put, is_some, find-append}
use boiler_reviews.Reviews.Model.{
  Review, ReviewRevision, CourseAggregate, Group, Store, review_id, revision_key,
}
use boiler_reviews.Reviews.Totals.{Column, approved, contribution, total}
use boiler_reviews.Reviews.Sums.{Matches, unmoved-Matches}
use boiler_reviews.Reviews.Transition.{HasApproved}
use boiler_reviews.Reviews.Consistency.{IsStored, IsConsistent, All-find, All-put}
use boiler_reviews.Reviews.Removal.{approved-id}
use boiler_reviews.Reviews.Operations.{ReviewInput, new_review, revision_of, edited}

-- A revision that is there stays what it is when one is added.
is_some-append :
    (vs : List ReviewRevision) (w : ReviewRevision) (k : ℕ × ℕ)
    → is_some (find revision_key k vs) ≡ true
    → is_some (find revision_key k (vs ++ w ∷ [])) ≡ true
is_some-append vs w k h = ground (arith, find-append revision_key k vs (w ∷ []))

approved-append :
    (vs : List ReviewRevision) (w : ReviewRevision) (r : Review) (o : Option ℕ)
    → HasApproved vs r o
    → approved (vs ++ w ∷ []) r o ≡ approved vs r o
unfolding approved
approved-append vs w r none h = refl
approved-append vs w r (some n) h =
    ground (arith, find-append revision_key (r.id, n) vs (w ∷ []), h.1)

HasApproved-append :
    (vs : List ReviewRevision) (w : ReviewRevision) (r : Review) (o : Option ℕ)
    → HasApproved vs r o
    → HasApproved (vs ++ w ∷ []) r o
HasApproved-append vs w r none h = tt
HasApproved-append vs w r (some n) h = (h.0, is_some-append vs w (r.id, n) h.1)

append-IsStored :
    (vs : List ReviewRevision) (w : ReviewRevision) (r : Review)
    → IsStored vs r
    → IsStored (vs ++ w ∷ []) r
append-IsStored vs w r h = record {
  numbered = h.numbered;
  current = is_some-append vs w (r.id, r.current_revision) h.current;
  has_approved = HasApproved-append vs w r r.published_revision h.has_approved;
  draft_unapproved = h.draft_unapproved;
}

append-AllStored :
    (vs : List ReviewRevision) (w : ReviewRevision) (rs : List Review)
    → All (IsStored vs) rs
    → All (IsStored (vs ++ w ∷ [])) rs
append-AllStored vs w [] h = tt
append-AllStored vs w (r ∷ rs) h = (append-IsStored vs w r h.0, append-AllStored vs w rs h.1)

-- What the totals ask of a review: its approved revision is there.
abbrev pub AllApproved : List ReviewRevision → List Review → Type 0
AllApproved vs = All (λ r. HasApproved vs r r.published_revision)

total-append_revision :
    (c : Column) (g : Group) (vs : List ReviewRevision) (w : ReviewRevision) (rs : List Review)
    → AllApproved vs rs
    → total c g (vs ++ w ∷ []) rs ≡ total c g vs rs
unfolding total contribution
total-append_revision c g vs w [] h = refl
total-append_revision c g vs w (r ∷ rs) h =
    rw (approved-append vs w r r.published_revision h.0, total-append_revision c g vs w rs h.1)

append_revision-Matches :
    (rows : List CourseAggregate) (vs : List ReviewRevision) (w : ReviewRevision) (rs : List Review)
    → AllApproved vs rs
    → Matches rows vs rs
    → Matches rows (vs ++ w ∷ []) rs
append_revision-Matches rows vs w rs h m = record {
  unique = m.unique;
  sums = λ c g. ground (arith, total-append_revision c g vs w rs h, m.sums c g);
  nonempty = m.nonempty;
}

AllStored-AllApproved :
    (vs : List ReviewRevision) (rs : List Review) → All (IsStored vs) rs → AllApproved vs rs
AllStored-AllApproved vs [] h = tt
AllStored-AllApproved vs (r ∷ rs) h = (h.0.has_approved, AllStored-AllApproved vs rs h.1)

All-append_one :
    (P : Review → Type 0) (rs : List Review) (r : Review) → All P rs → P r → All P (rs ++ r ∷ [])
All-append_one P [] r h p = (p, tt)
All-append_one P (x ∷ rs) r h p = (h.0, All-append_one P rs r h.1 p)

total-append_review :
    (c : Column) (g : Group) (vs : List ReviewRevision) (rs : List Review) (r : Review)
    → total c g vs (rs ++ r ∷ []) ≡ total c g vs rs + contribution c g vs r
unfolding total
total-append_review c g vs [] r = omega arith
total-append_review c g vs (x ∷ rs) r = omega (arith, total-append_review c g vs rs r)

find-added :
    (vs : List ReviewRevision) (w : ReviewRevision)
    → is_some (find revision_key (revision_key w) (vs ++ w ∷ [])) ≡ true
unfolding find
find-added vs w = ground (
  arith,
  find-append revision_key (revision_key w) vs (w ∷ []),
  pair_beq_iff (revision_key w) (revision_key w),
)

module _ (s : Store) (inv : IsConsistent s) where
  open inv use {stored, matches}

  all_approved : AllApproved s.revisions s.reviews
  all_approved = AllStored-AllApproved s.revisions s.reviews stored

  -- A new draft with its first revision.
  module _ (id now actor : ℕ) (d : ReviewInput) (key : Option String) where
    abbrev draft_row : Review
    draft_row = new_review id now actor d key

    abbrev first_revision : ReviewRevision
    first_revision = revision_of id 1 none d

    draft-IsStored : IsStored (s.revisions ++ first_revision ∷ []) draft_row
    draft-IsStored = record {
      numbered = omega arith;
      current = find-added s.revisions first_revision;
      has_approved = tt;
      draft_unapproved = λ _. refl;
    }

    pub created-IsStored :
        All (IsStored (s.revisions ++ first_revision ∷ [])) (s.reviews ++ draft_row ∷ [])
    created-IsStored =
        All-append_one (IsStored (s.revisions ++ first_revision ∷ [])) s.reviews draft_row
          (append-AllStored s.revisions first_revision s.reviews stored) draft-IsStored

    pub created-Matches :
        Matches s.aggregates (s.revisions ++ first_revision ∷ []) (s.reviews ++ draft_row ∷ [])
    unfolding contribution
    created-Matches =
        let m =
          append_revision-Matches s.aggregates s.revisions first_revision s.reviews all_approved
            matches in
        record {
          unique = m.unique;
          sums = λ c g. ground (
            arith,
            m.sums c g,
            total-append_review c g (s.revisions ++ first_revision ∷ []) s.reviews draft_row,
          );
          nonempty = m.nonempty;
        }

  -- An edit, with the revision that it adds.
  module _ (r : Review) (read : find review_id r.id s.reviews ≡ some r) (w : ReviewRevision)
      (key : revision_key w ≡ (r.id, r.current_revision + 1)) where
    row : IsStored s.revisions r
    row = All-find (IsStored s.revisions) s.reviews r.id r stored read

    -- An edit leaves what the review adds as it was: its approved revision stays.
    edited-contribution :
        (c : Column) (g : Group)
        → contribution c g s.revisions (edited r) ≡ contribution c g s.revisions r
    unfolding contribution
    edited-contribution c g =
        rw (approved-id s.revisions (edited r) r r.published_revision refl) (ground arith)

    edited_row-IsStored : IsStored (s.revisions ++ w ∷ []) (edited r)
    edited_row-IsStored = record {
      numbered = omega arith;
      current = rw key at (find-added s.revisions w);
      has_approved =
          approved_again r.published_revision
            (HasApproved-append s.revisions w r r.published_revision row.has_approved);
      draft_unapproved = λ e. row.draft_unapproved (ground arith);
    }
      where
        approved_again :
            (o : Option ℕ)
            → HasApproved (s.revisions ++ w ∷ []) r o
            → HasApproved (s.revisions ++ w ∷ []) (edited r) o
        approved_again none a = tt
        approved_again (some n) a = a

    pub edited-IsStored :
        All (IsStored (s.revisions ++ w ∷ [])) (put review_id (edited r) s.reviews)
    edited-IsStored =
        All-put (IsStored (s.revisions ++ w ∷ [])) s.reviews (edited r)
          (append-AllStored s.revisions w s.reviews stored) edited_row-IsStored

    pub edited-Matches :
        Matches s.aggregates (s.revisions ++ w ∷ []) (put review_id (edited r) s.reviews)
    edited-Matches =
        append_revision-Matches s.aggregates s.revisions w (put review_id (edited r) s.reviews)
          (All-put (λ x. HasApproved s.revisions x x.published_revision) s.reviews (edited r)
            all_approved (approved_still r.published_revision row.has_approved))
          (unmoved-Matches s.aggregates s.revisions s.reviews matches r (edited r) read
            edited-contribution)
      where
        approved_still :
            (o : Option ℕ) → HasApproved s.revisions r o → HasApproved s.revisions (edited r) o
        approved_still none a = tt
        approved_still (some n) a = a
