-- ===== src/Tasks/Merge.antt =====
-- What a commit leaves alone: the columns that its session has not changed.
use boiler_reviews.Prelude.{
  ℕ, String, Bool, true, false, Option, none, some, [], ◌∷◌, ◌++◌, ◌≡◌, refl, inl, inr, arith, ◌==◌,
  nat_eq, string_eq, option_eq, not, select, if◌then◌else◌, Option-cases, Bool-cases, All, ap,
}
use mathlib.Core.Path.{subst}
use boiler_reviews.Prelude.Table.{
  find, find-put, put, is_some, HasUniqueKeys, append-HasUniqueKeys, find-append,
}
use boiler_reviews.Prelude.Json.{Json, same_bool, same_json_refl}
use boiler_reviews.Tasks.Model.{
  TaskStatus, queued, running, succeeded, failed, cancelled, DurableTask, Store, task_id, get, save,
}
use boiler_reviews.Tasks.Session.{
  same_status, same_json_column, merged, merged_row, merged_rows, add_rows, new_rows, committed,
}

same_status_refl : (x : TaskStatus) → same_status x x ≡ true
same_status_refl queued = refl
same_status_refl running = refl
same_status_refl succeeded = refl
same_status_refl failed = refl
same_status_refl cancelled = refl

same_bool_refl : (b : Bool) → same_bool b b ≡ true
same_bool_refl true = refl
same_bool_refl false = refl

same_json_column_refl : (o : Option Json) → same_json_column o o ≡ true
same_json_column_refl none = refl
same_json_column_refl (some a) = same_json_refl a

pub nat_refl : (n : ℕ) → (n == n) ≡ true
nat_refl n = (nat_eq.beq_iff n n).1 refl

text_refl : (s : String) → (s == s) ≡ true
text_refl s = (string_eq.beq_iff s s).1 refl

pub option_refl : (o : Option ℕ) → (o == o) ≡ true
option_refl o = (option_eq.beq_iff o o).1 refl

option_text_refl : (o : Option String) → (o == o) ≡ true
option_text_refl o = (option_eq.beq_iff o o).1 refl

-- A session that has not changed a row writes nothing to it.
pub merged-unchanged : (t theirs : DurableTask) → merged t t theirs ≡ theirs
unfolding merged
merged-unchanged t theirs =
    rw
      (
        option_refl t.account_id,
        text_refl t.task_type,
        same_status_refl t.status,
        same_json_refl t.payload_json,
        same_json_column_refl t.result_json,
        same_json_column_refl t.error_json,
        nat_refl t.progress,
        nat_refl t.attempts,
        option_refl t.lease_owner,
        option_refl t.lease_until,
        nat_refl t.fencing_token,
        same_bool_refl t.cancel_requested,
        option_text_refl t.idempotency_key,
        nat_refl t.created_at,
      )
      refl

abbrev pub map_row : (DurableTask → DurableTask) → Option DurableTask → Option DurableTask
map_row f none = none
map_row f (some t) = some (f t)

merged_row-id : (o o' : Option DurableTask) (t : DurableTask) → (merged_row o o' t).id ≡ t.id
unfolding merged
merged_row-id none o' t = refl
merged_row-id (some b) none t = refl
merged_row-id (some b) (some m) t = refl

pub get-merged_rows :
    (base mine s : Store) (i : ℕ)
    → get i (merged_rows base mine s) ≡ map_row (merged_row (get i base) (get i mine)) (get i s)
unfolding merged_rows find
get-merged_rows base mine [] i = refl
get-merged_rows base mine (t ∷ s) i = ground (
  arith,
  merged_row-id (get t.id base) (get t.id mine) t,
  nat_eq.beq_iff t.id i,
  get-merged_rows base mine s i,
)

merged_rows-HasUniqueKeys :
    (base mine s : Store)
    → HasUniqueKeys task_id s
    → HasUniqueKeys task_id (merged_rows base mine s)
unfolding merged_rows
merged_rows-HasUniqueKeys base mine [] u = tt
merged_rows-HasUniqueKeys base mine (t ∷ s) (fresh, u) = (
  ground (
    arith,
    fresh,
    merged_row-id (get t.id base) (get t.id mine) t,
    get-merged_rows base mine s t.id,
  ),
  merged_rows-HasUniqueKeys base mine s u,
)

-- Unique ids, and this row under its id.
pub record HasRow (i : ℕ) (t : DurableTask) (s : Store) : Type 0 where
  pub unique : HasUniqueKeys task_id s
  pub found : get i s ≡ some t

add_rows-HasRow :
    (new s : Store) (i : ℕ) (t : DurableTask) → HasRow i t s → HasRow i t (add_rows new s)
unfolding add_rows
add_rows-HasRow [] s i t h = h
add_rows-HasRow (x ∷ new) s i t h = elim (Option-cases (get x.id s)) [
  | inr (y, taken) ↦ rw taken (add_rows-HasRow new s i t h)
  | inl fresh ↦ rw fresh (
      add_rows-HasRow new (s ++ x ∷ []) i t (record {
        unique = append-HasUniqueKeys task_id s x h.unique fresh;
        found = ground (arith, h.found, find-append task_id i s (x ∷ []));
      }))
]

-- A row that neither the session nor the others have changed is as it was after the commit.
pub committed-HasRow :
    (base mine theirs : Store) (i : ℕ) (t : DurableTask)
    → HasRow i t base
    → HasRow i t mine
    → HasRow i t theirs
    → HasRow i t (committed base mine theirs)
unfolding committed
committed-HasRow base mine theirs i t b m h =
    add_rows-HasRow (new_rows base mine) (merged_rows base mine theirs) i t (record {
      unique = merged_rows-HasUniqueKeys base mine theirs h.unique;
      found =
          rw (get-merged_rows base mine theirs i, b.found, m.found, h.found, merged-unchanged t t)
            refl;
    })

-- The id of every row is one of the table's.
abbrev AreKnown : Store → Store → Type 0
AreKnown base = All (λ t. is_some (get t.id base) ≡ true)

rows-AreKnown : (s : Store) → AreKnown s s
unfolding find
rows-AreKnown s = go s (λ i h. h)
  where
    go :
        (part : Store)
        → ((i : ℕ) → is_some (get i part) ≡ true → is_some (get i s) ≡ true)
        → AreKnown s part
    go [] h = tt
    go (t ∷ part) h =
        (h t.id (ground (arith, nat_refl t.id)), go part (λ i there. h i (ground (arith, there))))

save-AreKnown :
    (base part : Store) (t : DurableTask)
    → is_some (get t.id base) ≡ true
    → AreKnown base part
    → AreKnown base (save t part)
unfolding put
save-AreKnown base [] t known h = tt
save-AreKnown base (x ∷ part) t known (here, there) = elim (Bool-cases (x.id == t.id)) [
  | inl same ↦ rw same (known, there)
  | inr other ↦ rw other (here, save-AreKnown base part t known there)
]

known-select :
    (base part : Store) → AreKnown base part → select (λ t. not (is_some (get t.id base))) part ≡ []
known-select base [] h = refl
known-select base (t ∷ part) (here, there) = rw here (known-select base part there)

merged_row-unchanged :
    (o : Option DurableTask) (theirs : Option DurableTask)
    → map_row (merged_row o o) theirs ≡ theirs
merged_row-unchanged o none = refl
merged_row-unchanged none (some t) = refl
merged_row-unchanged (some b) (some t) = ap some (merged-unchanged b t)

-- The commit of a session that has changed one row.
pub get-committed :
    (base theirs : Store) (current changed : DurableTask) (i : ℕ)
    → get changed.id base ≡ some current
    → get i (committed base (save changed base) theirs)
      ≡ (if changed.id == i then map_row (merged current changed) (get i theirs) else get i theirs)
unfolding committed add_rows
get-committed base theirs current changed i found =
    let none_new =
      known-select base (save changed base)
        (save-AreKnown base base changed (rw found refl) (rows-AreKnown base)) in
    rw none_new (
      rw (get-merged_rows base (save changed base) theirs i, find-put task_id i changed base)
        (elim (Bool-cases (changed.id == i)) [
          | inl here ↦
              let there : get i base ≡ some current =
                subst (λ j. get j base ≡ some current) ((nat_eq.beq_iff changed.id i).0 here)
                  found in
              rw (here, there) refl
          | inr other ↦ rw other (merged_row-unchanged (get i base) (get i theirs))
        ]))
