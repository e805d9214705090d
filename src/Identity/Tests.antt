-- ===== src/Identity/Tests.antt =====
-- Accounts at concrete inputs.
use boiler_reviews.Prelude.{◌≡◌, refl, true, false, [], ◌∷◌, none, if◌then◌else◌, ◌==◌, string_eq}
use boiler_reviews.Prelude.Text.{is_space, strip, lstrip, rstrip}
use boiler_reviews.Identity.Accounts.{
  Account, Directory, codes, is_address, Texts, verified, mismatch, new_account, created,
  normalize_email, register_account, authenticate,
}
use boiler_reviews.Identity.Login.{
  IsDirectory, authenticate-register_account, register_account-IsDirectory,
}
use boiler_reviews.Prelude.Table.{find}
use boiler_reviews.Prelude.Dict.{distinct}
use boiler_reviews.Prelude.Sort.{sorted_by}
use boiler_reviews.Exec.{ok}

good_address : is_address (codes "ann@purdue.edu") ≡ true
unfolding is_space
good_address = refl

no_domain : is_address (codes "ann@edu") ≡ false
unfolding is_space
no_domain = refl

two_signs : is_address (codes "ann@x@purdue.edu") ≡ false
unfolding is_space
two_signs = refl

-- A hasher that keeps the password, and texts in lower case only.
abbrev texts : Texts
texts = record {
  casefold = λ s. s;
  hash = λ s. s;
  verify = λ h p. if h == p then verified else mismatch;
}

abbrev empty : Directory
empty = record { accounts = []; audits = [] }

abbrev ann : Account
ann = new_account texts 1 "ann@purdue.edu" "correct horse battery" "Ann" ("student" ∷ []) true

abbrev with_ann : Directory
with_ann = record { accounts = ann ∷ []; audits = created ann ∷ [] }

authenticate-register_account_example :
    authenticate texts "ann@purdue.edu" "wrong" with_ann ≡ (ok none, with_ann)
unfolding register_account authenticate normalize_email is_space strip lstrip rstrip find distinct
    sorted_by
authenticate-register_account_example =
    authenticate-register_account texts 1 "ann@purdue.edu" "correct horse battery" "Ann "
      ("student" ∷ []) true empty ann with_ann "wrong" refl

register_account-IsDirectory_example : IsDirectory with_ann
unfolding register_account normalize_email is_space strip lstrip rstrip find distinct sorted_by
register_account-IsDirectory_example =
    register_account-IsDirectory texts 1 " ann@purdue.edu" "correct horse battery" "Ann "
      ("student" ∷ []) true empty ann with_ann
      (record { unique_ids = tt; unique_emails = tt; in_form = tt }) refl
