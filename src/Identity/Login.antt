-- ===== src/Identity/Login.antt =====
-- What registration keeps, and who can log in after it.
use mathlib.Core.Path.{subst}
use boiler_reviews.Prelude.{
  ℕ, ◌≡◌, refl, sym, ap, inl, inr, String, Bool, true, false, Option, none, some, List, [], ◌∷◌,
  ◌++◌, arith, nat_eq, string_eq, ltb, first, All, Bool-cases, Option-cases,
}
use boiler_reviews.Prelude.Text.{strip}
use boiler_reviews.Prelude.Table.{find, HasUniqueKeys, append-HasUniqueKeys}
use boiler_reviews.Exec.{Result, ok, err, bind-ok, value_error}
use boiler_reviews.Identity.Accounts.{
  Account, Directory, account_email, account_id, codes, text_length, is_address, Texts,
  Verification, verified, mismatch, invalid_hash, normalize_email, new_account, insert_account,
  store_account, record_creation, created, has_good_length, register_account, is_login, admit,
  authenticate,
}

first-login :
    (email : String) (xs : List Account) (a : Account)
    → find account_email email xs ≡ none
    → is_login email a ≡ true
    → first (is_login email) (xs ++ a ∷ []) ≡ some a
unfolding find
first-login email [] a fresh fits = ground arith
first-login email (x ∷ xs) a fresh fits = ground (arith, first-login email xs a)

-- The address that `email` stands for.
abbrev normalized : Texts → String → String
normalized t email = t.casefold (strip email)

normalize_email-ok :
    (t : Texts) (email : String) (d : Directory)
    → is_address (codes (normalized t email)) ≡ true
    → normalize_email t email d ≡ (ok (normalized t email), d)
unfolding normalize_email
normalize_email-ok t email d h = rw h refl

-- The tables with the account and its audit event.
abbrev with_account : Account → Directory → Directory
with_account a d = record { accounts = d.accounts ++ a ∷ []; audits = d.audits ++ created a ∷ [] }

store_account-ok :
    (a : Account) (d : Directory)
    → find account_id a.id d.accounts ≡ none
    → find account_email a.email d.accounts ≡ none
    → store_account a d ≡ (ok a, with_account a d)
store_account-ok a d h k =
    bind-ok (insert_account a) (λ _. record_creation a) d (rw (h, k) refl) refl

-- What a registration that returns has found and done.
record Registered (t : Texts) (id : ℕ) (email password name : String) (roles : List String)
    (synthetic : Bool) (d : Directory) (a : Account) (d' : Directory) : Type 0 where
  address : is_address (codes (normalized t email)) ≡ true
  is_long : ltb (text_length password) 12 ≡ false
  good : has_good_length (strip name) ≡ true
  new_email : find account_email (normalized t email) d.accounts ≡ none
  new_id : find account_id id d.accounts ≡ none
  account : a ≡ new_account t id (normalized t email) password (strip name) roles synthetic
  added : d'.accounts ≡ d.accounts ++ a ∷ []

register_account-Registered :
    (t : Texts) (id : ℕ) (email password name : String) (roles : List String) (synthetic : Bool)
    (d : Directory) (a : Account) (d' : Directory)
    → register_account t id email password name roles synthetic d ≡ (ok a, d')
    → Registered t id email password name roles synthetic d a d'
unfolding register_account normalize_email
register_account-Registered t id email password name roles synthetic d a d' h =
    elim (Bool-cases (is_address (codes (normalized t email)))) [
      | inr bad ↦ absurd (ground arith)
      | inl address ↦ elim (Bool-cases (ltb (text_length password) 12)) [
        | inl short ↦ absurd (ground arith)
        | inr long ↦ elim (Bool-cases (has_good_length (strip name))) [
          | inr bad ↦ absurd (ground arith)
          | inl good ↦ elim (Option-cases (find account_email (normalized t email) d.accounts)) [
            | inr (x, taken) ↦ absurd (ground arith)
            | inl new_email ↦ elim (Option-cases (find account_id id d.accounts)) [
              | inr (x, taken) ↦ absurd (ground arith)
              | inl new_id ↦
                  let stored =
                    new_account t id (normalized t email) password (strip name) roles synthetic in
                  let done : register_account t id email password name roles synthetic d
                      ≡ (ok stored, with_account stored d) =
                    rw (address, long, good, new_email)
                      (store_account-ok stored d new_id new_email) in
                  record {
                    address = address;
                    is_long = long;
                    good = good;
                    new_email = new_email;
                    new_id = new_id;
                    account = ground (arith, done);
                    added = ground (arith, done);
                  }
            ]
          ]
        ]
      ]
    ]

-- What a login with a right, a wrong and an unreadable hash should give.
abbrev pub login_result : Account → Verification → Result (Option Account)
login_result a verified = ok (some a)
login_result a mismatch = ok none
login_result a invalid_hash = err (value_error "invalid hash")

admit-login_result :
    (a : Account) (v : Verification) (d : Directory) → admit a v d ≡ (login_result a v, d)
admit-login_result a verified d = refl
admit-login_result a mismatch d = refl
admit-login_result a invalid_hash d = refl

-- If registration returns an account, a login with the same address and any password returns this
-- account if the hasher verifies the password against the hash of the registered one, returns nothing
-- if it finds a mismatch, and raises if it cannot read the hash; it changes nothing.
pub authenticate-register_account :
    (t : Texts) (id : ℕ) (email password name : String) (roles : List String) (synthetic : Bool)
    (d : Directory) (a : Account) (d' : Directory) (attempt : String)
    → register_account t id email password name roles synthetic d ≡ (ok a, d')
    → authenticate t email attempt d' ≡ (login_result a (t.verify (t.hash password) attempt), d')
unfolding authenticate
authenticate-register_account t id email password name roles synthetic d a d' attempt h =
    let r = register_account-Registered t id email password name roles synthetic d a d' h in
    let login : first (is_login (normalized t email)) d'.accounts ≡ some a = rw r.added (
      first-login (normalized t email) d.accounts a r.new_email
        (ground (arith, r.account, string_eq.beq_iff (normalized t email) (normalized t email)))) in
    let hash : a.password_hash ≡ t.hash password = ground (arith, r.account) in
    rw (r.address, login)
      (subst
        (λ h.
          admit a (t.verify h attempt) d'
          ≡ (login_result a (t.verify (t.hash password) attempt), d'))
        (sym hash) (admit-login_result a (t.verify (t.hash password) attempt) d'))

abbrev pub InForm : Account → Type 0
InForm a = (is_address (codes a.email) ≡ true) × (has_good_length a.display_name ≡ true)

-- Ids and addresses of accounts are unique, addresses are well formed, and names have 2 to 120
-- characters.
pub record IsDirectory (d : Directory) : Type 0 where
  pub unique_ids : HasUniqueKeys account_id d.accounts
  pub unique_emails : HasUniqueKeys account_email d.accounts
  pub in_form : All InForm d.accounts

All-append :
    (P : Account → Type 0) (xs : List Account) (a : Account) → All P xs → P a → All P (xs ++ a ∷ [])
All-append P [] a h p = (p, tt)
All-append P (x ∷ xs) a (q, h) p = (q, All-append P xs a h p)

-- A registration that returns keeps ids and addresses unique, addresses well formed and names between
-- 2 and 120 characters.
pub register_account-IsDirectory :
    (t : Texts) (id : ℕ) (email password name : String) (roles : List String) (synthetic : Bool)
    (d : Directory) (a : Account) (d' : Directory)
    → IsDirectory d
    → register_account t id email password name roles synthetic d ≡ (ok a, d')
    → IsDirectory d'
register_account-IsDirectory t id email password name roles synthetic d a d' u h =
    let r = register_account-Registered t id email password name roles synthetic d a d' h in
    let ids =
      append-HasUniqueKeys account_id d.accounts a u.unique_ids
        (rw (ap account_id r.account) r.new_id) in
    let emails =
      append-HasUniqueKeys account_email d.accounts a u.unique_emails
        (rw (ap account_email r.account) r.new_email) in
    let forms = All-append InForm d.accounts a u.in_form (rw r.account (r.address, r.good)) in
    record {
      unique_ids = rw r.added ids;
      unique_emails = rw r.added emails;
      in_form = rw r.added forms;
    }
