-- ===== src/Identity/Accounts.antt =====
-- Registration and authentication of src/boiler_reviews/identity/service.py. The password hasher is a
-- third-party package, and `str.casefold` goes by the tables of Unicode: both are parameters.
use Prim.Native.Char.{code}
use boiler_reviews.Prelude.{
  ℕ, suc, String, Bool, true, false, Option, none, some, List, [], ◌∷◌, ◌++◌, ◌==◌, nat_eq,
  string_eq, ◌&&◌, ◌||◌, not, if◌then◌else◌, leb, ltb, first, all,
}
use boiler_reviews.Prelude.Json.{bool}
use boiler_reviews.Prelude.Text.{is_space, strip}
use boiler_reviews.Prelude.Table.{find, is_some}
use boiler_reviews.Prelude.Dict.{distinct}
use boiler_reviews.Prelude.Sort.{sorted_by, leb_text}
use boiler_reviews.Exec.{
  Exec, ok, err, pure, raise, gets, modify, raise_if, ◌>>=◌, ◌>>◌, validation, conflict,
  integrity_error, value_error,
}
use boiler_reviews.Reviews.Model.{AuditEvent}

pub record Account : Type 0 where
  pub id : ℕ
  pub email : String
  pub password_hash : String
  pub display_name : String
  pub synthetic : Bool
  pub is_active : Bool
  pub roles_json : List String

-- The tables that the two operations use.
pub record Directory : Type 0 where
  pub accounts : List Account
  pub audits : List AuditEvent

pub record AuthenticatedAccount : Type 0 where
  pub id : ℕ
  pub email : String
  pub display_name : String
  pub roles : List String
  pub synthetic : Bool

abbrev pub account_email : Account → String
account_email a = a.email

abbrev pub account_id : Account → ℕ
account_id a = a.id

-- The code points of a text.
abbrev pub codes : String → List ℕ
codes String.[] = []
codes (String.◌∷◌ c s) = code c ∷ codes s

abbrev pub text_length : String → ℕ
text_length String.[] = 0
text_length (String.◌∷◌ c s) = suc (text_length s)

-- `[^@\s]`
abbrev pub is_plain : ℕ → Bool
is_plain c = not (c == b'@') && not (is_space c)

-- `[^@\s]*\.[^@\s]+`
abbrev pub has_dot : List ℕ → Bool
has_dot [] = false
has_dot (c ∷ []) = false
has_dot (c ∷ d ∷ cs) = c == b'.' || has_dot (d ∷ cs)

-- `[^@\s]+\.[^@\s]+$`
abbrev pub is_domain : List ℕ → Bool
is_domain [] = false
is_domain (c ∷ cs) = all is_plain (c ∷ cs) && has_dot cs

-- What follows a first character of the part before the `@`.
abbrev pub is_address_rest : List ℕ → Bool
is_address_rest [] = false
is_address_rest (c ∷ cs) =
    let rest = is_address_rest cs in if c == b'@' then is_domain cs else is_plain c && rest

-- `_EMAIL`: the classes exclude the `@`, so the first one splits the text.
abbrev pub is_address : List ℕ → Bool
is_address [] = false
is_address (c ∷ cs) = is_plain c && is_address_rest cs

-- What `PasswordHasher.verify` does: it returns, raises one of the errors that the code catches, or
-- raises another `ValueError`.
pub data Verification : Type 0 where
  verified mismatch invalid_hash : Verification

pub record Texts : Type 0 where
  pub casefold : String → String
  pub hash : String → String
  pub verify : String → String → Verification

unfoldable pub normalize_email : Texts → String → Exec Directory String
unfolding is_space strip
normalize_email t value = do
  let email = t.casefold (strip value)
  raise_if (not (is_address (codes email)))
      (validation "Enter a valid email address." (("email", "invalid") ∷ []))
  pure email

abbrev pub new_account : Texts → ℕ → String → String → String → List String → Bool → Account
new_account t id email password name roles synthetic = record {
  id = id;
  email = email;
  password_hash = t.hash password;
  display_name = name;
  synthetic = synthetic;
  is_active = true;
  roles_json = sorted_by leb_text (distinct roles);
}

-- `session.add(account); session.flush()`, under the table's primary key and its unique key.
abbrev pub insert_account : Account → Exec Directory (Unit {0})
insert_account a d =
    if is_some (find account_id a.id d.accounts)
    then (err (integrity_error "accounts.id"), d)
    else if is_some (find account_email a.email d.accounts)
    then (err (integrity_error "accounts.email"), d)
    else (ok tt, record d { accounts = d.accounts ++ a ∷ [] })

abbrev pub created : Account → AuditEvent
created a = record {
  actor_id = some a.id;
  event_type = "account.created";
  entity_type = "account";
  entity_id = some a.id;
  payload_json = ("synthetic", bool a.synthetic) ∷ [];
}

abbrev pub record_creation : Account → Exec Directory Account
record_creation a = do modify (λ d. record d { audits = d.audits ++ created a ∷ [] }); pure a

abbrev pub store_account : Account → Exec Directory Account
store_account a = insert_account a >> record_creation a

abbrev pub has_good_length : String → Bool
has_good_length name = leb 2 (text_length name) && leb (text_length name) 120

unfoldable pub register_account :
    Texts → ℕ → String → String → String → List String → Bool → Exec Directory Account
unfolding normalize_email distinct sorted_by
register_account t id email password display_name roles synthetic = do
  normalized ← normalize_email t email
  raise_if (ltb (text_length password) 12)
      (validation "Password must contain at least 12 characters." (("password", "too_short") ∷ []))
  let name = strip display_name
  raise_if (not (has_good_length name)) (
      validation "Display name must contain 2 to 120 characters." (("display_name", "length") ∷ []))
  taken ← gets (λ d. find account_email normalized d.accounts)
  raise_if (is_some taken) (conflict "An account with that email already exists.")
  store_account (new_account t id normalized password name roles synthetic)

abbrev pub is_login : String → Account → Bool
is_login email a = a.email == email && a.is_active

abbrev pub admit : Account → Verification → Exec Directory (Option Account)
admit a verified = pure (some a)
admit a mismatch = pure none
admit a invalid_hash = raise (value_error "invalid hash")

abbrev pub check_password : Texts → String → Option Account → Exec Directory (Option Account)
check_password t password none = pure none
check_password t password (some a) = admit a (t.verify a.password_hash password)

unfoldable pub authenticate : Texts → String → String → Exec Directory (Option Account)
unfolding normalize_email
authenticate t email password = do
  normalized ← normalize_email t email
  account ← gets (λ d. first (is_login normalized) d.accounts)
  check_password t password account

unfoldable pub to_authenticated : Account → AuthenticatedAccount
unfolding distinct
to_authenticated a = record {
  id = a.id;
  email = a.email;
  display_name = a.display_name;
  roles = distinct a.roles_json;
  synthetic = a.synthetic;
}
