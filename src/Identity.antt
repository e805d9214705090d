-- ===== src/Identity.antt =====
-- src/boiler_reviews/identity: the test of an account's role; Accounts has registration and login.
pub mod Accounts
mod Login
mod Tests
use boiler_reviews.Prelude.{
  String, Bool, false, Option, none, some, ◌∷◌, [], not, contains, concat, string_eq,
}
use boiler_reviews.Exec.{Exec, raise_if, permission_denied}
use boiler_reviews.Reviews.Model.{Account, Store}

abbrev pub has_role : String → Option Account → Bool
has_role role none = false
has_role role (some a) = contains a.roles_json role

unfoldable pub require_role : Option Account → String → Exec Store (Unit {0})
require_role account role =
    raise_if (not (has_role role account))
      (permission_denied (concat ("The " ∷ role ∷ " role is required." ∷ [])))
