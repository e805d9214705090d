-- ===== src/Prelude/Dict.antt =====
-- Python dicts as tables: a dict comprehension keeps the last value of a key at the place of its first.
use mathlib.Core.Option.{Option, none, some}
use mathlib.Core.List.{List, [], ◌∷◌, ◌++◌}
use boiler_reviews.Prelude.Tests.{if◌then◌else◌}
use boiler_reviews.Prelude.Classes.{Eq, ◌==◌}
use boiler_reviews.Prelude.Table.{find, put, is_some}
use boiler_reviews.Prelude.Lists.{contains}

module _ {A K : Type 0} ⦃e : Eq K⦄ where
  -- `d[key(x)] = x`
  abbrev pub assign : (A → K) → A → List A → List A
  assign key x d = if is_some (find key (key x) d) then put key x d else d ++ x ∷ []

  abbrev pub assign_all : (A → K) → List A → List A → List A
  assign_all key d [] = d
  assign_all key d (x ∷ xs) = assign_all key (assign key x d) xs

  -- `{key(x): x for x in xs}`
  unfoldable pub dict_of : (A → K) → List A → List A
  dict_of key xs = assign_all key [] xs

  -- `d.get(k)` of a dict of pairs.
  unfoldable pub lookup : K → List (K × A) → Option A
  lookup k [] = none
  lookup k ((j, a) ∷ d) = if j == k then some a else lookup k d

module _ {K : Type 0} ⦃e : Eq K⦄ where
  abbrev pub add_new : List K → List K → List K
  add_new d [] = d
  add_new d (x ∷ xs) = add_new (if contains d x then d else d ++ x ∷ []) xs

  -- `dict.fromkeys(xs)`
  unfoldable pub distinct : List K → List K
  distinct xs = add_new [] xs
