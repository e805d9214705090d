-- ===== src/Prelude/Text.antt =====
-- Python's `str` methods that the program uses.
use Prim.Native.Nat.{ℕ}
use Prim.Native.Char.{code}
use Prim.Native.String.{String, [], ◌∷◌}
use mathlib.Core.Bool.{Bool, ◌&&◌, ◌||◌}
use boiler_reviews.Prelude.Tests.{leb, if◌then◌else◌}
use boiler_reviews.Prelude.Classes.{nat_eq, string_eq, ◌==◌}

-- `str.isspace` on one character.
unfoldable pub is_space : ℕ → Bool
is_space c =
    (leb 9 c && leb c 13)
    || (leb 28 c && leb c 32)
    || c == 0x85
    || c == 0xa0
    || c == 0x1680
    || (leb 0x2000 c && leb c 0x200a)
    || c == 0x2028
    || c == 0x2029
    || c == 0x202f
    || c == 0x205f
    || c == 0x3000

unfoldable pub lstrip : String → String
unfolding is_space
lstrip [] = []
lstrip (c ∷ s) = let rest = lstrip s in if is_space (code c) then rest else c ∷ s

unfoldable pub rstrip : String → String
unfolding is_space
rstrip [] = []
rstrip (c ∷ s) = let rest = rstrip s in if is_space (code c) && rest == "" then [] else c ∷ rest

-- `str.strip`
unfoldable pub strip : String → String
unfolding lstrip rstrip
strip s = rstrip (lstrip s)

-- `if text`, which is false for the empty text.
abbrev pub is_empty : String → Bool
is_empty s = s == ""

-- `text or other`
abbrev pub or_text : String → String → String
or_text s other = if is_empty s then other else s
