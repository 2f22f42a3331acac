-- ===== src/Common/Text.antt =====
-- Text as a list of code points, with the searches of `std::string` and `StringRef` that are used.
use Prim.Native.Char.{code}
use Prim.Native.String.{String}
use mathlib.Core.Bool.{Bool, true, false, ◌&&◌, ◌||◌}
use mathlib.Core.List.{List, [], ◌∷◌}
use Prim.Native.Nat.{ℕ}
use tfa_project.Common.Tests.{◌==◌, nat_eq, if◌then◌else◌}

abbrev pub Text : Type 0
Text = List ℕ

abbrev pub codes : String → Text
codes String.[] = []
codes (String.◌∷◌ c s) = code c ∷ codes s

-- `starts_with`, the prefix first.
unfoldable pub starts_with : Text → Text → Bool
starts_with [] s = true
starts_with (p ∷ ps) [] = false
starts_with (p ∷ ps) (c ∷ s) = c == p && starts_with ps s

-- `contains(piece)` of a `StringRef`, and `find` of a `std::string` not at its end.
unfoldable pub contains : Text → Text → Bool
unfolding starts_with
contains piece [] = starts_with piece []
contains piece (c ∷ s) = starts_with piece (c ∷ s) || contains piece s

-- `erase(remove(…, ' '))`
unfoldable pub remove_spaces : Text → Text
remove_spaces [] = []
remove_spaces (c ∷ s) = if c == b' ' then remove_spaces s else c ∷ remove_spaces s

abbrev pub is_empty : Text → Bool
is_empty [] = true
is_empty (c ∷ s) = false
