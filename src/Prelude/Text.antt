-- ===== src/Prelude/Text.antt =====
-- Python's `str` and `bytes`, as lists of code points and of bytes.
use Prim.Native.Nat.{ℕ}
use Prim.Native.Char.{code}
use Prim.Native.String.{String}
use charles_mcp.Prelude.Equality.{Eq, nat_eq, list_eq}
use mathlib.Core.List.{List, [], ◌∷◌}

abbrev pub Text : Type 0
Text = List ℕ

-- A literal.
abbrev pub codes : String → Text
codes String.[] = []
codes (String.◌∷◌ c s) = code c ∷ codes s

instance unfoldable pub text_eq : Eq Text
unfolding list_eq
text_eq = list_eq
