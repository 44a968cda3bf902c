-- ===== src/Base/Text.antt =====
-- The functions of Go's package strings that the source calls.
use Prim.Native.Nat.{ℕ}
use Prim.Native.Char.{Char, code}
use Prim.Native.String.{String}
use mathlib.Core.Bool.{Bool, ◌&&◌, ◌||◌}
use lsyl_tunnel.Base.Tests.{leb, ◌==◌, if◌then◌else◌}

-- `unicode.IsSpace`
unfoldable pub is_space : ℕ → Bool
is_space c =
    (leb 9 c && leb c 13)
    || c == 32
    || c == 0x85
    || c == 0xa0
    || c == 0x1680
    || (leb 0x2000 c && leb c 0x200a)
    || c == 0x2028
    || c == 0x2029
    || c == 0x202f
    || c == 0x205f
    || c == 0x3000

unfoldable pub is_blank : Char → Bool
unfolding is_space
is_blank c = is_space (code c)

unfoldable pub trim_left : String → String
unfolding is_blank
trim_left String.[] = ""
trim_left (String.◌∷◌ c s) = let rest = trim_left s in if is_blank c then rest else String.◌∷◌ c s

-- `c` before a text whose end is trimmed.
unfoldable pub trim_cons : Char → String → String
unfolding is_blank
trim_cons c String.[] = if is_blank c then "" else String.◌∷◌ c ""
trim_cons c (String.◌∷◌ d s) = String.◌∷◌ c (String.◌∷◌ d s)

unfoldable pub trim_right : String → String
unfolding trim_cons
trim_right String.[] = ""
trim_right (String.◌∷◌ c s) = trim_cons c (trim_right s)

-- `strings.TrimSpace`
unfoldable pub trim_space : String → String
unfolding trim_left trim_right
trim_space s = trim_right (trim_left s)
