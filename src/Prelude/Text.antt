-- ===== src/Prelude/Text.antt =====
-- What the services use of Go's `strings` and `unicode` packages, over the native texts.
use Prim.Native.Nat.{ℕ}
use Prim.Native.Char.{Char, code}
use Prim.Native.String.{String}
use mathlib.Core.Bool.{Bool, true, false, ◌&&◌, ◌||◌}
use mathlib.Core.List.{List, [], ◌∷◌}
use gofin.Prelude.Tests.{leb, ◌==◌, if◌then◌else◌}

-- `strings.HasPrefix(s, p)` for a prefix of one character.
unfoldable pub has_prefix : ℕ → String → Bool
has_prefix p String.[] = false
has_prefix p (String.◌∷◌ c s) = code c == p

abbrev pub push_head : Char → List String → List String
push_head c [] = String.◌∷◌ c String.[] ∷ []
push_head c (s ∷ ss) = String.◌∷◌ c s ∷ ss

-- `strings.Split(s, "/")`: always one part at least.
unfoldable pub split_slash : String → List String
split_slash String.[] = "" ∷ []
split_slash (String.◌∷◌ c s) =
    let rest = split_slash s in if code c == b'/' then "" ∷ rest else push_head c rest

-- `unicode.IsSpace`.
unfoldable pub is_space : ℕ → Bool
is_space c =
    (leb 9 c && leb c 13)
    || c == 32
    || c == 0x85
    || c == 0xa0
    || c == 0x1680
    || (leb 0x2000 c && leb c 0x200a)
    || c == 0x2028
    || c == 0x2029
    || c == 0x202f
    || c == 0x205f
    || c == 0x3000

unfoldable pub trim_left : String → String
unfolding is_space
trim_left String.[] = ""
trim_left (String.◌∷◌ c s) =
    let rest = trim_left s in if is_space (code c) then rest else String.◌∷◌ c s

abbrev pub push_kept : Char → Bool → String → String
push_kept c true String.[] = ""
push_kept c b s = String.◌∷◌ c s

unfoldable pub trim_right : String → String
unfolding is_space
trim_right String.[] = ""
trim_right (String.◌∷◌ c s) = push_kept c (is_space (code c)) (trim_right s)

-- `strings.TrimSpace`.
unfoldable pub trim_space : String → String
unfolding trim_left trim_right
trim_space s = trim_right (trim_left s)

-- The character that stands in `tos` where `c` stands in `froms`, or `c`.
unfoldable pub translate : String → String → Char → Char
translate String.[] tos c = c
translate froms String.[] c = c
translate (String.◌∷◌ f froms) (String.◌∷◌ t tos) c =
    let rest = translate froms tos c in if code c == code f then t else rest

-- `unicode.ToUpper` on the characters whose upper case is an ASCII letter: the lower-case ASCII
-- letters, the dotless i and the long s. Every other character is left as it is.
unfoldable pub to_upper_char : Char → Char
unfolding translate
to_upper_char = translate "abcdefghijklmnopqrstuvwxyzıſ" "ABCDEFGHIJKLMNOPQRSTUVWXYZIS"

unfoldable pub to_upper : String → String
unfolding to_upper_char
to_upper String.[] = ""
to_upper (String.◌∷◌ c s) = String.◌∷◌ (to_upper_char c) (to_upper s)
