-- ===== src/Ui/Text.antt =====
-- `strings.TrimSpace`.
use Prim.Native.Char.{Char, code}
use poll_operator.Base.{String, Bool, true, false, ◌&&◌, ◌||◌, ◌==◌, nat_eq, leb, if◌then◌else◌}

-- `unicode.IsSpace`: the characters with the property White_Space.
unfoldable pub is_space : Char → Bool
is_space c =
    leb 9 (code c) && leb (code c) 13
    || code c == 32
    || code c == 133
    || code c == 160
    || code c == 5760
    || leb 8192 (code c) && leb (code c) 8202
    || code c == 8232
    || code c == 8233
    || code c == 8239
    || code c == 8287
    || code c == 12288

abbrev pub is_empty : String → Bool
is_empty String.[] = true
is_empty (String.◌∷◌ c s) = false

unfoldable pub trim_left : String → String
trim_left String.[] = String.[]
trim_left (String.◌∷◌ c s) = if is_space c then trim_left s else String.◌∷◌ c s

unfoldable pub trim_right : String → String
trim_right String.[] = String.[]
trim_right (String.◌∷◌ c s) =
    let rest = trim_right s in if is_space c && is_empty rest then String.[] else String.◌∷◌ c rest

unfoldable pub trim_space : String → String
trim_space s = trim_right (trim_left s)
