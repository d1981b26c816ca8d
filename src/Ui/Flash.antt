-- ===== src/Ui/Flash.antt =====
-- The flash message of internal/ui/handlers.go, and what net/http makes of a cookie's value when it
-- writes and reads one.
pub mod Survives
use Prim.Native.Char.{Char, code}
use poll_operator.Base.{
  String, Bool, true, false, Option, none, some, ◌&&◌, ◌||◌, not, ◌==◌, nat_eq, leb, if◌then◌else◌,
}
use poll_operator.Ui.Text.{is_empty}

abbrev pub flash_cookie_name : String
flash_cookie_name = "poll_ui_flash"

-- `validCookieValueByte`. A byte of a character outside ASCII is not valid.
unfoldable pub is_valid : Char → Bool
is_valid c =
    leb 32 (code c)
    && leb (code c) 126
    && not (code c == 34)
    && not (code c == 59)
    && not (code c == 92)

unfoldable pub keep_valid : String → String
keep_valid String.[] = String.[]
keep_valid (String.◌∷◌ c s) =
    let rest = keep_valid s in if is_valid c then String.◌∷◌ c rest else rest

unfoldable pub all_valid : String → Bool
all_valid String.[] = true
all_valid (String.◌∷◌ c s) = is_valid c && all_valid s

-- `strings.ContainsAny(v, " ,")`
unfoldable pub has_space_or_comma : String → Bool
has_space_or_comma String.[] = false
has_space_or_comma (String.◌∷◌ c s) = code c == 32 || code c == 44 || has_space_or_comma s

abbrev pub quote : Char
quote = "\""

abbrev pub with_quote : String → String
with_quote String.[] = String.◌∷◌ quote String.[]
with_quote (String.◌∷◌ c s) = String.◌∷◌ c (with_quote s)

-- `sanitizeCookieValue`: the value as `SetCookie` writes it.
unfoldable pub cookie_text : String → String
cookie_text v =
    let kept = keep_valid v in
    if is_empty kept
    then kept
    else if has_space_or_comma kept
    then String.◌∷◌ quote (with_quote kept)
    else kept

abbrev pub is_quote : Char → Bool
is_quote c = code c == 34

-- A text without the quote at its end, if there is one.
unfoldable pub without_quote : String → Option String
without_quote String.[] = none
without_quote (String.◌∷◌ c String.[]) = if is_quote c then some String.[] else none
without_quote (String.◌∷◌ c (String.◌∷◌ d s)) = elim (without_quote (String.◌∷◌ d s)) [
  | none ↦ none
  | some t ↦ some (String.◌∷◌ c t)
]

abbrev pub or_whole : String → Option String → String
or_whole s none = s
or_whole s (some t) = t

-- `parseCookieValue`, which takes one pair of quotes off.
unfoldable pub unquoted : String → String
unquoted String.[] = String.[]
unquoted (String.◌∷◌ c s) =
    if is_quote c then or_whole (String.◌∷◌ c s) (without_quote s) else String.◌∷◌ c s

-- `r.Cookie` and `readFlash`: the argument is the cookie's text in the request, if it has the
-- cookie. A cookie whose value is not valid is passed over.
unfoldable pub read_flash : Option String → String
read_flash none = ""
read_flash (some raw) = if all_valid (unquoted raw) then unquoted raw else ""
