-- ===== src/Domain/Address.antt =====
-- `normalize_hex` and `normalize_address` of apps/engine/src/domain/raw_event.rs.
use Prim.Native.Char.{Char, code}
use Prim.Native.String.{char_at, ◌++◌}
use memecoin_bot.Base.{◌-◌, ◌≡◌, refl, String, Bool, ◌&&◌, ◌||◌, leb, ◌==◌, if◌then◌else◌}

-- The characters that Rust counts as white space.
abbrev is_white : Char → Bool
is_white c =
    let n = code c in
    leb 9 n && leb n 13
    || n == 32
    || n == 0x85
    || n == 0xA0
    || n == 0x1680
    || leb 0x2000 n && leb n 0x200A
    || leb 0x2028 n && leb n 0x2029
    || n == 0x202F
    || n == 0x205F
    || n == 0x3000

abbrev trim_start : String → String
trim_start String.[] = String.[]
trim_start (String.◌∷◌ c s) = if is_white c then trim_start s else String.◌∷◌ c s

-- The text put before what is not blank is kept; white space at the end goes.
abbrev keep_before : Char → String → String
keep_before c String.[] = if is_white c then String.[] else String.◌∷◌ c String.[]
keep_before c (String.◌∷◌ d s) = String.◌∷◌ c (String.◌∷◌ d s)

abbrev trim_end : String → String
trim_end String.[] = String.[]
trim_end (String.◌∷◌ c s) = keep_before c (trim_end s)

abbrev trim : String → String
trim s = trim_end (trim_start s)

abbrev lower : Char → Char
lower c =
    if leb 65 (code c) && leb (code c) 90
    then char_at "abcdefghijklmnopqrstuvwxyz" (code c - 65)
    else c

abbrev to_ascii_lowercase : String → String
to_ascii_lowercase String.[] = String.[]
to_ascii_lowercase (String.◌∷◌ c s) = String.◌∷◌ (lower c) (to_ascii_lowercase s)

abbrev strip_prefix : String → String
strip_prefix (String.◌∷◌ c (String.◌∷◌ d s)) =
    if code c == 48 && (code d == 120 || code d == 88) then s else String.◌∷◌ c (String.◌∷◌ d s)
strip_prefix s = s

unfoldable pub normalize_hex : String → String
normalize_hex value = "0x" ++ to_ascii_lowercase (strip_prefix (trim value))

unfoldable pub normalize_address : String → String
normalize_address value = normalize_hex value

normalize_address_runs : normalize_address " 0XAb9C " ≡ "0xab9c"
unfolding normalize_address normalize_hex
normalize_address_runs = refl
