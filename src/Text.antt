-- ===== src/Text.antt =====
-- What the source uses of Go's strings: equality, order, bytes, trimming and the size of a JSON text.
-- A Go string is a `String` here, so it is valid UTF-8; `len` counts its bytes.
use Prim.Native.Char.{code}
use Prim.Native.String.{slice, compare, ◌++◌ as append}
use text.Mathlib.Text.{is_lt, starts_with as has_prefix}
use asteria_drive.Prelude.{
  ℕ, ◌+◌, ◌-◌, ◌/◌, ◌%◌, ◌++◌, Option, none, some, not, String, len, Bool, true, false, ◌&&◌, ◌||◌,
  List, [], ◌∷◌, ltb, leb, ◌==◌, nat_eq, string_eq, if◌then◌else◌,
}
use asteria_drive.Dict.{Dict}

abbrev pub codes : String → List ℕ
codes String.[] = []
codes (String.◌∷◌ c s) = code c ∷ codes s

-- `a < b` on strings
abbrev pub str_ltb : String → String → Bool
str_ltb a b = is_lt (compare a b)

abbrev pub starts_with : String → String → Bool
starts_with = has_prefix

unfoldable pub ends_with : String → String → Bool
ends_with s t = slice s (len s - len t) (len s) == t

-- `s[k:]`
unfoldable pub drop_bytes : String → ℕ → String
drop_bytes s k = slice s k (len s)

-- `unicode.IsSpace`
is_space : ℕ → Bool
is_space c =
    (leb 9 c && leb c 13)
    || c == 32
    || c == 0x85
    || c == 0xa0
    || c == 0x1680
    || (leb 0x2000 c && leb c 0x200a)
    || c == 0x2028
    || c == 0x2029
    || c == 0x202f
    || c == 0x205f
    || c == 0x3000

-- `strings.TrimSpace(s) == ""`
unfoldable pub is_blank : String → Bool
unfolding is_space
is_blank String.[] = true
is_blank (String.◌∷◌ c s) = is_space (code c) && is_blank s

-- Bytes that `json.Marshal` writes for one character of a string.
json_char_size : ℕ → ℕ
json_char_size c =
    if c == b'"' || c == b'\\' || c == 8 || c == 9 || c == 10 || c == 12 || c == 13
    then 2
    else if ltb c 32 || c == b'<' || c == b'>' || c == b'&' || c == 0x2028 || c == 0x2029
    then 6
    else if ltb c 0x80
    then 1
    else if ltb c 0x800
    then 2
    else if ltb c 0x10000
    then 3
    else 4

json_text_size : String → ℕ
unfolding json_char_size
json_text_size String.[] = 2
json_text_size (String.◌∷◌ c s) = json_char_size (code c) + json_text_size s

json_members_size : Dict String String → ℕ
unfolding json_text_size
json_members_size [] = 1
json_members_size ((k, v) ∷ m) = json_text_size k + json_text_size v + 2 + json_members_size m

-- `len(json.Marshal(m))` for a `map[string]string`: two braces, and a colon and a comma for each member
-- but no comma behind the last.
unfoldable pub json_map_size : Dict String String → ℕ
unfolding json_members_size
json_map_size [] = 2
json_map_size (e ∷ m) = json_members_size (e ∷ m)

-- The bytes of one character in UTF-8, and `[]byte(s)`.
utf8 : ℕ → List ℕ
utf8 c =
    if ltb c 0x80
    then c ∷ []
    else if ltb c 0x800
    then (0xc0 + c / 64) ∷ (0x80 + c % 64) ∷ []
    else if ltb c 0x10000
    then (0xe0 + c / 4096) ∷ (0x80 + c / 64 % 64) ∷ (0x80 + c % 64) ∷ []
    else (0xf0 + c / 262144) ∷ (0x80 + c / 4096 % 64) ∷ (0x80 + c / 64 % 64) ∷ (0x80 + c % 64) ∷ []

unfoldable pub bytes : String → List ℕ
unfolding utf8
bytes String.[] = []
bytes (String.◌∷◌ c s) = utf8 (code c) ++ bytes s

abbrev hex_digit : ℕ → String
hex_digit n = slice "0123456789abcdef" n (n + 1)

-- `hex.EncodeToString`
unfoldable pub hex_encode : List ℕ → String
hex_encode [] = ""
hex_encode (b ∷ bs) = append (hex_digit (b / 16)) (append (hex_digit (b % 16)) (hex_encode bs))

-- `strings.TrimSpace(s) == s`: neither end is a space.
ends_in_space : List ℕ → Bool
unfolding is_space
ends_in_space [] = false
ends_in_space (c ∷ []) = is_space c
ends_in_space (c ∷ d ∷ cs) = ends_in_space (d ∷ cs)

starts_in_space : List ℕ → Bool
unfolding is_space
starts_in_space [] = false
starts_in_space (c ∷ cs) = is_space c

unfoldable pub is_trimmed : String → Bool
unfolding ends_in_space starts_in_space
is_trimmed s = not (starts_in_space (codes s)) && not (ends_in_space (codes s))

-- `unicode.IsControl`
abbrev pub is_control : ℕ → Bool
is_control c = ltb c 32 || (leb 0x7f c && leb c 0x9f)

-- `strings.Contains(s, t)` for a `t` of one character
unfoldable pub has_char : ℕ → String → Bool
has_char t String.[] = false
has_char t (String.◌∷◌ c s) = code c == t || has_char t s

-- The text before the first dot and the text behind it, if there is a dot.
unfoldable pub cut_dot : String → Option (String × String)
cut_dot String.[] = none
cut_dot (String.◌∷◌ c s) =
    if code c == b'.'
    then some ("", s)
    else elim (cut_dot s) [ none ↦ none | some (a, b) ↦ some (String.◌∷◌ c a, b) ]
