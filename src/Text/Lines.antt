-- ===== src/Text/Lines.antt =====
-- Lines, and the words between white space, over the UTF-8 bytes of a string.
pub mod Words
use commeatus.Prelude.{
  ℕ, zero, suc, Bool, false, ◌&&◌, ◌||◌, Option, none, some, List, [], ◌∷◌, leb, ◌==◌,
  if◌then◌else◌, Bytes, bytes, eqb, ◌≡◌, refl,
}
use commeatus.Text.{split, cons_head}
use commeatus.Text.Hostname.{is_empty}

abbrev starts_newline : Bytes → Bool
starts_newline [] = false
starts_newline (c ∷ cs) = c == b'\n'

-- `lines()`: a line ends with `\n` or `\r\n`, or with the text.
unfoldable pub lines : Bytes → List Bytes
lines [] = []
lines (c ∷ cs) =
    let rest = lines cs in
    if c == b'\n'
    then [] ∷ rest
    else if c == b'\r' && starts_newline cs
    then rest
    else cons_head c rest

-- The bytes that a white space character in front has behind its first one, and one more; zero if
-- there is none. `White_Space` has U+0009 to U+000D, U+0020, U+0085, U+00A0, U+1680, U+2000 to
-- U+200A, U+2028, U+2029, U+202F, U+205F and U+3000.
white_pair : ℕ → ℕ → Bool
white_pair c d = c == 0xc2 && (d == 0x85 || d == 0xa0)

white_triple : ℕ → ℕ → ℕ → Bool
white_triple c d e =
    c == 0xe1 && d == 0x9a && e == 0x80
    || c == 0xe2 && d == 0x80 && (leb 0x80 e && leb e 0x8a || e == 0xa8 || e == 0xa9 || e == 0xaf)
    || c == 0xe2 && d == 0x81 && e == 0x9f
    || c == 0xe3 && d == 0x80 && e == 0x80

white_byte : ℕ → ℕ
white_byte c = if leb 9 c && leb c 13 || c == 32 then 1 else 0

pub white_space : Bytes → ℕ
unfolding white_pair white_triple white_byte
white_space [] = 0
white_space (c ∷ []) = white_byte c
white_space (c ∷ d ∷ []) = if white_pair c d then 2 else white_byte c
white_space (c ∷ d ∷ e ∷ cs) =
    if white_pair c d then 2 else if white_triple c d e then 3 else white_byte c

-- The pieces between the characters of white space; the number counts the bytes that are left of
-- such a character.
pieces : ℕ → Bytes → List Bytes
unfolding white_space
pieces skip [] = [] ∷ []
pieces (suc skip) (c ∷ cs) = pieces skip cs
pieces zero (c ∷ cs) =
    let inside = pieces zero cs in
    elim (white_space (c ∷ cs)) [ zero ↦ cons_head c inside | suc more ↦ [] ∷ pieces more cs ]

words : List Bytes → List Bytes
words [] = []
words (piece ∷ rest) = let later = words rest in if is_empty piece then later else piece ∷ later

-- `split_whitespace()`
unfoldable pub split_whitespace : Bytes → List Bytes
unfolding pieces words
split_whitespace s = words (pieces 0 s)

-- `trim_start()` and `trim_end()` of white space
skip_white : ℕ → Bytes → Bytes
unfolding white_space
skip_white skip [] = []
skip_white (suc skip) (c ∷ cs) = skip_white skip cs
skip_white zero (c ∷ cs) = elim (white_space (c ∷ cs)) [
  | zero ↦ c ∷ cs
  | suc more ↦ skip_white more cs
]

drop_white : Bytes → Bytes
unfolding skip_white
drop_white [] = []
drop_white (c ∷ cs) =
    let rest = drop_white cs in if is_empty (skip_white 0 (c ∷ cs)) then [] else c ∷ rest

-- `trim()`
unfoldable pub trim_space : Bytes → Bytes
unfolding skip_white drop_white
trim_space s = drop_white (skip_white 0 s)

first_or_empty : List Bytes → Bytes
first_or_empty [] = []
first_or_empty (piece ∷ rest) = piece

-- `split(c).next().unwrap_or_default()`
unfoldable pub before : ℕ → Bytes → Bytes
unfolding first_or_empty
before c s = first_or_empty (split c s)

-- `strip_prefix`, and `strip_suffix`
unfoldable pub strip_prefix : Bytes → Bytes → Option Bytes
strip_prefix [] s = some s
strip_prefix (p ∷ ps) [] = none
strip_prefix (p ∷ ps) (c ∷ cs) = if p == c then strip_prefix ps cs else none

unfoldable pub strip_suffix : Bytes → Bytes → Option Bytes
strip_suffix suffix [] = if is_empty suffix then some [] else none
strip_suffix suffix (c ∷ cs) =
    let rest = strip_suffix suffix cs in
    if eqb suffix (c ∷ cs) then some [] else elim rest [ none ↦ none | some kept ↦ some (c ∷ kept) ]

split_line : lines (bytes "a\r\n\nb c\r") ≡ bytes "a" ∷ [] ∷ bytes "b c\r" ∷ []
unfolding lines
split_line = refl

three_words : split_whitespace (bytes " a  bc\td ") ≡ bytes "a" ∷ bytes "bc" ∷ bytes "d" ∷ []
unfolding split_whitespace pieces words white_space white_byte white_pair white_triple
three_words = refl

trimmed : trim_space (0xc2 ∷ 0xa0 ∷ bytes "a b\t ") ≡ bytes "a b"
unfolding trim_space skip_white drop_white white_space white_byte white_pair white_triple
trimmed = refl
