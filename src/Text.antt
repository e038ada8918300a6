-- ===== src/Text.antt =====
-- What the program uses of Rust's `str` and `[u8]`, over the bytes of a string: trimming, ASCII
-- case, splitting, UTF-8 validation, and big-endian integers.

pub mod Bigend
pub mod Number
pub mod Decimal
pub mod Valid
pub mod Case
pub mod Hostname
pub mod Split
pub mod Lines
use commeatus.Prelude.{
  ℕ, zero, suc, ◌+◌, ◌-◌, ◌*◌, ◌/◌, ◌%◌, Bool, true, false, not, ◌&&◌, ◌||◌, Option, none, some,
  List, [], ◌∷◌, ◌++◌, map, ltb, leb, ◌==◌, if◌then◌else◌, Bytes, eqb, length, all, any,
}

abbrev pub dot : ℕ
dot = b'.'

-- `trim_start_matches(c)` and `trim_end_matches(c)` for a one-byte pattern
unfoldable pub trim_start : ℕ → Bytes → Bytes
trim_start c [] = []
trim_start c (x ∷ xs) = let rest = trim_start c xs in if x == c then rest else x ∷ xs

-- an `x` in front of a trimmed rest stays, unless all is trimmed
abbrev pub keep_end : ℕ → ℕ → Bytes → Bytes
keep_end c x [] = if x == c then [] else x ∷ []
keep_end c x (y ∷ ys) = x ∷ y ∷ ys

unfoldable pub trim_end : ℕ → Bytes → Bytes
trim_end c [] = []
trim_end c (x ∷ xs) = keep_end c x (trim_end c xs)

-- `trim_matches(c)`
unfoldable pub trim : ℕ → Bytes → Bytes
trim c s = trim_end c (trim_start c s)

-- `to_ascii_lowercase` of a byte, and of a string
unfoldable pub lower : ℕ → ℕ
lower c = if leb b'A' c && leb c b'Z' then c + 32 else c

unfoldable pub to_ascii_lowercase : Bytes → Bytes
to_ascii_lowercase s = map lower s

unfoldable pub eq_ignore_ascii_case : Bytes → Bytes → Bool
eq_ignore_ascii_case a b = eqb (to_ascii_lowercase a) (to_ascii_lowercase b)

unfoldable pub is_ascii : Bytes → Bool
is_ascii s = all (λ c. ltb c 128) s

-- A byte in front of the first piece.
abbrev pub cons_head : ℕ → List Bytes → List Bytes
cons_head x [] = (x ∷ []) ∷ []
cons_head x (p ∷ ps) = (x ∷ p) ∷ ps

-- `split(c)`; there is always a first piece
unfoldable pub split : ℕ → Bytes → List Bytes
split c [] = [] ∷ []
split c (x ∷ xs) = let rest = split c xs in if x == c then [] ∷ rest else cons_head x rest

-- `split_once(c)`
unfoldable pub split_once : ℕ → Bytes → Option (Bytes × Bytes)
split_once c [] = none
split_once c (x ∷ xs) =
    if x == c
    then some ([], xs)
    else elim (split_once c xs) [ none ↦ none | some (a, b) ↦ some (x ∷ a, b) ]

-- `str::from_utf8`: what the next byte may be
pub data Utf8 : Type 0 where
  -- at the start of a character
  start : Utf8
  -- so many bytes are still to come, the next one in the range
  more : ℕ → ℕ → ℕ → Utf8
  bad : Utf8

abbrev in_range : ℕ → ℕ → ℕ → Bool
in_range lo hi c = leb lo c && leb c hi

pub utf8_start : ℕ → Utf8
utf8_start c =
    if ltb c 0x80
    then start
    else if in_range 0xc2 0xdf c
    then more 0 0x80 0xbf
    else if c == 0xe0
    then more 1 0xa0 0xbf
    else if c == 0xed
    then more 1 0x80 0x9f
    else if in_range 0xe1 0xef c
    then more 1 0x80 0xbf
    else if c == 0xf0
    then more 2 0x90 0xbf
    else if in_range 0xf1 0xf3 c
    then more 2 0x80 0xbf
    else if c == 0xf4
    then more 2 0x80 0x8f
    else bad

pub utf8_next : Utf8 → ℕ → Utf8
unfolding utf8_start
utf8_next start c = utf8_start c
utf8_next (more zero lo hi) c = if in_range lo hi c then start else bad
utf8_next (more (suc n) lo hi) c = if in_range lo hi c then more n 0x80 0xbf else bad
utf8_next bad c = bad

pub utf8_run : Utf8 → Bytes → Bool
utf8_run start [] = true
utf8_run _ [] = false
utf8_run s (c ∷ cs) = utf8_run (utf8_next s c) cs

unfoldable pub is_utf8 : Bytes → Bool
unfolding utf8_run utf8_next
is_utf8 s = utf8_run start s

-- `u16::to_be_bytes` and its wider kin: the low `n` bytes, the highest first
unfoldable pub to_be_bytes : ℕ → ℕ → Bytes
to_be_bytes zero x = []
to_be_bytes (suc n) x = to_be_bytes n (x / 256) ++ (x % 256) ∷ []

be_onto : ℕ → Bytes → ℕ
be_onto acc [] = acc
be_onto acc (b ∷ bs) = be_onto (acc * 256 + b) bs

unfoldable pub from_be_bytes : Bytes → ℕ
unfolding be_onto
from_be_bytes = be_onto 0

-- Every item is a byte.
abbrev pub is_bytes : Bytes → Bool
is_bytes s = all (λ c. ltb c 256) s
