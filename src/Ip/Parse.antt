-- ===== src/Ip/Parse.antt =====
-- `str::parse::<IpAddr>`: the standard library's recursive descent, one function for each reader.
-- A reader takes the text and gives what it read and the rest; `none` leaves the text as it was.
use commeatus.Prelude.{
  ℕ, zero, suc, ◌+◌, ◌-◌, ◌*◌, ◌/◌, ◌%◌, Bool, true, false, not, ◌&&◌, ◌||◌, Option, none, some,
  List, [], ◌∷◌, ◌++◌, ltb, leb, ◌==◌, if◌then◌else◌, Bytes, length, replicate,
}
use commeatus.Ip.{IpAddr}
pub mod Range

abbrev Reader : Type 0 → Type 0
Reader A = Bytes → Option (A × Bytes)

-- `char::to_digit`
to_digit : ℕ → ℕ → Option ℕ
to_digit radix c =
    if leb b'0' c && leb c b'9'
    then some (c - b'0')
    else if radix == 16 && leb b'a' c && leb c b'f'
    then some (c - b'a' + 10)
    else if radix == 16 && leb b'A' c && leb c b'F'
    then some (c - b'A' + 10)
    else none

-- The digits in front, with how many there are and their value.
record Digits : Type 0 where
  count : ℕ
  value : ℕ
  rest : Bytes

read_digits : ℕ → ℕ → ℕ → Bytes → Digits
read_digits radix count value [] = record { count = count; value = value; rest = [] }
read_digits radix count value (c ∷ cs) = elim (to_digit radix c) [
  | none ↦ record { count = count; value = value; rest = c ∷ cs }
  | some d ↦ read_digits radix (count + 1) (value * radix + d) cs
]

leading_zero : Bytes → Bool
leading_zero [] = false
leading_zero (c ∷ cs) = c == b'0'

-- `read_number(radix, Some(max_digits), allow_zero_prefix)` at a type whose greatest value is `max`
read_number : ℕ → ℕ → Bool → ℕ → Reader ℕ
read_number radix max_digits allow_zero_prefix max s =
    let d = read_digits radix 0 0 s in
    if d.count == 0
    then none
    else if ltb max_digits d.count
    then none
    else if not allow_zero_prefix && leading_zero s && ltb 1 d.count
    then none
    else if ltb max d.value
    then none
    else some (d.value, d.rest)

-- `read_given_char`
read_char : ℕ → Bytes → Option Bytes
read_char c [] = none
read_char c (x ∷ xs) = if x == c then some xs else none

infixl 5 ◌>>=◌
abbrev ◌>>=◌ : {A B : Type 0} → Option A → (A → Option B) → Option B
none >>= f = none
some a >>= f = f a

-- an octet, behind a dot unless it is the first
read_octet : Reader ℕ
read_octet = read_number 10 3 false 255

read_dot_octet : Reader ℕ
read_dot_octet s = do s' ← read_char b'.' s; read_octet s'

read_ipv4 : Reader ℕ
read_ipv4 s = do
  (a, s) ← read_octet s
  (b, s) ← read_dot_octet s
  (c, s) ← read_dot_octet s
  (d, s) ← read_dot_octet s
  some (((a * 256 + b) * 256 + c) * 256 + d, s)

-- `read_separator(':', index, inner)`; the flag is `index > 0`
read_separator : {A : Type 0} → Bool → Reader A → Reader A
read_separator false inner s = inner s
read_separator true inner s = do s' ← read_char b':' s; inner s'

read_group : Reader ℕ
read_group = read_number 16 4 true 65535

-- The groups read, whether an IPv4 address closes them, and the rest.
record Groups : Type 0 where
  groups : List ℕ
  ipv4 : Bool
  rest : Bytes

-- `read_groups`, with the slots that are left
read_groups : ℕ → Bool → Bytes → Groups
read_groups zero later s = record { groups = []; ipv4 = false; rest = s }
read_groups (suc left) later s =
    let embedded = if ltb 0 left then read_separator later read_ipv4 s else none in
    elim embedded [
      | some (a, s') ↦ record { groups = (a / 65536) ∷ (a % 65536) ∷ []; ipv4 = true; rest = s' }
      | none ↦ elim (read_separator later read_group s) [
        | none ↦ record { groups = []; ipv4 = false; rest = s }
        | some (g, s') ↦
            let more = read_groups left true s' in
            record { groups = g ∷ more.groups; ipv4 = more.ipv4; rest = more.rest }
      ]
    ]

of_groups : ℕ → List ℕ → ℕ
of_groups acc [] = acc
of_groups acc (g ∷ gs) = of_groups (acc * 65536 + g) gs

read_ipv6 : Reader ℕ
read_ipv6 s =
    let head = read_groups 8 false s in
    if length head.groups == 8
    then some (of_groups 0 head.groups, head.rest)
    else if head.ipv4
    then none
    else do
      s1 ← read_char b':' head.rest
      s2 ← read_char b':' s1
      let tail = read_groups (8 - (length head.groups + 1)) false s2
      let gap = replicate (8 - length head.groups - length tail.groups) 0
      some (of_groups 0 (head.groups ++ (gap ++ tail.groups)), tail.rest)

-- All of the text must be read.
at_end : Option (IpAddr × Bytes) → Option IpAddr
at_end (some (a, [])) = some a
at_end _ = none

read_ip : Reader IpAddr
read_ip s = elim (read_ipv4 s) [
  | some (a, rest) ↦ some (IpAddr.v4 a, rest)
  | none ↦ do (a, rest) ← read_ipv6 s; some (IpAddr.v6 a, rest)
]

unfoldable pub parse_ip : Bytes → Option IpAddr
unfolding read_ip at_end read_ipv4 read_ipv6 read_groups of_groups read_separator read_group
    read_dot_octet read_octet read_char read_number read_digits leading_zero to_digit
parse_ip s = at_end (read_ip s)
