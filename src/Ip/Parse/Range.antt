-- ===== src/Ip/Parse/Range.antt =====
-- What the address parser accepts fits the address's width.
use commeatus.Prelude.{
  ℕ, zero, suc, ◌+◌, ◌-◌, ◌*◌, ◌^◌, ◌≤◌, ◌<◌, ◌≡◌, refl, ap, Bool, true, false, Option, none, some,
  List, [], ◌∷◌, ◌++◌, arith, leb, ltb, ◌==◌, Bytes, length, length-append, all, all-append,
  replicate, Option-cases, inl, inr, Bool-cases, if◌then◌else◌,
}
use native.Mathlib.Nat.{pow-suc, mul-le-mul_right}
use commeatus.Ip.{IpAddr, IsIp}
use commeatus.Ip.Parse.{
  read_number, read_octet, read_dot_octet, read_char, read_ipv4, read_separator, read_group,
  read_groups, of_groups, read_ipv6, read_ip, parse_ip, ◌>>=◌,
}

pub >>=-eq-some :
    {A B : Type 0} (m : Option A) (f : A → Option B) {b : B}
    → (m >>= f) ≡ some b
    → (a : A) × (m ≡ some a) × (f a ≡ some b)
>>=-eq-some none f h = cc
>>=-eq-some (some a) f h = (a, refl, h)

read_number-le :
    (radix digits : ℕ) (allow : Bool) (max : ℕ) (s : Bytes) (n : ℕ) (r : Bytes)
    → read_number radix digits allow max s ≡ some (n, r)
    → n ≤ max
unfolding read_number
read_number-le radix digits allow max s n r e = ground arith

read_octet-le : (s : Bytes) (n : ℕ) (r : Bytes) → read_octet s ≡ some (n, r) → n ≤ 255
unfolding read_octet
read_octet-le s n r e = read_number-le 10 3 false 255 s n r e

read_dot_octet-le : (s : Bytes) (n : ℕ) (r : Bytes) → read_dot_octet s ≡ some (n, r) → n ≤ 255
unfolding read_dot_octet
read_dot_octet-le s n r e =
    let (s', _, h) = >>=-eq-some (read_char b'.' s) read_octet e in read_octet-le s' n r h

read_ipv4-lt : (s : Bytes) (n : ℕ) (r : Bytes) → read_ipv4 s ≡ some (n, r) → n < 2 ^ 32
unfolding read_ipv4
read_ipv4-lt s n r e =
    let (x1, h1, e1) = >>=-eq-some (read_octet s) _ e in
    let (x2, h2, e2) = >>=-eq-some (read_dot_octet x1.1) _ e1 in
    let (x3, h3, e3) = >>=-eq-some (read_dot_octet x2.1) _ e2 in
    let (x4, h4, e4) = >>=-eq-some (read_dot_octet x3.1) _ e3 in
    ground (
      arith,
      read_octet-le s x1.0 x1.1 h1,
      read_dot_octet-le x1.1 x2.0 x2.1 h2,
      read_dot_octet-le x2.1 x3.0 x3.1 h3,
      read_dot_octet-le x3.1 x4.0 x4.1 h4,
    )

read_separator-char :
    {A : Type 0} (later : Bool) (inner : Bytes → Option (A × Bytes)) (s : Bytes) (x : A × Bytes)
    → read_separator later inner s ≡ some x
    → (s' : Bytes) × (inner s' ≡ some x)
unfolding read_separator
read_separator-char false inner s x e = (s, e)
read_separator-char true inner s x e =
    let (s', _, h) = >>=-eq-some (read_char b':' s) inner e in (s', h)

abbrev IsGroups : List ℕ → Type 0
IsGroups gs = all (λ g. leb g 65535) gs ≡ true

read_group-le :
    (later : Bool) (s : Bytes) (n : ℕ) (r : Bytes)
    → read_separator later read_group s ≡ some (n, r)
    → n ≤ 65535
unfolding read_group
read_group-le later s n r e =
    let (s', h) = read_separator-char later read_group s (n, r) e in
    read_number-le 16 4 true 65535 s' n r h

-- At most so many groups as there were slots, each of 16 bits.
read_groups-IsGroups :
    (left : ℕ) (later : Bool) (s : Bytes)
    → IsGroups (read_groups left later s).groups × (length (read_groups left later s).groups ≤ left)
unfolding read_groups
read_groups-IsGroups zero later s = (refl, omega arith)
read_groups-IsGroups (suc left) later s =
    elim (Option-cases (if ltb 0 left then read_separator later read_ipv4 s else none)) [
      | inr ((a, s'), e) ↦
          let room : 0 < left = ground arith in
          let (s1, h) = read_separator-char later read_ipv4 s (a, s') (ground arith) in
          rw (e, read_groups) (ground (arith, read_ipv4-lt s1 a s' h), omega arith)
      | inl e ↦ elim (Option-cases (read_separator later read_group s)) [
        | inl f ↦ rw (e, f, read_groups) (refl, omega arith)
        | inr ((g, s'), f) ↦
            let (all_fit, fewer) = read_groups-IsGroups left true s' in
            rw (e, f, read_groups) (ground (arith, read_group-le later s g s' f), omega arith)
      ]
    ]

of_groups-lt :
    (gs : List ℕ) (acc : ℕ) → IsGroups gs → of_groups acc gs < (acc + 1) * 65536 ^ length gs
unfolding of_groups
of_groups-lt [] acc h = omega arith
of_groups-lt (g ∷ gs) acc h =
    let small : g ≤ 65535 = ground arith in
    let ih = of_groups-lt gs (acc * 65536 + g) (ground arith) in
    let e : 65536 ^ suc (length gs) ≡ 65536 ^ length gs * 65536 = pow-suc 65536 (length gs) in
    let wider : (acc * 65536 + g + 1) * 65536 ^ length gs ≤ (acc + 1) * 65536 * 65536 ^ length gs =
      mul-le-mul_right (65536 ^ length gs) (omega arith) in
    rw e (omega arith)

replicate-IsGroups : (n : ℕ) → IsGroups (replicate n 0) × (length {A = ℕ} (replicate n 0) ≡ n)
replicate-IsGroups zero = (refl, refl)
replicate-IsGroups (suc n) = let (a, b) = replicate-IsGroups n in (a, ap suc b)

eight_groups : (gs : List ℕ) → IsGroups gs → length gs ≡ 8 → of_groups 0 gs < 2 ^ 128
eight_groups gs h e = let b = of_groups-lt gs 0 h in rw e at b

-- A head and a tail with zeros between them, eight groups in all.
gap_groups :
    (head tail : List ℕ)
    → IsGroups head
    → IsGroups tail
    → length head + length tail ≤ 8
    → of_groups 0 (head ++ (replicate (8 - length head - length tail) 0 ++ tail)) < 2 ^ 128
gap_groups head tail h t fits =
    let k : ℕ = 8 - length head - length tail in
    let gap : List ℕ = replicate k 0 in
    let (g, e) = replicate-IsGroups k in
    eight_groups (head ++ (gap ++ tail))
      (rw (all-append (λ x. leb x 65535) head (gap ++ tail), all-append (λ x. leb x 65535) gap tail)
        (ground arith))
      (omega (arith, length-append head (gap ++ tail), length-append gap tail))

read_ipv6-lt : (s : Bytes) (n : ℕ) (r : Bytes) → read_ipv6 s ≡ some (n, r) → n < 2 ^ 128
unfolding read_ipv6
read_ipv6-lt s n r e =
    let head = read_groups 8 false s in
    let (head_fit, head_len) = read_groups-IsGroups 8 false s in
    elim (Bool-cases (length head.groups == 8)) [
      | inl full ↦ ground (arith, eight_groups head.groups head_fit)
      | inr part ↦ elim (Bool-cases head.ipv4) [
        | inl closed ↦ absurd (ground arith)
        | inr no_ipv4 ↦
            let (s1, _, e1) = >>=-eq-some (read_char b':' head.rest) _ (rw (part, no_ipv4) at e) in
            let (s2, _, e2) = >>=-eq-some (read_char b':' s1) _ e1 in
            let tail = read_groups (8 - (length head.groups + 1)) false s2 in
            let (tail_fit, tail_len) =
              read_groups-IsGroups (8 - (length head.groups + 1)) false s2 in
            let below = gap_groups head.groups tail.groups head_fit tail_fit (ground arith) in
            ground arith
      ]
    ]

read_ip-IsIp : (s : Bytes) (a : IpAddr) (r : Bytes) → read_ip s ≡ some (a, r) → IsIp a
unfolding read_ip
read_ip-IsIp s a r e = elim (Option-cases (read_ipv4 s)) [
  | inr ((n, r'), h) ↦
      let q = rw (h, read_ip) at e in
      let shape : a ≡ IpAddr.v4 n = cc in rw shape (read_ipv4-lt s n r' h)
  | inl h ↦
      let q = rw (h, read_ip) at e in
      let (x, g, f) = >>=-eq-some (read_ipv6 s) _ q in
      let shape : a ≡ IpAddr.v6 x.0 = cc in rw shape (read_ipv6-lt s x.0 x.1 g)
]

-- Every address that `parse` accepts fits its width: 32 bits, or 128.
pub parse_ip-IsIp : (s : Bytes) (a : IpAddr) → parse_ip s ≡ some a → IsIp a
unfolding parse_ip
parse_ip-IsIp s a e = elim (Option-cases (read_ip s)) [
  | inl h ↦ cc (rw h at e)
  | inr ((b, []), h) ↦ let q : b ≡ a = cc (rw h at e) in rw (← q) (read_ip-IsIp s b [] h)
  | inr ((b, c ∷ cs), h) ↦ cc (rw h at e)
]
