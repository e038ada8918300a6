-- ===== src/Tokens.antt =====
-- crates/daemon/src/datagram.rs: `DatagramTokenAllocator`. A token is its number, and `usize` has 64
-- bits.
use commeatus.Prelude.{
  ℕ, zero, suc, ◌+◌, ◌-◌, ◌^◌, ◌≤◌, ◌<◌, ◌≡◌, refl, ap, sym, ◌∙◌, false, List, [], ◌∷◌, ◌++◌, arith,
  leb, ◌==◌, if◌then◌else◌, Bool-cases, inl, inr,
}
use commeatus.Io.{invalid_input, out_of_memory, Result, ok, err}

-- `(start..start + count)`
unfoldable pub range_from : ℕ → ℕ → List ℕ
range_from start zero = []
range_from start (suc count) = start ∷ range_from (start + 1) count

-- `allocate`, with `next_token` before and after
unfoldable pub allocate : ℕ → ℕ → Result (List ℕ) × ℕ
allocate next_token count =
    let end = next_token + count in
    if count == 0
    then (err invalid_input, next_token)
    else if leb (2 ^ 64) end
    then (err out_of_memory, next_token)
    else (ok (range_from next_token count), end)

-- What a result grants.
abbrev pub granted : Result (List ℕ) → List ℕ
granted (ok tokens) = tokens
granted (err kind) = []

-- Requests in a row: all the tokens that are granted, and the next token.
abbrev pub allocate_all : ℕ → List ℕ → List ℕ × ℕ
allocate_all next_token [] = ([], next_token)
allocate_all next_token (count ∷ counts) =
    let now = allocate next_token count in
    let later = allocate_all now.1 counts in (granted now.0 ++ later.0, later.1)

range_from-append :
    (start a b : ℕ) → range_from start a ++ range_from (start + a) b ≡ range_from start (a + b)
unfolding range_from
range_from-append start zero b =
    ap (λ (k : ℕ). range_from k b) (omega arith) ∙ ap (range_from start) (omega arith)
range_from-append start (suc a) b =
    let e : start + suc a ≡ start + 1 + a = omega arith in
    let n : suc a + b ≡ suc (a + b) = omega arith in
    rw (e, n) (ap (◌∷◌ start) (range_from-append (start + 1) a b))

no_range : (n : ℕ) → [] ≡ range_from n (n - n)
unfolding range_from
no_range n = let z : n - n ≡ 0 = omega arith in rw z refl

pub allocate-range :
    (next_token count : ℕ)
    → next_token < 2 ^ 64
    → (next_token ≤ (allocate next_token count).1)
      × ((allocate next_token count).1 < 2 ^ 64)
      × (granted (allocate next_token count).0
          ≡ range_from next_token ((allocate next_token count).1 - next_token))
unfolding allocate
allocate-range next_token count h = elim (Bool-cases (count == 0)) [
  | inl nothing ↦ rw nothing (omega arith, h, no_range next_token)
  | inr wanted ↦ elim (Bool-cases (leb (2 ^ 64) (next_token + count))) [
    | inl over ↦ rw (wanted, over) (omega arith, h, no_range next_token)
    | inr fits ↦
        let size : next_token + count - next_token ≡ count = omega arith in
        rw (wanted, fits, size) (omega arith, below (next_token + count) fits, refl)
  ]
]
  where
    below : (n : ℕ) → leb (2 ^ 64) n ≡ false → n < 2 ^ 64
    below n e = ground arith

-- Whatever counts are asked for, in whatever order, and however many are refused: the tokens that
-- are granted are the consecutive numbers from the first token to the next one, each once; and the
-- next token stays in 64 bits. The first token is in 64 bits.
pub allocate_all-range_from :
    (first : ℕ) (counts : List ℕ)
    → first < 2 ^ 64
    → (first ≤ (allocate_all first counts).1)
      × ((allocate_all first counts).1 < 2 ^ 64)
      × ((allocate_all first counts).0 ≡ range_from first ((allocate_all first counts).1 - first))
allocate_all-range_from first [] h = (omega arith, h, no_range first)
allocate_all-range_from first (count ∷ counts) h =
    let (up, fits, tokens) = allocate-range first count h in
    let middle = (allocate first count).1 in
    let (up', fits', tokens') = allocate_all-range_from middle counts fits in
    let last = (allocate_all middle counts).1 in
    let start : first + (middle - first) ≡ middle = omega arith in
    let size : middle - first + (last - middle) ≡ last - first = omega arith in
    (
      omega arith,
      fits',
      rw (tokens, tokens')
          (ap (λ (k : ℕ). range_from first (middle - first) ++ range_from k (last - middle))
              (sym start)
            ∙ range_from-append first (middle - first) (last - middle)
            ∙ ap (range_from first) size),
    )
