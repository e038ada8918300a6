-- ===== src/HttpConnect/Header/Whole.antt =====
-- What the reading of a CONNECT request makes of the stream as a whole.
use commeatus.Prelude.{
  take-append-le, drop-append-le, ℕ, zero, suc, ◌+◌, ◌-◌, ◌≤◌, ◌<◌, ◌≡◌, refl, ap, ◌∙◌, true, false,
  Option, none, some, List, [], ◌∷◌, ◌++◌, append-nil, append_assoc, leb, if◌then◌else◌, Bytes, eqb,
  eqb_iff, length, take, drop, arith, Bool-cases, Option-cases, inl, inr, length-take,
  length-append, take-append, take-append-drop, is_within, not_within, leb→le,
}
use commeatus.Io.{ErrorKind, invalid_data, Result, ok, err, ◌>>=◌, Result-cases}
use commeatus.Target.{Target}
use commeatus.Stream.{ByteStream, and_then}
use commeatus.HttpConnect.Header.{
  max_header_bytes, blank_line, find_header_end, later_sizes, read_size, read_header, parse_header,
  parse_request, read_request,
}

-- What was read with what is left to read.
abbrev pub rejoined : {A : Type 0} → Result (A × Bytes) × ByteStream → Result (A × Bytes)
rejoined (err kind, s) = err kind
rejoined (ok (value, tunnel), s) = ok (value, tunnel ++ s.input)

-- The header of all that the client sends, and what is behind it.
abbrev pub cut_at : ErrorKind → Bytes → Option ℕ → Result (Bytes × Bytes)
cut_at ended sent (some end) = ok (take end sent, drop (end + 4) sent)
cut_at ended sent none = err (if leb max_header_bytes (length sent) then invalid_data else ended)

abbrev pub header_of : ErrorKind → Bytes → Result (Bytes × Bytes)
header_of ended sent = cut_at ended sent (find_header_end (take max_header_bytes sent))

take-ge : (n : ℕ) (xs : Bytes) → length xs ≤ n → take n xs ≡ xs
take-ge zero [] h = refl
take-ge zero (x ∷ xs) h = absurd (omega arith)
take-ge (suc n) [] h = refl
take-ge (suc n) (x ∷ xs) h = ap (◌∷◌ x) (take-ge n xs (omega arith))

take-append-ge :
    (n : ℕ) (xs ys : Bytes) → length xs ≤ n → take n (xs ++ ys) ≡ xs ++ take (n - length xs) ys
take-append-ge n [] ys h = ap (λ k. take k ys) (omega arith)
take-append-ge zero (x ∷ xs) ys h = absurd (omega arith)
take-append-ge (suc n) (x ∷ xs) ys h =
    ap (◌∷◌ x) (take-append-ge n xs ys (omega arith) ∙ ap (λ k. xs ++ take k ys) (omega arith))

blank_is_long : (s mark : Bytes) → length mark ≡ 4 → eqb (take 4 s) mark ≡ true → 4 ≤ length s
blank_is_long s mark h e =
    let same = ap (length {A = ℕ}) ((eqb_iff (take 4 s) mark).0 e) in
    omega (arith, length-take 4 s, same)

-- An end that is found is in the bytes, and is found whatever follows them.
find_header_end_within : (s : Bytes) (end : ℕ) → find_header_end s ≡ some end → end + 4 ≤ length s
unfolding find_header_end
find_header_end_within [] end e = cc
find_header_end_within (c ∷ cs) end e = elim (Bool-cases (eqb (take 4 (c ∷ cs)) blank_line)) [
  | inl blank ↦
      let long = blank_is_long (c ∷ cs) blank_line refl blank in
      let here : some 0 ≡ some end = rw blank at e in ground arith
  | inr other ↦ elim (Option-cases (find_header_end cs)) [
    | inl nowhere ↦ absurd (cc (rw (other, nowhere) at e))
    | inr (later, found) ↦
        let there : some (suc later) ≡ some end = rw (other, found) at e in
        let inside = find_header_end_within cs later found in ground arith
  ]
]

find_header_end-append :
    (s rest : Bytes) (end : ℕ)
    → find_header_end s ≡ some end
    → find_header_end (s ++ rest) ≡ some end
unfolding find_header_end
find_header_end-append [] rest end e = cc
find_header_end-append (c ∷ cs) rest end e =
    let within = find_header_end_within (c ∷ cs) end e in
    let same : take 4 ((c ∷ cs) ++ rest) ≡ take 4 (c ∷ cs) =
      take-append-le 4 (c ∷ cs) rest (omega arith) in
    elim (Bool-cases (eqb (take 4 (c ∷ cs)) blank_line)) [
      | inl blank ↦ rw (same, blank) (rw blank at e)
      | inr other ↦ elim (Option-cases (find_header_end cs)) [
        | inl nowhere ↦ absurd (cc (rw (other, nowhere) at e))
        | inr (later, found) ↦
            rw (same, other, find_header_end-append cs rest later found) (rw (other, found) at e)
      ]
    ]

-- The header is known as soon as its end is in the buffer.
pub header_of_found :
    (ended : ErrorKind) (buffer rest : Bytes) (end : ℕ)
    → length buffer ≤ max_header_bytes
    → find_header_end buffer ≡ some end
    → header_of ended (buffer ++ rest) ≡ ok (take end buffer, drop (end + 4) buffer ++ rest)
header_of_found ended buffer rest end small found =
    let within = find_header_end_within buffer end found in
    let more = take (max_header_bytes - length buffer) rest in
    let seen : find_header_end (take max_header_bytes (buffer ++ rest)) ≡ some end =
      rw (take-append-ge max_header_bytes buffer rest small)
        (find_header_end-append buffer more end found) in
    rw
      (
        seen,
        take-append-le end buffer rest (omega arith),
        drop-append-le (end + 4) buffer rest (omega arith),
      )
      refl

-- Without an end in the buffer that is full, or is all that was sent, there is no header.
header_of_full :
    (ended : ErrorKind) (buffer rest : Bytes)
    → length buffer ≡ max_header_bytes
    → find_header_end buffer ≡ none
    → header_of ended (buffer ++ rest) ≡ err invalid_data
header_of_full ended buffer rest full nowhere =
    let long =
      is_within max_header_bytes (length (buffer ++ rest))
        (omega (arith, length-append buffer rest)) in
    rw (take-append max_header_bytes buffer rest (omega arith), nowhere, long) refl

header_of_ended :
    (ended : ErrorKind) (buffer : Bytes)
    → length buffer < max_header_bytes
    → find_header_end buffer ≡ none
    → header_of ended (buffer ++ []) ≡ err ended
header_of_ended ended buffer small nowhere =
    let short : leb max_header_bytes (length buffer) ≡ false = ground arith in
    rw (append-nil buffer, take-ge max_header_bytes buffer (omega arith), nowhere, short) refl

-- `min` of what the buffer takes, of a chunk, and of a size of at least one.
read_size_bounds :
    (buffer : Bytes) (sizes : List ℕ)
    → length buffer < max_header_bytes
    → (0 < read_size buffer sizes) × (read_size buffer sizes ≤ max_header_bytes - length buffer)
read_size_bounds buffer [] h = omega arith
read_size_bounds buffer (size ∷ sizes) h = omega arith

read_header-rejoined :
    (rounds : ℕ) (sizes : List ℕ) (buffer input : Bytes) (s : ByteStream)
    → length buffer ≤ max_header_bytes
    → max_header_bytes < length buffer + rounds
    → rejoined (read_header rounds sizes buffer (record s { input = input }))
      ≡ header_of s.ended (buffer ++ input)
unfolding read_header
read_header-rejoined zero sizes buffer input s small enough = absurd (omega arith)
read_header-rejoined (suc rounds) sizes buffer input s small enough =
    elim (Option-cases (find_header_end buffer)) [
      | inr (end, found) ↦
          rw (found, read_header, header_of_found s.ended buffer input end small found) refl
      | inl nowhere ↦ elim (Bool-cases (leb max_header_bytes (length buffer))) [
        | inl full ↦
            rw
              (
                nowhere,
                read_header,
                full,
                header_of_full s.ended buffer input
                    (omega (arith, leb→le max_header_bytes (length buffer) full)) nowhere,
              )
              refl
        | inr room ↦
            let below = not_within max_header_bytes (length buffer) room in
            elim input
              as (λ k.
                rejoined (read_header (suc rounds) sizes buffer (record s { input = k }))
                ≡ header_of s.ended (buffer ++ k)) [
                  | [] ↦
                      rw (nowhere, read_header, room, header_of_ended s.ended buffer below nowhere)
                        refl
                  | c ∷ cs ↦
                      let size = read_size buffer sizes in
                      let (more, fits) = read_size_bounds buffer sizes below in
                      let chunk = take size (c ∷ cs) in
                      let longer = buffer ++ chunk in
                      let joined : longer ++ drop size (c ∷ cs) ≡ buffer ++ (c ∷ cs) =
                        append_assoc buffer chunk (drop size (c ∷ cs))
                        ∙ ap (λ l. buffer ++ l) (take-append-drop size (c ∷ cs)) in
                      let sum = length-append buffer chunk in
                      let part = length-take size (c ∷ cs) in
                      rw (nowhere, read_header, room)
                        (read_header-rejoined rounds (later_sizes sizes) longer (drop size (c ∷ cs))
                            s (omega (arith, sum, part)) (omega (arith, sum, part))
                          ∙ ap (header_of s.ended) joined)
                ]
      ]
    ]

abbrev pub request_of : Bytes × Bytes → Result (Target × Bytes)
request_of (header, tunnel) = do target ← parse_header header; ok (target, tunnel)

parse_request-rejoined :
    (r : Result (Bytes × Bytes) × ByteStream)
    → rejoined (and_then r parse_request) ≡ (rejoined r >>= request_of)
parse_request-rejoined (err kind, s) = refl
parse_request-rejoined (ok (header, tunnel), s) = elim (Result-cases (parse_header header)) [
  | inl (kind, refused) ↦ rw refused refl
  | inr (target, parsed) ↦ rw parsed refl
]

-- What a request says does not hang on how the client's bytes come in, in pieces of whatever sizes:
-- the target or the error is the one that the header of all that the client sends has, where that
-- header ends within 16384 bytes; and the bytes of the tunnel that were read with it are, with those
-- that are left to read, all that the client sends behind the header.
pub read_request-rejoined :
    (sizes : List ℕ) (s : ByteStream)
    → rejoined (read_request sizes s) ≡ (do
      (header, tunnel) ← header_of s.ended s.input
      target ← parse_header header
      ok (target, tunnel))
unfolding read_request
read_request-rejoined sizes s =
    let whole =
      read_header-rejoined (max_header_bytes + 1) sizes [] s.input s (omega arith) (omega arith) in
    parse_request-rejoined (read_header (max_header_bytes + 1) sizes [] s)
    ∙ ap (λ r. r >>= request_of) whole
