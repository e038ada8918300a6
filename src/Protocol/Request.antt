-- ===== src/Protocol/Request.antt =====
-- The CONNECT request of the outbound protocol, as the program's own inbound reads it.
use commeatus.Prelude.{
  all-map, ℕ, suc, ◌+◌, ◌≤◌, ◌<◌, ◌≡◌, refl, sym, ap, ◌∙◌, Bool, true, false, not, some, [], ◌∷◌,
  ◌++◌, append_assoc, append-nil, arith, ◌==◌, Bytes, bytes, length, take, drop, all, all-append,
  eqb, length-append, take-append, drop-append,
}
use commeatus.Text.{is_utf8}
use commeatus.Text.Lines.{strip_prefix}
use commeatus.Text.Lines.Words.{is_visible, is_ascii_byte, split_whitespace-three, is_utf8-ascii}
use commeatus.Io.{ErrorKind, ok}
use commeatus.HttpConnect.{parse_authority}
use commeatus.HttpConnect.Header.{
  max_header_bytes, find_header_end, first_line, connect_authority, parse_header, blank_line,
}
use commeatus.HttpConnect.Header.Whole.{header_of, header_of_found}
use commeatus.Protocol.Http.{connect_request}

abbrev is_inside : ℕ → Bool
is_inside c = not (c == 13)

find_header_end-inside :
    (xs s : Bytes) (n : ℕ)
    → all is_inside xs ≡ true
    → find_header_end s ≡ some n
    → find_header_end (xs ++ s) ≡ some (length xs + n)
unfolding find_header_end eqb
find_header_end-inside [] s n h e = e ∙ ap some (omega arith)
find_header_end-inside (x ∷ xs) s n h e =
    let here : (x == 13) ≡ false = ground arith in
    let later : all is_inside xs ≡ true = ground arith in
    rw (here, find_header_end-inside xs s n later e) (ap some (omega arith))

find_header_end-skip :
    (c : ℕ) (s : Bytes) (n : ℕ)
    → eqb (take 4 (c ∷ s)) blank_line ≡ false
    → find_header_end s ≡ some n
    → find_header_end (c ∷ s) ≡ some (suc n)
unfolding find_header_end
find_header_end-skip c s n other e = rw (other, e) refl

first_line-inside :
    (xs s : Bytes) → all is_inside xs ≡ true → first_line (xs ++ s) ≡ xs ++ first_line s
unfolding first_line eqb
first_line-inside [] s h = refl
first_line-inside (x ∷ xs) s h =
    let here : (x == 13) ≡ false = ground arith in
    let later : all is_inside xs ≡ true = ground arith in
    rw here (ap (◌∷◌ x) (first_line-inside xs s later))

module _ (authority : Bytes) (visible : all is_visible authority ≡ true)
    (some_byte : 0 < length authority) where
  abbrev pub last_line : Bytes
  last_line = bytes "\r\nProxy-Connection: Keep-Alive"

  abbrev pub middle : Bytes
  middle = bytes " HTTP/1.1\r\nHost: "

  abbrev pub header : Bytes
  header = bytes "CONNECT " ++ (authority ++ (middle ++ (authority ++ last_line)))

  inside : all is_inside authority ≡ true
  inside = all-map is_visible is_inside authority (λ c h. ground arith) visible

  request_whole : header ++ blank_line ≡ connect_request authority
  unfolding connect_request
  request_whole =
      ap (λ l. bytes "CONNECT " ++ l)
        (append_assoc authority (middle ++ (authority ++ last_line)) blank_line
          ∙ ap (λ l. authority ++ (middle ++ l)) (append_assoc authority last_line blank_line))

  request_apart :
      bytes "CONNECT " ++ (authority ++ (middle ++ (authority ++ (last_line ++ blank_line))))
      ≡ connect_request authority
  unfolding connect_request
  request_apart = refl

  end_found : find_header_end (header ++ blank_line) ≡ some (length header)
  unfolding find_header_end eqb
  end_found =
      let tail = last_line ++ blank_line in
      let behind : find_header_end tail ≡ some (length last_line) = refl in
      let named = find_header_end-inside authority tail (length last_line) inside behind in
      let host = find_header_end-inside (bytes "\nHost: ") (authority ++ tail) _ refl named in
      let line = find_header_end-skip 13 (bytes "\nHost: " ++ (authority ++ tail)) _ refl host in
      let version =
        find_header_end-inside (bytes " HTTP/1.1") (bytes "\r\nHost: " ++ (authority ++ tail)) _
          refl line in
      let asked =
        find_header_end-inside authority (middle ++ (authority ++ tail)) _ inside version in
      let all_found =
        find_header_end-inside (bytes "CONNECT ") (authority ++ (middle ++ (authority ++ tail))) _
          refl asked in
      ap find_header_end (request_whole ∙ sym request_apart)
      ∙ all_found
      ∙ ap some (
          omega (
            arith,
            length-append authority (middle ++ (authority ++ last_line)),
            length-append authority last_line,
          ))

  header_first_line :
      first_line header ≡ bytes "CONNECT" ++ (b' ' ∷ (authority ++ (b' ' ∷ bytes "HTTP/1.1")))
  unfolding first_line eqb
  header_first_line =
      first_line-inside (bytes "CONNECT ") (authority ++ (middle ++ (authority ++ last_line))) refl
      ∙ ap (λ l. bytes "CONNECT " ++ l)
          (first_line-inside authority (middle ++ (authority ++ last_line)) inside)

  header_is_utf8 : is_utf8 header ≡ true
  header_is_utf8 =
      let ascii = all-map is_visible is_ascii_byte authority (λ c h. ground arith) visible in
      is_utf8-ascii header (
        rw
          (
            all-append is_ascii_byte authority (middle ++ (authority ++ last_line)),
            all-append is_ascii_byte authority last_line,
            ascii,
          )
          refl)

  pub parse_header-header : parse_header header ≡ parse_authority authority
  unfolding parse_header connect_authority eqb strip_prefix
  parse_header-header =
      rw
        (
          header_is_utf8,
          header_first_line,
          split_whitespace-three (bytes "CONNECT") authority (bytes "HTTP/1.1") refl visible refl
              (omega arith) some_byte (omega arith),
        )
        refl

  -- The header of the request, and what follows the request.
  pub header_of-connect_request :
      (ended : ErrorKind) (rest : Bytes)
      → length authority ≤ 512
      → header_of ended (connect_request authority ++ rest) ≡ ok (header, rest)
  header_of-connect_request ended rest short =
      let size : length header ≤ 1200 = omega (
        arith,
        length-append authority (middle ++ (authority ++ last_line)),
        length-append authority last_line,
      ) in
      let text = header ++ blank_line in
      let small : length text ≤ max_header_bytes = omega (arith, length-append header blank_line) in
      let cut = take-append (length header) header blank_line refl in
      let gone : drop (length header + 4) text ≡ [] =
        ap (drop (length header + 4)) (sym (append-nil text))
        ∙ drop-append (length header + 4) text []
            (omega (arith, length-append header blank_line)) in
      ap (λ l. header_of ended (l ++ rest)) (sym request_whole)
      ∙ header_of_found ended text rest (length header) small end_found
      ∙ ap (λ l. ok (l, drop (length header + 4) text ++ rest)) cut
      ∙ ap (λ l. ok (header, l ++ rest)) gone
