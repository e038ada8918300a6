-- ===== src/Dns/Wire/Names.antt =====
-- A name that is encoded is decoded again.
use Prim.Native.Nat.{bit_and}
use commeatus.Prelude.{
  ℕ, zero, suc, ◌+◌, ◌/◌, ◌^◌, ◌≤◌, ◌<◌, ◌≡◌, refl, ap, sym, ◌∙◌, true, false, none, some, List, [],
  ◌∷◌, ◌++◌, arith, ltb, Bytes, length, length-append, append_assoc, append-nil, get_or, All,
  not_below, not_zero, is_below,
}
use commeatus.Prelude.Bits.{bit_and_shift}
use commeatus.Text.{dot, to_ascii_lowercase, is_utf8, is_ascii}
use commeatus.Text.Split.{join}
use commeatus.Target.{slice}
use commeatus.Target.Pieces.{slice-append}
use commeatus.Dns.Answer.{ok}
use commeatus.Dns.Wire.{
  Decoder, goes_on, breaks, take_label, decode_round, decode_loop, separator, encode_labels,
}

-- A label as names in canonical form have it.
abbrev pub IsLabel : Bytes → Type 0
IsLabel l = (0 < length l) × (length l ≤ 63) × (is_ascii l ≡ true) × (to_ascii_lowercase l ≡ l)

plain_count : (n : ℕ) → n ≤ 63 → bit_and n 0xc0 ≡ 0
plain_count n h =
    let high : n / 2 ^ 6 ≡ 0 = omega arith in
    let none_left : bit_and 0 3 ≡ 0 = refl in
    omega (arith, bit_and_shift 6 n 3, ap (λ (k : ℕ). bit_and k 3) high)

is_ascii-is_utf8 : (s : Bytes) → is_ascii s ≡ true → is_utf8 s ≡ true
unfolding is_ascii is_utf8
is_ascii-is_utf8 [] h = refl
is_ascii-is_utf8 (c ∷ s) h = ground (arith, is_ascii-is_utf8 s)

-- The bytes of the labels, each behind its length.
abbrev pub wire : List Bytes → Bytes
wire [] = []
wire (l ∷ ls) = length l ∷ (l ++ wire ls)

pub encode_labels-wire :
    (output : Bytes) (ls : List Bytes)
    → All IsLabel ls
    → encode_labels output ls ≡ ok (output ++ wire ls)
unfolding encode_labels
encode_labels-wire output [] h = ap ok (sym (append-nil output))
encode_labels-wire output (l ∷ ls) ((pos, small, ascii, low), hs) =
    let fits : ltb 255 (length l) ≡ false = not_below 255 (length l) (omega arith) in
    let fits' : ltb 63 (length l) ≡ false = not_below 63 (length l) small in
    rw (fits, fits', not_zero (length l) pos, encode_labels-wire (output ++ (length l ∷ l)) ls hs)
      (ap ok (append_assoc output (length l ∷ l) (wire ls)))

-- A round that meets a label.
decode_round-label :
    (message l : Bytes) (d : Decoder) (decoded : ℕ)
    → IsLabel l
    → get_or message d.cursor 0 ≡ length l
    → slice message (d.cursor + 1) (d.cursor + 1 + length l) ≡ l
    → d.cursor + 1 + length l ≤ length message
    → d.decoded_bytes + (length l + separator d.labels) ≡ decoded
    → decoded ≤ 253
    → decode_round message d
      ≡ goes_on (record d {
        cursor = d.cursor + 1 + length l;
        labels = d.labels ++ (l ∷ []);
        decoded_bytes = decoded;
      })
unfolding decode_round take_label
decode_round-label message l d decoded (pos, small, ascii, low) count cut room sum fits =
    let inside = is_below d.cursor (length message) (omega arith) in
    let plain : bit_and (get_or message d.cursor 0) 0xc0 ≡ 0 =
      rw count (plain_count (length l) small) in
    rw (inside, plain, count, not_zero (length l) pos)
      (rw
        (
          not_below 63 (length l) small,
          not_below (length message) (d.cursor + 1 + length l) room,
          cut,
          is_ascii-is_utf8 l ascii,
          ascii,
          sum,
          not_below 253 decoded fits,
          low,
        )
        refl)

-- What the labels add to the name's length, with the dots between them.
abbrev pub weight : ℕ → List Bytes → ℕ
weight dots [] = 0
weight dots (l ∷ ls) = length l + dots + weight 1 ls

pub length-join : (l : Bytes) (ls : List Bytes) → length (join dot (l ∷ ls)) ≡ weight 0 (l ∷ ls)
unfolding join
length-join l [] = omega arith
length-join l (l' ∷ ls) =
    omega (arith, length-append l (dot ∷ join dot (l' ∷ ls)), length-join l' ls)

pub length-weight : (ls : List Bytes) → All IsLabel ls → length ls ≤ weight 1 ls
length-weight [] h = omega arith
length-weight (l ∷ ls) (h, hs) = omega (arith, h, length-weight ls hs)

separator-append : (acc : List Bytes) (l : Bytes) → separator (acc ++ (l ∷ [])) ≡ 1
separator-append [] l = refl
separator-append (a ∷ acc) l = refl

get_or-append : (front rest : Bytes) (c : ℕ) → get_or (front ++ (c ∷ rest)) (length front) 0 ≡ c
get_or-append [] rest c = refl
get_or-append (x ∷ front) rest c = get_or-append front rest c

-- The loop's variables with no pointer followed so far.
abbrev pub reading : ℕ → List Bytes → ℕ → Decoder
reading cursor labels decoded_bytes = record {
  cursor = cursor;
  resume = none;
  labels = labels;
  hops = 0;
  decoded_bytes = decoded_bytes;
}

decode_round-end :
    (front rest : Bytes) (acc : List Bytes) (n : ℕ)
    → decode_round (front ++ (0 ∷ rest)) (reading (length front) acc n)
      ≡ breaks acc (length front + 1)
unfolding decode_round
decode_round-end front rest acc n =
    let room =
      is_below (length front) (length (front ++ (0 ∷ rest)))
        (omega (arith, length-append front (0 ∷ rest))) in
    rw (room, get_or-append front rest 0) refl

decode_loop-breaks :
    (fuel : ℕ) (message : Bytes) (d : Decoder) {labels : List Bytes} {offset : ℕ}
    → decode_round message d ≡ breaks labels offset
    → decode_loop (suc fuel) message d ≡ some (ok (labels, offset))
unfolding decode_loop
decode_loop-breaks fuel message d e = rw (e, decode_loop) refl

decode_loop-goes_on :
    (fuel : ℕ) (message : Bytes) (d : Decoder) {d' : Decoder}
    → decode_round message d ≡ goes_on d'
    → decode_loop (suc fuel) message d ≡ decode_loop fuel message d'
unfolding decode_loop
decode_loop-goes_on fuel message d e = rw (e, decode_loop) refl

slice-label :
    (front l rest : Bytes)
    → slice ((front ++ (length l ∷ l)) ++ rest) (length front + 1) (length front + 1 + length l) ≡ l
slice-label front l rest =
    let one = length-append front (length l ∷ []) in
    rw
      (append_assoc front (length l ∷ l) rest, sym (append_assoc front (length l ∷ []) (l ++ rest)))
      (slice-append (front ++ (length l ∷ [])) l rest _ _ (omega arith) refl)

-- The labels in front of the root's byte, from the first one on.
pub decode_loop-wire :
    (ls : List Bytes) (fuel : ℕ) (front rest : Bytes) (acc : List Bytes) (n : ℕ)
    → All IsLabel ls
    → length ls < fuel
    → n + weight (separator acc) ls ≤ 253
    → decode_loop fuel (front ++ (wire ls ++ (0 ∷ rest))) (reading (length front) acc n)
      ≡ some (ok (acc ++ ls, length front + length (wire ls) + 1))
decode_loop-wire ls zero front rest acc n hs enough small = absurd (omega arith)
decode_loop-wire [] (suc fuel) front rest acc n hs enough small =
    decode_loop-breaks fuel (front ++ (0 ∷ rest)) (reading (length front) acc n)
      (decode_round-end front rest acc n)
    ∙ rw (append-nil acc) (ap (λ (k : ℕ). some (ok (acc, k))) (omega arith))
decode_loop-wire (l ∷ ls) (suc fuel) front rest acc n (h, hs) enough small =
    let sum : n + (length l + separator acc) ≤ 253 = omega arith in
    let tail = l ++ (wire ls ++ (0 ∷ rest)) in
    let message = front ++ (length l ∷ tail) in
    let shape : front ++ (wire (l ∷ ls) ++ (0 ∷ rest)) ≡ message =
      ap (λ (s : Bytes). front ++ (length l ∷ s)) (append_assoc l (wire ls) (0 ∷ rest)) in
    let front' = front ++ (length l ∷ l) in
    let shape' : message ≡ front' ++ (wire ls ++ (0 ∷ rest)) =
      sym (append_assoc front (length l ∷ l) (wire ls ++ (0 ∷ rest))) in
    let size = length-append front (length l ∷ tail) in
    let size' = length-append l (wire ls ++ (0 ∷ rest)) in
    let size'' = length-append front (length l ∷ l) in
    let cut : slice message (length front + 1) (length front + 1 + length l) ≡ l =
      rw shape' (slice-label front l (wire ls ++ (0 ∷ rest))) in
    let round =
      decode_round-label message l (reading (length front) acc n) (n + (length l + separator acc)) h
        (get_or-append front tail (length l)) cut (omega arith) refl sum in
    let next : length front + 1 + length l ≡ length front' = omega arith in
    let weighed : n + (length l + separator acc) + weight (separator (acc ++ (l ∷ []))) ls ≤ 253 =
      rw (separator-append acc l) (omega arith) in
    let decoded_bytes = n + (length l + separator acc) in
    let labels = acc ++ (l ∷ []) in
    let end : ℕ = length front' + length (wire ls) + 1 in
    let ih = decode_loop-wire ls fuel front' rest labels decoded_bytes hs (omega arith) weighed in
    let later : decode_loop fuel message
          (reading (length front + 1 + length l) labels decoded_bytes)
        ≡ some (ok (labels ++ ls, end)) =
      rw (next, shape') ih in
    let total = length-append l (wire ls) in
    let same_end : end ≡ length front + length (wire (l ∷ ls)) + 1 = omega arith in
    rw shape (
      decode_loop-goes_on fuel message (reading (length front) acc n) round
      ∙ later
      ∙ rw (append_assoc acc (l ∷ []) ls, same_end) refl)
