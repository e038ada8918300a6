-- ===== src/Dns/Wire/RoundTrip.antt =====
-- Encoding and decoding of whole names.
use commeatus.Prelude.{
  ℕ, ◌+◌, ◌≤◌, ◌<◌, ◌≡◌, ◌↔◌, refl, ap, sym, ◌∙◌, true, false, not, ◌||◌, some, List, [], ◌∷◌, ◌++◌,
  arith, ltb, ◌==◌, Bytes, length, length-append, append_assoc, all, any, All, Bool-cases, inl, inr,
}
use commeatus.Text.{dot, to_ascii_lowercase, is_ascii, split, lower, trim}
use commeatus.Text.Case.{to_ascii_lowercase_idem}
use commeatus.Text.Split.{join, join-split, split-all, split-nonempty}
use commeatus.Text.Hostname.{hostname, bad_label, is_empty, max_domain_length}
use commeatus.Dns.Answer.{ok}
use commeatus.Dns.Wire.{decode_name, decoded, of_labels, decode_fuel, encode_name, end_name}
use commeatus.Dns.Wire.Names.{
  IsLabel, wire, weight, encode_labels-wire, length-join, length-weight, decode_loop-wire,
}

-- A name in canonical form passes the check unchanged.
abbrev pub IsCanonicalName : Bytes → Type 0
IsCanonicalName name = hostname name ≡ some name

canonical_parts :
    (name : Bytes)
    → IsCanonicalName name
    → (to_ascii_lowercase name ≡ name)
      × (length name ≤ 253)
      × (is_ascii name ≡ true)
      × (any bad_label (split dot name) ≡ false)
unfolding hostname
canonical_parts name e =
    let text = to_ascii_lowercase (trim dot name) in
    elim (Bool-cases (
      is_empty text
      || ltb max_domain_length (length text)
      || not (is_ascii text)
      || any bad_label (split dot text))) [
        | inl bad ↦ absurd (cc (rw bad at e))
        | inr good ↦
            let same : text ≡ name = cc (rw good at e) in
            let parts = tests text good in
            (
              ap to_ascii_lowercase (sym same) ∙ to_ascii_lowercase_idem (trim dot name) ∙ same,
              rw same at parts.0,
              rw same at parts.1,
              rw same at parts.2,
            )
      ]
  where
    tests :
        (text : Bytes)
        → (is_empty text
            || ltb max_domain_length (length text)
            || not (is_ascii text)
            || any bad_label (split dot text))
          ≡ false
        → (length text ≤ 253) × (is_ascii text ≡ true) × (any bad_label (split dot text) ≡ false)
    tests text h = ground arith

lower_bytes : (s : Bytes) → (all (λ c. lower c == c) s ≡ true) ↔ (to_ascii_lowercase s ≡ s)
unfolding to_ascii_lowercase
lower_bytes [] = ground arith
lower_bytes (c ∷ s) = ground (arith, lower_bytes s)

labels-IsLabel :
    (ls : List Bytes)
    → any bad_label ls ≡ false
    → All (λ (l : Bytes). all (λ c. ltb c 128) l ≡ true) ls
    → All (λ (l : Bytes). all (λ c. lower c == c) l ≡ true) ls
    → All IsLabel ls
unfolding is_ascii
labels-IsLabel [] good ascii low = tt
labels-IsLabel ([] ∷ ls) good ascii low = cc
labels-IsLabel ((c ∷ l) ∷ ls) good (ascii, asciis) (low, lows) =
    let small : length (c ∷ l) ≤ 63 = ground arith in
    let later : any bad_label ls ≡ false = ground arith in
    ((omega arith, small, ascii, (lower_bytes (c ∷ l)).0 low), labels-IsLabel ls later asciis lows)

canonical-IsLabel : (name : Bytes) → IsCanonicalName name → All IsLabel (split dot name)
unfolding is_ascii
canonical-IsLabel name h =
    let (low, small, ascii, good) = canonical_parts name h in
    labels-IsLabel (split dot name) good (split-all (λ c. ltb c 128) dot name ascii)
      (split-all (λ c. lower c == c) dot name ((lower_bytes name).1 low))

end_name-eq-ok : (output m : Bytes) → end_name output ≡ ok m → m ≡ output ++ (0 ∷ [])
unfolding end_name
end_name-eq-ok output m e = ground arith

encode_name-wire :
    (name output m : Bytes)
    → IsCanonicalName name
    → encode_name name output ≡ ok m
    → m ≡ (output ++ wire (split dot name)) ++ (0 ∷ [])
unfolding encode_name
encode_name-wire name output m h e =
    let labels = encode_labels-wire output (split dot name) (canonical-IsLabel name h) in
    end_name-eq-ok (output ++ wire (split dot name)) m (rw labels at e)

of_labels-canonical :
    (name : Bytes) (offset : ℕ)
    → IsCanonicalName name
    → of_labels (split dot name) offset ≡ ok (name, offset)
unfolding of_labels
of_labels-canonical name offset h =
    let (l, ls, e) = split-nonempty dot name in
    let joined : join dot (l ∷ ls) ≡ name = ap (join dot) (sym e) ∙ join-split dot name in
    rw e (rw (joined, h, of_labels) refl)

weighed_labels :
    (name : Bytes)
    → IsCanonicalName name
    → (weight 0 (split dot name) ≤ 253) × (length (split dot name) < decode_fuel)
weighed_labels name h =
    let (l, ls, e) = split-nonempty dot name in
    let small = (canonical_parts name h).1 in
    let (good, goods) = rw e at (canonical-IsLabel name h) in
    let joined : join dot (l ∷ ls) ≡ name = ap (join dot) (sym e) ∙ join-split dot name in
    let size : weight 0 (l ∷ ls) ≤ 253 = omega (arith, length-join l ls, ap length joined, small) in
    let few = length-weight ls goods in rw e (size, omega arith)

-- A name in canonical form that is encoded behind some bytes is decoded from there, whatever bytes
-- follow it: the name, and the offset behind it.
pub decode_name-encode_name :
    (name output m rest : Bytes)
    → IsCanonicalName name
    → encode_name name output ≡ ok m
    → decode_name (m ++ rest) (length output) ≡ ok (name, length m)
unfolding decode_name decoded
decode_name-encode_name name output m rest h e =
    let labels = split dot name in
    let good = canonical-IsLabel name h in
    let shape = encode_name-wire name output m h e in
    let whole : m ++ rest ≡ output ++ (wire labels ++ (0 ∷ rest)) = rw shape (
      append_assoc (output ++ wire labels) (0 ∷ []) rest
      ∙ append_assoc output (wire labels) (0 ∷ rest)) in
    let size : length output + length (wire labels) + 1 ≡ length m = omega (
      arith,
      ap length shape,
      length-append (output ++ wire labels) (0 ∷ []),
      length-append output (wire labels),
    ) in
    let (weighed, few) = weighed_labels name h in
    let read = decode_loop-wire labels decode_fuel output rest [] 0 good few (omega arith) in
    rw (whole, read, size) (of_labels-canonical name (length m) h)
