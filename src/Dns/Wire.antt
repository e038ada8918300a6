-- ===== src/Dns/Wire.antt =====
-- crates/dns/src/wire.rs: names in messages. A message is its bytes.
pub mod Bound
pub mod Names
pub mod RoundTrip
use commeatus.Prelude.{
  ℕ, zero, suc, ◌+◌, ◌*◌, Bool, true, false, not, ◌||◌, Option, none, some, List, [], ◌∷◌, ◌++◌,
  ltb, leb, ◌==◌, if◌then◌else◌, Bytes, length, get_or,
}
use Prim.Native.Nat.{bit_and, bit_or}
use commeatus.Text.{dot, to_ascii_lowercase, is_utf8, is_ascii, split, to_be_bytes, from_be_bytes}
use commeatus.Text.Hostname.{hostname}
use commeatus.Text.Split.{join}
use commeatus.Target.{slice}
use commeatus.Dns.Answer.{
  DnsErrorKind, invalid_name, invalid_response, invalid_configuration, DnsResult, ok, err, ◌>>=◌,
}

abbrev pub max_dns_message_bytes : ℕ
max_dns_message_bytes = 65535

abbrev pub max_dns_name_pointer_hops : ℕ
max_dns_name_pointer_hops = 32

-- `read_u16`, `take_u16`, `take_u32`, with the offset after them
unfoldable pub read_u16 : Bytes → ℕ → DnsResult ℕ
read_u16 message offset =
    if leb (offset + 2) (length message)
    then ok (from_be_bytes (slice message offset (offset + 2)))
    else err invalid_response

unfoldable pub take_u16 : Bytes → ℕ → DnsResult (ℕ × ℕ)
take_u16 message offset = do value ← read_u16 message offset; ok (value, offset + 2)

unfoldable pub take_u32 : Bytes → ℕ → DnsResult (ℕ × ℕ)
take_u32 message offset =
    if leb (offset + 4) (length message)
    then ok (from_be_bytes (slice message offset (offset + 4)), offset + 4)
    else err invalid_response

-- `push_u16`
abbrev pub push_u16 : Bytes → ℕ → Bytes
push_u16 output value = output ++ to_be_bytes 2 value

unfoldable pub encode_labels : Bytes → List Bytes → DnsResult Bytes
encode_labels output [] = ok output
encode_labels output (label ∷ labels) =
    let rest = encode_labels (output ++ (length label ∷ label)) labels in
    if ltb 255 (length label)
    then err invalid_name
    else if length label == 0 || ltb 63 (length label)
    then err invalid_name
    else rest

-- the root's byte, and the limit on the whole
end_name : Bytes → DnsResult Bytes
end_name output =
    let whole = output ++ (0 ∷ []) in
    if ltb max_dns_message_bytes (length whole) then err invalid_configuration else ok whole

unfoldable pub encode_name : Bytes → Bytes → DnsResult Bytes
unfolding end_name
encode_name name output = do labels ← encode_labels output (split dot name); end_name labels

-- The variables of the loop in `decode_name`.
pub record Decoder : Type 0 where
  pub cursor : ℕ
  pub resume : Option ℕ
  pub labels : List Bytes
  pub hops : ℕ
  pub decoded_bytes : ℕ

-- What a round of the loop ends with: an error, the next round, or `break` with the new offset.
pub data Round : Type 0 where
  failed : DnsErrorKind → Round
  goes_on : Decoder → Round
  breaks : List Bytes → ℕ → Round

or_else : Option ℕ → ℕ → ℕ
or_else none offset = offset
or_else (some resume) offset = resume

-- `usize::from(!labels.is_empty())`: the dot in front of a further label
abbrev pub separator : List Bytes → ℕ
separator [] = 0
separator (label ∷ labels) = 1

-- A compression pointer.
unfoldable pub follow : Bytes → Decoder → ℕ → Round
unfolding or_else
follow message d first =
    let pointer = bit_or (bit_and first 0x3f * 256) (get_or message (d.cursor + 1) 0) in
    if not (ltb (d.cursor + 1) (length message))
    then failed invalid_response
    else if leb (length message) pointer
    then failed invalid_response
    else if leb d.cursor pointer
    then failed invalid_response
    else if ltb max_dns_name_pointer_hops (d.hops + 1)
    then failed invalid_response
    else goes_on (record d {
      cursor = pointer;
      resume = some (or_else d.resume (d.cursor + 2));
      hops = d.hops + 1;
    })

-- A label of `count` bytes behind its length byte.
unfoldable pub take_label : Bytes → Decoder → ℕ → Round
take_label message d count =
    let start = d.cursor + 1 in
    let label = slice message start (start + count) in
    let decoded = d.decoded_bytes + (count + separator d.labels) in
    if ltb 63 count
    then failed invalid_response
    else if ltb (length message) (start + count)
    then failed invalid_response
    else if not (is_utf8 label)
    then failed invalid_response
    else if not (is_ascii label)
    then failed invalid_response
    else if ltb 253 decoded
    then failed invalid_response
    else goes_on (record d {
      cursor = start + count;
      labels = d.labels ++ (to_ascii_lowercase label ∷ []);
      decoded_bytes = decoded;
    })

unfoldable pub decode_round : Bytes → Decoder → Round
unfolding or_else
decode_round message d =
    let count = get_or message d.cursor 0 in
    if not (ltb d.cursor (length message))
    then failed invalid_response
    else if bit_and count 0xc0 == 0xc0
    then follow message d count
    else if not (bit_and count 0xc0 == 0)
    then failed invalid_response
    else if count == 0
    then breaks d.labels (or_else d.resume (d.cursor + 1))
    else take_label message d count

-- The loop; `none` if the fuel runs out.
unfoldable pub decode_loop : ℕ → Bytes → Decoder → Option (DnsResult (List Bytes × ℕ))
decode_loop zero message d = none
decode_loop (suc fuel) message d = elim (decode_round message d) [
  | failed kind ↦ some (err kind)
  | goes_on d' ↦ decode_loop fuel message d'
  | breaks labels offset ↦ some (ok (labels, offset))
]

-- 33 pointers and 254 labels at most.
abbrev pub decode_fuel : ℕ
decode_fuel = 288

abbrev pub start_at : ℕ → Decoder
start_at offset = record {
  cursor = offset;
  resume = none;
  labels = [];
  hops = 0;
  decoded_bytes = 0;
}

of_labels : List Bytes → ℕ → DnsResult (Bytes × ℕ)
of_labels [] offset = err invalid_response
of_labels (label ∷ labels) offset = elim (hostname (join dot (label ∷ labels))) [
  | none ↦ err invalid_response
  | some name ↦ ok (name, offset)
]

pub decoded : Option (DnsResult (List Bytes × ℕ)) → DnsResult (Bytes × ℕ)
unfolding of_labels
decoded none = err invalid_response
decoded (some (err kind)) = err kind
decoded (some (ok (labels, offset))) = of_labels labels offset

-- `decode_name`: the name and the new offset
unfoldable pub decode_name : Bytes → ℕ → DnsResult (Bytes × ℕ)
unfolding decoded
decode_name message offset = decoded (decode_loop decode_fuel message (start_at offset))
