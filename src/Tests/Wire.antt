-- ===== src/Tests/Wire.antt =====
-- A response of one address, through one alias.
use commeatus.Prelude.{◌++◌, ◌≡◌, ◌≢◌, refl, none, some, List, [], ◌∷◌, Bytes, bytes, length, All}
use commeatus.Text
use commeatus.Text.Hostname.{hostname}
use commeatus.Ip.{IpAddr, ip_eq}
use commeatus.Dns.Answer.{DnsResult, ok, err, DnsAnswer, new_answer}
use commeatus.Dns.Wire
use commeatus.Dns.Wire.{encode_name, decode_name, decode_loop, decode_fuel, start_at}
use commeatus.Dns.Wire.Bound.{decode_loop-total}
use commeatus.Dns.Wire.RoundTrip.{decode_name-encode_name}
use commeatus.Dns.Records
use commeatus.Dns.Records.{a, parse_records, ResourceRecord}
use commeatus.Dns.Aliases
use commeatus.Dns.Aliases.{resolve_addresses_through_aliases}
use commeatus.Dns.Aliases.Sources.{Sourced, resolve_addresses_through_aliases-Sourced}
use commeatus.Dns.Message.{parse_address_response, parse_question}
use commeatus.Dns.Message
use commeatus.Dns.Message.Header.{Answers, parse_address_response-Answers}

abbrev name : Bytes
name = bytes "a.b"

abbrev head : Bytes
head = 18 ∷ 52 ∷ 129 ∷ 128 ∷ 0 ∷ 1 ∷ 0 ∷ 2 ∷ 0 ∷ 0 ∷ 0 ∷ 0 ∷ []

abbrev wire_name : Bytes
wire_name = 1 ∷ 97 ∷ 1 ∷ 98 ∷ 0 ∷ []

abbrev records : Bytes
records =
    0 ∷ 1 ∷ 0 ∷ 1 ∷ 192 ∷ 12 ∷ 0 ∷ 5 ∷ 0 ∷ 1 ∷ 0 ∷ 0 ∷ 0 ∷ 9 ∷ 0 ∷ 3 ∷ 1 ∷ 99 ∷ 0 ∷ 192 ∷ 33 ∷ 0 ∷ 1
    ∷ 0 ∷ 1 ∷ 0 ∷ 0 ∷ 0 ∷ 7 ∷ 0 ∷ 4 ∷ 1 ∷ 2 ∷ 3 ∷ 4 ∷ []

abbrev message : Bytes
message = head ++ (wire_name ++ records)

decode_loop-total_example : decode_loop decode_fuel message (start_at 33) ≢ none
decode_loop-total_example = decode_loop-total message 33

canonical : hostname name ≡ some name
unfolding hostname Text.to_ascii_lowercase Text.trim Text.trim_end Text.trim_start Text.is_ascii
    Text.lower Text.split
canonical = refl

encoded : encode_name name head ≡ ok (head ++ wire_name)
unfolding encode_name Text.split Wire.encode_labels
encoded = refl

decode_name-encode_name_example : decode_name message 12 ≡ ok (name, 17)
decode_name-encode_name_example =
    decode_name-encode_name name head (head ++ wire_name) records canonical encoded

abbrev answer : DnsAnswer
answer = record { addresses = IpAddr.v4 16909060 ∷ []; ttl = some 7000000000 }

accepted : parse_address_response 4660 name a message ≡ ok answer
unfolding parse_address_response parse_question parse_records Records.parse_record
    Message.check_head Message.check_flags Message.parse_counts commeatus.Prelude.eqb decode_name
    decode_loop Wire.decode_round Wire.take_label Wire.read_u16 Wire.take_u16 Wire.take_u32
    Text.from_be_bytes Text.is_utf8 Text.is_ascii hostname Text.to_ascii_lowercase Text.trim
    Text.trim_end Text.trim_start commeatus.Text.Split.join Text.lower Text.split
    commeatus.Dns.Answer.deduplicate_bounded new_answer commeatus.Dns.Answer.push_new
    Aliases.collect Wire.follow ip_eq Aliases.alias_rounds Aliases.alias_pass
    resolve_addresses_through_aliases
accepted = refl

parse_address_response-Answers_example : Answers 4660 name a message
parse_address_response-Answers_example =
    parse_address_response-Answers 4660 name a message answer accepted

-- The records of the message.
abbrev items : List ResourceRecord
items =
    record {
      owner = name;
      rr_type = 5;
      rr_class = 1;
      ttl = 9000000000;
      rdata_start = 33;
      rdata_end = 36;
    }
    ∷ record {
      owner = bytes "c";
      rr_type = 1;
      rr_class = 1;
      ttl = 7000000000;
      rdata_start = 48;
      rdata_end = 52;
    }
    ∷ []

resolved : resolve_addresses_through_aliases name a message items ≡ ok answer
unfolding commeatus.Prelude.eqb decode_name decode_loop Wire.decode_round Wire.take_label
    Wire.read_u16 Wire.take_u16 Wire.take_u32 Text.from_be_bytes Text.is_utf8 Text.is_ascii hostname
    Text.to_ascii_lowercase Text.trim Text.trim_end Text.trim_start commeatus.Text.Split.join
    Text.lower Text.split commeatus.Dns.Answer.deduplicate_bounded new_answer
    commeatus.Dns.Answer.push_new Aliases.collect Wire.follow ip_eq Aliases.alias_rounds
    Aliases.alias_pass resolve_addresses_through_aliases
resolved = refl

resolve_addresses_through_aliases-Sourced_example :
    All (Sourced message items name a) answer.addresses
resolve_addresses_through_aliases-Sourced_example =
    resolve_addresses_through_aliases-Sourced message items name a answer resolved
