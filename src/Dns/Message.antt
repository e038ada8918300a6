-- ===== src/Dns/Message.antt =====
-- crates/dns/src/wire.rs: queries for addresses, and the responses to them.
pub mod Header
use commeatus.Prelude.{
  ℕ, zero, suc, ◌+◌, ◌*◌, ◌-◌, Bool, true, false, not, ◌&&◌, ◌||◌, Option, none, some, List, [],
  ◌∷◌, ◌++◌, ltb, leb, ◌==◌, if◌then◌else◌, Bytes, eqb, length, any,
}
use Prim.Native.Nat.{bit_and, min}
use commeatus.Text.{from_be_bytes}
use commeatus.Ip.{IpAddr, ip_eq}
use commeatus.Target.{slice}
use commeatus.Dns.Answer.{
  invalid_response, resolver_failure, no_records, DnsResult, ok, err, ◌>>=◌, DnsAnswer, new_answer,
}
use commeatus.Dns.Wire.{
  max_dns_message_bytes, read_u16, take_u16, take_u32, push_u16, encode_name, decode_name,
}
use commeatus.Dns.Records.{AddressRecordType, code, class_in, parse_records, require, ◌>>◌}
use commeatus.Dns.Aliases.{resolve_addresses_through_aliases}

abbrev pub max_dns_answer_records : ℕ
max_dns_answer_records = 512

-- The header of a query.
abbrev pub query_header : ℕ → Bytes
query_header id =
    push_u16 (push_u16 (push_u16 (push_u16 (push_u16 (push_u16 [] id) 0x0100) 1) 0) 0) 0

unfoldable pub encode_address_query : ℕ → Bytes → AddressRecordType → DnsResult Bytes
encode_address_query id name record_type = do
  message ← encode_name name (query_header id)
  ok (push_u16 (push_u16 message (code record_type)) class_in)

-- The flags: a response, not truncated, with a response code of zero; code 3 is NXDOMAIN.
unfoldable pub check_flags : ℕ → DnsResult (Unit {0})
check_flags flags =
    if bit_and flags 0x8000 == 0
    then err invalid_response
    else if not (bit_and flags 0x0200 == 0)
    then err resolver_failure
    else if bit_and flags 0x000f == 0
    then ok tt
    else if bit_and flags 0x000f == 3
    then err no_records
    else err resolver_failure

-- The size, the identifier and the flags.
unfoldable pub check_head : ℕ → Bytes → DnsResult (Unit {0})
check_head expected_id message = do
  require (leb 12 (length message) && leb (length message) max_dns_message_bytes)
  id ← read_u16 message 0
  require (id == expected_id)
  flags ← read_u16 message 2
  check_flags flags

-- The number of answers.
unfoldable pub parse_counts : Bytes → DnsResult ℕ
parse_counts message = do
  question_count ← read_u16 message 4
  answer_count ← read_u16 message 6
  require (question_count == 1)
  require (leb answer_count max_dns_answer_records)
  ok answer_count

-- The offset behind the question.
unfoldable pub parse_question : Bytes → AddressRecordType → Bytes → DnsResult ℕ
parse_question name record_type message = do
  (question_name, offset) ← decode_name message 12
  require (eqb question_name name)
  (question_type, offset) ← take_u16 message offset
  (question_class, offset) ← take_u16 message offset
  require (question_type == code record_type && question_class == class_in)
  ok offset

unfoldable pub parse_address_response : ℕ → Bytes → AddressRecordType → Bytes → DnsResult DnsAnswer
parse_address_response expected_id name record_type message = do
  check_head expected_id message
  answer_count ← parse_counts message
  offset ← parse_question name record_type message
  items ← parse_records answer_count message offset
  resolve_addresses_through_aliases name record_type message items
