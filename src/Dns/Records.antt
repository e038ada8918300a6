-- ===== src/Dns/Records.antt =====
-- crates/dns/src/wire.rs: resource records. A time to live is in nanoseconds.
use commeatus.Prelude.{ℕ, zero, suc, ◌+◌, ◌*◌, Bool, true, false, List, [], ◌∷◌, leb, Bytes, length}
use commeatus.Dns.Answer.{invalid_response, DnsResult, ok, err, ◌>>=◌}
use commeatus.Dns.Wire.{take_u16, take_u32, decode_name}

pub data AddressRecordType : Type 0 where
  a aaaa : AddressRecordType

-- `AddressRecordType::code`
abbrev pub code : AddressRecordType → ℕ
code a = 1
code aaaa = 28

abbrev pub class_in : ℕ
class_in = 1

abbrev pub type_cname : ℕ
type_cname = 5

-- The data is a range of the message.
pub record ResourceRecord : Type 0 where
  pub owner : Bytes
  pub rr_type : ℕ
  pub rr_class : ℕ
  pub ttl : ℕ
  pub rdata_start : ℕ
  pub rdata_end : ℕ

-- A test that must hold.
abbrev pub require : Bool → DnsResult (Unit {0})
require true = ok tt
require false = err invalid_response

infixl 5 ◌>>◌
abbrev pub ◌>>◌ : {B : Type 0} → DnsResult (Unit {0}) → DnsResult B → DnsResult B
m >> next = m >>= λ _. next

-- One round of the loop over the answers: the record, and the offset behind it.
unfoldable pub parse_record : Bytes → ℕ → DnsResult (ResourceRecord × ℕ)
parse_record message offset = do
  (owner, offset) ← decode_name message offset
  (rr_type, offset) ← take_u16 message offset
  (rr_class, offset) ← take_u16 message offset
  (seconds, offset) ← take_u32 message offset
  (rdlength, offset) ← take_u16 message offset
  require (leb (offset + rdlength) (length message))
  ok (
    record {
      owner = owner;
      rr_type = rr_type;
      rr_class = rr_class;
      ttl = seconds * 1000000000;
      rdata_start = offset;
      rdata_end = offset + rdlength;
    },
    offset + rdlength,
  )

unfoldable pub parse_records : ℕ → Bytes → ℕ → DnsResult (List ResourceRecord)
parse_records zero message offset = ok []
parse_records (suc count) message offset = do
  (item, offset) ← parse_record message offset
  items ← parse_records count message offset
  ok (item ∷ items)
