-- ===== src/Dns/Aliases.antt =====
-- crates/dns/src/wire.rs: the addresses of a name among records, through its aliases.
pub mod Reached
pub mod Sources
use commeatus.Prelude.{
  ℕ, zero, suc, ◌+◌, ◌*◌, ◌-◌, Bool, true, false, not, ◌&&◌, ◌||◌, Option, none, some, List, [],
  ◌∷◌, ◌++◌, ltb, leb, ◌==◌, if◌then◌else◌, Bytes, eqb, length, any,
}
use Prim.Native.Nat.{bit_and, min}
use commeatus.Text.{from_be_bytes}
use commeatus.Ip.{IpAddr, ip_eq}
use commeatus.Target.{slice}
use commeatus.Dns.Answer.{
  invalid_response, resolver_failure, no_records, DnsResult, ok, err, ◌>>=◌, DnsAnswer, new_answer,
}
use commeatus.Dns.Wire.{
  max_dns_message_bytes, read_u16, take_u16, take_u32, push_u16, encode_name, decode_name,
}
use commeatus.Dns.Records.{
  AddressRecordType, a, aaaa, code, class_in, type_cname, ResourceRecord, require, ◌>>◌,
}

abbrev pub max_dns_alias_hops : ℕ
max_dns_alias_hops = 16

abbrev pub min_ttl : Option ℕ → ℕ → ℕ
min_ttl none candidate = candidate
min_ttl (some current) candidate = min current candidate

abbrev pub contains : List Bytes → Bytes → Bool
contains names name = any (λ n. eqb n name) names

-- The variables of the loop over aliases.
pub record Aliases : Type 0 where
  pub accepted_names : List Bytes
  pub chain_ttl : Option ℕ
  pub changed : Bool

pub is_alias : Aliases → ResourceRecord → Bool
is_alias s item =
    item.rr_class == class_in && item.rr_type == type_cname && contains s.accepted_names item.owner

-- The target of a CNAME record, which takes up all of its data.
pub alias_target : Bytes → ResourceRecord → DnsResult Bytes
alias_target message item = do
  (target, offset) ← decode_name message item.rdata_start
  require (offset == item.rdata_end)
  ok target

-- `insert` tells whether the name is new.
pub accept : Aliases → ℕ → Bytes → Aliases
accept s ttl target =
    if contains s.accepted_names target
    then record s { chain_ttl = some (min_ttl s.chain_ttl ttl) }
    else record s {
      accepted_names = target ∷ s.accepted_names;
      chain_ttl = some (min_ttl s.chain_ttl ttl);
      changed = true;
    }

-- One pass over the records.
unfoldable pub alias_pass : Bytes → List ResourceRecord → Aliases → DnsResult Aliases
unfolding is_alias alias_target accept
alias_pass message [] s = ok s
alias_pass message (item ∷ items) s = elim (is_alias s item) [
  | false ↦ alias_pass message items s
  | true ↦ elim (alias_target message item) [
    | err kind ↦ err kind
    | ok target ↦ alias_pass message items (accept s item.ttl target)
  ]
]

unfoldable pub alias_rounds : ℕ → Bytes → List ResourceRecord → Aliases → DnsResult Aliases
alias_rounds zero message items s = ok s
alias_rounds (suc rounds) message items s =
    elim (alias_pass message items (record s { changed = false })) [
      | err kind ↦ err kind
      | ok s' ↦
          let rest = alias_rounds rounds message items s' in
          if not s'.changed
          then ok s'
          else if ltb (max_dns_alias_hops + 1) (length s'.accepted_names)
          then err invalid_response
          else rest
    ]

-- The address of a record, by its type; the length of the data is checked.
pub address_of : AddressRecordType → Bytes → ResourceRecord → DnsResult IpAddr
address_of a message item = do
  require (item.rdata_end - item.rdata_start == 4)
  ok (IpAddr.v4 (from_be_bytes (slice message item.rdata_start item.rdata_end)))
address_of aaaa message item = do
  require (item.rdata_end - item.rdata_start == 16)
  ok (IpAddr.v6 (from_be_bytes (slice message item.rdata_start item.rdata_end)))

pub is_address : AddressRecordType → List Bytes → ResourceRecord → Bool
is_address record_type accepted_names item =
    item.rr_class == class_in
    && item.rr_type == code record_type
    && contains accepted_names item.owner

abbrev pub push_address : List IpAddr → IpAddr → List IpAddr
push_address addresses address =
    if any (ip_eq address) addresses then addresses else addresses ++ (address ∷ [])

unfoldable pub collect :
    AddressRecordType
    → Bytes
    → List Bytes
    → List ResourceRecord
    → List IpAddr
    → Option ℕ
    → DnsResult (List IpAddr × Option ℕ)
unfolding is_address address_of
collect record_type message names [] addresses ttl = ok (addresses, ttl)
collect record_type message names (item ∷ items) addresses ttl =
    elim (is_address record_type names item) [
      | false ↦ collect record_type message names items addresses ttl
      | true ↦ elim (address_of record_type message item) [
        | err kind ↦ err kind
        | ok address ↦
            collect record_type message names items (push_address addresses address)
              (some (min_ttl ttl item.ttl))
      ]
    ]

unfoldable pub resolve_addresses_through_aliases :
    Bytes → AddressRecordType → Bytes → List ResourceRecord → DnsResult DnsAnswer
resolve_addresses_through_aliases name record_type message items = do
  s ←
      alias_rounds max_dns_alias_hops message items
        (record { accepted_names = name ∷ []; chain_ttl = none; changed = false })
  (addresses, ttl) ← collect record_type message s.accepted_names items [] s.chain_ttl
  new_answer addresses ttl
