-- ===== src/Dns/Message/Header.antt =====
-- Which responses are accepted.
use commeatus.Prelude.{
  ℕ, ◌+◌, ◌≤◌, ◌≡◌, ◌≢◌, refl, ap, sym, ◌∙◌, Bool, true, false, ◌&&◌, arith, leb, ◌==◌, ==_iff,
  Bytes, eqb, eqb_iff, length, leb→le,
}
use Prim.Native.Nat.{bit_and}
use commeatus.Dns.Answer.{DnsResult, ok, err, >>=-eq-ok, DnsAnswer}
use commeatus.Dns.Wire.{read_u16, take_u16, decode_name}
use commeatus.Dns.Records.{AddressRecordType, code, class_in, require, ◌>>◌}
use commeatus.Dns.Message.{
  check_flags, check_head, parse_counts, parse_question, parse_address_response,
  max_dns_answer_records,
}

-- A response to the query: its size, its flags, and that it repeats the query's number and question.
pub record Answers (id : ℕ) (name : Bytes) (t : AddressRecordType) (message : Bytes) : Type 0 where
  pub long_enough : 12 ≤ length message
  pub short_enough : length message ≤ 65535
  pub same_id : read_u16 message 0 ≡ ok id
  pub flags : ℕ
  pub has_flags : read_u16 message 2 ≡ ok flags
  pub is_response : bit_and flags 0x8000 ≢ 0
  pub not_truncated : bit_and flags 0x0200 ≡ 0
  pub no_error : bit_and flags 0x000f ≡ 0
  pub one_question : read_u16 message 4 ≡ ok 1
  pub question_end : ℕ
  pub same_name : decode_name message 12 ≡ ok (name, question_end)
  pub same_type : read_u16 message question_end ≡ ok (code t)
  pub same_class : read_u16 message (question_end + 2) ≡ ok class_in

>>-eq-ok :
    {B : Type 0} {b : B} (first : DnsResult (Unit {0})) (next : DnsResult B)
    → (first >> next) ≡ ok b
    → (first ≡ ok tt) × (next ≡ ok b)
>>-eq-ok (ok tt) next e = (refl, e)
>>-eq-ok (err kind) next e = cc

within-le : (low n high : ℕ) → (leb low n && leb n high) ≡ true → (low ≤ n) × (n ≤ high)
within-le low n high e = ground arith

require-eq-ok : (test : Bool) → require test ≡ ok tt → test ≡ true
require-eq-ok true e = refl
require-eq-ok false e = cc

take_u16-read_u16 :
    (message : Bytes) (offset value next : ℕ)
    → take_u16 message offset ≡ ok (value, next)
    → (read_u16 message offset ≡ ok value) × (next ≡ offset + 2)
unfolding take_u16
take_u16-read_u16 message offset value next e =
    let (v, read, e₁) = >>=-eq-ok (read_u16 message offset) _ e in
    let here : v ≡ value = cc in
    let there : offset + 2 ≡ next = cc in (read ∙ ap ok here, sym there)

check_flags-eq-ok :
    (flags : ℕ)
    → check_flags flags ≡ ok tt
    → (bit_and flags 0x8000 ≢ 0) × (bit_and flags 0x0200 ≡ 0) × (bit_and flags 0x000f ≡ 0)
unfolding check_flags
check_flags-eq-ok flags e = ground arith

check_head-eq-ok :
    (id : ℕ) (message : Bytes)
    → check_head id message ≡ ok tt
    → (12 ≤ length message)
      × (length message ≤ 65535)
      × (read_u16 message 0 ≡ ok id)
      × (flags : ℕ) × (read_u16 message 2 ≡ ok flags)
      × (check_flags flags ≡ ok tt)
unfolding check_head
check_head-eq-ok id message e =
    let (size, e₁) =
      >>-eq-ok (require (leb 12 (length message) && leb (length message) 65535)) _ e in
    let (id', read_id, e₂) = >>=-eq-ok (read_u16 message 0) _ e₁ in
    let (id_ok, e₃) = >>-eq-ok (require (id' == id)) _ e₂ in
    let (flags, read_flags, e₄) = >>=-eq-ok (read_u16 message 2) _ e₃ in
    let (low, high) = within-le 12 (length message) 65535 (require-eq-ok _ size) in
    (low, high, read_id ∙ ap ok ((==_iff id' id).0 (require-eq-ok _ id_ok)), flags, read_flags, e₄)

parse_counts-eq-ok :
    (message : Bytes) (answers : ℕ)
    → parse_counts message ≡ ok answers
    → (read_u16 message 4 ≡ ok 1) × (read_u16 message 6 ≡ ok answers) × (answers ≤ 512)
unfolding parse_counts
parse_counts-eq-ok message answers e =
    let (q, read_q, e₁) = >>=-eq-ok (read_u16 message 4) _ e in
    let (n, read_n, e₂) = >>=-eq-ok (read_u16 message 6) _ e₁ in
    let (one, e₃) = >>-eq-ok (require (q == 1)) _ e₂ in
    let (few, e₄) = >>-eq-ok (require (leb n max_dns_answer_records)) _ e₃ in
    let same : n ≡ answers = cc in
    (
      read_q ∙ ap ok ((==_iff q 1).0 (require-eq-ok _ one)),
      read_n ∙ ap ok same,
      leb→le answers 512 (ap (λ n. leb n 512) (sym same) ∙ require-eq-ok _ few),
    )

both_iff : (a b c d : ℕ) → ((a == b) && (c == d)) ≡ true → (a ≡ b) × (c ≡ d)
both_iff a b c d e = ground arith

parse_question-eq-ok :
    (name : Bytes) (t : AddressRecordType) (message : Bytes) (offset : ℕ)
    → parse_question name t message ≡ ok offset
    → (end : ℕ) × (decode_name message 12 ≡ ok (name, end))
      × (read_u16 message end ≡ ok (code t))
      × (read_u16 message (end + 2) ≡ ok class_in)
unfolding parse_question
parse_question-eq-ok name t message offset e =
    let ((name', end), read_name, e₁) = >>=-eq-ok (decode_name message 12) _ e in
    let (same, e₂) = >>-eq-ok (require (eqb name' name)) _ e₁ in
    let ((type', p), read_type, e₃) = >>=-eq-ok (take_u16 message end) _ e₂ in
    let ((class', q), read_class, e₄) = >>=-eq-ok (take_u16 message p) _ e₃ in
    let (kinds, e₅) = >>-eq-ok (require (type' == code t && class' == class_in)) _ e₄ in
    let (type_ok, class_ok) = both_iff type' (code t) class' class_in (require-eq-ok _ kinds) in
    let (at_type, after_type) = take_u16-read_u16 message end type' p read_type in
    let (at_class, after_class) = take_u16-read_u16 message p class' q read_class in
    (
      end,
      read_name ∙ ap (λ n. ok (n, end)) ((eqb_iff name' name).0 (require-eq-ok _ same)),
      at_type ∙ ap ok type_ok,
      ap (read_u16 message) (sym after_type) ∙ at_class ∙ ap ok class_ok,
    )

-- A response that is accepted answers the query: it has a size in bounds, the identifier of the
-- query, the flag of a response, neither truncation nor an error code, and one question, which is
-- the name, type and class that were asked for.
pub parse_address_response-Answers :
    (id : ℕ) (name : Bytes) (t : AddressRecordType) (message : Bytes) (answer : DnsAnswer)
    → parse_address_response id name t message ≡ ok answer
    → Answers id name t message
unfolding parse_address_response
parse_address_response-Answers id name t message answer e =
    let (head, e₁) = >>-eq-ok (check_head id message) _ e in
    let (answers, counts, e₂) = >>=-eq-ok (parse_counts message) _ e₁ in
    let (offset, question, e₃) = >>=-eq-ok (parse_question name t message) _ e₂ in
    let (low, high, same_id, flags, has_flags, flags_ok) = check_head-eq-ok id message head in
    let (is_response, whole, no_error) = check_flags-eq-ok flags flags_ok in
    let (one, n, few) = parse_counts-eq-ok message answers counts in
    let (end, same_name, same_type, same_class) =
      parse_question-eq-ok name t message offset question in
    record {
      long_enough = low;
      short_enough = high;
      same_id = same_id;
      flags = flags;
      has_flags = has_flags;
      is_response = is_response;
      not_truncated = whole;
      no_error = no_error;
      one_question = one;
      question_end = end;
      same_name = same_name;
      same_type = same_type;
      same_class = same_class;
    }
