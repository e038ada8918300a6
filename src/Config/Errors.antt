-- ===== src/Config/Errors.antt =====
-- The errors of the directives: each names the line that it stands in.
pub mod Calls
pub mod First
use commeatus.Prelude.{
  ℕ, ◌≡◌, refl, Bool, true, false, not, ◌&&◌, Option, none, some, List, [], ◌∷◌, leb, ltb, ◌==◌,
  Bytes, bytes, length, eqb, if◌then◌else◌, arith,
}
use commeatus.Io
use commeatus.Cidr.{CidrResult}
use commeatus.Cidr
use commeatus.Outcome.{Outcome, ok, err, ◌>>=◌, ◌>>◌, refuse_if, ok_or}
use commeatus.Config.{Surroundings, ConfigError, at, Parsing}
use commeatus.Config.Action.{
  parse_action, normalize_domain, of_cidr, parse_value_matcher, parse_matcher, parse_rule,
  expect_fields, ensure_rule_capacity,
}
use commeatus.Config.Assets.{at_line, read_bounded_asset, load_blocklist, load_hosts}
use commeatus.Config.Endpoints.{
  parse_proxy_address, of_io, parse_tls_transport_raw, parse_tls_transport, parse_tcp_transport,
  stream_endpoint, trojan_endpoint, make_endpoint, endpoint_directive,
}
use commeatus.Config.Directives.{
  version_directive, allow_public_listen_directive, listen_directive, default_directive,
  rule_directive, system_resolver, dot_resolver, make_resolver, resolver_directive,
  blocklist_directive, hosts_directive, field,
}
use commeatus.Config.Compile.{directive}

-- Where it fails, it fails with an error at the line.
abbrev pub FailsAt : {A : Type 0} → ℕ → Outcome ConfigError A → Type 0
FailsAt line r = at_line line r ≡ r

pub parse_action_fails : (value : Bytes) (line : ℕ) → FailsAt line (parse_action value line)
unfolding parse_action
parse_action_fails value line = ground arith

pub normalize_domain_fails : (value : Bytes) (line : ℕ) → FailsAt line (normalize_domain value line)
unfolding normalize_domain
normalize_domain_fails value line = ground arith

pub of_cidr_fails : (line : ℕ) (r : CidrResult) → FailsAt line (of_cidr line r)
of_cidr_fails line (Cidr.ok network) = refl
of_cidr_fails line (Cidr.err _) = refl

pub parse_value_matcher_fails :
    (kind value : Bytes) (line : ℕ) → FailsAt line (parse_value_matcher kind value line)
unfolding parse_value_matcher
parse_value_matcher_fails kind value line =
    ground (arith, normalize_domain_fails value line, of_cidr_fails line (Cidr.from_str value))

pub parse_matcher_fails :
    (fields : List Bytes) (line : ℕ) → FailsAt line (parse_matcher fields line)
unfolding parse_matcher
parse_matcher_fails [] line = cc
parse_matcher_fails (kind ∷ []) line = ground arith
parse_matcher_fails (kind ∷ value ∷ []) line = parse_value_matcher_fails kind value line
parse_matcher_fails (kind ∷ value ∷ _ ∷ _) line = cc

pub parse_rule_fails :
    (fields : List Bytes) (line id : ℕ) → FailsAt line (parse_rule fields line id)
unfolding parse_rule
parse_rule_fails [] line id = cc
parse_rule_fails (_ ∷ []) line id = cc
parse_rule_fails (_ ∷ _ ∷ []) line id = cc
parse_rule_fails (first ∷ action ∷ kind ∷ values) line id =
    ground (arith, parse_action_fails action line, parse_matcher_fails (kind ∷ values) line)

pub expect_fields_fails :
    (fields : List Bytes) (n line : ℕ) → FailsAt line (expect_fields fields n line)
unfolding expect_fields
expect_fields_fails fields n line = ground arith

pub ensure_rule_capacity_fails : (n line : ℕ) → FailsAt line (ensure_rule_capacity n line)
unfolding ensure_rule_capacity
ensure_rule_capacity_fails n line = ground arith

pub parse_proxy_address_fails :
    (value : Bytes) (line : ℕ) → FailsAt line (parse_proxy_address value line)
unfolding parse_proxy_address
parse_proxy_address_fails value line = ground arith

pub of_io_fails : {A : Type 0} (line : ℕ) (r : Io.Result A) → FailsAt line (of_io line r)
of_io_fails line (Io.ok value) = cc
of_io_fails line (Io.err _) = cc

pub at_line_fails : {E A : Type 0} (line : ℕ) (r : Outcome E A) → FailsAt line (at_line line r)
at_line_fails line (ok value) = cc
at_line_fails line (err _) = cc

module _ {Session Association FilePath : Type 0} where
  pub version_directive_fails :
      (fields : List Bytes) (line : ℕ) (p : Parsing Session Association FilePath)
      → FailsAt line (version_directive fields line p)
  unfolding version_directive
  version_directive_fails fields line p = ground (arith, expect_fields_fails fields 2 line)

  pub allow_public_listen_directive_fails :
      (fields : List Bytes) (line : ℕ) (p : Parsing Session Association FilePath)
      → FailsAt line (allow_public_listen_directive fields line p)
  unfolding allow_public_listen_directive
  allow_public_listen_directive_fails fields line p =
      ground (arith, expect_fields_fails fields 2 line)

  pub listen_directive_fails :
      (fields : List Bytes) (line : ℕ) (p : Parsing Session Association FilePath)
      → FailsAt line (listen_directive fields line p)
  unfolding listen_directive
  listen_directive_fails fields line p = ground (arith, expect_fields_fails fields 3 line)

  pub default_directive_fails :
      (fields : List Bytes) (line : ℕ) (p : Parsing Session Association FilePath)
      → FailsAt line (default_directive fields line p)
  unfolding default_directive
  default_directive_fails fields line p =
      ground (arith, expect_fields_fails fields 2 line, parse_action_fails (field fields 1) line)

  pub rule_directive_fails :
      (fields : List Bytes) (line : ℕ) (p : Parsing Session Association FilePath)
      → FailsAt line (rule_directive fields line p)
  unfolding rule_directive
  rule_directive_fails fields line p = ground (
    arith,
    ensure_rule_capacity_fails (length p.rules) line,
    parse_rule_fails fields line p.next_rule_id,
  )
