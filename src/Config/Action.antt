-- ===== src/Config/Action.antt =====
-- crates/daemon/src/config.rs: `parse_action`, `parse_rule` and the helpers of all directives.
use commeatus.Prelude.{
  ℕ, not, ◌||◌, Option, none, some, List, [], ◌∷◌, ltb, leb, ◌==◌, if◌then◌else◌, Bytes, bytes, eqb,
  length,
}
use commeatus.Text.{trim, to_ascii_lowercase}
use commeatus.Text.{dot}
use commeatus.Text.Hostname.{is_empty}
use commeatus.Text.Number.{parse_uint}
use commeatus.Text.Lines.{strip_prefix}
use commeatus.Ip.Parse.{parse_ip}
use commeatus.Cidr.{CidrResult}
use commeatus.Cidr
use commeatus.Flow.{TransportProtocol}
use commeatus.Plan.{direct, proxy, RejectReason, user_hard, new_endpoint_id}
use commeatus.Policy.{Matcher, PolicyAction, route, reject, PolicyRule}
use commeatus.Outcome.{Outcome, ok, err, ◌>>=◌, ◌>>◌, refuse_if, ok_or}
use commeatus.Config.{ConfigError, at, max_rules}

pub record ParsedAction : Type 0 where
  pub action : PolicyAction
  pub proxy_ref : Option Bytes

abbrev without_proxy : PolicyAction → ParsedAction
without_proxy action = record { action = action; proxy_ref = none }

unfoldable pub parse_action : Bytes → ℕ → Outcome ConfigError ParsedAction
parse_action value line =
    if eqb value (bytes "direct")
    then ok (without_proxy (route direct))
    else if eqb value (bytes "reject")
    then ok (without_proxy (reject RejectReason.policy))
    else (do
      name ← ok_or (at line) (strip_prefix (bytes "proxy:") value)
      id ← ok_or (at line) (new_endpoint_id name)
      ok (record { action = route (proxy id); proxy_ref = some id }))

pub record ParsedRule : Type 0 where
  pub rule : PolicyRule
  pub proxy_ref : Option Bytes

unfoldable pub normalize_domain : Bytes → ℕ → Outcome ConfigError Bytes
normalize_domain value line =
    let normalized = to_ascii_lowercase (trim dot value) in
    if is_empty normalized || ltb 253 (length normalized) then err (at line) else ok normalized

abbrev pub of_cidr : ℕ → CidrResult → Outcome ConfigError Matcher
of_cidr line (Cidr.ok network) = ok (Matcher.cidr network)
of_cidr line (Cidr.err _) = err (at line)

-- The `match` of a rule with a value.
unfoldable pub parse_value_matcher : Bytes → Bytes → ℕ → Outcome ConfigError Matcher
parse_value_matcher kind value line =
    if eqb kind (bytes "domain-exact")
    then (do name ← normalize_domain value line; ok (Matcher.domain_exact name))
    else if eqb kind (bytes "domain-suffix")
    then (do name ← normalize_domain value line; ok (Matcher.domain_suffix name))
    else if eqb kind (bytes "ip")
    then (do address ← ok_or (at line) (parse_ip value); ok (Matcher.ip_is address))
    else if eqb kind (bytes "cidr")
    then of_cidr line (Cidr.from_str value)
    else if eqb kind (bytes "port")
    then (do
      port ← ok_or (at line) (parse_uint 65535 value)
      refuse_if (port == 0) (at line)
      ok (Matcher.port port))
    else if eqb kind (bytes "transport")
    then if eqb value (bytes "tcp")
      then ok (Matcher.transport TransportProtocol.tcp)
      else if eqb value (bytes "udp")
      then ok (Matcher.transport TransportProtocol.udp)
      else err (at line)
    else err (at line)

-- The `match` on the fields behind the action.
unfoldable pub parse_matcher : List Bytes → ℕ → Outcome ConfigError Matcher
parse_matcher (kind ∷ []) line = if eqb kind (bytes "any") then ok Matcher.any else err (at line)
parse_matcher (kind ∷ value ∷ []) line = parse_value_matcher kind value line
parse_matcher _ line = err (at line)

-- The first field is `rule`.
unfoldable pub parse_rule : List Bytes → ℕ → ℕ → Outcome ConfigError ParsedRule
parse_rule (first ∷ action ∷ kind ∷ values) line id = do
  parsed ← parse_action action line
  matcher ← parse_matcher (kind ∷ values) line
  ok (record {
    rule = record { id = id; tier = user_hard; matcher = matcher; action = parsed.action };
    proxy_ref = parsed.proxy_ref;
  })
parse_rule _ line id = err (at line)

unfoldable pub expect_fields : List Bytes → ℕ → ℕ → Outcome ConfigError (Unit {0})
expect_fields fields expected line = refuse_if (not (length fields == expected)) (at line)

unfoldable pub ensure_rule_capacity : ℕ → ℕ → Outcome ConfigError (Unit {0})
ensure_rule_capacity current line = refuse_if (leb max_rules current) (at line)
