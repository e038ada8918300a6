-- ===== src/Config/Directives.antt =====
-- crates/daemon/src/config.rs: the directives of a configuration but `endpoint`, one function for each
-- arm of the loop's `match`. The fields of a line begin with the directive's word.
use commeatus.Prelude.{
  ℕ, ◌+◌, Bool, true, false, not, ◌&&◌, Option, none, some, List, [], ◌∷◌, leb, ◌==◌, if◌then◌else◌,
  Bytes, bytes, eqb, length, any, get_or,
}
use commeatus.Text.{to_ascii_lowercase}
use commeatus.Ip.Socket.{SocketAddr, socket_eq}
use commeatus.Ip.Socket.Text.{parse_socket}
use commeatus.Plan.{RejectReason, user_hard}
use commeatus.Policy.{Matcher, reject}
use commeatus.Dns.Engine.{Resolver}
use commeatus.Dns.Hosts.{merge}
use commeatus.Outcome.{Outcome, ok, err, ◌>>=◌, ◌>>◌, refuse_if, ok_or}
use commeatus.Config.{
  Surroundings, ConfigError, at, max_listeners, max_dns_resolvers, max_blocklists, max_hosts_files,
  ListenerProtocol, http_connect, tproxy_tcp, tproxy_udp, is_udp, DnsResolverSummary, system, dot,
  same_resolver, Parsing, insert_id, push,
}
use commeatus.Config.Action.{parse_action, parse_rule, expect_fields, ensure_rule_capacity}
use commeatus.Config.Assets.{resolve_asset_path, load_blocklist, load_hosts}

abbrev pub is_some : {A : Type 0} → Option A → Bool
is_some none = false
is_some (some _) = true

-- `fields[index]`, which a check of the length precedes
abbrev pub field : List Bytes → ℕ → Bytes
field fields index = get_or fields index []

unfoldable pub parse_bool : Bytes → Option Bool
parse_bool word =
    if eqb word (bytes "true")
    then some true
    else if eqb word (bytes "false")
    then some false
    else none

unfoldable pub parse_listener_protocol : Bytes → Option ListenerProtocol
parse_listener_protocol word =
    if eqb word (bytes "socks5")
    then some ListenerProtocol.socks5
    else if eqb word (bytes "http")
    then some http_connect
    else if eqb word (bytes "tproxy-tcp")
    then some tproxy_tcp
    else if eqb word (bytes "tproxy-udp")
    then some tproxy_udp
    else none

abbrev same_bool : Bool → Bool → Bool
same_bool true b = b
same_bool false b = not b

-- equality of the members of `listener_addresses`
abbrev pub same_listener : Bool × SocketAddr → Bool × SocketAddr → Bool
same_listener (udp, address) (other_udp, other) = same_bool udp other_udp && socket_eq address other

abbrev pub insert_all : Option Bytes → List Bytes → List Bytes
insert_all none ids = ids
insert_all (some id) ids = insert_id id ids

-- What a line does to the parser's variables.
abbrev pub Directive : Type 0 → Type 0
Directive Variables = List Bytes → ℕ → Variables → Outcome ConfigError Variables

module _ {Session Association FilePath : Type 0} where
  unfoldable pub version_directive : Directive (Parsing Session Association FilePath)
  version_directive fields line p = do
    expect_fields fields 2 line
    refuse_if (not (eqb (field fields 1) (bytes "1"))) (at line)
    refuse_if p.version_seen (at line)
    ok (record p { version_seen = true })

  unfoldable pub allow_public_listen_directive : Directive (Parsing Session Association FilePath)
  allow_public_listen_directive fields line p = do
    expect_fields fields 2 line
    refuse_if (is_some p.allow_public_listen) (at line)
    allowed ← ok_or (at line) (parse_bool (field fields 1))
    ok (record p { allow_public_listen = some allowed })

  unfoldable pub listen_directive : Directive (Parsing Session Association FilePath)
  listen_directive fields line p = do
    expect_fields fields 3 line
    refuse_if (leb max_listeners (length p.listeners)) (at line)
    protocol ← ok_or (at line) (parse_listener_protocol (field fields 1))
    address ← ok_or (at line) (parse_socket (field fields 2))
    refuse_if (address.port == 0) (at line)
    refuse_if (any (same_listener (is_udp protocol, address)) p.listener_addresses) (at line)
    ok (record p {
      listener_addresses = (is_udp protocol, address) ∷ p.listener_addresses;
      listeners = push (record { protocol = protocol; address = address }) p.listeners;
    })

  unfoldable pub add_resolver :
      DnsResolverSummary
      → Resolver
      → Parsing Session Association FilePath
      → Parsing Session Association FilePath
  add_resolver summary resolver p = record p {
    dns_resolver_keys = summary ∷ p.dns_resolver_keys;
    dns_resolver_summaries = push summary p.dns_resolver_summaries;
    dns_resolvers = push resolver p.dns_resolvers;
  }

  unfoldable pub default_directive : Directive (Parsing Session Association FilePath)
  default_directive fields line p = do
    expect_fields fields 2 line
    refuse_if (is_some p.default_action) (at line)
    parsed ← parse_action (field fields 1) line
    ok (record p {
      referenced_endpoints = insert_all parsed.proxy_ref p.referenced_endpoints;
      default_action = some parsed.action;
    })

  -- A rule's id is a `u64`; there are never 2^64 rules.
  unfoldable pub rule_directive : Directive (Parsing Session Association FilePath)
  rule_directive fields line p = do
    ensure_rule_capacity (length p.rules) line
    parsed ← parse_rule fields line p.next_rule_id
    ok (record p {
      referenced_endpoints = insert_all parsed.proxy_ref p.referenced_endpoints;
      rules = push parsed.rule p.rules;
      next_rule_id = p.next_rule_id + 1;
    })

  module _ (host : Surroundings Session Association FilePath) where
    unfoldable pub system_resolver : Directive (Parsing Session Association FilePath)
    system_resolver fields line p = do
      refuse_if (any (same_resolver system) p.dns_resolver_keys) (at line)
      ok (add_resolver system host.system_resolver p)

    unfoldable pub dot_resolver :
        Bytes
        → Bytes
        → ℕ
        → Parsing Session Association FilePath
        → Outcome ConfigError (Parsing Session Association FilePath)
    dot_resolver value name line p = do
      address ← ok_or (at line) (parse_socket value)
      refuse_if (address.port == 0) (at line)
      let summary = dot address (to_ascii_lowercase name)
      refuse_if (any (same_resolver summary) p.dns_resolver_keys) (at line)
      resolver ← ok_or (at line) (host.dot_resolver address (to_ascii_lowercase name))
      ok (add_resolver summary resolver p)

    -- The `match` on the fields of a resolver.
    unfoldable pub make_resolver : Directive (Parsing Session Association FilePath)
    make_resolver (first ∷ kind ∷ []) line p =
        if eqb kind (bytes "system")
        then system_resolver (first ∷ kind ∷ []) line p
        else err (at line)
    make_resolver (first ∷ kind ∷ address ∷ name ∷ []) line p =
        if eqb kind (bytes "dot") then dot_resolver address name line p else err (at line)
    make_resolver _ line p = err (at line)

    unfoldable pub resolver_directive : Directive (Parsing Session Association FilePath)
    resolver_directive fields line p = do
      refuse_if (leb max_dns_resolvers (length p.dns_resolvers)) (at line)
      make_resolver fields line p

    unfoldable pub blocklist_directive : FilePath → Directive (Parsing Session Association FilePath)
    blocklist_directive root fields line p = do
      expect_fields fields 2 line
      refuse_if (leb max_blocklists (length p.blocklists)) (at line)
      ensure_rule_capacity (length p.rules) line
      let source = resolve_asset_path host root (field fields 1)
      refuse_if (any (host.same_path source) p.blocklist_paths) (at line)
      compiled ← load_blocklist host source line
      ok (record p {
        blocklist_paths = source ∷ p.blocklist_paths;
        rules =
            push
              (record {
                id = p.next_rule_id;
                tier = user_hard;
                matcher = Matcher.domain_filter compiled.filter;
                action = reject RejectReason.policy;
              })
              p.rules;
        next_rule_id = p.next_rule_id + 1;
        blocklists = push (record { path = source; stats = compiled.stats }) p.blocklists;
      })

    unfoldable pub hosts_directive : FilePath → Directive (Parsing Session Association FilePath)
    hosts_directive root fields line p = do
      expect_fields fields 2 line
      refuse_if (leb max_hosts_files (length p.hosts)) (at line)
      let source = resolve_asset_path host root (field fields 1)
      refuse_if (any (host.same_path source) p.hosts_paths) (at line)
      table ← load_hosts host source line
      ok (record p {
        hosts_paths = source ∷ p.hosts_paths;
        hosts_table = merge p.hosts_table table;
        hosts = push (record { path = source; records = length table }) p.hosts;
      })
