-- ===== src/Config/Steps.antt =====
-- The lines that `parse_config_at` accepts, as steps between the values of its variables, with what
-- its guards have checked.
use commeatus.Prelude.{
  ℕ, ◌+◌, ◌<◌, ◌≡◌, ◌≢◌, Bool, true, false, none, some, List, [], ◌∷◌, Bytes, bytes, eqb, length,
  any,
}
use commeatus.Ip.Socket.{SocketAddr}
use commeatus.Plan.{RejectReason, user_hard}
use commeatus.Policy.{Matcher, reject}
use commeatus.Blocklist.{CompiledBlocklist}
use commeatus.Dns.Engine.{Resolver, Hosts}
use commeatus.Dns.Hosts.{merge}
use commeatus.Outbound.{ProxyEndpointConfig}
use commeatus.Outcome.{ok}
use commeatus.Config.{
  max_listeners, max_dns_resolvers, max_blocklists, max_hosts_files, max_rules, max_proxy_endpoints,
  ListenerProtocol, is_udp, DnsResolverSummary, same_resolver, Parsing, push,
}
use commeatus.Config.Action.{parse_action, ParsedAction, parse_rule, ParsedRule}
use commeatus.Config.Directives.{field, parse_bool, same_listener, insert_all, add_resolver}

module _ {Session Association FilePath : Type 0} where
  -- A line with these fields was accepted.
  pub data Accepts (fields : List Bytes) (line : ℕ) (p : Parsing Session Association FilePath)
      : Parsing Session Association FilePath → Type 0 where
    blank : Accepts fields line p p
    version : Accepts fields line p (record p { version_seen = true })
    allow :
        (allowed : Bool) (word : Bytes)
        → p.allow_public_listen ≡ none
        → fields ≡ bytes "allow-public-listen" ∷ word ∷ []
        → parse_bool word ≡ some allowed
        → Accepts fields line p (record p { allow_public_listen = some allowed })
    listen :
        (protocol : ListenerProtocol) (address : SocketAddr)
        → length p.listeners < max_listeners
        → address.port ≢ 0
        → any (same_listener (is_udp protocol, address)) p.listener_addresses ≡ false
        → Accepts fields line p (record p {
          listener_addresses = (is_udp protocol, address) ∷ p.listener_addresses;
          listeners = push (record { protocol = protocol; address = address }) p.listeners;
        })
    resolver :
        (summary : DnsResolverSummary) (resolver : Resolver)
        → length p.dns_resolvers < max_dns_resolvers
        → any (same_resolver summary) p.dns_resolver_keys ≡ false
        → Accepts fields line p (add_resolver summary resolver p)
    endpoint :
        (id : Bytes) (config : ProxyEndpointConfig Session Association)
        → length p.endpoint_configs < max_proxy_endpoints
        → any (eqb id) p.endpoint_ids ≡ false
        → Accepts fields line p (record p {
          endpoint_ids = id ∷ p.endpoint_ids;
          endpoint_configs = push config p.endpoint_configs;
        })
    default :
        (parsed : ParsedAction)
        → p.default_action ≡ none
        → parse_action (field fields 1) line ≡ ok parsed
        → Accepts fields line p (record p {
          referenced_endpoints = insert_all parsed.proxy_ref p.referenced_endpoints;
          default_action = some parsed.action;
        })
    rule :
        (parsed : ParsedRule)
        → length p.rules < max_rules
        → parse_rule fields line p.next_rule_id ≡ ok parsed
        → Accepts fields line p (record p {
          referenced_endpoints = insert_all parsed.proxy_ref p.referenced_endpoints;
          rules = push parsed.rule p.rules;
          next_rule_id = p.next_rule_id + 1;
        })
    blocklist :
        (source : FilePath) (compiled : CompiledBlocklist)
        → length p.blocklists < max_blocklists
        → length p.rules < max_rules
        → Accepts fields line p (record p {
          blocklist_paths = source ∷ p.blocklist_paths;
          rules =
              push
                (record {
                  id = p.next_rule_id;
                  tier = user_hard;
                  matcher = Matcher.domain_filter compiled.filter;
                  action = reject RejectReason.policy;
                })
                p.rules;
          next_rule_id = p.next_rule_id + 1;
          blocklists = push (record { path = source; stats = compiled.stats }) p.blocklists;
        })
    hosts :
        (source : FilePath) (table : Hosts)
        → length p.hosts < max_hosts_files
        → Accepts fields line p (record p {
          hosts_paths = source ∷ p.hosts_paths;
          hosts_table = merge p.hosts_table table;
          hosts = push (record { path = source; records = length table }) p.hosts;
        })
