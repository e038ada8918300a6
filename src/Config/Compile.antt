-- ===== src/Config/Compile.antt =====
-- crates/daemon/src/config.rs: `parse_config_at` and `ConfigStore`.
use commeatus.Prelude.{
  ℕ, ◌+◌, Bool, true, false, not, ◌&&◌, Option, none, some, List, [], ◌∷◌, ltb, if◌then◌else◌,
  Bytes, bytes, eqb, length, any,
}
use commeatus.Text.Hostname.{is_empty}
use commeatus.Text.Lines.{lines, split_whitespace, trim_space, before}
use commeatus.Io
use commeatus.Ip.{is_loopback}
use commeatus.Policy.{new_engine}
use commeatus.Dns.Answer
use commeatus.Dns.Answer.{DnsResult}
use commeatus.Dns.Engine.{Resolver, Hosts, DnsEngine}
use commeatus.Dns.Engine.Start.{
  system_engine, with_resolvers, default_cache_capacity, default_cache_ttl,
}
use commeatus.Outbound.{OutboundRegistry, contains, new_registry}
use commeatus.Outcome.{Outcome, ok, err, ◌>>=◌, ◌>>◌, refuse_if, ok_or}
use commeatus.Config.{
  Surroundings, ConfigError, global, at, max_config_bytes, ListenerConfig, DnsResolverSummary,
  system, Parsing, CompiledConfig,
}
use commeatus.Config.Endpoints.{endpoint_directive}
use commeatus.Config.Directives.{
  Directive, version_directive, allow_public_listen_directive, listen_directive, resolver_directive,
  default_directive, blocklist_directive, hosts_directive, rule_directive,
}

-- The fields of a line; there are none if the line is empty, or only a comment.
unfoldable pub line_fields : Bytes → List Bytes
line_fields raw =
    let line = trim_space (before b'#' raw) in if is_empty line then [] else split_whitespace line

abbrev pub no_items : {A : Type 0} → List A → Bool
no_items [] = true
no_items (x ∷ xs) = false

-- `unwrap_or(false)`
abbrev pub is_allowed : Option Bool → Bool
is_allowed none = false
is_allowed (some allowed) = allowed

abbrev pub is_public : ListenerConfig → Bool
is_public listener = not (is_loopback listener.address.ip)

abbrev pub of_io : {A : Type 0} → Io.Result A → Outcome ConfigError A
of_io (Io.err _) = err global
of_io (Io.ok value) = ok value

abbrev pub of_dns : {A : Type 0} → DnsResult A → Outcome ConfigError A
of_dns (Answer.err _) = err global
of_dns (Answer.ok value) = ok value

-- Whether every referenced endpoint is registered.
unfoldable pub all_defined :
    {Session Association : Type 0} → OutboundRegistry Session Association → List Bytes → Bool
all_defined outbounds [] = true
all_defined outbounds (id ∷ ids) = contains outbounds id && all_defined outbounds ids

module _ {Session Association FilePath : Type 0} where
  unfoldable pub start : Parsing Session Association FilePath
  start = record {
    version_seen = false;
    default_action = none;
    allow_public_listen = none;
    listeners = [];
    listener_addresses = [];
    blocklists = [];
    blocklist_paths = [];
    hosts = [];
    hosts_paths = [];
    hosts_table = [];
    dns_resolver_summaries = [];
    dns_resolvers = [];
    dns_resolver_keys = [];
    endpoint_configs = [];
    endpoint_ids = [];
    referenced_endpoints = [];
    rules = [];
    next_rule_id = 1;
  }

  -- What stands behind the loop: the checks before the default action.
  unfoldable pub check_parsed :
      Parsing Session Association FilePath → Outcome ConfigError (Unit {0})
  check_parsed p = do
    refuse_if (not p.version_seen) global
    refuse_if (no_items p.listeners) global
    refuse_if (not (is_allowed p.allow_public_listen) && any is_public p.listeners) global

  module _ (host : Surroundings Session Association FilePath) where
    -- The engine and the summaries, for the resolvers that were given.
    unfoldable pub make_dns :
        Hosts
        → List Resolver
        → List DnsResolverSummary
        → Outcome ConfigError (DnsEngine × List DnsResolverSummary)
    make_dns table [] summaries = ok (system_engine host.system_resolver table, system ∷ [])
    make_dns table (resolver ∷ resolvers) summaries = do
      dns ←
          of_dns
            (with_resolvers table (resolver ∷ resolvers) default_cache_capacity default_cache_ttl)
      ok (dns, summaries)

    -- The rest of what stands behind the loop.
    unfoldable pub finish :
        Parsing Session Association FilePath
        → Outcome ConfigError (CompiledConfig Session Association FilePath)
    finish p = do
      _ ← check_parsed p
      default_action ← ok_or global p.default_action
      outbounds ← of_io (new_registry p.endpoint_configs)
      refuse_if (not (all_defined outbounds p.referenced_endpoints)) global
      (dns, summaries) ← make_dns p.hosts_table p.dns_resolvers p.dns_resolver_summaries
      ok (record {
        listeners = p.listeners;
        blocklists = p.blocklists;
        hosts = p.hosts;
        dns_resolvers = summaries;
        runtime = new_engine p.rules default_action;
        dns = dns;
        outbounds = outbounds;
      })

    module _ (root : FilePath) where
      -- The `match` on the first field.
      unfoldable pub directive : Directive (Parsing Session Association FilePath)
      directive [] line p = ok p
      directive (word ∷ fields) line p =
          if eqb word (bytes "version")
          then version_directive (word ∷ fields) line p
          else if eqb word (bytes "allow-public-listen")
          then allow_public_listen_directive (word ∷ fields) line p
          else if eqb word (bytes "listen")
          then listen_directive (word ∷ fields) line p
          else if eqb word (bytes "resolver")
          then resolver_directive host (word ∷ fields) line p
          else if eqb word (bytes "endpoint")
          then endpoint_directive host (word ∷ fields) line p
          else if eqb word (bytes "default")
          then default_directive (word ∷ fields) line p
          else if eqb word (bytes "blocklist")
          then blocklist_directive host root (word ∷ fields) line p
          else if eqb word (bytes "hosts")
          then hosts_directive host root (word ∷ fields) line p
          else if eqb word (bytes "rule")
          then rule_directive (word ∷ fields) line p
          else err (at line)

      -- The loop, with the number of the next line.
      unfoldable pub parse_lines :
          ℕ
          → List Bytes
          → Parsing Session Association FilePath
          → Outcome ConfigError (Parsing Session Association FilePath)
      parse_lines line [] p = ok p
      parse_lines line (raw ∷ rest) p = do
        p' ← directive (line_fields raw) line p
        parse_lines (line + 1) rest p'

      unfoldable pub parse_config_at :
          Bytes → Outcome ConfigError (CompiledConfig Session Association FilePath)
      unfolding start
      parse_config_at text = do
        refuse_if (ltb max_config_bytes (length text)) global
        p ← parse_lines 1 (lines text) start
        finish p

-- `ConfigStore`; no thread panics while it holds the lock, so the lock is never poisoned.
pub record ConfigStore (Session Association FilePath : Type 0) : Type 0 where
  pub active : CompiledConfig Session Association FilePath
  pub asset_root : FilePath

module _ {Session Association FilePath : Type 0}
    (host : Surroundings Session Association FilePath) where
  -- `ConfigStore::new_at`
  unfoldable pub new_at :
      Bytes → FilePath → Outcome ConfigError (ConfigStore Session Association FilePath)
  new_at text root = do
    active ← parse_config_at host root text
    ok (record { active = active; asset_root = root })

  -- `reload`: what it gives, and the store after it.
  unfoldable pub swap :
      ConfigStore Session Association FilePath
      → Outcome ConfigError (CompiledConfig Session Association FilePath)
      → Outcome ConfigError (Unit {0}) × ConfigStore Session Association FilePath
  swap store (err error) = (err error, store)
  swap store (ok candidate) = (ok tt, record store { active = candidate })

  unfoldable pub reload :
      ConfigStore Session Association FilePath
      → Bytes
      → Outcome ConfigError (Unit {0}) × ConfigStore Session Association FilePath
  reload store text = swap store (parse_config_at host store.asset_root text)

abbrev pub snapshot :
    {Session Association FilePath : Type 0}
    → ConfigStore Session Association FilePath
    → CompiledConfig Session Association FilePath
snapshot store = store.active
