-- ===== src/Config/Limits.antt =====
-- The limits on what a configuration may hold.
use commeatus.Prelude.{
  ℕ, ◌+◌, ◌≤◌, ◌≡◌, refl, List, [], ◌∷◌, Bytes, length, length-append, arith, ap, not, ◌&&◌,
  Bool-cases, inl, inr,
}
use commeatus.Policy.{PolicyRule}
use commeatus.Text.Lines.{lines}
use commeatus.Policy.{sort_by_rank, insert, new_engine}
use commeatus.Io
use commeatus.Outbound.{OutboundRegistry, add_endpoints, new_registry, contains, is_tls}
use commeatus.Outcome.{ok}
use commeatus.Config.{Surroundings, Parsing, CompiledConfig, push}
use commeatus.Config.Invariant.{parse_lines-Holds}
use commeatus.Config.Finished.{parse_config_at-IsFinished}
use commeatus.Config.Steps.{
  Accepts, blank, version, allow, listen, resolver, endpoint, default, rule, blocklist, hosts,
}
use commeatus.Config.Directives.{add_resolver}
use commeatus.Config.Compile.{start, parse_config_at}

pub length-push : {A : Type 0} (x : A) (xs : List A) → length (push x xs) ≡ length xs + 1
length-push x xs = omega (arith, length-append xs (x ∷ []))

length-insert :
    (r : PolicyRule) (rules : List PolicyRule) → length (insert r rules) ≡ length rules + 1
unfolding insert
length-insert r [] = refl
length-insert r (x ∷ rules) = ground (arith, length-insert r rules)

length-sort_by_rank : (rules : List PolicyRule) → length (sort_by_rank rules) ≡ length rules
unfolding sort_by_rank
length-sort_by_rank [] = refl
length-sort_by_rank (r ∷ rules) =
    omega (arith, length-insert r (sort_by_rank rules), length-sort_by_rank rules)

-- The registry has every endpoint that it was built of.
length-add_endpoints :
    {Session Association : Type 0}
    (registry endpoints result : OutboundRegistry Session Association)
    → add_endpoints registry endpoints ≡ Io.ok result
    → length result ≡ length registry + length endpoints
unfolding add_endpoints
length-add_endpoints registry [] result e =
    let same : registry ≡ result = cc in rw (← same) omega arith
length-add_endpoints registry (c ∷ endpoints) result e =
    elim (Bool-cases (c.protocol.capabilities.requires_tls && not (is_tls c.transport))) [
      | inl bare ↦ absurd (cc (rw bare at e))
      | inr fine ↦ elim (Bool-cases (contains registry c.id)) [
        | inl twice ↦ absurd (cc (rw (fine, twice) at e))
        | inr new ↦
            let more = length-add_endpoints (c ∷ registry) endpoints result (rw (fine, new) at e) in
            omega arith
      ]
    ]

module _ {Session Association FilePath : Type 0} where
  pub record IsWithin (p : Parsing Session Association FilePath) : Type 0 where
    pub listeners : length p.listeners ≤ 16
    pub blocklists : length p.blocklists ≤ 8
    pub hosts : length p.hosts ≤ 4
    pub resolvers : length p.dns_resolvers ≤ 8
    pub summaries : length p.dns_resolver_summaries ≡ length p.dns_resolvers
    pub endpoints : length p.endpoint_configs ≤ 64
    pub rules : length p.rules ≤ 4096
    pub next : p.next_rule_id ≡ length p.rules + 1

  pub start-IsWithin : IsWithin start
  unfolding start
  start-IsWithin = ground arith

  pub step-IsWithin :
      (fields : List Bytes) (line : ℕ) (p p' : Parsing Session Association FilePath)
      → Accepts fields line p p'
      → IsWithin p
      → IsWithin p'
  unfolding add_resolver
  step-IsWithin fields line p _ blank h = h
  step-IsWithin fields line p _ version h = ground arith
  step-IsWithin fields line p _ (allow _ _ _ _ _) h = ground arith
  step-IsWithin fields line p _ (listen _ _ room _ _) h = grind (arith, length-push)
  step-IsWithin fields line p _ (resolver _ _ room _) h = grind (arith, length-push)
  step-IsWithin fields line p _ (endpoint _ _ room _) h = grind (arith, length-push)
  step-IsWithin fields line p _ (default _ _ _) h = ground arith
  step-IsWithin fields line p _ (rule _ room _) h = grind (arith, length-push)
  step-IsWithin fields line p _ (blocklist _ _ room rules) h = grind (arith, length-push)
  step-IsWithin fields line p _ (hosts _ _ room) h = grind (arith, length-push)

  -- What a configuration that is accepted holds is bounded: its text has at most 1 MiB, and it has
  -- 1 to 16 listeners, at most 4096 rules, 64 endpoints, 8 blocklists and 4 hosts files, and at
  -- least one resolver.
  pub parse_config_at-length :
      (host : Surroundings Session Association FilePath) (root : FilePath) (text : Bytes)
      (c : CompiledConfig Session Association FilePath)
      → parse_config_at host root text ≡ ok c
      → (length text ≤ 1048576)
        × (1 ≤ length c.listeners)
        × (length c.listeners ≤ 16)
        × (length c.runtime.rules ≤ 4096)
        × (length c.outbounds ≤ 64)
        × (length c.blocklists ≤ 8)
        × (length c.hosts ≤ 4)
        × (1 ≤ length c.dns.resolvers)
  unfolding new_engine new_registry start
  parse_config_at-length host root text c e =
      let (size, (p, parsed, f)) = parse_config_at-IsFinished host root text c e in
      let h =
        parse_lines-Holds host root IsWithin step-IsWithin 1 (lines text) start p start-IsWithin
          parsed in
      let endpoints = length-add_endpoints [] p.endpoint_configs c.outbounds f.registry in
      let rules : length c.runtime.rules ≤ 4096 =
        rw (f.engine, length-sort_by_rank p.rules) h.rules in
      let listeners : length c.listeners ≡ length p.listeners = ap length f.listeners in
      let blocklists : length c.blocklists ≡ length p.blocklists = ap length f.blocklists in
      let hosts_files : length c.hosts ≡ length p.hosts = ap length f.hosts in ground (arith, f, h)
