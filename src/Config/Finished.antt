-- ===== src/Config/Finished.antt =====
-- What the checks behind the loop have found of a configuration that is accepted.
use commeatus.Prelude.{
  ℕ, ◌≤◌, ◌<◌, ◌≡◌, refl, Bool, true, false, not, ◌&&◌, some, List, [], ◌∷◌, Bytes, length, any,
  arith, ltb,
}
use commeatus.Text.Lines.{lines}
use commeatus.Io
use commeatus.Policy.{PolicyAction, new_engine}
use commeatus.Dns.Engine.{Resolver, Hosts, DnsEngine}
use commeatus.Dns.Engine.Start.{
  with_resolvers, with_cache, default_cache_capacity, default_cache_ttl, system_engine,
}
use commeatus.Dns.{new_cache}
use commeatus.Outbound.{new_registry}
use commeatus.Outcome.{ok, >>=-eq-ok, refuse_if, refuse_if-eq-ok, ok_or, ok_or-eq-ok}
use commeatus.Config.{
  Surroundings, global, max_config_bytes, DnsResolverSummary, Parsing, CompiledConfig,
}
use commeatus.Config.Compile.{
  start, finish, check_parsed, make_dns, all_defined, parse_lines, parse_config_at, no_items,
  is_allowed, is_public, of_io, of_dns,
}

of_io-eq-ok : {A : Type 0} (r : Io.Result A) (a : A) → of_io r ≡ ok a → r ≡ Io.ok a
of_io-eq-ok (Io.err _) a e = cc
of_io-eq-ok (Io.ok b) a e = cc

some_item : {A : Type 0} (xs : List A) → no_items xs ≡ false → 0 < length xs
some_item [] e = cc
some_item (x ∷ xs) e = omega arith

is_not : (b : Bool) → not b ≡ false → b ≡ true
is_not b e = ground arith

module _ {Session Association FilePath : Type 0} where
  pub record IsFinished (p : Parsing Session Association FilePath)
      (c : CompiledConfig Session Association FilePath) : Type 0 where
    pub nonempty : 0 < length p.listeners
    pub private : (not (is_allowed p.allow_public_listen) && any is_public p.listeners) ≡ false
    pub action : PolicyAction
    pub chosen : p.default_action ≡ some action
    pub engine : c.runtime ≡ new_engine p.rules action
    pub registry : new_registry p.endpoint_configs ≡ Io.ok c.outbounds
    pub defined : all_defined c.outbounds p.referenced_endpoints ≡ true
    pub listeners : c.listeners ≡ p.listeners
    pub blocklists : c.blocklists ≡ p.blocklists
    pub hosts : c.hosts ≡ p.hosts
    pub resolving : 0 < length c.dns.resolvers

  check_parsed-eq-ok :
      (p : Parsing Session Association FilePath)
      → check_parsed p ≡ ok tt
      → (0 < length p.listeners)
        × ((not (is_allowed p.allow_public_listen) && any is_public p.listeners) ≡ false)
  unfolding check_parsed
  check_parsed-eq-ok p e =
      let (_, e) = refuse_if-eq-ok _ _ _ e in
      let (listeners, e) = refuse_if-eq-ok _ _ _ e in
      let public = not (is_allowed p.allow_public_listen) && any is_public p.listeners in
      (some_item p.listeners listeners, passed public e)
    where
      passed : (test : Bool) → refuse_if test global ≡ ok tt → test ≡ false
      passed true e = cc
      passed false e = refl

  module _ (host : Surroundings Session Association FilePath) where
    with_resolvers-resolvers :
        (table : Hosts) (resolver : Resolver) (resolvers : List Resolver) (engine : DnsEngine)
        → of_dns
            (with_resolvers table (resolver ∷ resolvers) default_cache_capacity default_cache_ttl)
          ≡ ok engine
        → engine.resolvers ≡ resolver ∷ resolvers
    unfolding with_resolvers with_cache new_cache
    with_resolvers-resolvers table resolver resolvers engine e = cc

    make_dns-resolvers :
        (table : Hosts) (resolvers : List Resolver) (summaries given : List DnsResolverSummary)
        (engine : DnsEngine)
        → make_dns host table resolvers summaries ≡ ok (engine, given)
        → 0 < length engine.resolvers
    unfolding make_dns system_engine
    make_dns-resolvers table [] summaries given engine e =
        let same : system_engine host.system_resolver table ≡ engine = cc in rw (← same) omega arith
    make_dns-resolvers table (resolver ∷ resolvers) summaries given engine e =
        let (made, built, e) =
          >>=-eq-ok
            (of_dns (
              with_resolvers table (resolver ∷ resolvers) default_cache_capacity default_cache_ttl))
            _ e in
        let same : made ≡ engine = cc in
        rw (← same, with_resolvers-resolvers table resolver resolvers made built) omega arith

    pub finish-IsFinished :
        (p : Parsing Session Association FilePath) (c : CompiledConfig Session Association FilePath)
        → finish host p ≡ ok c
        → IsFinished p c
    unfolding finish
    finish-IsFinished p c e =
        let (_, checked, e) = >>=-eq-ok (check_parsed p) _ e in
        let (action, chosen, e) = >>=-eq-ok (ok_or global p.default_action) _ e in
        let (outbounds, registry, e) = >>=-eq-ok (of_io (new_registry p.endpoint_configs)) _ e in
        let (defined, e) =
          refuse_if-eq-ok (not (all_defined outbounds p.referenced_endpoints)) global _ e in
        let ((dns, summaries), resolved, e) =
          >>=-eq-ok (make_dns host p.hosts_table p.dns_resolvers p.dns_resolver_summaries) _ e in
        let (nonempty, private) = check_parsed-eq-ok p checked in
        let same : dns ≡ c.dns = cc in
        record {
          nonempty = nonempty;
          private = private;
          action = action;
          chosen = ok_or-eq-ok _ _ _ chosen;
          engine = cc;
          registry = cc (of_io-eq-ok _ _ registry);
          defined = cc (is_not _ defined);
          listeners = cc;
          blocklists = cc;
          hosts = cc;
          resolving = rw (← same) (
              make_dns-resolvers p.hosts_table p.dns_resolvers p.dns_resolver_summaries summaries
                dns resolved);
        }

    -- What is accepted went through the loop and through the checks behind it.
    pub parse_config_at-IsFinished :
        (root : FilePath) (text : Bytes) (c : CompiledConfig Session Association FilePath)
        → parse_config_at host root text ≡ ok c
        → (length text ≤ max_config_bytes)
          × ((p : Parsing Session Association FilePath) × (parse_lines host root 1
                  (lines text)
                  start
                ≡ ok p)
              × IsFinished p c)
    unfolding parse_config_at
    parse_config_at-IsFinished root text c e =
        let (size, e) = refuse_if-eq-ok (ltb max_config_bytes (length text)) global _ e in
        let (p, parsed, e) = >>=-eq-ok (parse_lines host root 1 (lines text) start) _ e in
        (within (length text) max_config_bytes size, (p, parsed, finish-IsFinished p c e))
      where
        within : (n k : ℕ) → ltb k n ≡ false → n ≤ k
        within n k e = ground arith
