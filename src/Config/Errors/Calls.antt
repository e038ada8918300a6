-- ===== src/Config/Errors/Calls.antt =====
-- The errors of the directives that call upon files, resolvers and transports.
use commeatus.Prelude.{ℕ, refl, List, [], ◌∷◌, Bytes, length, arith, Option-cases, inl, inr}
use commeatus.Plan.{new_endpoint_id}
use commeatus.Trojan.Verifier.{new_verifier}
use commeatus.Outcome.{Outcome}
use commeatus.Config.{Surroundings, ConfigError, Parsing}
use commeatus.Config.Assets.{read_bounded_asset, load_blocklist, load_hosts, resolve_asset_path}
use commeatus.Config.Endpoints.{
  parse_tls_transport_raw, parse_tls_transport, parse_tcp_transport, stream_endpoint,
  trojan_endpoint, make_endpoint, endpoint_directive,
}
use commeatus.Blocklist.{max_blocklist_bytes}
use commeatus.Dns.Hosts.{max_hosts_bytes}
use commeatus.Outbound.{TransportConfig}
use commeatus.Config.Directives.{
  system_resolver, dot_resolver, make_resolver, resolver_directive, blocklist_directive,
  hosts_directive, field,
}
use commeatus.Config.Compile.{directive}
use commeatus.Config.Errors.{
  FailsAt, expect_fields_fails, ensure_rule_capacity_fails, parse_proxy_address_fails, of_io_fails,
  version_directive_fails, allow_public_listen_directive_fails, listen_directive_fails,
  default_directive_fails, rule_directive_fails,
}

module _ {Session Association FilePath : Type 0}
    (host : Surroundings Session Association FilePath) where
  read_bounded_asset_fails :
      (path : FilePath) (n line : ℕ) → FailsAt line (read_bounded_asset host path n line)
  unfolding read_bounded_asset
  read_bounded_asset_fails path n line = ground arith

  load_blocklist_fails : (path : FilePath) (line : ℕ) → FailsAt line (load_blocklist host path line)
  unfolding load_blocklist
  load_blocklist_fails path line =
      ground (arith, read_bounded_asset_fails path max_blocklist_bytes line)

  load_hosts_fails : (path : FilePath) (line : ℕ) → FailsAt line (load_hosts host path line)
  unfolding load_hosts
  load_hosts_fails path line = ground (arith, read_bounded_asset_fails path max_hosts_bytes line)

  tls_raw_fails :
      (value name : Bytes) (line : ℕ) → FailsAt line (parse_tls_transport_raw host value name line)
  unfolding parse_tls_transport_raw
  tls_raw_fails value name line = ground (arith, parse_proxy_address_fails value line)

  tls_fails :
      (value name : Bytes) (line : ℕ) → FailsAt line (parse_tls_transport host value name line)
  unfolding parse_tls_transport
  tls_fails value name line = ground (arith, tls_raw_fails value name line)

  tcp_fails : (value : Bytes) (line : ℕ) → FailsAt line (parse_tcp_transport host value line)
  unfolding parse_tcp_transport
  tcp_fails value line = ground (arith, parse_proxy_address_fails value line)

  stream_endpoint_fails :
      (id word : Bytes) (line : ℕ) (parsed : Outcome ConfigError (TransportConfig Session))
      → FailsAt line parsed
      → FailsAt line (stream_endpoint host id word line parsed)
  unfolding stream_endpoint
  stream_endpoint_fails id word line parsed h = ground (arith, h)

  trojan_endpoint_fails :
      (id address name password : Bytes) (line : ℕ)
      → FailsAt line (trojan_endpoint host id address name password line)
  unfolding trojan_endpoint
  trojan_endpoint_fails id address name password line =
      ground (
        arith,
        of_io_fails line (new_verifier host.sha224 password),
        tls_raw_fails address name line,
      )

  make_endpoint_fails :
      (id : Bytes) (fields : List Bytes) (line : ℕ)
      → FailsAt line (make_endpoint host id fields line)
  unfolding make_endpoint
  make_endpoint_fails id [] line = refl
  make_endpoint_fails id (_ ∷ []) line = refl
  make_endpoint_fails id (word ∷ address ∷ []) line =
      stream_endpoint_fails id word line _ (tcp_fails address line)
  make_endpoint_fails id (word ∷ transport ∷ address ∷ []) line =
      ground (arith, stream_endpoint_fails id word line _ (tcp_fails address line))
  make_endpoint_fails id (word ∷ transport ∷ address ∷ name ∷ []) line =
      ground (arith, stream_endpoint_fails id word line _ (tls_fails address name line))
  make_endpoint_fails id (word ∷ transport ∷ address ∷ name ∷ password ∷ []) line =
      ground (arith, trojan_endpoint_fails id address name password line)
  make_endpoint_fails id (_ ∷ _ ∷ _ ∷ _ ∷ _ ∷ _ ∷ _) line = refl

  module _ (p : Parsing Session Association FilePath) (line : ℕ) where
    endpoint_directive_fails :
        (fields : List Bytes) → FailsAt line (endpoint_directive host fields line p)
    unfolding endpoint_directive
    endpoint_directive_fails [] = refl
    endpoint_directive_fails (_ ∷ []) = refl
    endpoint_directive_fails (first ∷ word ∷ fields) = elim (Option-cases (new_endpoint_id word)) [
      | inl refused ↦ ground (arith, refused)
      | inr (id, accepted) ↦ ground (arith, accepted, make_endpoint_fails id fields line)
    ]

    system_resolver_fails :
        (fields : List Bytes) → FailsAt line (system_resolver host fields line p)
    unfolding system_resolver
    system_resolver_fails fields = ground arith

    dot_resolver_fails : (value name : Bytes) → FailsAt line (dot_resolver host value name line p)
    unfolding dot_resolver
    dot_resolver_fails value name = ground arith

    make_resolver_fails : (fields : List Bytes) → FailsAt line (make_resolver host fields line p)
    unfolding make_resolver
    make_resolver_fails [] = refl
    make_resolver_fails (_ ∷ []) = refl
    make_resolver_fails (first ∷ kind ∷ []) =
        ground (arith, system_resolver_fails (first ∷ kind ∷ []))
    make_resolver_fails (_ ∷ _ ∷ _ ∷ []) = refl
    make_resolver_fails (first ∷ kind ∷ address ∷ name ∷ []) =
        ground (arith, dot_resolver_fails address name)
    make_resolver_fails (_ ∷ _ ∷ _ ∷ _ ∷ _ ∷ _) = refl

    resolver_directive_fails :
        (fields : List Bytes) → FailsAt line (resolver_directive host fields line p)
    unfolding resolver_directive
    resolver_directive_fails fields = ground (arith, make_resolver_fails fields)

    module _ (root : FilePath) where
      blocklist_directive_fails :
          (fields : List Bytes) → FailsAt line (blocklist_directive host root fields line p)
      unfolding blocklist_directive
      blocklist_directive_fails fields = ground (
        arith,
        expect_fields_fails fields 2 line,
        ensure_rule_capacity_fails (length p.rules) line,
        load_blocklist_fails (resolve_asset_path host root (field fields 1)) line,
      )

      hosts_directive_fails :
          (fields : List Bytes) → FailsAt line (hosts_directive host root fields line p)
      unfolding hosts_directive
      hosts_directive_fails fields = ground (
        arith,
        expect_fields_fails fields 2 line,
        load_hosts_fails (resolve_asset_path host root (field fields 1)) line,
      )

      pub directive_fails : (fields : List Bytes) → FailsAt line (directive host root fields line p)
      unfolding directive
      directive_fails [] = refl
      directive_fails (word ∷ fields) =
          let all = word ∷ fields in
          ground (
            arith,
            version_directive_fails all line p,
            allow_public_listen_directive_fails all line p,
            listen_directive_fails all line p,
            resolver_directive_fails all,
            endpoint_directive_fails all,
            default_directive_fails all line p,
            blocklist_directive_fails all,
            hosts_directive_fails all,
            rule_directive_fails all line p,
          )
