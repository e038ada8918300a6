-- ===== src/Config/Errors/First.antt =====
-- The line that an error of the whole configuration names.
use commeatus.Prelude.{
  ℕ, ◌+◌, ◌≡◌, refl, ap, ◌∙◌, some, List, [], ◌∷◌, ◌++◌, Bytes, length, ltb, arith, Bool-cases, inl,
  inr,
}
use commeatus.Text.Lines.{lines}
use commeatus.Io
use commeatus.Dns.Answer
use commeatus.Dns.Answer.{DnsResult}
use commeatus.Dns.Engine.{Resolver, Hosts}
use commeatus.Dns.Engine.Start.{with_resolvers, default_cache_capacity, default_cache_ttl}
use commeatus.Outbound.{new_registry}
use commeatus.Outcome.{Outcome, ok, err, Outcome-cases}
use commeatus.Config.{
  Surroundings, ConfigError, global, at, Parsing, DnsResolverSummary, max_config_bytes,
}
use commeatus.Config.Compile.{
  directive, parse_lines, parse_config_at, finish, check_parsed, make_dns, of_io, of_dns,
  line_fields, start,
}
use commeatus.Config.Errors.{FailsAt}
use commeatus.Config.Errors.Calls.{directive_fails}

-- Where it fails, it fails without a line.
abbrev nowhere : {A : Type 0} → Outcome ConfigError A → Outcome ConfigError A
nowhere (err _) = err global
nowhere (ok value) = ok value

abbrev FailsNowhere : {A : Type 0} → Outcome ConfigError A → Type 0
FailsNowhere r = nowhere r ≡ r

of_io_nowhere : {A : Type 0} (r : Io.Result A) → FailsNowhere (of_io r)
of_io_nowhere (Io.ok value) = refl
of_io_nowhere (Io.err _) = refl

of_dns_nowhere : {A : Type 0} (r : DnsResult A) → FailsNowhere (of_dns r)
of_dns_nowhere (Answer.ok value) = refl
of_dns_nowhere (Answer.err _) = refl

module _ {Session Association FilePath : Type 0}
    (host : Surroundings Session Association FilePath) where
  check_parsed_nowhere : (p : Parsing Session Association FilePath) → FailsNowhere (check_parsed p)
  unfolding check_parsed
  check_parsed_nowhere p = ground arith

  make_dns_nowhere :
      (table : Hosts) (resolvers : List Resolver) (summaries : List DnsResolverSummary)
      → FailsNowhere (make_dns host table resolvers summaries)
  unfolding make_dns
  make_dns_nowhere table [] summaries = refl
  make_dns_nowhere table (resolver ∷ resolvers) summaries = ground (
    arith,
    of_dns_nowhere
        (with_resolvers table (resolver ∷ resolvers) default_cache_capacity default_cache_ttl),
  )

  finish_nowhere : (p : Parsing Session Association FilePath) → FailsNowhere (finish host p)
  unfolding finish
  finish_nowhere p = ground (
    arith,
    check_parsed_nowhere p,
    of_io_nowhere (new_registry p.endpoint_configs),
    make_dns_nowhere p.hosts_table p.dns_resolvers p.dns_resolver_summaries,
  )

  module _ (root : FilePath) where
    -- The line numbered `n` of the text, counted from `first` at `p`, is refused with `error`, and
    -- those before it are accepted.
    pub record IsFirst (first : ℕ) (rest : List Bytes) (p : Parsing Session Association FilePath)
        (error : ConfigError) (n : ℕ) : Type 0 where
      pub before : List Bytes
      pub raw : Bytes
      pub after : List Bytes
      pub reached : Parsing Session Association FilePath
      pub split : rest ≡ before ++ (raw ∷ after)
      pub number : n ≡ first + length before
      pub accepted : parse_lines host root first before p ≡ ok reached
      pub refused : directive host root (line_fields raw) n reached ≡ err error

    parse_lines-IsFirst :
        (first : ℕ) (rest : List Bytes) (p : Parsing Session Association FilePath)
        (error : ConfigError)
        → parse_lines host root first rest p ≡ err error
        → (n : ℕ) × (error ≡ at n) × IsFirst first rest p error n
    unfolding parse_lines
    parse_lines-IsFirst first [] p error e = cc
    parse_lines-IsFirst first (raw ∷ rest) p error e =
        elim (Outcome-cases (directive host root (line_fields raw) first p)) [
          | inl (given, refused) ↦
              let same : given ≡ error = cc (rw refused at e) in
              let fails : FailsAt first (directive host root (line_fields raw) first p) =
                directive_fails host p first root (line_fields raw) in
              let here = rw refused at fails in
              (
                first,
                cc (here, same),
                record {
                  before = [];
                  raw = raw;
                  after = rest;
                  reached = p;
                  split = refl;
                  number = omega arith;
                  accepted = refl;
                  refused = refused ∙ ap err same;
                },
              )
          | inr (q, accepted) ↦
              let (n, e', f) = parse_lines-IsFirst (first + 1) rest q error (rw accepted at e) in
              (
                n,
                e',
                record {
                  before = raw ∷ f.before;
                  raw = f.raw;
                  after = f.after;
                  reached = f.reached;
                  split = ap (◌∷◌ raw) f.split;
                  number = omega (arith, f.number);
                  accepted = rw accepted f.accepted;
                  refused = f.refused;
                },
              )
        ]

    -- An error that names a line names the first line that is refused: all lines before it are
    -- accepted, and it is refused with that error.
    pub parse_config_at-IsFirst :
        (text : Bytes) (error : ConfigError) (n : ℕ)
        → parse_config_at host root text ≡ err error
        → error.line ≡ some n
        → IsFirst 1 (lines text) start error n
    unfolding parse_config_at
    parse_config_at-IsFirst text error n e named =
        elim (Bool-cases (ltb max_config_bytes (length text))) [
          | inl long ↦ absurd (cc (rw long at e, named))
          | inr short ↦ elim (Outcome-cases (parse_lines host root 1 (lines text) start)) [
            | inl (given, refused) ↦
                let same : given ≡ error = cc (rw (short, refused) at e) in
                let (m, e', f) = parse_lines-IsFirst 1 (lines text) start given refused in
                let number : m ≡ n = cc (e', same, named) in rw (← same, ← number) f
            | inr (p, accepted) ↦
                let last : finish host p ≡ err error = rw (short, accepted) at e in
                absurd (cc (rw last at (finish_nowhere p), named))
          ]
        ]
