-- ===== src/Config/Accepted.antt =====
-- What a line that is accepted does: each directive takes a step.
use commeatus.Prelude.{
  ℕ, ◌<◌, ◌≡◌, ◌≢◌, refl, false, not, Option, none, some, List, [], ◌∷◌, Bytes, bytes, eqb, length,
  leb, ◌==◌, arith, Bool-cases, inl, inr,
}
use commeatus.Ip.Socket.Text.{parse_socket}
use commeatus.Plan.{new_endpoint_id}
use commeatus.Outcome.{Outcome, ok, ok_or, >>=-eq-ok, refuse_if-eq-ok, ok_or-eq-ok}
use commeatus.Config.{Surroundings, ConfigError, at, max_dns_resolvers, system, dot, Parsing}
use commeatus.Config.Action.{parse_action, parse_rule, expect_fields, ensure_rule_capacity}
use commeatus.Config.Directives.{
  field, is_some, parse_bool, parse_listener_protocol, version_directive,
  allow_public_listen_directive, listen_directive, default_directive, rule_directive,
  system_resolver, dot_resolver, make_resolver, resolver_directive, blocklist_directive,
  hosts_directive,
}
use commeatus.Text.{to_ascii_lowercase}
use commeatus.Config.Assets.{resolve_asset_path, load_blocklist, load_hosts}
use commeatus.Config.Endpoints.{endpoint_directive, make_endpoint}
use commeatus.Config.Steps.{
  Accepts, version, allow, listen, resolver, endpoint, default, rule, blocklist, hosts,
}

abbrev accepted : {A : Type 0} → A → Outcome ConfigError A
accepted value = ok value

-- A guard that a count must not reach its limit.
below : (n limit : ℕ) → leb limit n ≡ false → n < limit
below n limit e = ground arith

nonzero : (n : ℕ) → (n == 0) ≡ false → n ≢ 0
nonzero n e z = ground arith

unset : {A : Type 0} (option : Option A) → is_some option ≡ false → option ≡ none
unset none e = refl
unset (some a) e = cc

pair : (fields : List Bytes) → length fields ≡ 2 → fields ≡ field fields 0 ∷ field fields 1 ∷ []
pair [] e = absurd (omega arith)
pair (a ∷ []) e = absurd (omega arith)
pair (a ∷ b ∷ []) e = refl
pair (a ∷ b ∷ c ∷ fields) e = absurd (omega arith)

with_first :
    {fields : List Bytes} {word : Bytes} (next : Bytes)
    → fields ≡ field fields 0 ∷ next ∷ []
    → field fields 0 ≡ word
    → fields ≡ word ∷ next ∷ []
with_first next e first = cc

counted : (n m : ℕ) → not (n == m) ≡ false → n ≡ m
counted n m e = ground arith

module _ {Session Association FilePath : Type 0} where
  to_step :
      {fields : List Bytes} {line : ℕ} {p q p' : Parsing Session Association FilePath}
      → accepted q ≡ ok p'
      → Accepts fields line p q
      → Accepts fields line p p'
  to_step {q = q} {p' = p'} e s = let same : q ≡ p' = cc in rw (← same) s

  pub version_directive-Accepts :
      (fields : List Bytes) (line : ℕ) (p p' : Parsing Session Association FilePath)
      → version_directive fields line p ≡ ok p'
      → Accepts fields line p p'
  unfolding version_directive expect_fields
  version_directive-Accepts fields line p p' e =
      let (_, e) = refuse_if-eq-ok (not (length fields == 2)) (at line) _ e in
      let (_, e) = refuse_if-eq-ok (not (eqb (field fields 1) (bytes "1"))) (at line) _ e in
      let (_, e) = refuse_if-eq-ok p.version_seen (at line) _ e in to_step e version

  pub allow_public_listen_directive-Accepts :
      (fields : List Bytes) (line : ℕ) (p p' : Parsing Session Association FilePath)
      → field fields 0 ≡ bytes "allow-public-listen"
      → allow_public_listen_directive fields line p ≡ ok p'
      → Accepts fields line p p'
  unfolding allow_public_listen_directive expect_fields
  allow_public_listen_directive-Accepts fields line p p' first e =
      let (two, e) = refuse_if-eq-ok _ _ _ e in
      let (new, e) = refuse_if-eq-ok _ _ _ e in
      let (allowed, given, e) = >>=-eq-ok (ok_or (at line) (parse_bool (field fields 1))) _ e in
      let all : fields ≡ bytes "allow-public-listen" ∷ field fields 1 ∷ [] =
        with_first (field fields 1) (pair fields (counted _ _ two)) first in
      to_step e (allow allowed (field fields 1) (unset _ new) all (ok_or-eq-ok _ _ _ given))

  pub listen_directive-Accepts :
      (fields : List Bytes) (line : ℕ) (p p' : Parsing Session Association FilePath)
      → listen_directive fields line p ≡ ok p'
      → Accepts fields line p p'
  unfolding listen_directive expect_fields
  listen_directive-Accepts fields line p p' e =
      let (_, e) = refuse_if-eq-ok _ _ _ e in
      let (room, e) = refuse_if-eq-ok _ _ _ e in
      let (protocol, _, e) =
        >>=-eq-ok (ok_or (at line) (parse_listener_protocol (field fields 1))) _ e in
      let (address, _, e) = >>=-eq-ok (ok_or (at line) (parse_socket (field fields 2))) _ e in
      let (port, e) = refuse_if-eq-ok _ _ _ e in
      let (new, e) = refuse_if-eq-ok _ _ _ e in
      to_step e (listen protocol address (below _ _ room) (nonzero _ port) new)

  pub default_directive-Accepts :
      (fields : List Bytes) (line : ℕ) (p p' : Parsing Session Association FilePath)
      → default_directive fields line p ≡ ok p'
      → Accepts fields line p p'
  unfolding default_directive expect_fields
  default_directive-Accepts fields line p p' e =
      let (_, e) = refuse_if-eq-ok _ _ _ e in
      let (new, e) = refuse_if-eq-ok _ _ _ e in
      let (parsed, given, e) = >>=-eq-ok (parse_action (field fields 1) line) _ e in
      to_step e (default parsed (unset _ new) given)

  pub rule_directive-Accepts :
      (fields : List Bytes) (line : ℕ) (p p' : Parsing Session Association FilePath)
      → rule_directive fields line p ≡ ok p'
      → Accepts fields line p p'
  unfolding rule_directive ensure_rule_capacity
  rule_directive-Accepts fields line p p' e =
      let (room, e) = refuse_if-eq-ok _ _ _ e in
      let (parsed, given, e) = >>=-eq-ok (parse_rule fields line p.next_rule_id) _ e in
      to_step e (rule parsed (below _ _ room) given)

  module _ (host : Surroundings Session Association FilePath) where
    system_resolver-Accepts :
        (fields : List Bytes) (line : ℕ) (p p' : Parsing Session Association FilePath)
        → length p.dns_resolvers < max_dns_resolvers
        → system_resolver host fields line p ≡ ok p'
        → Accepts fields line p p'
    unfolding system_resolver
    system_resolver-Accepts fields line p p' room e =
        let (new, e) = refuse_if-eq-ok _ _ _ e in
        to_step e (resolver system host.system_resolver room new)

    dot_resolver-Accepts :
        (fields : List Bytes) (value name : Bytes) (line : ℕ)
        (p p' : Parsing Session Association FilePath)
        → length p.dns_resolvers < max_dns_resolvers
        → dot_resolver host value name line p ≡ ok p'
        → Accepts fields line p p'
    unfolding dot_resolver
    dot_resolver-Accepts fields value name line p p' room e =
        let (address, _, e) = >>=-eq-ok (ok_or (at line) (parse_socket value)) _ e in
        let (_, e) = refuse_if-eq-ok _ _ _ e in
        let (new, e) = refuse_if-eq-ok _ _ _ e in
        let lowered = to_ascii_lowercase name in
        let (made, _, e) = >>=-eq-ok (ok_or (at line) (host.dot_resolver address lowered)) _ e in
        to_step e (resolver (dot address lowered) made room new)

    make_resolver-Accepts :
        (fields : List Bytes) (line : ℕ) (p p' : Parsing Session Association FilePath)
        → length p.dns_resolvers < max_dns_resolvers
        → make_resolver host fields line p ≡ ok p'
        → Accepts fields line p p'
    unfolding make_resolver
    make_resolver-Accepts [] line p p' room e = cc
    make_resolver-Accepts (_ ∷ []) line p p' room e = cc
    make_resolver-Accepts (first ∷ kind ∷ []) line p p' room e =
        elim (Bool-cases (eqb kind (bytes "system"))) [
          | inl is ↦ system_resolver-Accepts _ line p p' room (rw is at e)
          | inr other ↦ absurd (cc (rw other at e))
        ]
    make_resolver-Accepts (_ ∷ _ ∷ _ ∷ []) line p p' room e = cc
    make_resolver-Accepts (first ∷ kind ∷ address ∷ name ∷ []) line p p' room e =
        elim (Bool-cases (eqb kind (bytes "dot"))) [
          | inl is ↦ dot_resolver-Accepts _ address name line p p' room (rw is at e)
          | inr other ↦ absurd (cc (rw other at e))
        ]
    make_resolver-Accepts (_ ∷ _ ∷ _ ∷ _ ∷ _ ∷ _) line p p' room e = cc

    pub resolver_directive-Accepts :
        (fields : List Bytes) (line : ℕ) (p p' : Parsing Session Association FilePath)
        → resolver_directive host fields line p ≡ ok p'
        → Accepts fields line p p'
    unfolding resolver_directive
    resolver_directive-Accepts fields line p p' e =
        let (room, e) = refuse_if-eq-ok _ _ _ e in
        make_resolver-Accepts fields line p p' (below _ _ room) e

    pub endpoint_directive-Accepts :
        (fields : List Bytes) (line : ℕ) (p p' : Parsing Session Association FilePath)
        → endpoint_directive host fields line p ≡ ok p'
        → Accepts fields line p p'
    unfolding endpoint_directive
    endpoint_directive-Accepts [] line p p' e = cc
    endpoint_directive-Accepts (_ ∷ []) line p p' e = cc
    endpoint_directive-Accepts (first ∷ word ∷ fields) line p p' e =
        let (room, e) = refuse_if-eq-ok _ _ _ e in
        let (id, _, e) = >>=-eq-ok (ok_or (at line) (new_endpoint_id word)) _ e in
        let (new, e) = refuse_if-eq-ok _ _ _ e in
        let (config, _, e) = >>=-eq-ok (make_endpoint host id fields line) _ e in
        to_step e (endpoint id config (below _ _ room) new)

    module _ (root : FilePath) where
      pub blocklist_directive-Accepts :
          (fields : List Bytes) (line : ℕ) (p p' : Parsing Session Association FilePath)
          → blocklist_directive host root fields line p ≡ ok p'
          → Accepts fields line p p'
      unfolding blocklist_directive expect_fields ensure_rule_capacity
      blocklist_directive-Accepts fields line p p' e =
          let (_, e) = refuse_if-eq-ok _ _ _ e in
          let (room, e) = refuse_if-eq-ok _ _ _ e in
          let (rules, e) = refuse_if-eq-ok _ _ _ e in
          let source = resolve_asset_path host root (field fields 1) in
          let (_, e) = refuse_if-eq-ok _ _ _ e in
          let (compiled, _, e) = >>=-eq-ok (load_blocklist host source line) _ e in
          to_step e (blocklist source compiled (below _ _ room) (below _ _ rules))

      pub hosts_directive-Accepts :
          (fields : List Bytes) (line : ℕ) (p p' : Parsing Session Association FilePath)
          → hosts_directive host root fields line p ≡ ok p'
          → Accepts fields line p p'
      unfolding hosts_directive expect_fields
      hosts_directive-Accepts fields line p p' e =
          let (_, e) = refuse_if-eq-ok _ _ _ e in
          let (room, e) = refuse_if-eq-ok _ _ _ e in
          let source = resolve_asset_path host root (field fields 1) in
          let (_, e) = refuse_if-eq-ok _ _ _ e in
          let (table, _, e) = >>=-eq-ok (load_hosts host source line) _ e in
          to_step e (hosts source table (below _ _ room))
