-- ===== src/Policy.antt =====
-- crates/core/src/policy.rs: matchers, rules and the engine. crates/core/src/runtime.rs: `Runtime`,
-- which is its engine. Rule ids and tiers are in `Plan`.
pub mod Suffix
pub mod Precedence
pub mod Authority
use commeatus.Prelude.{
  ℕ, ◌+◌, ◌-◌, Bool, true, false, not, ◌&&◌, ◌||◌, Option, none, some, List, [], ◌∷◌, ltb, leb,
  ◌==◌, if◌then◌else◌, Bytes, eqb, length, get_elem?, drop, find,
}
use commeatus.Text.{dot, trim, trim_end, eq_ignore_ascii_case}
use commeatus.Ip.{IpAddr, ip_eq}
use commeatus.Cidr.{IpCidr}
use commeatus.Cidr
use commeatus.Flow.{
  DestinationHost, domain, ip, TransportProtocol, NetworkKind, FlowContext, same_transport,
  same_kind,
}
use commeatus.DomainSet.{DomainFilter, is_blocked}
use commeatus.Plan.{
  Endpoint, RejectReason, PolicyTier, user_hard, safety, compatibility, adaptive, default,
  ExecutionAction, ExecutionPlan,
}

unfoldable pub rank : PolicyTier → ℕ
rank user_hard = 0
rank safety = 1
rank compatibility = 2
rank adaptive = 3
rank default = 4

-- `Matcher`; `Vec<Self>` is the second type of the block.
mutual
  pub data Matcher : Type 0 where
    any : Matcher
    uid : ℕ → Matcher
    package_name : Bytes → Matcher
    domain_exact : Bytes → Matcher
    domain_suffix : Bytes → Matcher
    domain_filter : DomainFilter → Matcher
    ip_is : IpAddr → Matcher
    cidr : IpCidr → Matcher
    port : ℕ → Matcher
    transport : TransportProtocol → Matcher
    network : NetworkKind → Matcher
    all_of : Matchers → Matcher
    any_of : Matchers → Matcher
    negate : Matcher → Matcher

  pub data Matchers : Type 0 where
    nil : Matchers
    cons : Matcher → Matchers → Matchers

continues : Option ℕ → Bool
continues none = false
continues (some b) = leb 0x80 b && ltb b 0xc0

-- `is_char_boundary`: not inside a character, and not past the end
is_char_boundary : Bytes → ℕ → Bool
unfolding continues
is_char_boundary s i = leb i (length s) && not (continues (get_elem? s i))

-- `s.get(i..)`
get_from : Bytes → ℕ → Option Bytes
unfolding is_char_boundary
get_from s i = if is_char_boundary s i then some (drop i s) else none

is_dot : Option ℕ → Bool
is_dot none = false
is_dot (some b) = b == dot

is_suffix : Option Bytes → Bytes → Bool
is_suffix none suffix = false
is_suffix (some tail) suffix = eq_ignore_ascii_case tail suffix

empty : Bytes → Bool
empty [] = true
empty (c ∷ cs) = false

-- `checked_add` does not overflow: a string's length is below `isize::MAX`.
unfoldable pub domain_matches_suffix : Bytes → Bytes → Bool
unfolding is_char_boundary get_from is_dot is_suffix empty
domain_matches_suffix host suffix =
    let name = trim_end dot host in
    let tail = trim dot suffix in
    let required = length tail + 1 in
    let prefix = length name - required in
    if empty tail
    then false
    else if eq_ignore_ascii_case name tail
    then true
    else if ltb (length name) required
    then false
    else is_char_boundary name prefix
      && is_dot (get_elem? name prefix)
      && is_suffix (get_from name (prefix + 1)) tail

has_uid : Option ℕ → ℕ → Bool
has_uid none wanted = false
has_uid (some value) wanted = value == wanted

has_package : Option Bytes → Bytes → Bool
has_package none wanted = false
has_package (some value) wanted = eqb value wanted

-- A test of the domain, false for an address; and the other way round.
at_domain : DestinationHost → (Bytes → Bool) → Bool
at_domain (domain name) test = test name
at_domain (ip address) test = false

at_ip : DestinationHost → (IpAddr → Bool) → Bool
at_ip (domain name) test = false
at_ip (ip address) test = test address

unfoldable mutual
  unfolding has_uid has_package at_domain at_ip

  pub matches : Matcher → FlowContext → Bool
  matches any flow = true
  matches (uid value) flow = has_uid flow.source.uid value
  matches (package_name value) flow = has_package flow.source.package_name value
  matches (domain_exact expected) flow =
      at_domain flow.destination.host λ name. eq_ignore_ascii_case name expected
  matches (domain_suffix suffix) flow =
      at_domain flow.destination.host λ name. domain_matches_suffix name suffix
  matches (domain_filter filter) flow =
      at_domain flow.destination.host λ name. is_blocked filter name
  matches (ip_is expected) flow = at_ip flow.destination.host λ actual. ip_eq actual expected
  matches (cidr net) flow = at_ip flow.destination.host λ actual. Cidr.contains net actual
  matches (port value) flow = flow.destination.port == value
  matches (transport protocol) flow = same_transport flow.transport protocol
  matches (network kind) flow = same_kind flow.network.kind kind
  matches (all_of matchers) flow = matches_all matchers flow
  matches (any_of matchers) flow = matches_any matchers flow
  matches (negate matcher) flow = not (matches matcher flow)

  pub matches_all : Matchers → FlowContext → Bool
  matches_all nil flow = true
  matches_all (cons m ms) flow = matches m flow && matches_all ms flow

  pub matches_any : Matchers → FlowContext → Bool
  matches_any nil flow = false
  matches_any (cons m ms) flow = matches m flow || matches_any ms flow

pub data PolicyAction : Type 0 where
  route : Endpoint → PolicyAction
  reject : RejectReason → PolicyAction

pub record PolicyRule : Type 0 where
  pub id : ℕ
  pub tier : PolicyTier
  pub matcher : Matcher
  pub action : PolicyAction

pub record PolicyDecision : Type 0 where
  pub rule_id : Option ℕ
  pub tier : PolicyTier
  pub action : PolicyAction

pub record PolicyEngine : Type 0 where
  pub rules : List PolicyRule
  pub default_action : PolicyAction

-- `sort_by_key` is stable, so it gives the list that stable insertion gives.
unfoldable pub insert : PolicyRule → List PolicyRule → List PolicyRule
insert x [] = x ∷ []
insert x (y ∷ ys) =
    let rest = insert x ys in if ltb (rank y.tier) (rank x.tier) then y ∷ rest else x ∷ y ∷ ys

unfoldable pub sort_by_rank : List PolicyRule → List PolicyRule
sort_by_rank [] = []
sort_by_rank (x ∷ xs) = insert x (sort_by_rank xs)

-- `PolicyEngine::new`
unfoldable pub new_engine : List PolicyRule → PolicyAction → PolicyEngine
unfolding sort_by_rank insert rank
new_engine rules default_action = record {
  rules = sort_by_rank rules;
  default_action = default_action;
}

unfoldable pub decision : PolicyAction → Option PolicyRule → PolicyDecision
decision default_action none = record { rule_id = none; tier = default; action = default_action }
decision default_action (some rule) = record {
  rule_id = some rule.id;
  tier = rule.tier;
  action = rule.action;
}

unfoldable pub decide : PolicyEngine → FlowContext → PolicyDecision
unfolding decision
decide engine flow =
    decision engine.default_action (find (λ rule. matches rule.matcher flow) engine.rules)

unfoldable pub execute : PolicyAction → ExecutionAction
execute (route endpoint) = ExecutionAction.route endpoint
execute (reject reason) = ExecutionAction.reject reason

-- `Runtime::plan`
unfoldable pub plan : PolicyEngine → FlowContext → ExecutionPlan
unfolding execute
plan policy flow =
    let chosen = decide policy flow in
    record {
      flow_id = flow.id;
      action = execute chosen.action;
      matched_rule = chosen.rule_id;
      tier = chosen.tier;
    }
