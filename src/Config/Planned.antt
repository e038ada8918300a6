-- ===== src/Config/Planned.antt =====
-- What the engine of a configuration that is accepted decides: its rules are those of the text, in
-- order and numbered, and what it routes to exists.
use commeatus.Prelude.{
  ℕ, ◌+◌, ◌≡◌, refl, ◌∙◌, Bool, true, some, List, [], ◌∷◌, Bytes, eqb, eqb_iff, any, find, length,
  length-append, All, arith, Bool-cases, Option-cases, inl, inr,
}
use commeatus.Text.Lines.{lines}
use commeatus.Flow.{FlowContext}
use commeatus.Plan.{proxy, ExecutionAction, user_hard}
use commeatus.Policy.{
  PolicyAction, route, reject, PolicyRule, new_engine, plan, decide, decision, execute, rank,
  matches, insert, sort_by_rank,
}
use commeatus.Outbound.{OutboundRegistry, contains}
use commeatus.Outcome.{ok}
use commeatus.Config.{Surroundings, Parsing, CompiledConfig, push}
use commeatus.Config.Directives.{add_resolver}
use commeatus.Config.Steps.{
  Accepts, blank, version, allow, listen, resolver, endpoint, default, rule, blocklist, hosts,
}
use commeatus.Config.Compile.{start, parse_config_at, all_defined}
use commeatus.Config.Invariant.{parse_lines-Holds}
use commeatus.Config.Finished.{parse_config_at-IsFinished}
use commeatus.Config.Routes.{IsNamed, AllNamed, IsClosed, step-IsClosed, parse_rule-eq-ok}

-- The rules are of the user's tier and have the ids from `first` on, in their order.
abbrev pub IsNumbered : ℕ → List PolicyRule → Type 0
IsNumbered first [] = Unit
IsNumbered first (r ∷ rules) = (r.id ≡ first) × (r.tier ≡ user_hard) × IsNumbered (first + 1) rules

IsNumbered-push :
    (first : ℕ) (r : PolicyRule) (rules : List PolicyRule)
    → IsNumbered first rules
    → r.id ≡ first + length rules
    → r.tier ≡ user_hard
    → IsNumbered first (push r rules)
IsNumbered-push first r [] h id tier = (omega arith, tier, tt)
IsNumbered-push first r (x ∷ rules) (here, hard, h) id tier =
    (here, hard, IsNumbered-push (first + 1) r rules h (omega arith) tier)

-- Rules of one tier are not moved.
sort-IsNumbered :
    (first : ℕ) (rules : List PolicyRule) → IsNumbered first rules → sort_by_rank rules ≡ rules
unfolding sort_by_rank insert rank
sort-IsNumbered first [] h = refl
sort-IsNumbered first (x ∷ []) h = refl
sort-IsNumbered first (x ∷ y ∷ rules) (_, hard, h) =
    let rest : sort_by_rank (y ∷ rules) ≡ y ∷ rules = sort-IsNumbered (first + 1) (y ∷ rules) h in
    rw (rest, hard, h.1) refl

find-All :
    (Holds : PolicyRule → Type 0) (test : PolicyRule → Bool) (rules : List PolicyRule)
    (r : PolicyRule)
    → All Holds rules
    → find test rules ≡ some r
    → Holds r
find-All Holds test [] r h e = cc
find-All Holds test (x ∷ rules) r (here, h) e = elim (Bool-cases (test x)) [
  | inl passes ↦ let same : x ≡ r = cc (rw passes at e) in rw (← same) here
  | inr fails ↦ find-All Holds test rules r h (rw fails at e)
]

-- What is decided is the action of a rule, or the default one.
decide-IsNamed :
    (ids : List Bytes) (rules : List PolicyRule) (action : PolicyAction) (flow : FlowContext)
    → AllNamed ids rules
    → IsNamed ids action
    → IsNamed ids (decide (record { rules = rules; default_action = action }) flow).action
unfolding decide decision
decide-IsNamed ids rules action flow h chosen =
    elim (Option-cases (find (λ r. matches r.matcher flow) rules)) [
      | inl missing ↦ rw (missing, decision) chosen
      | inr (r, found) ↦
          rw (found, decision) (find-All (λ r. IsNamed ids r.action) _ rules r h found)
    ]

all_defined-contains :
    {Session Association : Type 0} (outbounds : OutboundRegistry Session Association)
    (ids : List Bytes) (id : Bytes)
    → all_defined outbounds ids ≡ true
    → any (eqb id) ids ≡ true
    → contains outbounds id ≡ true
unfolding all_defined
all_defined-contains outbounds [] id h found = cc
all_defined-contains outbounds (x ∷ ids) id h found =
    let here : contains outbounds x ≡ true = ground arith in
    let there : all_defined outbounds ids ≡ true = ground arith in
    elim (Bool-cases (eqb id x)) [
      | inl same ↦ let e = (eqb_iff id x).0 same in rw e here
      | inr other ↦ all_defined-contains outbounds ids id there (rw other at found)
    ]

execute-proxy :
    (action : PolicyAction) (id : Bytes)
    → execute action ≡ ExecutionAction.route (proxy id)
    → action ≡ route (proxy id)
unfolding execute
execute-proxy (route chosen) id e = cc
execute-proxy (reject reason) id e = cc

module _ {Session Association FilePath : Type 0} where
  abbrev IsOrdered : Parsing Session Association FilePath → Type 0
  IsOrdered p = IsNumbered 1 p.rules × (p.next_rule_id ≡ length p.rules + 1)

  step-IsOrdered :
      (fields : List Bytes) (line : ℕ) (p p' : Parsing Session Association FilePath)
      → Accepts fields line p p'
      → IsOrdered p
      → IsOrdered p'
  unfolding add_resolver
  step-IsOrdered fields line p _ blank h = h
  step-IsOrdered fields line p _ version h = h
  step-IsOrdered fields line p _ (allow _ _ _ _ _) h = h
  step-IsOrdered fields line p _ (listen _ _ _ _ _) h = h
  step-IsOrdered fields line p _ (resolver _ _ _ _) h = h
  step-IsOrdered fields line p _ (endpoint _ _ _ _) h = h
  step-IsOrdered fields line p _ (default _ _ _) h = h
  step-IsOrdered fields line p _ (rule parsed _ read) (rules, next) =
      let (_, id, tier) = parse_rule-eq-ok fields line p.next_rule_id parsed read in
      (
        IsNumbered-push 1 parsed.rule p.rules rules (omega arith) tier,
        omega (arith, length-append p.rules (parsed.rule ∷ [])),
      )
  step-IsOrdered fields line p _ (blocklist source compiled _ _) (rules, next) = (
    IsNumbered-push 1 _ p.rules rules (omega arith) refl,
    omega (arith, length-append p.rules (_ ∷ [])),
  )
  step-IsOrdered fields line p _ (hosts _ _ _) h = h

  -- In the engine of a configuration that is accepted, all rules are of the user's tier, and their
  -- ids are 1, 2, 3 and so on, in the order in which the engine tries them.
  pub parse_config_at-IsNumbered :
      (host : Surroundings Session Association FilePath) (root : FilePath) (text : Bytes)
      (c : CompiledConfig Session Association FilePath)
      → parse_config_at host root text ≡ ok c
      → IsNumbered 1 c.runtime.rules
  unfolding new_engine start
  parse_config_at-IsNumbered host root text c e =
      let (_, (p, parsed, f)) = parse_config_at-IsFinished host root text c e in
      let (h, _) =
        parse_lines-Holds host root IsOrdered step-IsOrdered 1 (lines text) start p (tt, refl)
          parsed in
      rw (f.engine, sort-IsNumbered 1 p.rules h) h

  -- Whatever flow the engine of a configuration that is accepted routes to a proxy, the registry of
  -- that configuration has the proxy's endpoint.
  pub parse_config_at-contains :
      (host : Surroundings Session Association FilePath) (root : FilePath) (text : Bytes)
      (c : CompiledConfig Session Association FilePath) (flow : FlowContext) (id : Bytes)
      → parse_config_at host root text ≡ ok c
      → (plan c.runtime flow).action ≡ ExecutionAction.route (proxy id)
      → contains c.outbounds id ≡ true
  unfolding plan new_engine start
  parse_config_at-contains host root text c flow id e routed =
      let (_, (p, parsed, f)) = parse_config_at-IsFinished host root text c e in
      let (ordered, _) =
        parse_lines-Holds host root IsOrdered step-IsOrdered 1 (lines text) start p (tt, refl)
          parsed in
      let (named, chosen) =
        parse_lines-Holds host root IsClosed step-IsClosed 1 (lines text) start p (tt, tt) parsed in
      let chosen : IsNamed p.referenced_endpoints f.action = rw f.chosen at chosen in
      let engine : c.runtime ≡ record { rules = p.rules; default_action = f.action } =
        f.engine ∙ rw (sort-IsNumbered 1 p.rules ordered) refl in
      let decided = decide-IsNamed p.referenced_endpoints p.rules f.action flow named chosen in
      let action = execute-proxy (decide c.runtime flow).action id routed in
      let found : any (eqb id) p.referenced_endpoints ≡ true = rw (← engine, action) at decided in
      all_defined-contains c.outbounds p.referenced_endpoints id f.defined found
