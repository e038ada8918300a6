-- ===== src/Config/Routes.antt =====
-- Where a configuration that is accepted routes flows: to endpoints that it defines.
use commeatus.Prelude.{
  ℕ, ◌≡◌, refl, true, Option, none, some, List, [], ◌∷◌, Bytes, bytes, eqb, eqb_refl, any, All,
  All-append, All-map, arith, Bool-cases, inl, inr,
}
use commeatus.Text.Lines.{strip_prefix}
use commeatus.Plan.{direct, proxy, new_endpoint_id, user_hard, RejectReason}
use commeatus.Policy.{PolicyAction, route, reject, PolicyRule}
use commeatus.Outcome.{ok, ok_or, >>=-eq-ok}
use commeatus.Config.{Parsing, insert_id, at}
use commeatus.Config.Action.{parse_action, ParsedAction, parse_rule, ParsedRule, parse_matcher}
use commeatus.Config.Directives.{add_resolver, insert_all}
use commeatus.Config.Steps.{
  Accepts, blank, version, allow, listen, resolver, endpoint, default, rule, blocklist, hosts,
}
use commeatus.Config.Invariant.{branch}

-- A proxy that the action routes to has one of the ids.
abbrev pub IsNamed : List Bytes → PolicyAction → Type 0
IsNamed ids (route (proxy id)) = any (eqb id) ids ≡ true
IsNamed ids _ = Unit

-- The reference that goes with an action.
abbrev pub IsReferred : PolicyAction → Option Bytes → Type 0
IsReferred (route (proxy id)) reference = reference ≡ some id
IsReferred _ reference = Unit

parse_action-IsReferred :
    (value : Bytes) (line : ℕ) (parsed : ParsedAction)
    → parse_action value line ≡ ok parsed
    → IsReferred parsed.action parsed.proxy_ref
unfolding parse_action
parse_action-IsReferred value line parsed e =
    branch (eqb value (bytes "direct")) _ _ e (λ _ e. plain (route direct) parsed tt cc)
      λ e.
        branch (eqb value (bytes "reject")) _ _ e
          (λ _ e. plain (reject RejectReason.policy) parsed tt cc)
          λ e.
            let (name, _, e) =
              >>=-eq-ok (ok_or (at line) (strip_prefix (bytes "proxy:") value)) _ e in
            let (id, _, e) = >>=-eq-ok (ok_or (at line) (new_endpoint_id name)) _ e in
            let action : parsed.action ≡ route (proxy id) = cc in rw action cc
  where
    plain :
        (action : PolicyAction) (parsed : ParsedAction)
        → IsReferred action none
        → parsed ≡ record { action = action; proxy_ref = none }
        → IsReferred parsed.action parsed.proxy_ref
    plain action parsed h e = rw e h

pub parse_rule-eq-ok :
    (fields : List Bytes) (line id : ℕ) (parsed : ParsedRule)
    → parse_rule fields line id ≡ ok parsed
    → IsReferred parsed.rule.action parsed.proxy_ref
      × (parsed.rule.id ≡ id)
      × (parsed.rule.tier ≡ user_hard)
unfolding parse_rule
parse_rule-eq-ok [] line id parsed e = cc
parse_rule-eq-ok (_ ∷ []) line id parsed e = cc
parse_rule-eq-ok (_ ∷ _ ∷ []) line id parsed e = cc
parse_rule-eq-ok (first ∷ action ∷ kind ∷ values) line id parsed e =
    let (given, read, e) = >>=-eq-ok (parse_action action line) _ e in
    let (matcher, _, e) = >>=-eq-ok (parse_matcher (kind ∷ values) line) _ e in
    let same : given.action ≡ parsed.rule.action = cc in
    let reference : given.proxy_ref ≡ parsed.proxy_ref = cc in
    let refers : IsReferred given.action given.proxy_ref =
      parse_action-IsReferred action line given read in
    (moved same reference refers, cc, cc)
  where
    moved :
        {a b : PolicyAction} {x y : Option Bytes} → a ≡ b → x ≡ y → IsReferred a x → IsReferred b y
    moved e f h = rw (← e, ← f) h

insert_id-here : (id : Bytes) (ids : List Bytes) → any (eqb id) (insert_id id ids) ≡ true
unfolding insert_id
insert_id-here id ids = elim (Bool-cases (any (eqb id) ids)) [
  | inl found ↦ rw (found, found) refl
  | inr missing ↦ rw (missing, eqb_refl id) refl
]

insert_all-keeps :
    (reference : Option Bytes) (id : Bytes) (ids : List Bytes)
    → any (eqb id) ids ≡ true
    → any (eqb id) (insert_all reference ids) ≡ true
unfolding insert_id
insert_all-keeps none id ids h = h
insert_all-keeps (some other) id ids h = elim (Bool-cases (any (eqb other) ids)) [
  | inl found ↦ rw (found, h) refl
  | inr missing ↦ rw missing (ground (arith, h))
]

insert_all-IsNamed :
    (action : PolicyAction) (reference : Option Bytes) (ids : List Bytes)
    → IsReferred action reference
    → IsNamed (insert_all reference ids) action
insert_all-IsNamed (route (proxy id)) reference ids h = rw h (insert_id-here id ids)
insert_all-IsNamed (route direct) reference ids h = tt
insert_all-IsNamed (reject reason) reference ids h = tt

keeps :
    (reference : Option Bytes) (ids : List Bytes) (action : PolicyAction)
    → IsNamed ids action
    → IsNamed (insert_all reference ids) action
keeps reference ids (route (proxy id)) h = insert_all-keeps reference id ids h
keeps reference ids (route direct) h = tt
keeps reference ids (reject reason) h = tt

abbrev pub AllNamed : List Bytes → List PolicyRule → Type 0
AllNamed ids rules = All (λ r. IsNamed ids r.action) rules

abbrev pub IsChosen : List Bytes → Option PolicyAction → Type 0
IsChosen ids none = Unit
IsChosen ids (some action) = IsNamed ids action

IsChosen-keeps :
    (reference : Option Bytes) (ids : List Bytes) (action : Option PolicyAction)
    → IsChosen ids action
    → IsChosen (insert_all reference ids) action
IsChosen-keeps reference ids none h = tt
IsChosen-keeps reference ids (some action) h = keeps reference ids action h

module _ {Session Association FilePath : Type 0} where
  abbrev pub IsClosed : Parsing Session Association FilePath → Type 0
  IsClosed p =
      AllNamed p.referenced_endpoints p.rules × IsChosen p.referenced_endpoints p.default_action

  pub step-IsClosed :
      (fields : List Bytes) (line : ℕ) (p p' : Parsing Session Association FilePath)
      → Accepts fields line p p'
      → IsClosed p
      → IsClosed p'
  unfolding add_resolver
  step-IsClosed fields line p _ blank h = h
  step-IsClosed fields line p _ version h = h
  step-IsClosed fields line p _ (allow _ _ _ _ _) h = h
  step-IsClosed fields line p _ (listen _ _ _ _ _) h = h
  step-IsClosed fields line p _ (resolver _ _ _ _) h = h
  step-IsClosed fields line p _ (endpoint _ _ _ _) h = h
  step-IsClosed fields line p _ (default parsed _ read) (rules, chosen) =
      let ids = p.referenced_endpoints in
      let refers = parse_action-IsReferred _ line parsed read in
      (
        All-map p.rules (λ r. keeps parsed.proxy_ref ids r.action) rules,
        insert_all-IsNamed parsed.action parsed.proxy_ref ids refers,
      )
  step-IsClosed fields line p _ (rule parsed _ read) (rules, chosen) =
      let ids = p.referenced_endpoints in
      let (refers, _, _) = parse_rule-eq-ok fields line p.next_rule_id parsed read in
      (
        All-append _ p.rules (parsed.rule ∷ [])
            (All-map p.rules (λ r. keeps parsed.proxy_ref ids r.action) rules)
            (insert_all-IsNamed parsed.rule.action parsed.proxy_ref ids refers, tt),
        IsChosen-keeps parsed.proxy_ref ids p.default_action chosen,
      )
  step-IsClosed fields line p _ (blocklist source compiled _ _) (rules, chosen) =
      (All-append _ p.rules _ rules (tt, tt), chosen)
  step-IsClosed fields line p _ (hosts _ _ _) h = h
