-- ===== src/Policy/Authority.antt =====
-- Decisions follow authority: a matching rule never loses to a weaker tier or to the default.
use commeatus.Prelude.{
  ap, ℕ, ◌≤◌, ◌≡◌, refl, inl, inr, Bool, true, Option, none, some, List, [], ◌∷◌, arith, ltb, ◌∙◌,
  Bool-cases, All, All-map,
}
use commeatus.Flow.{FlowContext}
use commeatus.Policy.Precedence.{prefer, strongest, strongest-cons, find-sort_by_rank}
use commeatus.Policy.{rank, matches, PolicyAction, PolicyRule, new_engine, decision, decide}

-- A rule passes if its matcher matches the flow.
abbrev pub passes : FlowContext → PolicyRule → Bool
passes flow rule = matches rule.matcher flow

-- The engine decides by the first matching rule, in the order in which the rules were given, of
-- the strongest tier that has a matching rule; by the default action if no rule matches.
pub decide-new_engine :
    (rules : List PolicyRule) (default_action : PolicyAction) (flow : FlowContext)
    → decide (new_engine rules default_action) flow
      ≡ decision default_action (strongest (passes flow) rules)
unfolding decide new_engine
decide-new_engine rules default_action flow =
    ap (decision default_action) (find-sort_by_rank (passes flow) rules)

-- Something is found, with at least the rule's authority.
abbrev LeadsTo : Option PolicyRule → PolicyRule → Type 0
LeadsTo found rule = (r : PolicyRule) × (found ≡ some r) × (rank r.tier ≤ rank rule.tier)

prefer-LeadsTo_self : (found : Option PolicyRule) (x : PolicyRule) → LeadsTo (prefer found x) x
unfolding prefer
prefer-LeadsTo_self none x = (x, refl, omega arith)
prefer-LeadsTo_self (some y) x = elim (Bool-cases (ltb (rank y.tier) (rank x.tier))) [
  | inl above ↦ (y, rw above, ground arith)
  | inr other ↦ (x, rw other, omega arith)
]

prefer-LeadsTo :
    (found : Option PolicyRule) (x rule : PolicyRule)
    → LeadsTo found rule
    → LeadsTo (prefer found x) rule
unfolding prefer
prefer-LeadsTo none x rule (r, e, h) = cc e
prefer-LeadsTo (some y) x rule (r, e, h) =
    let q : y ≡ r = cc e in
    let le : rank y.tier ≤ rank rule.tier = rw q h in
    elim (Bool-cases (ltb (rank y.tier) (rank x.tier))) [
      | inl above ↦ (y, rw above, le)
      | inr other ↦ (x, rw other, ground arith)
    ]

module _ (p : PolicyRule → Bool) where
  strongest-LeadsTo :
      (rules : List PolicyRule)
      → All (λ rule. p rule ≡ true → LeadsTo (strongest p rules) rule) rules
  strongest-LeadsTo [] = tt
  strongest-LeadsTo (x ∷ xs) = elim (Bool-cases (p x)) [
    | inr miss ↦
        let same : strongest p (x ∷ xs) ≡ strongest p xs = strongest-cons p x xs ∙ rw miss in
        (λ hit. absurd (cc), All-map xs (λ rule h e. rw same (h e)) (strongest-LeadsTo xs))
    | inl hit ↦
        let found : strongest p (x ∷ xs) ≡ prefer (strongest p xs) x =
          strongest-cons p x xs ∙ rw hit in
        (
          λ _. rw found (prefer-LeadsTo_self (strongest p xs) x),
          All-map xs (λ rule h e. rw found (prefer-LeadsTo (strongest p xs) x rule (h e)))
              (strongest-LeadsTo xs),
        )
  ]

-- Every rule that matches the flow is answered by a rule of at least its authority: a matching rule
-- is never passed over for a weaker tier, nor for the default action.
pub decide_outranks :
    (rules : List PolicyRule) (default_action : PolicyAction) (flow : FlowContext)
    → All
        (λ rule.
          passes flow rule ≡ true
          → (id : ℕ) × ((decide (new_engine rules default_action) flow).rule_id ≡ some id)
            × (rank (decide (new_engine rules default_action) flow).tier ≤ rank rule.tier))
        rules
decide_outranks rules default_action flow =
    All-map rules
      (λ rule h e. rw (decide-new_engine rules default_action flow) (answered rule (h e)))
      (strongest-LeadsTo (passes flow) rules)
  where
    answered :
        (rule : PolicyRule)
        → LeadsTo (strongest (passes flow) rules) rule
        → (id : ℕ) × ((decision default_action (strongest (passes flow) rules)).rule_id ≡ some id)
          × (rank (decision default_action (strongest (passes flow) rules)).tier ≤ rank rule.tier)
    answered rule (r, found, le) = rw found (unfold decision in (r.id, refl, le))
