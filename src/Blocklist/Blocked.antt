-- ===== src/Blocklist/Blocked.antt =====
-- What a list blocks: what its lines say, in whatever order they stand.
use commeatus.Prelude.{
  ℕ, ◌+◌, ◌≡◌, ◌↔◌, refl, sym, Bool, true, false, not, ◌&&◌, Option, none, some, List, [], ◌∷◌,
  ◌++◌, append-nil, append_assoc, Bytes, length, ltb, leb,
}
use commeatus.Text.Lines.{lines}
use commeatus.DomainSet.{is_blocked, compile, matches}
use commeatus.DomainSet.Matching.{compile-matches, IsQuery, IsListed, query}
use commeatus.Outcome.{ok, >>=-eq-ok, refuse_if-eq-ok, ok_or, ok_or-eq-ok}
use commeatus.Blocklist.{
  RuleKind, block_exact, block_suffix, allow_suffix, at, global, max_blocklist_entries,
  max_blocklist_bytes, Compiling, count_line, no_rules, parse_line, add_rule, entries,
  enforce_entry_limit, compile_lines, compile_sets, compile_blocklist, CompiledBlocklist,
}

abbrev cons_rule : Option (RuleKind × Bytes) → List (RuleKind × Bytes) → List (RuleKind × Bytes)
cons_rule none rules = rules
cons_rule (some rule) rules = rule ∷ rules

-- The lines, numbered from `line` on, have these rules.
pub data Says : ℕ → List Bytes → List (RuleKind × Bytes) → Type 0 where
  nothing : {line : ℕ} → Says line [] []
  says :
      {line : ℕ} {rest : List Bytes} {rules : List (RuleKind × Bytes)} (raw : Bytes)
      (rule : Option (RuleKind × Bytes))
      → parse_line raw line ≡ ok rule
      → Says (line + 1) rest rules
      → Says line (raw ∷ rest) (cons_rule rule rules)

-- The domains of the rules of one kind, in their order.
abbrev pub blocked_exact : List (RuleKind × Bytes) → List Bytes
blocked_exact [] = []
blocked_exact ((block_exact, domain) ∷ rules) = domain ∷ blocked_exact rules
blocked_exact ((block_suffix, domain) ∷ rules) = blocked_exact rules
blocked_exact ((allow_suffix, domain) ∷ rules) = blocked_exact rules

abbrev pub blocked_suffix : List (RuleKind × Bytes) → List Bytes
blocked_suffix [] = []
blocked_suffix ((block_exact, domain) ∷ rules) = blocked_suffix rules
blocked_suffix ((block_suffix, domain) ∷ rules) = domain ∷ blocked_suffix rules
blocked_suffix ((allow_suffix, domain) ∷ rules) = blocked_suffix rules

abbrev pub allowed_suffix : List (RuleKind × Bytes) → List Bytes
allowed_suffix [] = []
allowed_suffix ((block_exact, domain) ∷ rules) = allowed_suffix rules
allowed_suffix ((block_suffix, domain) ∷ rules) = allowed_suffix rules
allowed_suffix ((allow_suffix, domain) ∷ rules) = domain ∷ allowed_suffix rules

-- The rules behind those that were taken before.
pub record IsTaken (c : Compiling) (rules : List (RuleKind × Bytes)) (c' : Compiling) : Type 0 where
  pub exact : c'.blocked_exact ≡ c.blocked_exact ++ blocked_exact rules
  pub suffix : c'.blocked_suffix ≡ c.blocked_suffix ++ blocked_suffix rules
  pub allowed : c'.allowed_suffix ≡ c.allowed_suffix ++ allowed_suffix rules

add_rule-IsTaken :
    (rule : Option (RuleKind × Bytes)) (line : ℕ) (c d c' : Compiling)
    (rules : List (RuleKind × Bytes))
    → add_rule rule line (count_line c) ≡ ok d
    → IsTaken d rules c'
    → IsTaken c (cons_rule rule rules) c'
unfolding add_rule enforce_entry_limit
add_rule-IsTaken none line c d c' rules e h = record {
  exact = cc h.exact;
  suffix = cc h.suffix;
  allowed = cc h.allowed;
}
add_rule-IsTaken (some (block_exact, domain)) line c d c' rules e h =
    let (_, e) =
      refuse_if-eq-ok (leb max_blocklist_entries (entries (count_line c))) (at line) _ e in
    record {
      exact = cc (h.exact, append_assoc c.blocked_exact (domain ∷ []) (blocked_exact rules));
      suffix = cc h.suffix;
      allowed = cc h.allowed;
    }
add_rule-IsTaken (some (block_suffix, domain)) line c d c' rules e h =
    let (_, e) =
      refuse_if-eq-ok (leb max_blocklist_entries (entries (count_line c))) (at line) _ e in
    record {
      exact = cc h.exact;
      suffix = cc (h.suffix, append_assoc c.blocked_suffix (domain ∷ []) (blocked_suffix rules));
      allowed = cc h.allowed;
    }
add_rule-IsTaken (some (allow_suffix, domain)) line c d c' rules e h =
    let (_, e) =
      refuse_if-eq-ok (leb max_blocklist_entries (entries (count_line c))) (at line) _ e in
    record {
      exact = cc h.exact;
      suffix = cc h.suffix;
      allowed = cc (h.allowed, append_assoc c.allowed_suffix (domain ∷ []) (allowed_suffix rules));
    }

pub compile_lines-IsTaken :
    (line : ℕ) (rest : List Bytes) (c c' : Compiling)
    → compile_lines line rest c ≡ ok c'
    → (rules : List (RuleKind × Bytes)) × Says line rest rules × IsTaken c rules c'
unfolding compile_lines
compile_lines-IsTaken line [] c c' e =
    let same : c ≡ c' = cc in
    (
      [],
      nothing,
      rw (← same) (record {
        exact = sym (append-nil c.blocked_exact);
        suffix = sym (append-nil c.blocked_suffix);
        allowed = sym (append-nil c.allowed_suffix);
      }),
    )
compile_lines-IsTaken line (raw ∷ rest) c c' e =
    let (rule, read, e) = >>=-eq-ok (parse_line raw line) _ e in
    let (d, added, e) = >>=-eq-ok (add_rule rule line (count_line c)) _ e in
    let (rules, said, taken) = compile_lines-IsTaken (line + 1) rest d c' e in
    (
      cons_rule rule rules,
      says raw rule read said,
      add_rule-IsTaken rule line c d c' rules added taken,
    )

apart : false ≡ true → ⊥
apart e = cc

is_blocked_iff :
    {P Q : Type 0} (a b : Bool)
    → (a ≡ true) ↔ P
    → (b ≡ true) ↔ Q
    → ((a && not b) ≡ true) ↔ (P × (¬ Q))
is_blocked_iff false b p q = (λ e. absurd (apart e), λ h. absurd (apart (p.1 h.0)))
is_blocked_iff true true p q = (λ e. absurd (apart e), λ h. absurd (h.1 (q.0 refl)))
is_blocked_iff true false p q = (λ e. (p.0 refl, λ h. absurd (apart (q.1 h))), λ h. refl)

-- A list that compiles blocks a domain exactly if, of the rules that its lines say, those that block
-- match the domain, an exact name or one that it is below, and those that allow do not.
pub compile_blocklist-is_blocked :
    (text domain : Bytes) (compiled : CompiledBlocklist)
    → compile_blocklist text ≡ ok compiled
    → (rules : List (RuleKind × Bytes)) × Says 1 (lines text) rules
      × ((is_blocked compiled.filter domain ≡ true) ↔ (
          (IsQuery (query domain)
            × IsListed (blocked_exact rules) (blocked_suffix rules) (query domain))
          × (¬ (IsQuery (query domain) × IsListed [] (allowed_suffix rules) (query domain)))))
unfolding compile_blocklist compile_sets is_blocked
compile_blocklist-is_blocked text domain compiled e =
    let (_, e) = refuse_if-eq-ok (ltb max_blocklist_bytes (length text)) _ _ e in
    let (c, read, e) = >>=-eq-ok (compile_lines 1 (lines text) no_rules) _ e in
    let (rules, said, taken) = compile_lines-IsTaken 1 (lines text) no_rules c read in
    let (blocked, b, e) = >>=-eq-ok (ok_or global (compile c.blocked_exact c.blocked_suffix)) _ e in
    let (allowed, a, e) = >>=-eq-ok (ok_or global (compile [] c.allowed_suffix)) _ e in
    let listed : compile (blocked_exact rules) (blocked_suffix rules) ≡ some blocked =
      cc (taken.exact, taken.suffix, ok_or-eq-ok _ _ _ b) in
    let excepted : compile [] (allowed_suffix rules) ≡ some allowed =
      cc (taken.allowed, ok_or-eq-ok _ _ _ a) in
    let filter : record { blocked = blocked; allowed = allowed } ≡ compiled.filter = cc in
    (
      rules,
      said,
      rw (← filter) (
          is_blocked_iff (matches blocked domain) (matches allowed domain)
            (compile-matches (blocked_exact rules) (blocked_suffix rules) domain listed)
            (compile-matches [] (allowed_suffix rules) domain excepted)),
    )
