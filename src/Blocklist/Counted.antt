-- ===== src/Blocklist/Counted.antt =====
-- What the statistics of a list count, and the limit on its entries.
use commeatus.Prelude.{
  ℕ, ◌+◌, ◌≤◌, ◌≡◌, refl, ap, false, Option, none, some, List, [], ◌∷◌, ◌++◌, Bytes, length,
  length-append, arith, ltb, leb,
}
use commeatus.Text.Lines.{lines}
use commeatus.DomainSet.{compile}
use commeatus.Outcome.{ok, >>=-eq-ok, refuse_if-eq-ok, ok_or}
use commeatus.Blocklist.Blocked.{
  Says, blocked_exact, blocked_suffix, allowed_suffix, compile_lines-IsTaken,
}
use commeatus.Blocklist.{
  RuleKind, block_exact, block_suffix, allow_suffix, at, global, max_blocklist_entries,
  max_blocklist_bytes, Compiling, count_line, entries, no_rules, parse_line, add_rule,
  enforce_entry_limit, compile_lines, compile_sets, compile_blocklist, CompiledBlocklist,
}

-- After `n` lines.
record IsCounted (n : ℕ) (c : Compiling) : Type 0 where
  lines_read : c.stats.source_lines ≡ n
  blocking : c.stats.accepted_block ≡ length c.blocked_exact + length c.blocked_suffix
  allowing : c.stats.accepted_allow ≡ length c.allowed_suffix
  total : c.stats.accepted_block + c.stats.accepted_allow + c.stats.ignored ≡ n
  bounded : entries c ≤ max_blocklist_entries

length-push : (x : Bytes) (xs : List Bytes) → length (xs ++ (x ∷ [])) ≡ length xs + 1
length-push x xs = omega (arith, length-append xs (x ∷ []))

room : (n : ℕ) → leb max_blocklist_entries n ≡ false → n + 1 ≤ max_blocklist_entries
room n e = ground arith

add_rule-IsCounted :
    (rule : Option (RuleKind × Bytes)) (line n : ℕ) (c d : Compiling)
    → add_rule rule line (count_line c) ≡ ok d
    → IsCounted n c
    → IsCounted (n + 1) d
unfolding add_rule enforce_entry_limit
add_rule-IsCounted none line n c d e h = ground (arith, e, h)
add_rule-IsCounted (some (block_exact, x)) line n c d e h =
    let (free, e) =
      refuse_if-eq-ok (leb max_blocklist_entries (entries (count_line c))) (at line) _ e in
    let fits = room (entries c) free in
    let longer = length-push x c.blocked_exact in ground (arith, e, fits, longer, h)
add_rule-IsCounted (some (block_suffix, x)) line n c d e h =
    let (free, e) =
      refuse_if-eq-ok (leb max_blocklist_entries (entries (count_line c))) (at line) _ e in
    let fits = room (entries c) free in
    let longer = length-push x c.blocked_suffix in ground (arith, e, fits, longer, h)
add_rule-IsCounted (some (allow_suffix, x)) line n c d e h =
    let (free, e) =
      refuse_if-eq-ok (leb max_blocklist_entries (entries (count_line c))) (at line) _ e in
    let fits = room (entries c) free in
    let longer = length-push x c.allowed_suffix in ground (arith, e, fits, longer, h)

compile_lines-IsCounted :
    (line n : ℕ) (rest : List Bytes) (c c' : Compiling)
    → compile_lines line rest c ≡ ok c'
    → IsCounted n c
    → IsCounted (n + length rest) c'
unfolding compile_lines
compile_lines-IsCounted line n [] c c' e h =
    let same : c ≡ c' = cc in let none_left : n ≡ n + 0 = omega arith in rw (← same, ← none_left) h
compile_lines-IsCounted line n (raw ∷ rest) c c' e h =
    let (rule, _, e) = >>=-eq-ok (parse_line raw line) _ e in
    let (d, added, e) = >>=-eq-ok (add_rule rule line (count_line c)) _ e in
    let one = add_rule-IsCounted rule line n c d added h in
    let all = compile_lines-IsCounted (line + 1) (n + 1) rest d c' e one in
    let same : n + 1 + length rest ≡ n + length (raw ∷ rest) = omega arith in rw same at all

length_by_kind :
    (rules : List (RuleKind × Bytes))
    → length rules
      ≡ length (blocked_exact rules) + length (blocked_suffix rules) + length (allowed_suffix rules)
length_by_kind [] = refl
length_by_kind ((block_exact, domain) ∷ rules) = omega (arith, length_by_kind rules)
length_by_kind ((block_suffix, domain) ∷ rules) = omega (arith, length_by_kind rules)
length_by_kind ((allow_suffix, domain) ∷ rules) = omega (arith, length_by_kind rules)

-- The statistics of a list that compiles count what its lines say: all the lines, the rules of the
-- lines that block, exact names and suffixes, the rules that allow, and the lines without a rule. The
-- rules are at most 250,000.
pub compile_blocklist-stats :
    (text : Bytes) (compiled : CompiledBlocklist)
    → compile_blocklist text ≡ ok compiled
    → let stats = compiled.stats in
      (rules : List (RuleKind × Bytes)) × Says 1 (lines text) rules
      × (stats.source_lines ≡ length (lines text))
      × (stats.accepted_block ≡ length (blocked_exact rules) + length (blocked_suffix rules))
      × (stats.accepted_allow ≡ length (allowed_suffix rules))
      × (stats.ignored + length rules ≡ length (lines text))
      × (length rules ≤ 250000)
unfolding compile_blocklist compile_sets
compile_blocklist-stats text compiled e =
    let (_, e) = refuse_if-eq-ok (ltb max_blocklist_bytes (length text)) _ _ e in
    let (c, read, e) = >>=-eq-ok (compile_lines 1 (lines text) no_rules) _ e in
    let start : IsCounted 0 no_rules = ground arith in
    let h = compile_lines-IsCounted 1 0 (lines text) no_rules c read start in
    let (rules, said, taken) = compile_lines-IsTaken 1 (lines text) no_rules c read in
    let (blocked, b, e) = >>=-eq-ok (ok_or global (compile c.blocked_exact c.blocked_suffix)) _ e in
    let (allowed, a, e) = >>=-eq-ok (ok_or global (compile [] c.allowed_suffix)) _ e in
    let same : c.stats ≡ compiled.stats = cc in
    let exact = ap (λ (xs : List Bytes). length xs) taken.exact in
    let suffix = ap (λ (xs : List Bytes). length xs) taken.suffix in
    let allow = ap (λ (xs : List Bytes). length xs) taken.allowed in
    let all = length_by_kind rules in
    rw (← same) (
      rules,
      said,
      omega (arith, h.lines_read),
      omega (arith, h),
      omega (arith, h),
      omega (arith, h),
      omega (arith, h),
    )
