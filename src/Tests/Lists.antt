-- ===== src/Tests/Lists.antt =====
-- Lists of blocked domains, on a concrete text.
use commeatus.Text.{is_ascii}
use commeatus.Text.{lower}
use commeatus.Text.{split}
use commeatus.Blocklist.{enforce_entry_limit}
use commeatus.Blocklist.{parse_fields}
use commeatus.Text.Lines.{split_whitespace}
use commeatus.Text.Lines.{before}
use commeatus.Ip.Parse.{parse_ip}
use commeatus.Blocklist.{hosts_loop}
use commeatus.Blocklist.{is_localhost_alias}
use commeatus.Text.{eq_ignore_ascii_case}
use commeatus.Blocklist.{compile_sets}
use commeatus.DomainSet.{compile}
use commeatus.Blocklist.{compile_lines}
use commeatus.Blocklist.{parse_line}
use commeatus.Text.Lines.{trim_space}
use commeatus.Blocklist.{add_rule}
use commeatus.Blocklist.{parse_allow_suffix}
use commeatus.Blocklist.{enclosed}
use commeatus.Text.Lines.{strip_prefix}
use commeatus.Blocklist.{parse_block_suffix}
use commeatus.Text.Lines.{strip_suffix}
use commeatus.Prelude.{eqb}
use commeatus.Blocklist.{parse_domain}
use commeatus.Text.Hostname.{hostname}
use commeatus.Text.{to_ascii_lowercase}
use commeatus.Text.{trim}
use commeatus.Text.{trim_end}
use commeatus.Text.{trim_start}
use commeatus.Prelude.{
  eqb, ◌+◌, ◌≤◌, ◌≡◌, ◌↔◌, refl, Bool, true, false, List, [], Bytes, bytes, length,
}
use commeatus.Text.Lines.{lines}
use commeatus.DomainSet.{is_blocked}
use commeatus.DomainSet.Matching.{IsQuery, IsListed, query}
use commeatus.Outcome.{Outcome, ok, err}
use commeatus.Blocklist.{RuleKind, CompiledBlocklist, BlocklistError, compile_blocklist}
use commeatus.Blocklist.Blocked.{
  Says, blocked_exact, blocked_suffix, allowed_suffix, compile_blocklist-is_blocked,
}
use commeatus.Blocklist.Counted.{compile_blocklist-stats}

abbrev list : Bytes
list = bytes "! ads\n||ads.example^\n@@||ok.ads.example^\n0.0.0.0 localhost t.example\n"

abbrev is_ok : {A : Type 0} → Outcome BlocklistError A → Bool
is_ok (ok _) = true
is_ok (err _) = false

never : false ≡ true → ⊥
never e = cc

abbrev value : {A : Type 0} (r : Outcome BlocklistError A) → is_ok r ≡ true → A
value (ok a) e = a
value (err _) e = absurd (never e)

value-eq : {A : Type 0} (r : Outcome BlocklistError A) (e : is_ok r ≡ true) → r ≡ ok (value r e)
value-eq (ok a) e = refl
value-eq (err _) e = absurd (never e)

list_passes : is_ok (compile_blocklist list) ≡ true
unfolding lines compile_blocklist compile_lines parse_line trim_space add_rule parse_allow_suffix
    enclosed strip_prefix parse_block_suffix strip_suffix eqb parse_domain hostname
    to_ascii_lowercase trim trim_end trim_start is_ascii lower split enforce_entry_limit
    parse_fields split_whitespace before parse_ip hosts_loop is_localhost_alias eq_ignore_ascii_case
    compile_sets compile
list_passes = refl

abbrev compiled : CompiledBlocklist
compiled = value (compile_blocklist list) list_passes

list-compiled : compile_blocklist list ≡ ok compiled
list-compiled = value-eq (compile_blocklist list) list_passes

abbrev site : Bytes
site = bytes "x.ads.example"

compile_blocklist-is_blocked_example :
    (rules : List (RuleKind × Bytes)) × Says 1 (lines list) rules
    × ((is_blocked compiled.filter site ≡ true) ↔ (
        (IsQuery (query site) × IsListed (blocked_exact rules) (blocked_suffix rules) (query site))
        × (¬ (IsQuery (query site) × IsListed [] (allowed_suffix rules) (query site)))))
compile_blocklist-is_blocked_example = compile_blocklist-is_blocked list site compiled list-compiled

compile_blocklist-stats_example :
    let stats = compiled.stats in
    (rules : List (RuleKind × Bytes)) × Says 1 (lines list) rules
    × (stats.source_lines ≡ length (lines list))
    × (stats.accepted_block ≡ length (blocked_exact rules) + length (blocked_suffix rules))
    × (stats.accepted_allow ≡ length (allowed_suffix rules))
    × (stats.ignored + length rules ≡ length (lines list))
    × (length rules ≤ 250000)
compile_blocklist-stats_example = compile_blocklist-stats list compiled list-compiled
