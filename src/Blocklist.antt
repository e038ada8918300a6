-- ===== src/Blocklist.antt =====
-- crates/compat/src/lib.rs: lists of blocked domains, compiled into filters. Of an error, the model
-- has the line.
pub mod Blocked
pub mod Counted
use commeatus.Prelude.{
  ℕ, ◌+◌, ◌*◌, Bool, true, false, not, ◌||◌, Option, none, some, List, [], ◌∷◌, ◌++◌, ltb, leb,
  ◌==◌, if◌then◌else◌, Bytes, bytes, length,
}
use commeatus.Text.{dot, eq_ignore_ascii_case, trim, to_ascii_lowercase, is_ascii, split}
use commeatus.Text.Hostname.{hostname, is_empty}
use commeatus.Text.Lines.{lines, split_whitespace, trim_space, before, strip_prefix, strip_suffix}
use commeatus.Ip.Parse.{parse_ip}
use commeatus.DomainSet.{DomainFilter, DomainSet, compile}
use commeatus.Outcome.{Outcome, ok, err, ◌>>=◌, ◌>>◌, refuse_if, ok_or}

abbrev pub max_blocklist_bytes : ℕ
max_blocklist_bytes = 8 * 1024 * 1024

abbrev pub max_blocklist_entries : ℕ
max_blocklist_entries = 250000

pub record BlocklistStats : Type 0 where
  pub source_lines : ℕ
  pub accepted_block : ℕ
  pub accepted_allow : ℕ
  pub ignored : ℕ

pub record CompiledBlocklist : Type 0 where
  pub filter : DomainFilter
  pub stats : BlocklistStats

pub record BlocklistError : Type 0 where
  pub line : Option ℕ

abbrev pub global : BlocklistError
global = record { line = none }

abbrev pub at : ℕ → BlocklistError
at line = record { line = some line }

pub data RuleKind : Type 0 where
  block_exact block_suffix allow_suffix : RuleKind

unfoldable pub parse_domain : Bytes → ℕ → Outcome BlocklistError Bytes
parse_domain value line = ok_or (at line) (hostname value)

unfoldable pub is_localhost_alias : Bytes → Bool
is_localhost_alias value =
    eq_ignore_ascii_case value (bytes "localhost")
    || eq_ignore_ascii_case value (bytes "localhost.localdomain")
    || eq_ignore_ascii_case value (bytes "broadcasthost")
    || eq_ignore_ascii_case value (bytes "ip6-localhost")
    || eq_ignore_ascii_case value (bytes "ip6-loopback")

-- The loop over the hosts behind an address.
unfoldable pub hosts_loop : Option Bytes → List Bytes → ℕ → Outcome BlocklistError (Option Bytes)
hosts_loop accepted [] line = ok accepted
hosts_loop accepted (host ∷ hosts) line =
    let skipped = hosts_loop accepted hosts line in
    let taken = parse_domain host line >>= λ name. hosts_loop (some name) hosts line in
    if is_localhost_alias host
    then skipped
    else elim accepted [ some _ ↦ err (at line) | none ↦ taken ]

abbrev exact : Bytes → RuleKind × Bytes
exact name = (block_exact, name)

abbrev pub map_option : {A B : Type 0} → (A → B) → Option A → Option B
map_option f none = none
map_option f (some a) = some (f a)

-- A line of one domain, or of an address and its hosts.
unfoldable pub parse_fields : List Bytes → ℕ → Outcome BlocklistError (Option (RuleKind × Bytes))
parse_fields [] line = ok none
parse_fields (first ∷ fields) line = elim (parse_ip first) [
  | some _ ↦ do accepted ← hosts_loop none fields line; ok (map_option exact accepted)
  | none ↦ elim fields [
    | _ ∷ _ ↦ err (at line)
    | [] ↦ do name ← parse_domain first line; ok (some (block_exact, name))
  ]
]

-- `||domain^`
unfoldable pub parse_block_suffix :
    Option Bytes → Bytes → ℕ → Outcome BlocklistError (Option (RuleKind × Bytes))
parse_block_suffix (some domain) value line = do
  name ← parse_domain domain line
  ok (some (block_suffix, name))
parse_block_suffix none value line =
    parse_fields (split_whitespace (trim_space (before b'#' value))) line

-- The text between a prefix and `^`.
unfoldable pub enclosed : Bytes → Bytes → Option Bytes
enclosed prefix value = elim (strip_prefix prefix value) [
  | none ↦ none
  | some rest ↦ strip_suffix (bytes "^") rest
]

-- `@@||domain^`
unfoldable pub parse_allow_suffix :
    Option Bytes → Bytes → ℕ → Outcome BlocklistError (Option (RuleKind × Bytes))
parse_allow_suffix (some domain) value line = do
  name ← parse_domain domain line
  ok (some (allow_suffix, name))
parse_allow_suffix none value line = parse_block_suffix (enclosed (bytes "||") value) value line

abbrev starts_comment : Bytes → Bool
starts_comment [] = true
starts_comment (c ∷ cs) = c == b'#' || c == b'!'

unfoldable pub parse_line : Bytes → ℕ → Outcome BlocklistError (Option (RuleKind × Bytes))
parse_line raw line =
    let value = trim_space raw in
    if starts_comment value
    then ok none
    else parse_allow_suffix (enclosed (bytes "@@||") value) value line

-- The lists and the counters of the loop.
pub record Compiling : Type 0 where
  pub blocked_exact : List Bytes
  pub blocked_suffix : List Bytes
  pub allowed_suffix : List Bytes
  pub stats : BlocklistStats

abbrev pub entries : Compiling → ℕ
entries c = length c.blocked_exact + length c.blocked_suffix + length c.allowed_suffix

unfoldable pub enforce_entry_limit : ℕ → ℕ → Outcome BlocklistError (Unit {0})
enforce_entry_limit current line = refuse_if (leb max_blocklist_entries current) (at line)

-- The `match` of the loop.
unfoldable pub add_rule :
    Option (RuleKind × Bytes) → ℕ → Compiling → Outcome BlocklistError Compiling
add_rule none line c = ok (record c { stats = record c.stats { ignored = c.stats.ignored + 1 } })
add_rule (some (block_exact, domain)) line c = do
  enforce_entry_limit (entries c) line
  ok (record c {
    blocked_exact = c.blocked_exact ++ (domain ∷ []);
    stats = record c.stats { accepted_block = c.stats.accepted_block + 1 };
  })
add_rule (some (block_suffix, domain)) line c = do
  enforce_entry_limit (entries c) line
  ok (record c {
    blocked_suffix = c.blocked_suffix ++ (domain ∷ []);
    stats = record c.stats { accepted_block = c.stats.accepted_block + 1 };
  })
add_rule (some (allow_suffix, domain)) line c = do
  enforce_entry_limit (entries c) line
  ok (record c {
    allowed_suffix = c.allowed_suffix ++ (domain ∷ []);
    stats = record c.stats { accepted_allow = c.stats.accepted_allow + 1 };
  })

abbrev pub count_line : Compiling → Compiling
count_line c = record c { stats = record c.stats { source_lines = c.stats.source_lines + 1 } }

-- The loop over the lines, with the number of the next one.
unfoldable pub compile_lines : ℕ → List Bytes → Compiling → Outcome BlocklistError Compiling
compile_lines line [] c = ok c
compile_lines line (raw ∷ rest) c = do
  rule ← parse_line raw line
  c' ← add_rule rule line (count_line c)
  compile_lines (line + 1) rest c'

abbrev pub no_rules : Compiling
no_rules = record {
  blocked_exact = [];
  blocked_suffix = [];
  allowed_suffix = [];
  stats = record { source_lines = 0; accepted_block = 0; accepted_allow = 0; ignored = 0 };
}

-- What stands behind the loop.
unfoldable pub compile_sets : Compiling → Outcome BlocklistError CompiledBlocklist
compile_sets c = do
  blocked ← ok_or global (compile c.blocked_exact c.blocked_suffix)
  allowed ← ok_or global (compile [] c.allowed_suffix)
  ok (record { filter = record { blocked = blocked; allowed = allowed }; stats = c.stats })

unfoldable pub compile_blocklist : Bytes → Outcome BlocklistError CompiledBlocklist
compile_blocklist text = do
  refuse_if (ltb max_blocklist_bytes (length text)) global
  c ← compile_lines 1 (lines text) no_rules
  compile_sets c
