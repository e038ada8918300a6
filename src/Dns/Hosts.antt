-- ===== src/Dns/Hosts.antt =====
-- crates/dns/src/lib.rs: `HostsTable`, which parses hosts files and merges them. The map is the list
-- of its records. Of an error, the model has the line.
use commeatus.Prelude.{
  ℕ, ◌+◌, ◌*◌, Bool, true, false, Option, none, some, List, [], ◌∷◌, ◌++◌, ltb, leb, if◌then◌else◌,
  Bytes, eqb, length, any,
}
use commeatus.Text.Hostname.{hostname, is_empty}
use commeatus.Text.Lines.{lines, split_whitespace, trim_space, before}
use commeatus.Ip.{IpAddr, ip_eq}
use commeatus.Ip.Parse.{parse_ip}
use commeatus.Dns.Engine.{Hosts}
use commeatus.Outcome.{Outcome, ok, err, ◌>>=◌, ◌>>◌, refuse_if, ok_or}

abbrev pub max_hosts_bytes : ℕ
max_hosts_bytes = 4 * 1024 * 1024

abbrev pub max_hosts_entries : ℕ
max_hosts_entries = 100000

-- An error of the kind `HostsParse`, and the line in its message.
pub record HostsError : Type 0 where
  pub line : Option ℕ

abbrev pub hosts_error : ℕ → HostsError
hosts_error line = record { line = some line }

-- `if !addresses.contains(&address) { addresses.push(address) }`
unfoldable pub push_address : IpAddr → List IpAddr → List IpAddr
push_address address addresses =
    if any (ip_eq address) addresses then addresses else addresses ++ (address ∷ [])

-- `entry(name).or_default()`, and the push to what it gives.
unfoldable pub add_record : Bytes → IpAddr → Hosts → Hosts
add_record name address [] = (name, push_address address []) ∷ []
add_record name address ((key, addresses) ∷ records) =
    let rest = add_record name address records in
    if eqb key name
    then (key, push_address address addresses) ∷ records
    else (key, addresses) ∷ rest

-- The loop over the names of a line, with the entries so far.
unfoldable pub add_names : IpAddr → List Bytes → ℕ → Hosts × ℕ → Outcome HostsError (Hosts × ℕ)
add_names address [] line (table, entries) = ok (table, entries)
add_names address (name ∷ names) line (table, entries) = do
  refuse_if (leb max_hosts_entries entries) (hosts_error line)
  key ← ok_or (hosts_error line) (hostname name)
  add_names address names line (add_record key address table, entries + 1)

abbrev no_names : List Bytes → Bool
no_names [] = true
no_names (name ∷ names) = false

-- One line that is not empty.
unfoldable pub add_fields : List Bytes → ℕ → Hosts × ℕ → Outcome HostsError (Hosts × ℕ)
add_fields [] line state = err (hosts_error line)
add_fields (first ∷ names) line state = do
  address ← ok_or (hosts_error line) (parse_ip first)
  state' ← add_names address names line state
  refuse_if (no_names names) (hosts_error line)
  ok state'

unfoldable pub add_line : Bytes → ℕ → Hosts × ℕ → Outcome HostsError (Hosts × ℕ)
add_line raw line state =
    let text = trim_space (before b'#' raw) in
    if is_empty text then ok state else add_fields (split_whitespace text) line state

-- The loop over the lines, with the number of the next one.
unfoldable pub add_lines : ℕ → List Bytes → Hosts × ℕ → Outcome HostsError (Hosts × ℕ)
add_lines line [] state = ok state
add_lines line (raw ∷ rest) state = do
  state' ← add_line raw line state
  add_lines (line + 1) rest state'

-- `HostsTable::parse`
unfoldable pub parse_hosts : Bytes → Outcome HostsError Hosts
parse_hosts text = do
  refuse_if (ltb max_hosts_bytes (length text)) (record { line = none })
  (table, _) ← add_lines 1 (lines text) ([], 0)
  ok table

-- The addresses that `merge` pushes to a name. A name without any gets an entry all the same.
unfoldable pub push_all : List IpAddr → List IpAddr → List IpAddr
push_all [] current = current
push_all (address ∷ incoming) current = push_all incoming (push_address address current)

unfoldable pub merge_record : Bytes → List IpAddr → Hosts → Hosts
merge_record name incoming [] = (name, push_all incoming []) ∷ []
merge_record name incoming ((key, addresses) ∷ records) =
    let rest = merge_record name incoming records in
    if eqb key name then (key, push_all incoming addresses) ∷ records else (key, addresses) ∷ rest

-- `HostsTable::merge`
unfoldable pub merge : Hosts → Hosts → Hosts
merge table [] = table
merge table ((name, incoming) ∷ other) = merge (merge_record name incoming table) other
