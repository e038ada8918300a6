-- ===== src/Config/Assets.antt =====
-- crates/daemon/src/config.rs: the files that a configuration names.
use commeatus.Prelude.{ℕ, ltb, if◌then◌else◌, Bytes}
use commeatus.Blocklist.{CompiledBlocklist, compile_blocklist, max_blocklist_bytes}
use commeatus.Dns.Engine.{Hosts}
use commeatus.Dns.Hosts.{parse_hosts, max_hosts_bytes}
use commeatus.Outcome.{Outcome, ok, err, ◌>>=◌, ◌>>◌, refuse_if, ok_or}
use commeatus.Config.{Surroundings, ConfigError, at}

-- `map_err` to the line of the directive
abbrev pub at_line : {E A : Type 0} → ℕ → Outcome E A → Outcome ConfigError A
at_line line (err _) = err (at line)
at_line line (ok value) = ok value

module _ {Session Association FilePath : Type 0}
    (host : Surroundings Session Association FilePath) where
  unfoldable pub resolve_asset_path : FilePath → Bytes → FilePath
  resolve_asset_path root value =
      if host.is_absolute value then host.to_path value else host.join root value

  unfoldable pub read_bounded_asset : FilePath → ℕ → ℕ → Outcome ConfigError Bytes
  read_bounded_asset path max_bytes line = do
    size ← ok_or (at line) (host.file_size path)
    refuse_if (ltb max_bytes size) (at line)
    ok_or (at line) (host.read_to_string path)

  unfoldable pub load_blocklist : FilePath → ℕ → Outcome ConfigError CompiledBlocklist
  load_blocklist path line = do
    text ← read_bounded_asset path max_blocklist_bytes line
    at_line line (compile_blocklist text)

  unfoldable pub load_hosts : FilePath → ℕ → Outcome ConfigError Hosts
  load_hosts path line = do
    text ← read_bounded_asset path max_hosts_bytes line
    at_line line (parse_hosts text)
