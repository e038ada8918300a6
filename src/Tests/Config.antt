-- ===== src/Tests/Config.antt =====
-- Configurations, on concrete texts.
use commeatus.Config.Private.{parse_config_at-IsLocal, IsLocal, IsSilent}
use commeatus.DomainSet
use commeatus.Prelude.{ap, ◌∙◌, length, map, NoDup, All, ◌≤◌}
use commeatus.Flow.{FlowContext, domain, unknown, TransportProtocol}
use commeatus.Plan.{proxy, ExecutionAction}
use commeatus.Policy.{plan}
use commeatus.Outbound.{contains}
use commeatus.Text.Lines.{lines}
use commeatus.Config.Compile.{start, snapshot, new_at, reload, ConfigStore}
use commeatus.Config.{CompiledConfig, at}
use commeatus.Policy.{decide, decision, execute, matches, new_engine, sort_by_rank, insert}
use commeatus.Config.Limits.{parse_config_at-length}
use commeatus.Config.Listeners.{parse_config_at-binding, binding, HasPort}
use commeatus.Config.Errors.First.{parse_config_at-IsFirst, IsFirst}
use commeatus.Config.Reload.{snapshot-contains, reload-err, created, reloaded}
use commeatus.Config.Compile.{make_dns}
use commeatus.Text.Hostname.{hostname}
use commeatus.Text.{trim}
use commeatus.Text.{trim_end}
use commeatus.Text.{trim_start}
use commeatus.Text.{is_ascii}
use commeatus.Blocklist.{add_rule}
use commeatus.Blocklist.{enforce_entry_limit}
use commeatus.Blocklist.{compile_sets}
use commeatus.DomainSet.{compile}
use commeatus.Config.Compile.{finish}
use commeatus.Config.Compile.{check_parsed}
use commeatus.Ip.{is_loopback}
use commeatus.Outbound.{new_registry}
use commeatus.Outbound.{add_endpoints}
use commeatus.Config.Compile.{all_defined}
use commeatus.Config.{insert_id}
use commeatus.Config.Directives.{blocklist_directive}
use commeatus.Config.Assets.{load_blocklist}
use commeatus.Config.Assets.{read_bounded_asset}
use commeatus.Blocklist.{compile_blocklist}
use commeatus.Blocklist.{compile_lines}
use commeatus.Blocklist.{parse_line}
use commeatus.Blocklist.{parse_allow_suffix}
use commeatus.Blocklist.{enclosed}
use commeatus.Blocklist.{parse_block_suffix}
use commeatus.Blocklist.{parse_fields}
use commeatus.Blocklist.{hosts_loop}
use commeatus.Blocklist.{is_localhost_alias}
use commeatus.Text.{eq_ignore_ascii_case}
use commeatus.Text.{to_ascii_lowercase}
use commeatus.Text.{lower}
use commeatus.Blocklist.{parse_domain}
use commeatus.Config.Endpoints.{endpoint_directive}
use commeatus.Plan.{new_endpoint_id}
use commeatus.Config.Endpoints.{make_endpoint}
use commeatus.Config.Endpoints.{stream_endpoint}
use commeatus.Config.Endpoints.{stream_protocol}
use commeatus.Config.Endpoints.{parse_tcp_transport}
use commeatus.Config.Endpoints.{parse_proxy_address}
use commeatus.Config.Directives.{default_directive}
use commeatus.Config.Action.{parse_action}
use commeatus.Text.Lines.{strip_prefix}
use commeatus.Config.Directives.{rule_directive}
use commeatus.Config.Action.{ensure_rule_capacity}
use commeatus.Config.Action.{parse_rule}
use commeatus.Config.Action.{parse_matcher}
use commeatus.Config.Action.{parse_value_matcher}
use commeatus.Text.Number.{parse_uint}
use commeatus.Config.Compile.{parse_lines}
use commeatus.Text.Lines.{lines}
use commeatus.Config.Compile.{directive}
use commeatus.Config.Compile.{line_fields}
use commeatus.Text.Lines.{trim_space}
use commeatus.Text.Lines.{before}
use commeatus.Text.{split}
use commeatus.Text.Lines.{split_whitespace}
use commeatus.Config.Directives.{version_directive}
use commeatus.Config.Action.{expect_fields}
use commeatus.Config.Directives.{listen_directive}
use commeatus.Config.Directives.{parse_listener_protocol}
use commeatus.Ip.Socket.Text.{parse_socket}
use commeatus.Text.{split_once}
use commeatus.Ip.Parse.{parse_ip}
use commeatus.Text.Number.{digits}
use commeatus.Prelude.{ℕ, ◌≡◌, refl, Bool, true, false, none, some, [], ◌++◌, Bytes, bytes, eqb}
use commeatus.Io
use commeatus.Io.{Result, unsupported}
use commeatus.Dns.Answer
use commeatus.Dns.Answer.{resolver_failure}
use commeatus.Outcome.{Outcome, ok, err}
use commeatus.Config.{Surroundings, ConfigError}
use commeatus.Config.Compile.{parse_config_at}

abbrev host : Surroundings ℕ ℕ Bytes
host = record {
  is_absolute = λ text. false;
  to_path = λ text. text;
  join = λ root text. root ++ text;
  same_path = eqb;
  file_size = λ path. some 19;
  read_to_string = λ path. some (bytes "0.0.0.0 ads.example");
  system_resolver = λ name. Answer.err resolver_failure;
  dot_resolver = λ address name. none;
  tcp_transport = λ address. Io.ok 1;
  tls_transport = λ address name. none;
  sha224 = λ password. password;
  socks5_handshake = λ session target. (Io.ok tt, session);
  http_handshake = λ session target. (Io.ok tt, session);
  trojan_handshake = λ verifier session target. (Io.ok tt, session);
  trojan_datagram = λ verifier session. Io.err unsupported;
}

abbrev small : Bytes
small =
    bytes
      "version 1\nlisten socks5 127.0.0.1:1080\nendpoint p http 10.0.0.1:80 # up\n\ndefault proxy:p\nrule direct port 53\nblocklist /b\n"

abbrev is_ok : {A : Type 0} → Outcome ConfigError A → Bool
is_ok (ok _) = true
is_ok (err _) = false

small_passes : is_ok (parse_config_at host [] small) ≡ true
unfolding eqb parse_config_at parse_lines lines directive line_fields trim_space before split
    split_whitespace version_directive expect_fields listen_directive parse_listener_protocol
    parse_socket split_once parse_ip digits endpoint_directive new_endpoint_id make_endpoint
    stream_endpoint stream_protocol parse_tcp_transport parse_proxy_address default_directive
    parse_action strip_prefix rule_directive ensure_rule_capacity parse_rule parse_matcher
    parse_value_matcher parse_uint blocklist_directive load_blocklist read_bounded_asset
    compile_blocklist compile_lines parse_line parse_allow_suffix enclosed parse_block_suffix
    parse_fields hosts_loop is_localhost_alias eq_ignore_ascii_case to_ascii_lowercase lower
    parse_domain hostname trim trim_end trim_start is_ascii add_rule enforce_entry_limit
    compile_sets compile finish check_parsed is_loopback new_registry add_endpoints all_defined
    insert_id make_dns
small_passes = refl

never : false ≡ true → ⊥
never e = cc

-- What a configuration that passes is.
abbrev value : {A : Type 0} (r : Outcome ConfigError A) → is_ok r ≡ true → A
value (ok a) e = a
value (err _) e = absurd (never e)

value-eq : {A : Type 0} (r : Outcome ConfigError A) (e : is_ok r ≡ true) → r ≡ ok (value r e)
value-eq (ok a) e = refl
value-eq (err _) e = absurd (cc e)

abbrev small_config : CompiledConfig ℕ ℕ Bytes
small_config = value (parse_config_at host [] small) small_passes

small_accepted : parse_config_at host [] small ≡ ok small_config
small_accepted = value-eq (parse_config_at host [] small) small_passes

parse_config_at-length_example :
    (length small ≤ 1048576)
    × (1 ≤ length small_config.listeners)
    × (length small_config.listeners ≤ 16)
    × (length small_config.runtime.rules ≤ 4096)
    × (length small_config.outbounds ≤ 64)
    × (length small_config.blocklists ≤ 8)
    × (length small_config.hosts ≤ 4)
    × (1 ≤ length small_config.dns.resolvers)
parse_config_at-length_example = parse_config_at-length host [] small small_config small_accepted

parse_config_at-binding_example :
    NoDup (map binding small_config.listeners) × All HasPort small_config.listeners
parse_config_at-binding_example = parse_config_at-binding host [] small small_config small_accepted

abbrev web : FlowContext
web = record {
  id = 1;
  source = record { uid = none; package_name = none };
  destination = record { host = domain (bytes "site.example"); port = 443 };
  transport = TransportProtocol.tcp;
  network = record { kind = unknown; interface = none };
}

abbrev p : Bytes
p = bytes "p"

web_routed : (plan small_config.runtime web).action ≡ ExecutionAction.route (proxy p)
unfolding DomainSet.is_blocked DomainSet.matches plan decide decision execute matches new_engine
    sort_by_rank insert eqb parse_config_at parse_lines lines directive line_fields trim_space
    before split split_whitespace version_directive expect_fields listen_directive
    parse_listener_protocol parse_socket split_once parse_ip digits endpoint_directive
    new_endpoint_id make_endpoint stream_endpoint stream_protocol parse_tcp_transport
    parse_proxy_address default_directive parse_action strip_prefix rule_directive
    ensure_rule_capacity parse_rule parse_matcher parse_value_matcher parse_uint blocklist_directive
    load_blocklist read_bounded_asset compile_blocklist compile_lines parse_line parse_allow_suffix
    enclosed parse_block_suffix parse_fields hosts_loop is_localhost_alias eq_ignore_ascii_case
    to_ascii_lowercase lower parse_domain hostname trim trim_end trim_start is_ascii add_rule
    enforce_entry_limit compile_sets compile finish check_parsed is_loopback new_registry
    add_endpoints all_defined insert_id make_dns
web_routed = refl

abbrev bad : Bytes
bad = bytes "version 1\nlisten socks5 127.0.0.1:0\n"

bad_refused : parse_config_at host [] bad ≡ err (at 2)
unfolding eqb parse_config_at parse_lines lines directive line_fields trim_space before split
    split_whitespace version_directive expect_fields listen_directive parse_listener_protocol
    parse_socket split_once parse_ip digits endpoint_directive new_endpoint_id make_endpoint
    stream_endpoint stream_protocol parse_tcp_transport parse_proxy_address default_directive
    parse_action strip_prefix rule_directive ensure_rule_capacity parse_rule parse_matcher
    parse_value_matcher parse_uint blocklist_directive load_blocklist read_bounded_asset
    compile_blocklist compile_lines parse_line parse_allow_suffix enclosed parse_block_suffix
    parse_fields hosts_loop is_localhost_alias eq_ignore_ascii_case to_ascii_lowercase lower
    parse_domain hostname trim trim_end trim_start is_ascii add_rule enforce_entry_limit
    compile_sets compile finish check_parsed is_loopback new_registry add_endpoints all_defined
    insert_id make_dns
bad_refused = refl

parse_config_at-IsFirst_example : IsFirst host [] 1 (lines bad) start (at 2) 2
parse_config_at-IsFirst_example = parse_config_at-IsFirst host [] bad (at 2) 2 bad_refused refl

abbrev store : ConfigStore ℕ ℕ Bytes
store = record { active = small_config; asset_root = [] }

store_created : new_at host small [] ≡ ok store
unfolding new_at
store_created = rw small_accepted refl

abbrev reloaded_store : ConfigStore ℕ ℕ Bytes
reloaded_store = (reload host store bad).1

unchanged : reloaded_store ≡ store
unchanged = ap (λ pair. pair.1) (reload-err host bad store (at 2) bad_refused)

still : (plan (snapshot reloaded_store).runtime web).action ≡ ExecutionAction.route (proxy p)
still =
    ap (λ (s : ConfigStore ℕ ℕ Bytes). (plan (snapshot s).runtime web).action) unchanged
    ∙ web_routed

snapshot-contains_example : contains (snapshot reloaded_store).outbounds p ≡ true
snapshot-contains_example =
    snapshot-contains [] reloaded_store web p (reloaded host bad (created host small store_created))
      still

abbrev local : Bytes
local = bytes "version 1\nlisten http [::1]:80\ndefault direct"

local_passes : is_ok (parse_config_at host [] local) ≡ true
unfolding eqb parse_config_at parse_lines lines directive line_fields trim_space before split
    split_whitespace version_directive expect_fields listen_directive parse_listener_protocol
    parse_socket split_once parse_ip digits endpoint_directive new_endpoint_id make_endpoint
    stream_endpoint stream_protocol parse_tcp_transport parse_proxy_address default_directive
    parse_action strip_prefix rule_directive ensure_rule_capacity parse_rule parse_matcher
    parse_value_matcher parse_uint blocklist_directive load_blocklist read_bounded_asset
    compile_blocklist compile_lines parse_line parse_allow_suffix enclosed parse_block_suffix
    parse_fields hosts_loop is_localhost_alias eq_ignore_ascii_case to_ascii_lowercase lower
    parse_domain hostname trim trim_end trim_start is_ascii add_rule enforce_entry_limit
    compile_sets compile finish check_parsed is_loopback new_registry add_endpoints all_defined
    insert_id make_dns
local_passes = refl

abbrev local_config : CompiledConfig ℕ ℕ Bytes
local_config = value (parse_config_at host [] local) local_passes

local-IsSilent : All (λ raw. IsSilent (line_fields raw)) (lines local)
unfolding lines line_fields trim_space before split split_whitespace
local-IsSilent = (λ e. cc e, (λ e. cc e, (λ e. cc e, tt)))

parse_config_at-IsLocal_example : All IsLocal local_config.listeners
parse_config_at-IsLocal_example =
    parse_config_at-IsLocal host [] local local_config local-IsSilent
      (value-eq (parse_config_at host [] local) local_passes)
