-- ===== src/Tests/Connect.antt =====
-- The authority of a CONNECT request to a name.
use commeatus.Prelude.{◌≡◌, refl, bytes}
use commeatus.Text
use commeatus.Text.Number
use commeatus.Ip.Parse
use commeatus.Io.{ok}
use commeatus.Flow.{domain}
use commeatus.Target
use commeatus.Target.{Target}
use commeatus.HttpConnect
use commeatus.HttpConnect.{parse_authority, IsConnectHost, parse_authority-IsConnectHost}

abbrev target : Target
target = record { host = domain (bytes "example.com"); port = 443 }

accepted : parse_authority (bytes "Example.COM:443") ≡ ok target
unfolding parse_authority HttpConnect.rsplit_once HttpConnect.parse_port Number.parse_uint
    Parse.parse_ip Text.trim_end Text.to_ascii_lowercase Text.lower Target.new_target
accepted = refl
