-- ===== src/Tests/Transparent.antt =====
-- A transparent UDP listener through a few events.
use commeatus.Prelude.{ℕ, true, none, List, [], ◌∷◌, arith, bytes}
use commeatus.Io
use commeatus.Io.{Result}
use commeatus.Ip.{IpAddr}
use commeatus.Ip.Socket.{SocketAddr}
use commeatus.Flow.{DestinationHost}
use commeatus.Plan.{direct}
use commeatus.Policy.{PolicyEngine, PolicyAction}
use commeatus.Target.{Target}
use commeatus.Datagram.{DatagramExecution}
use commeatus.Outbound.{OutboundRegistry}
use commeatus.Transparent.{Serving}
use commeatus.Transparent.Loop.{Event, idle, inbound, outbound, serve}
use commeatus.Transparent.Served.Always.{IsServed}
use commeatus.Transparent.Served.Runs.{serve-IsServed}

-- An association is the number of its datagrams.
abbrev paths : DatagramExecution ℕ ℕ
paths = record {
  send = λ sent target payload. (Io.ok tt, sent);
  receive = λ sent buffer. (Io.ok none, buffer, sent);
  readiness_source_count = λ sent. 1;
  register_readiness = λ sent registry tokens. (Io.ok tt, sent, registry);
}

abbrev all_direct : PolicyEngine
all_direct = record { rules = []; default_action = PolicyAction.route direct }

abbrev no_outbounds : OutboundRegistry ℕ ℕ
no_outbounds = []

abbrev phone : SocketAddr
phone = record { ip = IpAddr.v4 7; port = 4000 }

abbrev server : Target
server = record { host = DestinationHost.ip (IpAddr.v4 9); port = 53 }

abbrev events : List Event
events =
    inbound phone server (bytes "q") 5 ∷ outbound 1 (bytes "....") 6 true ∷ idle 130000000000 ∷ []

abbrev fresh : Serving ℕ ℕ
fresh = record { clients = []; token_clients = []; registry = 0; next_token = 1; next_flow_id = 1 }

fresh-IsServed : IsServed fresh
fresh-IsServed = record { within = omega arith; distinct = tt; held = tt }

serve-IsServed_example : IsServed (serve paths all_direct no_outbounds (Io.ok 0) events fresh)
serve-IsServed_example =
    serve-IsServed paths all_direct no_outbounds (Io.ok 0) events fresh fresh-IsServed
