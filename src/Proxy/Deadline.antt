-- ===== src/Proxy/Deadline.antt =====
-- How long a direct connection takes, and what it connects to.
use commeatus.Prelude.{ℕ, ◌+◌, ◌-◌, ◌≤◌, List, [], ◌∷◌, ◌==◌, Bool-cases, inl, inr, arith}
use commeatus.Ip.Socket.{SocketAddr}
use commeatus.Io.{ErrorKind, timed_out, ok, Result-cases}
use commeatus.Proxy.{Connector, connect_first, connect_direct, connect_timeout}

-- A connector that is as the documentation of `connect_timeout` says: a call takes no longer than
-- its timeout.
abbrev pub IsTimely : {TcpStream : Type 0} → Connector TcpStream → Type 0
IsTimely connector =
    (now : ℕ) (address : SocketAddr) (timeout : ℕ)
    → (now ≤ (connector.connect now address timeout).1)
      × ((connector.connect now address timeout).1 ≤ now + timeout)

module _ {TcpStream : Type 0} (connector : Connector TcpStream) (timely : IsTimely connector) where
  connect_first-within :
      (deadline now : ℕ) (addresses : List SocketAddr) (last : ErrorKind)
      → now ≤ deadline
      → (connect_first connector deadline addresses last now).1 ≤ deadline
  unfolding connect_first
  connect_first-within deadline now [] last h = h
  connect_first-within deadline now (address ∷ addresses) last h =
      let (result, later) = connector.connect now address (deadline - now) in
      let (after, before) = timely now address (deadline - now) in
      elim (Bool-cases (deadline - now == 0)) [
        | inl late ↦ rw late h
        | inr early ↦ elim (Result-cases result) [
          | inl (kind, e) ↦
              rw (early, e, connect_first)
                (connect_first-within deadline later addresses kind (omega arith))
          | inr (stream, e) ↦ rw (early, e, connect_first) (omega arith)
        ]
      ]

  -- A connection to addresses that were resolved at a time is made or given up within ten seconds of
  -- it, however many addresses there are, if every attempt takes no longer than its timeout.
  pub connect_direct-within :
      (addresses : List SocketAddr) (now : ℕ)
      → (connect_direct connector (ok addresses) now).1 ≤ now + connect_timeout
  unfolding connect_direct
  connect_direct-within addresses now =
      connect_first-within (now + connect_timeout) now addresses timed_out (omega arith)
