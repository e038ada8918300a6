-- ===== src/Protocol/Replies.antt =====
-- What the outbound protocol makes of the replies of the program's own inbound.
use commeatus.Prelude.{ℕ, ◌≡◌, ◌↔◌, refl, ap, false, none, some, Option, [], ◌++◌, ◌==◌, Bytes}
use commeatus.Ip.Socket.{SocketAddr}
use commeatus.Io.{ErrorKind, Result, ok, err}
use commeatus.Plan.{Endpoint, ExecutionAction}
use commeatus.Stream.{working, write_all}
use commeatus.Socks5.{connect_error_code}
use commeatus.Socks5.Handshake.{
  handle_connect, answer_client, write_reply, reply_bytes, reply_address, unspecified,
}
use commeatus.Protocol.{read_reply}
use commeatus.Protocol.Inbound.{read_reply-reply_bytes, read_reply_refuses}

code_is_error : (kind : ErrorKind) → (connect_error_code kind == 0) ≡ false
unfolding connect_error_code
code_is_error ErrorKind.connection_refused = refl
code_is_error ErrorKind.timed_out = refl
code_is_error ErrorKind.permission_denied = refl
code_is_error ErrorKind.not_found = refl
code_is_error ErrorKind.addr_not_available = refl
code_is_error ErrorKind.unsupported = refl
code_is_error kind = refl

-- A session to relay.
abbrev pub Connects : {Session : Type 0} → Result (Option Session) → Type 0
Connects (ok (some session)) = Unit
Connects (ok none) = ⊥
Connects (err kind) = ⊥

refused_reply :
    (code : ℕ) (ended : ErrorKind) (rest : Bytes)
    → (code == 0) ≡ false
    → (read_reply (working ended (reply_bytes code unspecified ++ rest) [])).0 ≡ ok tt
    → ⊥
refused_reply code ended rest h e = cc (read_reply_refuses code unspecified ended rest [] h)

answer_client-read_reply :
    {Session : Type 0} (local_addr : Session → Option SocketAddr) (result : Result Session)
    (ended : ErrorKind) (input rest : Bytes)
    → Connects (answer_client local_addr result (working ended input [])).0 ↔ (
        (read_reply (
          working ended
            ((answer_client local_addr result (working ended input [])).1.output ++ rest)
            [])).0
        ≡ ok tt)
unfolding answer_client write_reply write_all
answer_client-read_reply local_addr (err kind) ended input rest = (
  λ none_here. absurd none_here,
  refused_reply (connect_error_code kind) ended rest (code_is_error kind),
)
answer_client-read_reply local_addr (ok session) ended input rest = (
  λ _. ap (λ r. r.0) (read_reply-reply_bytes (reply_address (local_addr session)) ended rest []),
  λ _. tt,
)

-- The reply that the inbound writes tells the truth: a client that is this program's outbound
-- protocol takes the reply for a success exactly if the inbound has a session to relay, and that
-- whether the policy rejected the flow, the connection failed, whatever its error, or it succeeded.
pub handle_connect-read_reply :
    {Session : Type 0} (connected : Endpoint → Result Session)
    (local_addr : Session → Option SocketAddr) (action : ExecutionAction) (ended : ErrorKind)
    (input rest : Bytes)
    → Connects (handle_connect connected local_addr action (working ended input [])).0 ↔ (
        (read_reply (
          working ended
            ((handle_connect connected local_addr action (working ended input [])).1.output ++ rest)
            [])).0
        ≡ ok tt)
unfolding handle_connect write_reply write_all
handle_connect-read_reply connected local_addr (ExecutionAction.reject _) ended input rest =
    (λ none_here. absurd none_here, refused_reply 2 ended rest refl)
handle_connect-read_reply connected local_addr (ExecutionAction.route endpoint) ended input rest =
    answer_client-read_reply local_addr (connected endpoint) ended input rest
