-- ===== src/Protocol/Tunnel.antt =====
-- What the outbound protocol HTTP CONNECT makes of the responses of the program's own inbound.
use commeatus.Prelude.{
  ℕ, zero, suc, ◌≤◌, ◌≡◌, ◌↔◌, refl, ap, ◌∙◌, Bool, true, not, ◌&&◌, none, Option, List, [], ◌∷◌,
  ◌++◌, append_assoc, append-nil, Bytes, length, arith, Bool-cases, inl, inr,
}
use commeatus.Io.{ErrorKind, connection_refused, Result, ok, err}
use commeatus.Plan.{Endpoint, ExecutionAction}
use commeatus.Policy.{PolicyEngine}
use commeatus.Proxy.{plan_action}
use commeatus.Flow.{TransportProtocol}
use commeatus.Target.{Target}
use commeatus.Protocol.Replies.{Connects}
use commeatus.HttpConnect.Header.{read_request}
use commeatus.HttpConnect.Handle.Relayed.{read_request-Untouched}
use commeatus.Stream.{ByteStream, write_all-none, working, read_exact-append}
use commeatus.HttpConnect.Header.{blank_line}
use commeatus.Prelude.{eqb}
use commeatus.Text.{is_utf8}
use commeatus.Text.Number.{parse_uint}
use commeatus.Text.Lines.{lines, split_whitespace, strip_prefix, strip_suffix}
use commeatus.Protocol.Http.{check_lines, check_fields, check_status}
use commeatus.HttpConnect.Handle.{
  bad_request, forbidden, bad_gateway, established, answer_tunnel, forward, act, answer_request,
  handle,
}
use commeatus.Protocol.Http.{
  read_head, read_http_response_head, read_response, check_head, ends_with, max_http_response_head,
}

-- The blank line comes at the end of the head, and not before.
abbrev pub ends : Bytes → Bytes → Bool
ends head [] = ends_with blank_line head
ends head (c ∷ cs) = not (ends_with blank_line head) && ends (head ++ (c ∷ [])) cs

read_head-append :
    (room : ℕ) (head front rest output : Bytes) (ended : ErrorKind)
    → length front ≤ room
    → ends head front ≡ true
    → read_head room head (working ended (front ++ rest) output)
      ≡ (ok (head ++ front), working ended rest output)
unfolding read_head
read_head-append zero head [] rest output ended h e = rw (e, append-nil head) refl
read_head-append zero head (c ∷ cs) rest output ended h e = absurd (omega arith)
read_head-append (suc room) head [] rest output ended h e = rw (e, read_head, append-nil head) refl
read_head-append (suc room) head (c ∷ cs) rest output ended h e =
    elim (Bool-cases (ends_with blank_line head)) [
      | inl over ↦ absurd (cc (rw over at e))
      | inr more ↦
          let byte = read_exact-append 1 ended (c ∷ []) (cs ++ rest) output refl in
          let later : ends (head ++ (c ∷ [])) cs ≡ true = rw more at e in
          rw (more, read_head, byte)
            (read_head-append room (head ++ (c ∷ [])) cs rest output ended (omega arith) later
              ∙ ap (λ l. (ok l, working ended rest output)) (append_assoc head (c ∷ []) cs))
    ]

pub read_response-head :
    (front rest output : Bytes) (ended : ErrorKind)
    → length front ≤ max_http_response_head
    → ends [] front ≡ true
    → read_response (working ended (front ++ rest) output)
      ≡ (check_head front, working ended rest output)
unfolding read_response read_http_response_head
read_response-head front rest output ended h e =
    rw (read_head-append max_http_response_head [] front rest output ended h e) refl

-- The four responses.
abbrev pub IsResponse : Bytes → Result (Unit {0}) → Type 0
IsResponse response result = (ends [] response ≡ true) × (check_head response ≡ result)

pub responses :
    IsResponse bad_request (err connection_refused)
    × IsResponse forbidden (err connection_refused)
    × IsResponse bad_gateway (err connection_refused)
    × IsResponse established (ok tt)
unfolding check_head strip_suffix eqb is_utf8 check_lines lines check_fields split_whitespace
    strip_prefix check_status parse_uint
responses = ((refl, refl), (refl, refl), (refl, refl), (refl, refl))

-- The client that reads a response of the inbound has this of it.
seen :
    (response rest : Bytes) (ended : ErrorKind) {result : Result (Unit {0})}
    → length response ≤ max_http_response_head
    → IsResponse response result
    → (read_response (working ended (response ++ rest) [])).0 ≡ result
seen response rest ended h (complete, checked) =
    ap (λ r. r.0) (read_response-head response rest [] ended h complete) ∙ checked

refused_response :
    (response rest : Bytes) (ended : ErrorKind)
    → length response ≤ max_http_response_head
    → IsResponse response (err connection_refused)
    → (read_response (working ended (response ++ rest) [])).0 ≡ ok tt
    → ⊥
refused_response response rest ended h k e = cc (seen response rest ended h k)

forward-Connects :
    (tunnel : Bytes) (remote : ByteStream)
    → remote.refuses ≡ none
    → Connects (forward tunnel remote)
unfolding forward
forward-Connects [] remote q = tt
forward-Connects (c ∷ cs) remote q = rw (write_all-none (c ∷ cs) remote q) tt

-- The inbound answers on the stream of the second part; the client reads its answer.
abbrev IsTruthful : Result (Option ByteStream) × ByteStream → ErrorKind → Bytes → Type 0
IsTruthful r ended rest =
    Connects r.0 ↔ ((read_response (working ended (r.1.output ++ rest) [])).0 ≡ ok tt)

module _ (ended : ErrorKind) (rest : Bytes) (s : ByteStream) (fresh : s.output ≡ [])
    (q : s.refuses ≡ none) where
  answer_tunnel-IsTruthful :
      (tunnel : Bytes) (result : Result ByteStream)
      → ((remote : ByteStream) → result ≡ ok remote → remote.refuses ≡ none)
      → IsTruthful (answer_tunnel tunnel result s) ended rest
  unfolding answer_tunnel
  answer_tunnel-IsTruthful tunnel (err kind) works =
      rw (write_all-none bad_gateway s q, fresh)
        (
          λ none_here. absurd none_here,
          refused_response bad_gateway rest ended (omega arith) responses.2,
        )
  answer_tunnel-IsTruthful tunnel (ok remote) works =
      rw (write_all-none established s q, fresh)
        (
          λ _. seen established rest ended (omega arith) responses.3,
          λ _. forward-Connects tunnel remote (works remote refl),
        )

  act-IsTruthful :
      (connect_tcp : Endpoint → Target → Result ByteStream) (target : Target) (tunnel : Bytes)
      (action : ExecutionAction)
      → ((endpoint : Endpoint) (remote : ByteStream)
          → connect_tcp endpoint target ≡ ok remote
          → remote.refuses ≡ none)
      → IsTruthful (act connect_tcp target tunnel action s) ended rest
  unfolding act
  act-IsTruthful connect_tcp target tunnel (ExecutionAction.reject _) works =
      rw (write_all-none forbidden s q, fresh)
        (
          λ none_here. absurd none_here,
          refused_response forbidden rest ended (omega arith) responses.1,
        )
  act-IsTruthful connect_tcp target tunnel (ExecutionAction.route endpoint) works =
      answer_tunnel-IsTruthful tunnel (connect_tcp endpoint target) (works endpoint)

module _ (runtime : PolicyEngine) (next_flow_id : ℕ)
    (connect_tcp : Endpoint → Target → Result ByteStream)
    (works : (endpoint : Endpoint) (target : Target) (remote : ByteStream)
      → connect_tcp endpoint target ≡ ok remote
      → remote.refuses ≡ none)
    (ended : ErrorKind) (rest : Bytes) where
  answer_request-IsTruthful :
      (r : Result (Target × Bytes) × ByteStream)
      → r.1.output ≡ []
      → r.1.refuses ≡ none
      → IsTruthful (answer_request runtime next_flow_id connect_tcp r) ended rest
  unfolding answer_request
  answer_request-IsTruthful (err kind, s) fresh q =
      rw (write_all-none bad_request s q, fresh)
        (
          λ none_here. absurd none_here,
          refused_response bad_request rest ended (omega arith) responses.0,
        )
  answer_request-IsTruthful (ok (target, tunnel), s) fresh q =
      act-IsTruthful ended rest s fresh q connect_tcp target tunnel
        (plan_action runtime next_flow_id target TransportProtocol.tcp).0
        (λ endpoint remote h. works endpoint target remote h)

  -- The response that the inbound writes tells the truth: a client that is this program's outbound
  -- protocol takes the response for a success exactly if the inbound has a session to relay, and
  -- that whatever the client sent, in pieces of whatever sizes: a request that cannot be read, a flow
  -- that the policy rejects, a connection that fails, or one that succeeds. The remotes that
  -- connecting gives take what is written to them.
  pub handle-read_response :
      (sizes : List ℕ) (input : Bytes)
      → Connects (handle runtime next_flow_id connect_tcp sizes (working ended input [])).0 ↔ (
          (read_response (
            working ended
              ((handle runtime next_flow_id connect_tcp sizes (working ended input [])).1.output
                ++ rest)
              [])).0
          ≡ ok tt)
  unfolding handle
  handle-read_response sizes input =
      let kept = read_request-Untouched sizes (working ended input []) in
      answer_request-IsTruthful (read_request sizes (working ended input [])) kept.0 kept.1
