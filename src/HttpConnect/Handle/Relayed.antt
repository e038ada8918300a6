-- ===== src/HttpConnect/Handle/Relayed.antt =====
-- What a connection that is relayed is made of.
use commeatus.Prelude.{
  ℕ, suc, zero, ◌+◌, ◌≡◌, refl, some, List, [], ◌∷◌, ◌++◌, leb, append-nil, ap, sym, ◌∙◌, Bytes,
  length, take, drop, Option-cases, Bool-cases, inl, inr,
}
use commeatus.Io.{Result, ok, err, Result-cases, ◌>>=◌, >>=-eq-ok}
use commeatus.Target.{Target}
use commeatus.Stream.{ByteStream, and_then, write_all-cases}
use commeatus.Flow.{TransportProtocol}
use commeatus.Plan.{Endpoint, ExecutionAction}
use commeatus.Policy.{PolicyEngine}
use commeatus.Proxy.{plan_action}
use commeatus.HttpConnect.Header.Whole.{header_of, rejoined, request_of, read_request-rejoined}
use commeatus.HttpConnect.Handle.{
  established, forbidden, forward, answer_tunnel, act, answer_request, handle,
}
use commeatus.HttpConnect.Header.{
  max_header_bytes, find_header_end, later_sizes, read_size, read_header, parse_header,
  parse_request, read_request,
}

-- Nothing is written, and what is written later is taken as before.
abbrev pub Untouched : {A : Type 0} → ByteStream → Result A × ByteStream → Type 0
Untouched s r = (r.1.output ≡ s.output) × (r.1.refuses ≡ s.refuses)

read_header-Untouched :
    (rounds : ℕ) (sizes : List ℕ) (buffer input : Bytes) (s : ByteStream)
    → Untouched s (read_header rounds sizes buffer (record s { input = input }))
unfolding read_header
read_header-Untouched zero sizes buffer input s = (refl, refl)
read_header-Untouched (suc rounds) sizes buffer input s =
    elim (Option-cases (find_header_end buffer)) [
      | inr (end, found) ↦ rw (found, read_header) (refl, refl)
      | inl nowhere ↦ elim (Bool-cases (leb max_header_bytes (length buffer))) [
        | inl full ↦ rw (nowhere, read_header, full) (refl, refl)
        | inr room ↦
            elim input
              as (λ k.
                Untouched s (read_header (suc rounds) sizes buffer (record s { input = k }))) [
                  | [] ↦ rw (nowhere, read_header, room) (refl, refl)
                  | c ∷ cs ↦
                      rw (nowhere, read_header, room)
                        (read_header-Untouched rounds (later_sizes sizes)
                          (buffer ++ take (read_size buffer sizes) (c ∷ cs))
                          (drop (read_size buffer sizes) (c ∷ cs)) s)
                ]
      ]
    ]

parse_request-Untouched :
    (s : ByteStream) (r : Result (Bytes × Bytes) × ByteStream)
    → Untouched s r
    → Untouched s (and_then r parse_request)
parse_request-Untouched s (err kind, s') h = h
parse_request-Untouched s (ok (header, tunnel), s') h = elim (Result-cases (parse_header header)) [
  | inl (kind, refused) ↦ rw refused h
  | inr (target, parsed) ↦ rw parsed h
]

pub read_request-Untouched : (sizes : List ℕ) (s : ByteStream) → Untouched s (read_request sizes s)
unfolding read_request
read_request-Untouched sizes s =
    parse_request-Untouched s (read_header (max_header_bytes + 1) sizes [] s)
      (read_header-Untouched (max_header_bytes + 1) sizes [] s.input s)

-- What is behind a remote that is to be relayed: the client's header and what follows it, of which
-- `sent` went to the remote and `unread` is yet to be read.
pub record IsRelayed (runtime : PolicyEngine) (next_flow_id : ℕ)
    (connect_tcp : Endpoint → Target → Result ByteStream) (s : ByteStream) (remote : ByteStream)
    (unread : Bytes) : Type 0 where
  pub header : Bytes
  pub sent : Bytes
  pub target : Target
  pub endpoint : Endpoint
  pub session : ByteStream
  pub of_client : header_of s.ended s.input ≡ ok (header, sent ++ unread)
  pub asked : parse_header header ≡ ok target
  pub planned :
      (plan_action runtime next_flow_id target TransportProtocol.tcp).0
      ≡ ExecutionAction.route endpoint
  pub connected : connect_tcp endpoint target ≡ ok session
  pub forwarded : remote.output ≡ session.output ++ sent

forward-eq-ok :
    (tunnel : Bytes) (session remote : ByteStream)
    → forward tunnel session ≡ ok (some remote)
    → remote.output ≡ session.output ++ tunnel
unfolding forward
forward-eq-ok [] session remote e =
    let same : session ≡ remote = cc in
    rw (append-nil session.output) (ap (λ r. r.output) (sym same))
forward-eq-ok (c ∷ cs) session remote e = elim (write_all-cases (c ∷ cs) session) [
  | inl taken ↦
      let same : ok (some (record session { output = session.output ++ (c ∷ cs) }))
          ≡ ok (some remote) =
        rw taken at e in
      let same' : record session { output = session.output ++ (c ∷ cs) } ≡ remote = cc in
      ap (λ r. r.output) (sym same')
  | inr (kind, refused) ↦ absurd (cc (rw refused at e))
]

answer_tunnel-eq-ok :
    (tunnel : Bytes) (result : Result ByteStream) (s s' remote : ByteStream)
    → answer_tunnel tunnel result s ≡ (ok (some remote), s')
    → (session : ByteStream) × (result ≡ ok session)
      × (s'.input ≡ s.input)
      × (remote.output ≡ session.output ++ tunnel)
unfolding answer_tunnel
answer_tunnel-eq-ok tunnel (err kind) s s' remote e = absurd (cc (ap (λ r. r.0) e))
answer_tunnel-eq-ok tunnel (ok session) s s' remote e = elim (write_all-cases established s) [
  | inl taken ↦
      let same = rw taken at e in
      (
        session,
        refl,
        sym (ap (λ r. r.1.input) same),
        forward-eq-ok tunnel session remote (ap (λ r. r.0) same),
      )
  | inr (kind, refused) ↦ absurd (cc (ap (λ r. r.0) (rw refused at e)))
]

act-eq-ok :
    (connect_tcp : Endpoint → Target → Result ByteStream) (target : Target) (tunnel : Bytes)
    (action : ExecutionAction) (s s' remote : ByteStream)
    → act connect_tcp target tunnel action s ≡ (ok (some remote), s')
    → (endpoint : Endpoint) × (session : ByteStream) × (action ≡ ExecutionAction.route endpoint)
      × (connect_tcp endpoint target ≡ ok session)
      × (s'.input ≡ s.input)
      × (remote.output ≡ session.output ++ tunnel)
unfolding act
act-eq-ok connect_tcp target tunnel (ExecutionAction.reject _) s s' remote e =
    elim (write_all-cases forbidden s) [
      | inl taken ↦ absurd (cc (ap (λ r. r.0) (rw taken at e)))
      | inr (kind, refused) ↦ absurd (cc (ap (λ r. r.0) (rw refused at e)))
    ]
act-eq-ok connect_tcp target tunnel (ExecutionAction.route endpoint) s s' remote e =
    let (session, connected, unread, forwarded) =
      answer_tunnel-eq-ok tunnel (connect_tcp endpoint target) s s' remote e in
    (endpoint, session, refl, connected, unread, forwarded)

module _ (runtime : PolicyEngine) (next_flow_id : ℕ)
    (connect_tcp : Endpoint → Target → Result ByteStream) where
  answer_request-IsRelayed :
      (r : Result (Target × Bytes) × ByteStream) (s s' remote : ByteStream)
      → (rejoined r ≡ (header_of s.ended s.input >>= request_of))
      → answer_request runtime next_flow_id connect_tcp r ≡ (ok (some remote), s')
      → IsRelayed runtime next_flow_id connect_tcp s remote s'.input
  unfolding answer_request
  answer_request-IsRelayed (err kind, t) s s' remote whole e = absurd (cc (ap (λ r. r.0) e))
  answer_request-IsRelayed (ok (target, tunnel), t) s s' remote whole e =
      let (endpoint, session, planned, connected, unread, forwarded) =
        act-eq-ok connect_tcp target tunnel
          (plan_action runtime next_flow_id target TransportProtocol.tcp).0 t s' remote e in
      let ((header, behind), cut, e₁) =
        >>=-eq-ok (header_of s.ended s.input) request_of (sym whole) in
      let (asked_for, parsed, e₂) = >>=-eq-ok (parse_header header) _ e₁ in
      let same : asked_for ≡ target = cc in
      let rest : behind ≡ tunnel ++ t.input = cc in
      record {
        header = header;
        sent = tunnel;
        target = target;
        endpoint = endpoint;
        session = session;
        of_client = cut ∙ ap (λ l. ok (header, l)) (rest ∙ ap (λ l. tunnel ++ l) (sym unread));
        asked = parsed ∙ ap ok same;
        planned = planned;
        connected = connected;
        forwarded = forwarded;
      }

  -- What is relayed is what the client asked for, and nothing that it sent is lost: the target is the
  -- one that its header names, the policy's plan routes it, and the remote is the session that
  -- connecting to it through the plan's endpoint gave, which got what the client sent behind the
  -- header as far as it was read, while the rest is yet to be read.
  pub handle-IsRelayed :
      (sizes : List ℕ) (s s' remote : ByteStream)
      → handle runtime next_flow_id connect_tcp sizes s ≡ (ok (some remote), s')
      → IsRelayed runtime next_flow_id connect_tcp s remote s'.input
  unfolding handle
  handle-IsRelayed sizes s s' remote e =
      answer_request-IsRelayed (read_request sizes s) s s' remote (read_request-rejoined sizes s) e
