-- ===== src/Datagram/Direct/Contacted.antt =====
-- The peers of a direct association over its life.
use commeatus.Prelude.{
  ◌⊎◌, ℕ, suc, ◌≤◌, ◌<◌, ◌≡◌, ◌≢◌, refl, Bool, true, false, List, [], ◌∷◌, ◌++◌, Bytes, length, All,
  All-map, Any, NoDup, Bool-cases, inl, inr, arith, or_false,
}
use commeatus.Ip.Socket.{SocketAddr, socket_eq, socket_eq_iff}
use commeatus.Io.{Result, ok, err}
use commeatus.Datagram.Direct.{
  UdpSockets, DirectDatagramAssociation, is_peer, insert_peer, send, receive,
}
use commeatus.Datagram.Direct.Peers.{HasRoom, SentTo, send-SentTo}
use commeatus.Datagram.Direct.Trusted.{receive-IsTrusted}

-- A call of the association, with what its target resolves to.
pub data DirectStep : Type 0 where
  sent : Result (List SocketAddr) → Bytes → DirectStep
  received : Bytes → DirectStep

-- The addresses of a send, if it succeeded.
abbrev contacted_by : Result (List SocketAddr) → Result (Unit {0}) → List SocketAddr
contacted_by (ok addresses) (ok _) = addresses
contacted_by _ _ = []

abbrev pub IsIn : SocketAddr → List SocketAddr → Type 0
IsIn address addresses = Any (λ a. a ≡ address) addresses

-- The peers are few, each once, and each an address that a send that succeeded was for.
pub record IsAllowed (contacted peers : List SocketAddr) : Type 0 where
  pub within : length peers ≤ 256
  pub one_each : NoDup peers
  pub known : All (λ peer. IsIn peer contacted) peers

not_peer :
    (peers : List SocketAddr) (address : SocketAddr)
    → is_peer peers address ≡ false
    → All (λ p. address ≢ p) peers
not_peer [] address e = tt
not_peer (p ∷ peers) address e =
    let (apart, rest) = or_false (socket_eq address p) (is_peer peers address) e in
    ((λ same. absurd (cc ((socket_eq_iff address p).1 same))), not_peer peers address rest)

insert_peer-IsAllowed :
    (contacted peers : List SocketAddr) (address : SocketAddr)
    → HasRoom peers address
    → IsIn address contacted
    → IsAllowed contacted peers
    → IsAllowed contacted (insert_peer peers address)
unfolding insert_peer
insert_peer-IsAllowed contacted peers address room here h =
    elim (Bool-cases (is_peer peers address)) [
      | inl old ↦ rw old h
      | inr new ↦ rw new (record {
        within = space (is_peer peers address) (length peers) new room;
        one_each = (not_peer peers address new, h.one_each);
        known = (here, h.known);
      })
    ]
  where
    space : (b : Bool) (n : ℕ) → b ≡ false → (b ≡ true) ⊎ (n < 256) → suc n ≤ 256
    space b n e (inl h) = absurd (cc)
    space b n e (inr h) = omega arith

Any-IsIn :
    (P : SocketAddr → Type 0) (xs : List SocketAddr) → Any P xs → (x : SocketAddr) × IsIn x xs × P x
Any-IsIn P [] h = elim h [ ]
Any-IsIn P (x ∷ xs) (inl h) = (x, inl refl, h)
Any-IsIn P (x ∷ xs) (inr h) = let (y, i, k) = Any-IsIn P xs h in (y, inr i, k)

IsIn-append : (x : SocketAddr) (xs ys : List SocketAddr) → IsIn x xs ⊎ IsIn x ys → IsIn x (xs ++ ys)
IsIn-append x [] ys (inr h) = h
IsIn-append x [] ys (inl h) = elim h [ ]
IsIn-append x (z ∷ xs) ys (inl (inl e)) = inl e
IsIn-append x (z ∷ xs) ys (inl (inr h)) = inr (IsIn-append x xs ys (inl h))
IsIn-append x (z ∷ xs) ys (inr h) = inr (IsIn-append x xs ys (inr h))

SentTo-IsAllowed :
    (contacted addresses peers : List SocketAddr) (result : Result (Unit {0}))
    (after : List SocketAddr)
    → SentTo addresses peers result after
    → IsAllowed contacted peers
    → IsAllowed (contacted_by (ok addresses) result ++ contacted) after
SentTo-IsAllowed contacted addresses peers (ok _) after h k =
    let (address, here, (room, e)) =
      Any-IsIn (λ a. HasRoom peers a × (after ≡ insert_peer peers a)) addresses h in
    let wider : IsAllowed (addresses ++ contacted) peers = record {
      within = k.within;
      one_each = k.one_each;
      known = All-map peers (λ peer i. IsIn-append peer addresses contacted (inr i)) k.known;
    } in
    rw e (
      insert_peer-IsAllowed (addresses ++ contacted) peers address room
        (IsIn-append address addresses contacted (inl here)) wider)
SentTo-IsAllowed contacted addresses peers (err _) after h k = rw h k

module _ {UdpSocket Registry : Type 0} (sockets : UdpSockets UdpSocket Registry) where
  -- The calls one after the other: the addresses of the sends that succeeded, the last ones first,
  -- and the association.
  abbrev pub run :
      List DirectStep
      → List SocketAddr
      → DirectDatagramAssociation UdpSocket
      → List SocketAddr × DirectDatagramAssociation UdpSocket
  run [] contacted d = (contacted, d)
  run (sent resolved payload ∷ steps) contacted d =
      let (result, after) = send sockets resolved payload d in
      run steps (contacted_by resolved result ++ contacted) after
  run (received buffer ∷ steps) contacted d = run steps contacted (receive sockets buffer d).2

  keeps :
      (steps : List DirectStep) (contacted : List SocketAddr)
      (d : DirectDatagramAssociation UdpSocket)
      → IsAllowed contacted d.remote_peers
      → IsAllowed (run steps contacted d).0 (run steps contacted d).1.remote_peers
  unfolding send
  keeps [] contacted d h = h
  keeps (sent (err kind) payload ∷ steps) contacted d h = keeps steps contacted d h
  keeps (sent (ok addresses) payload ∷ steps) contacted d h =
      let (result, after) = send sockets (ok addresses) payload d in
      keeps steps (contacted_by (ok addresses) result ++ contacted) after (
        SentTo-IsAllowed contacted addresses d.remote_peers result after.remote_peers
          (send-SentTo sockets addresses payload d) h)
  keeps (received buffer ∷ steps) contacted d h =
      keeps steps contacted (receive sockets buffer d).2
        (rw (receive-IsTrusted sockets buffer d).1 h)

  -- From an association without peers, whatever is sent and received, and whatever the sockets do:
  -- there are at most 256 peers, each once, and each is an address that a target of a send that
  -- succeeded has resolved to.
  pub run-IsAllowed :
      (steps : List DirectStep) (d : DirectDatagramAssociation UdpSocket)
      → d.remote_peers ≡ []
      → IsAllowed (run steps [] d).0 (run steps [] d).1.remote_peers
  run-IsAllowed steps d e =
      keeps steps [] d (rw e (record { within = omega arith; one_each = tt; known = tt }))
