-- ===== src/Transparent/Served/Kept.antt =====
-- What a change of one client leaves of the others.
use commeatus.Prelude.{
  ℕ, suc, ◌≡◌, ◌≢◌, refl, ap, true, false, some, List, [], ◌∷◌, length, any, find, All, Bool-cases,
  inl, inr, or_false,
}
use commeatus.Ip.Socket.{SocketAddr, socket_eq_iff}
use commeatus.Datagram.{DatagramRoute, owned_tokens}
use commeatus.Transparent.{ClientState, is_client, remove_client, set_routes}
use commeatus.Transparent.Served.{has, IsHeld, IsDistinct}

module _ {Association : Type 0} where
  -- More tokens than before.
  abbrev pub Covers : List (DatagramRoute Association) → List (DatagramRoute Association) → Type 0
  Covers routes more =
      (t : ℕ) → has t (owned_tokens routes) ≡ true → has t (owned_tokens more) ≡ true

  module _ (client : SocketAddr) where
    -- The client is not there.
    abbrev pub IsAbsent : List (ClientState Association) → Type 0
    IsAbsent states = All (λ state. state.client ≢ client) states

    pub any-IsAbsent :
        (states : List (ClientState Association))
        → any (is_client client) states ≡ false
        → IsAbsent states
    any-IsAbsent [] e = tt
    any-IsAbsent (state ∷ states) e =
        let (here, there) = or_false (is_client client state) (any (is_client client) states) e in
        (
          (λ same. absurd (cc ((socket_eq_iff state.client client).1 same))),
          any-IsAbsent states there,
        )

    unseen :
        (state : ClientState Association) → state.client ≢ client → is_client client state ≡ false
    unseen state far = elim (Bool-cases (is_client client state)) [
      | inl same ↦ absurd (far ((socket_eq_iff state.client client).0 same))
      | inr other ↦ other
    ]

    pub remove_client-IsAbsent :
        (states : List (ClientState Association))
        → IsAbsent states
        → remove_client client states ≡ states
    unfolding remove_client
    remove_client-IsAbsent [] h = refl
    remove_client-IsAbsent (state ∷ states) (far, h) =
        rw (unseen state far) (ap (◌∷◌ state) (remove_client-IsAbsent states h))

    module _ (routes : List (DatagramRoute Association)) where
      pub length-set_routes :
          (states : List (ClientState Association))
          → length (set_routes client routes states) ≡ length states
      unfolding set_routes
      length-set_routes [] = refl
      length-set_routes (state ∷ states) = elim (Bool-cases (is_client client state)) [
        | inl here ↦ rw here refl
        | inr other ↦ rw other (ap suc (length-set_routes states))
      ]

      -- What only looks at the clients' addresses.
      set_routes-All :
          (P : SocketAddr → Type 0) (states : List (ClientState Association))
          → All (λ state. P state.client) states
          → All (λ state. P state.client) (set_routes client routes states)
      unfolding set_routes
      set_routes-All P [] h = tt
      set_routes-All P (state ∷ states) (x, h) = elim (Bool-cases (is_client client state)) [
        | inl here ↦ rw here (x, h)
        | inr other ↦ rw other (x, set_routes-All P states h)
      ]

      pub set_routes-IsDistinct :
          (states : List (ClientState Association))
          → IsDistinct states
          → IsDistinct (set_routes client routes states)
      unfolding set_routes
      set_routes-IsDistinct [] h = tt
      set_routes-IsDistinct (state ∷ states) (x, h) = elim (Bool-cases (is_client client state)) [
        | inl here ↦ rw here (x, h)
        | inr other ↦
            rw other
              (set_routes-All (λ c. c ≢ state.client) states x, set_routes-IsDistinct states h)
      ]

      pub set_routes-IsHeld :
          (states : List (ClientState Association)) (state : ClientState Association)
          (e : ℕ × SocketAddr)
          → find (is_client client) states ≡ some state
          → Covers state.routes routes
          → IsHeld states e
          → IsHeld (set_routes client routes states) e
      unfolding set_routes
      set_routes-IsHeld [] state e found more held = cc
      set_routes-IsHeld (s ∷ states) state e found more held =
          elim (Bool-cases (is_client client s)) [
            | inl here ↦
                let same : s ≡ state = cc (rw here at found) in
                let more' : Covers s.routes routes = rw same more in rw here (first held more')
            | inr other ↦
                let later : find (is_client client) states ≡ some state = rw other at found in
                rw other (rest held (λ there. set_routes-IsHeld states state e later more there))
          ]
        where
          first :
              IsHeld (s ∷ states) e
              → Covers s.routes routes
              → IsHeld (record s { routes = routes } ∷ states) e
          first (inl (owner, token)) more = inl (owner, more e.0 token)
          first (inr there) more = inr there

          rest :
              IsHeld (s ∷ states) e
              → (IsHeld states e → IsHeld (set_routes client routes states) e)
              → IsHeld (s ∷ set_routes client routes states) e
          rest (inl here) f = inl here
          rest (inr there) f = inr (f there)

      -- The client has the tokens of its new routes.
      pub set_routes_holds :
          (states : List (ClientState Association)) (state : ClientState Association) (t : ℕ)
          → find (is_client client) states ≡ some state
          → has t (owned_tokens routes) ≡ true
          → IsHeld (set_routes client routes states) (t, client)
      unfolding set_routes
      set_routes_holds [] state t found owns = cc
      set_routes_holds (s ∷ states) state t found owns = elim (Bool-cases (is_client client s)) [
        | inl here ↦ rw here (inl ((socket_eq_iff s.client client).0 here, owns))
        | inr other ↦ rw other (inr (set_routes_holds states state t (rw other at found) owns))
      ]
