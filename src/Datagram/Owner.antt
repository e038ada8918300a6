-- ===== src/Datagram/Owner.antt =====
-- Which route a token and an endpoint lead to.
use commeatus.Prelude.{
  ℕ, ◌≡◌, ◌≢◌, refl, ap, ◌∙◌, Bool, true, false, ◌||◌, some, List, [], ◌∷◌, ◌++◌, ◌==◌, Bytes, any,
  any-append, find, All, NoDup, Bool-cases, inl, inr, arith,
}
use commeatus.Plan.{Endpoint}
use commeatus.Io.{Result}
use commeatus.Target.{Target}
use commeatus.Datagram.{
  DatagramExecution, DatagramRoute, DatagramRouteSet, endpoint_eq_iff, is_route, has_token,
  owned_tokens, update, send_on, send_with, receive_ready,
}
use commeatus.Datagram.Owned.{IsOwned, keys}

absent :
    (t x : ℕ) (ys : List ℕ) → All (λ y. x ≢ y) ys → (x == t) ≡ true → any (λ y. y == t) ys ≡ false
absent t x [] hs e = refl
absent t x (y ∷ ys) (h, hs) e = ground (arith, absent t x ys hs e)

holds : (a b c : Bool) → b ≡ true → (a || (b || c)) ≡ true
holds a b c h = ground arith

NoDup-disjoint :
    (t : ℕ) (xs ys : List ℕ)
    → NoDup (xs ++ ys)
    → any (λ y. y == t) ys ≡ true
    → any (λ x. x == t) xs ≡ false
NoDup-disjoint t [] ys d there = refl
NoDup-disjoint t (x ∷ xs) ys (new, d) there =
    let rest = NoDup-disjoint t xs ys d there in
    let later : any (λ y. y == t) (xs ++ ys) ≡ true =
      rw (any-append (λ y. y == t) xs ys, rest) there in
    elim (Bool-cases (x == t)) [
      | inl here ↦ absurd (cc (absent t x (xs ++ ys) new here))
      | inr elsewhere ↦ rw (elsewhere, rest) refl
    ]

NoDup-tail : {A : Type 0} (xs ys : List A) → NoDup (xs ++ ys) → NoDup ys
NoDup-tail [] ys d = d
NoDup-tail (x ∷ xs) ys (new, d) = NoDup-tail xs ys d

module _ {Association : Type 0} where
  module _ (p : DatagramRoute Association → Bool) (route : DatagramRoute Association)
      (hit : p route ≡ true) where
    find-middle :
        (before after : List (DatagramRoute Association))
        → All (λ r. p r ≡ false) before
        → find p (before ++ (route ∷ after)) ≡ some route
    find-middle [] after hs = rw hit refl
    find-middle (r ∷ before) after (h, hs) = rw h (find-middle before after hs)

    update-middle :
        (execution : Association) (before after : List (DatagramRoute Association))
        → All (λ r. p r ≡ false) before
        → update p execution (before ++ (route ∷ after))
          ≡ before ++ (record route { execution = execution } ∷ after)
    unfolding update
    update-middle execution [] after hs = rw hit refl
    update-middle execution (r ∷ before) after (h, hs) =
        rw h (ap (◌∷◌ r) (update-middle execution before after hs))

  module _ (token : ℕ) (route : DatagramRoute Association)
      (hit : has_token token route ≡ true) where
    owned_here :
        (before after : List (DatagramRoute Association))
        → any (λ t. t == token) (owned_tokens (before ++ (route ∷ after))) ≡ true
    unfolding owned_tokens
    owned_here [] after =
        any-append (λ t. t == token) route.tokens (owned_tokens after)
        ∙ ap (λ b. b || any (λ t. t == token) (owned_tokens after)) hit
    owned_here (r ∷ before) after = ground (
      arith,
      any-append (λ t. t == token) r.tokens (owned_tokens (before ++ (route ∷ after))),
      owned_here before after,
    )

    no_other_owner :
        (before after : List (DatagramRoute Association))
        → NoDup (owned_tokens (before ++ (route ∷ after)))
        → All (λ r. has_token token r ≡ false) before
    unfolding owned_tokens
    no_other_owner [] after d = tt
    no_other_owner (r ∷ before) after d =
        let rest = owned_tokens (before ++ (route ∷ after)) in
        (
          NoDup-disjoint token r.tokens rest d (owned_here before after),
          no_other_owner before after (NoDup-tail r.tokens rest d),
        )

  key_here :
      (P : Endpoint → Type 0) (route : DatagramRoute Association)
      (before after : List (DatagramRoute Association))
      → All P (keys (before ++ (route ∷ after)))
      → P route.endpoint
  key_here P route [] after (h, hs) = h
  key_here P route (r ∷ before) after (h, hs) = key_here P route before after hs

  no_other_key :
      (route : DatagramRoute Association) (before after : List (DatagramRoute Association))
      → NoDup (keys (before ++ (route ∷ after)))
      → All (λ r. is_route route.endpoint r ≡ false) before
  no_other_key route [] after d = tt
  no_other_key route (r ∷ before) after (new, d) =
      let differ = key_here (λ key. r.endpoint ≢ key) route before after new in
      (
        elim (Bool-cases (is_route route.endpoint r)) [
          | inl same ↦ absurd (differ ((endpoint_eq_iff r.endpoint route.endpoint).0 same))
          | inr apart ↦ apart
        ],
        no_other_key route before after d,
      )

module _ {Association Registry : Type 0} (operations : DatagramExecution Association Registry) where
  -- In a set that keeps to its invariant, a datagram is received by the one route that has the
  -- token, wherever in the map the route stands: the result and the buffer are those of its
  -- association, and no other route changes.
  pub receive_ready-has_token :
      (first token : ℕ) (buffer : Bytes) (s : DatagramRouteSet Association Registry)
      (before after : List (DatagramRoute Association)) (route : DatagramRoute Association)
      → IsOwned first s
      → s.routes ≡ before ++ (route ∷ after)
      → has_token token route ≡ true
      → receive_ready operations token buffer s ≡ (
        (operations.receive route.execution buffer).0,
        (operations.receive route.execution buffer).1,
        record s {
          routes =
              before
              ++ (record route { execution = (operations.receive route.execution buffer).2 }
                  ∷ after);
        },
      )
  unfolding receive_ready
  receive_ready-has_token first token buffer s before after route h place hit =
      let p = has_token token in
      let (result, filled, execution) = operations.receive route.execution buffer in
      let others = no_other_owner token route hit before after (rw place at h.one_owner) in
      let found : find p s.routes ≡ some route =
        ap (find p) place ∙ find-middle p route hit before after others in
      let left =
        ap (update p execution) place ∙ update-middle p route hit execution before after others in
      rw (found, receive_ready) (ap (λ routes. (result, filled, record s { routes = routes })) left)

  -- In a set that keeps to its invariant, a datagram for an endpoint that has a route is sent on
  -- that route, wherever in the map it stands, and nothing is opened: the result is that of its
  -- association, and no other route, no token and no registration changes.
  pub send_with-is_route :
      (first : ℕ) (target : Target) (payload : Bytes) (open_path : Endpoint → Result Association)
      (s : DatagramRouteSet Association Registry) (before after : List (DatagramRoute Association))
      (route : DatagramRoute Association)
      → IsOwned first s
      → s.routes ≡ before ++ (route ∷ after)
      → send_with operations route.endpoint target payload open_path s ≡ (
        (operations.send route.execution target payload).0,
        record s {
          routes =
              before
              ++ (record route { execution = (operations.send route.execution target payload).1 }
                  ∷ after);
        },
      )
  unfolding send_with send_on
  send_with-is_route first target payload open_path s before after route h place =
      let p = is_route route.endpoint in
      let (result, execution) = operations.send route.execution target payload in
      let hit : p route ≡ true = (endpoint_eq_iff route.endpoint route.endpoint).1 refl in
      let others = no_other_key route before after (rw place at h.one_each) in
      let known : any p s.routes ≡ true =
        ap (any p) place
        ∙ any-append p before (route ∷ after)
        ∙ holds (any p before) (p route) (any p after) hit in
      let found : find p s.routes ≡ some route =
        ap (find p) place ∙ find-middle p route hit before after others in
      let left =
        ap (update p execution) place ∙ update-middle p route hit execution before after others in
      rw (known, send_with, found, send_on)
        (ap (λ routes. (result, record s { routes = routes })) left)
