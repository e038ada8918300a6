-- ===== src/Datagram/Owned.antt =====
-- What a set of routes keeps to: its size, and whose a token is.
use commeatus.Prelude.{
  ℕ, suc, ◌≤◌, ◌<◌, ◌≡◌, ◌≢◌, refl, ap, sym, ◌∙◌, Bool, false, List, [], ◌∷◌, ◌++◌, length, any,
  All, All-map, NoDup, All-append, NoDup-append, arith, Bool-cases, inl, inr, or_false, ◌^◌,
}
use commeatus.Plan.{Endpoint}
use commeatus.Datagram.{
  DatagramRoute, DatagramRouteSet, endpoint_eq_iff, is_route, owned_tokens, update,
}

module _ {Association : Type 0} where
  abbrev pub keys : List (DatagramRoute Association) → List Endpoint
  keys [] = []
  keys (route ∷ routes) = route.endpoint ∷ keys routes

  length-keys : (routes : List (DatagramRoute Association)) → length (keys routes) ≡ length routes
  length-keys [] = refl
  length-keys (route ∷ routes) = ap suc (length-keys routes)

  module _ (p : DatagramRoute Association → Bool) (execution : Association) where
    keys-update :
        (routes : List (DatagramRoute Association)) → keys (update p execution routes) ≡ keys routes
    unfolding update
    keys-update [] = refl
    keys-update (route ∷ routes) = elim (Bool-cases (p route)) [
      | inl here ↦ rw here refl
      | inr elsewhere ↦ rw elsewhere (ap (◌∷◌ route.endpoint) (keys-update routes))
    ]

    pub owned_tokens-update :
        (routes : List (DatagramRoute Association))
        → owned_tokens (update p execution routes) ≡ owned_tokens routes
    unfolding update owned_tokens
    owned_tokens-update [] = refl
    owned_tokens-update (route ∷ routes) = elim (Bool-cases (p route)) [
      | inl here ↦ rw here refl
      | inr elsewhere ↦ rw elsewhere (ap (◌++◌ route.tokens) (owned_tokens-update routes))
    ]

  no_key :
      (endpoint : Endpoint) (routes : List (DatagramRoute Association))
      → any (is_route endpoint) routes ≡ false
      → All (λ key. endpoint ≢ key) (keys routes)
  no_key endpoint [] e = tt
  no_key endpoint (route ∷ routes) e =
      let (differs, rest) = or_false (is_route endpoint route) (any (is_route endpoint) routes) e in
      (
        (λ same. absurd (cc ((endpoint_eq_iff route.endpoint endpoint).1 (sym same)))),
        no_key endpoint routes rest,
      )

module _ {Association Registry : Type 0} where
  -- What a set of routes keeps to, from the first token on.
  pub record IsOwned (first : ℕ) (s : DatagramRouteSet Association Registry) : Type 0 where
    pub within : length s.routes ≤ 32
    pub one_each : NoDup (keys s.routes)
    pub one_owner : NoDup (owned_tokens s.routes)
    pub ours : All (λ t. (first ≤ t) × (t < s.next_token)) (owned_tokens s.routes)
    pub started : first ≤ s.next_token
    pub fits : s.next_token < 2 ^ 64

  pub update-IsOwned :
      (first : ℕ) (s : DatagramRouteSet Association Registry) (p : DatagramRoute Association → Bool)
      (execution : Association)
      → IsOwned first s
      → IsOwned first (record s { routes = update p execution s.routes })
  update-IsOwned first s p execution h =
      let same_keys = keys-update p execution s.routes in
      let same_tokens = owned_tokens-update p execution s.routes in
      let size : length (update p execution s.routes) ≡ length s.routes =
        sym (length-keys (update p execution s.routes))
        ∙ ap length same_keys
        ∙ length-keys s.routes in
      record {
        within = rw size h.within;
        one_each = rw same_keys h.one_each;
        one_owner = rw same_tokens h.one_owner;
        ours = rw same_tokens h.ours;
        started = h.started;
        fits = h.fits;
      }

  pub advance-IsOwned :
      (first : ℕ) (s : DatagramRouteSet Association Registry) (next : ℕ)
      → s.next_token ≤ next
      → next < 2 ^ 64
      → IsOwned first s
      → IsOwned first (record s { next_token = next })
  advance-IsOwned first s next up fits h = record {
    within = h.within;
    one_each = h.one_each;
    one_owner = h.one_owner;
    ours = All-map (owned_tokens s.routes) (λ t k. (k.0, omega arith)) h.ours;
    started = omega (arith, h.started);
    fits = fits;
  }

  pub refused :
      (first : ℕ) (s : DatagramRouteSet Association Registry) (registry : Registry)
      → IsOwned first s
      → IsOwned first (record s { registry = registry })
  refused first s registry h = record {
    within = h.within;
    one_each = h.one_each;
    one_owner = h.one_owner;
    ours = h.ours;
    started = h.started;
    fits = h.fits;
  }

  -- A new route, with tokens from `n` on.
  pub joined :
      (first n : ℕ) (s : DatagramRouteSet Association Registry) (route : DatagramRoute Association)
      (registry : Registry)
      → length s.routes < 32
      → any (is_route route.endpoint) s.routes ≡ false
      → IsOwned first s
      → first ≤ n
      → All (λ t. (n ≤ t) × (t < s.next_token)) route.tokens
      → NoDup route.tokens
      → All (λ t. t < n) (owned_tokens s.routes)
      → IsOwned first (record s { routes = route ∷ s.routes; registry = registry })
  unfolding owned_tokens
  joined first n s route registry room new h low given distinct old = record {
    within = omega arith;
    one_each = (no_key route.endpoint s.routes new, h.one_each);
    one_owner =
        NoDup-append n route.tokens (owned_tokens s.routes)
          (All-map route.tokens (λ t k. k.0) given) old distinct h.one_owner;
    ours =
        All-append (λ t. (first ≤ t) × (t < s.next_token)) route.tokens (owned_tokens s.routes)
          (All-map route.tokens (λ t k. (omega (arith, k.0), k.1)) given) h.ours;
    started = h.started;
    fits = h.fits;
  }
