-- ===== src/Transparent/Served.antt =====
-- The maps of a transparent UDP listener agree: a token leads to a client that has it.
pub mod Kept
pub mod Routes
pub mod Always
pub mod Runs
use commeatus.Prelude.{
  ℕ, suc, ◌+◌, ◌-◌, ◌≤◌, ◌<◌, ◌≡◌, ◌≢◌, ◌⊎◌, refl, sym, ap, ◌∙◌, Bool, true, false, not, ◌||◌,
  Option, none, some, List, [], ◌∷◌, ◌++◌, map, length, any, find, leb, ◌==◌, ==_iff, All, All-map,
  Any, NoDup, arith, Bool-cases, Option-cases, inl, inr, or_false,
}
use commeatus.Ip.Socket.{SocketAddr, socket_eq, socket_eq_iff}
use commeatus.Datagram.{DatagramRoute, owned_tokens}
use commeatus.Transparent.{
  ClientState, Serving, is_client, is_expired, remove_token, remove_tokens, insert_tokens, cleanup,
  remove_client, set_routes,
}
use commeatus.Transparent.Loop.{touch}

abbrev pub has : ℕ → List ℕ → Bool
has token tokens = any (λ t. token == t) tokens

abbrev Entry : Type 0
Entry = ℕ × SocketAddr

-- What holds of the entries holds of those that are left, or that are added.
remove_token-All :
    (P : Entry → Type 0) (token : ℕ) (entries : List Entry)
    → All P entries
    → All P (remove_token token entries)
unfolding remove_token
remove_token-All P token [] h = tt
remove_token-All P token ((t, client) ∷ rest) (here, h) = elim (Bool-cases (t == token)) [
  | inl gone ↦ rw gone (remove_token-All P token rest h)
  | inr kept ↦ rw kept (here, remove_token-All P token rest h)
]

remove_token_gone :
    (token : ℕ) (entries : List Entry)
    → All (λ e. (e.0 == token) ≡ false) (remove_token token entries)
unfolding remove_token
remove_token_gone token [] = tt
remove_token_gone token ((t, client) ∷ rest) = elim (Bool-cases (t == token)) [
  | inl gone ↦ rw gone (remove_token_gone token rest)
  | inr kept ↦ rw kept (kept, remove_token_gone token rest)
]

remove_tokens-All :
    (P : Entry → Type 0) (tokens : List ℕ) (entries : List Entry)
    → All P entries
    → All P (remove_tokens tokens entries)
unfolding remove_tokens
remove_tokens-All P [] entries h = h
remove_tokens-All P (token ∷ tokens) entries h =
    remove_tokens-All P tokens (remove_token token entries) (remove_token-All P token entries h)

-- The entries of the tokens are gone.
remove_tokens_gone :
    (P : Entry → Type 0) (tokens : List ℕ) (entries : List Entry)
    → All P entries
    → All (λ e. P e × (has e.0 tokens ≡ false)) (remove_tokens tokens entries)
unfolding remove_tokens
remove_tokens_gone P [] entries h = All-map entries (λ e k. (k, refl)) h
remove_tokens_gone P (token ∷ tokens) entries h =
    let left = remove_token token entries in
    All-map (remove_tokens tokens left) (λ e k. (k.0.0, ground (arith, k)))
      (remove_tokens_gone (λ e. P e × ((e.0 == token) ≡ false)) tokens left
        (both P (λ e. (e.0 == token) ≡ false) left (remove_token-All P token entries h)
          (remove_token_gone token entries)))
  where
    both :
        (P Q : Entry → Type 0) (entries : List Entry)
        → All P entries
        → All Q entries
        → All (λ e. P e × Q e) entries
    both P Q [] h k = tt
    both P Q (e ∷ entries) (x, h) (y, k) = ((x, y), both P Q entries h k)

pub insert_tokens-All :
    (P : Entry → Type 0) (tokens : List ℕ) (client : SocketAddr) (entries : List Entry)
    → All P entries
    → ((t : ℕ) → has t tokens ≡ true → P (t, client))
    → All P (insert_tokens tokens client entries)
unfolding insert_tokens
insert_tokens-All P [] client entries h new = h
insert_tokens-All P (token ∷ tokens) client entries h new =
    insert_tokens-All P tokens client _
      (new token (ground arith), remove_token-All P token entries h)
      (λ t k. new t (ground (arith, k)))

module _ {Association : Type 0} where
  abbrev HeldBy : Entry → ClientState Association → Type 0
  HeldBy e state = (state.client ≡ e.1) × (has e.0 (owned_tokens state.routes) ≡ true)

  -- The entry's client is there, and has the entry's token.
  abbrev pub IsHeld : List (ClientState Association) → Entry → Type 0
  IsHeld states e = Any (HeldBy e) states

  cleanup-IsHeld :
      (Other : Entry → Type 0) (now : ℕ) (states : List (ClientState Association))
      (entries : List Entry)
      → All (λ e. Other e ⊎ IsHeld states e) entries
      → All (λ e. Other e ⊎ IsHeld (cleanup now states entries).0 e) (cleanup now states entries).1
  unfolding cleanup
  cleanup-IsHeld Other now [] entries h = h
  cleanup-IsHeld Other now (state ∷ states) entries h = elim (Bool-cases (is_expired now state)) [
    | inl expired ↦
        let gone = remove_tokens_gone _ (owned_tokens state.routes) entries h in
        rw expired (
          cleanup-IsHeld Other now states _
            (All-map (remove_tokens (owned_tokens state.routes) entries) (λ e k. left e k) gone))
    | inr kept ↦
        let inner =
          cleanup-IsHeld (λ e. Other e ⊎ HeldBy e state) now states entries
            (All-map entries (λ e k. apart e k) h) in
        rw kept (All-map (cleanup now states entries).1 (λ e k. joined _ e k) inner)
  ]
    where
      left :
          (e : Entry)
          → (Other e ⊎ IsHeld (state ∷ states) e) × (has e.0 (owned_tokens state.routes) ≡ false)
          → Other e ⊎ IsHeld states e
      left e (inl other, gone) = inl other
      left e (inr (inl (_, mine)), gone) = absurd (cc (mine, gone))
      left e (inr (inr found), gone) = inr found

      apart :
          (e : Entry)
          → Other e ⊎ IsHeld (state ∷ states) e
          → (Other e ⊎ HeldBy e state) ⊎ IsHeld states e
      apart e (inl other) = inl (inl other)
      apart e (inr (inl mine)) = inl (inr mine)
      apart e (inr (inr found)) = inr found

      joined :
          (rest : List (ClientState Association)) (e : Entry)
          → (Other e ⊎ HeldBy e state) ⊎ IsHeld rest e
          → Other e ⊎ IsHeld (state ∷ rest) e
      joined rest e (inl (inl other)) = inl other
      joined rest e (inl (inr mine)) = inr (inl mine)
      joined rest e (inr found) = inr (inr found)

  -- A cleanup leaves no token of a client that it removes.
  pub cleanup-All :
      (now : ℕ) (states : List (ClientState Association)) (entries : List Entry)
      → All (IsHeld states) entries
      → All (IsHeld (cleanup now states entries).0) (cleanup now states entries).1
  cleanup-All now states entries h =
      All-map (cleanup now states entries).1 (λ e k. held _ e k)
        (cleanup-IsHeld (λ e. ⊥) now states entries (All-map entries (λ e k. inr k) h))
    where
      held : (rest : List (ClientState Association)) (e : Entry) → ⊥ ⊎ IsHeld rest e → IsHeld rest e
      held rest e (inl none_here) = absurd none_here
      held rest e (inr found) = found

  -- What holds of every client holds of those that a cleanup leaves.
  pub cleanup-kept :
      (P : ClientState Association → Type 0) (now : ℕ) (states : List (ClientState Association))
      (entries : List Entry)
      → All P states
      → All P (cleanup now states entries).0
  unfolding cleanup
  cleanup-kept P now [] entries h = tt
  cleanup-kept P now (state ∷ states) entries (here, h) = elim (Bool-cases (is_expired now state)) [
    | inl expired ↦ rw expired (cleanup-kept P now states _ h)
    | inr kept ↦ rw kept (here, cleanup-kept P now states entries h)
  ]

  pub length-cleanup :
      (now : ℕ) (states : List (ClientState Association)) (entries : List Entry)
      → length (cleanup now states entries).0 ≤ length states
  unfolding cleanup
  length-cleanup now [] entries = omega arith
  length-cleanup now (state ∷ states) entries =
      let less = length-cleanup now states (remove_tokens (owned_tokens state.routes) entries) in
      let same = length-cleanup now states entries in
      elim (Bool-cases (is_expired now state)) [
        | inl expired ↦ rw expired (omega (arith, less))
        | inr kept ↦ rw kept (omega (arith, same))
      ]

  -- Each client stands in the map once.
  abbrev pub IsDistinct : List (ClientState Association) → Type 0
  IsDistinct [] = Unit
  IsDistinct (state ∷ states) =
      All (λ other. other.client ≢ state.client) states × IsDistinct states

  pub cleanup-IsDistinct :
      (now : ℕ) (states : List (ClientState Association)) (entries : List Entry)
      → IsDistinct states
      → IsDistinct (cleanup now states entries).0
  unfolding cleanup
  cleanup-IsDistinct now [] entries h = tt
  cleanup-IsDistinct now (state ∷ states) entries (here, h) =
      elim (Bool-cases (is_expired now state)) [
        | inl expired ↦ rw expired (cleanup-IsDistinct now states _ h)
        | inr kept ↦
            rw kept
              (cleanup-kept _ now states entries here, cleanup-IsDistinct now states entries h)
      ]
