-- ===== src/Config/Listeners.antt =====
-- The listeners of a configuration that is accepted.
use commeatus.Prelude.{
  ℕ, ◌≡◌, ◌≢◌, refl, ap, ◌∙◌, Bool, true, false, List, [], ◌∷◌, map, Bytes, any, All, All-append,
  All-map, Any, NoDup, arith, inl, inr, or_false,
}
use commeatus.Text.Lines.{lines}
use commeatus.Ip.Socket.{SocketAddr, socket_eq_iff}
use commeatus.Outcome.{ok}
use commeatus.Config.{Surroundings, Parsing, CompiledConfig, ListenerConfig, is_udp, push}
use commeatus.Config.Directives.{same_listener, add_resolver}
use commeatus.Config.Steps.{
  Accepts, blank, version, allow, listen, resolver, endpoint, default, rule, blocklist, hosts,
}
use commeatus.Config.Compile.{start, parse_config_at}
use commeatus.Config.Invariant.{parse_lines-Holds}
use commeatus.Config.Finished.{parse_config_at-IsFinished}

-- What a listener binds: whether it is UDP, and the address.
abbrev pub binding : ListenerConfig → Bool × SocketAddr
binding listener = (is_udp listener.protocol, listener.address)

same_listener_refl : (a : Bool × SocketAddr) → same_listener a a ≡ true
same_listener_refl (true, address) = (socket_eq_iff address address).1 refl
same_listener_refl (false, address) = (socket_eq_iff address address).1 refl

-- What is not found stands nowhere.
apart :
    (a : Bool × SocketAddr) (xs : List (Bool × SocketAddr))
    → any (same_listener a) xs ≡ false
    → All (λ x. x ≢ a) xs
apart a [] e = tt
apart a (x ∷ xs) e =
    let (here, there) = or_false (same_listener a x) (any (same_listener a) xs) e in
    (λ same. cc (same, here, same_listener_refl a), apart a xs there)

NoDup-push : {A : Type 0} (x : A) (xs : List A) → NoDup xs → All (λ y. y ≢ x) xs → NoDup (push x xs)
NoDup-push x [] d new = (tt, tt)
NoDup-push x (y ∷ xs) (other, d) (fresh, new) =
    (All-append (λ z. y ≢ z) xs (x ∷ []) other (fresh, tt), NoDup-push x xs d new)

map-push :
    {A B : Type 0} (f : A → B) (x : A) (xs : List A) → map f (push x xs) ≡ push (f x) (map f xs)
map-push f x [] = refl
map-push f x (y ∷ xs) = ap (◌∷◌ (f y)) (map-push f x xs)

-- `listener_addresses` has what the listeners bind.
abbrev IsCovered : List (Bool × SocketAddr) → List ListenerConfig → Type 0
IsCovered addresses listeners = All (λ l. Any (λ x. x ≡ binding l) addresses) listeners

other :
    (a b : Bool × SocketAddr) (xs : List (Bool × SocketAddr))
    → All (λ x. x ≢ a) xs
    → Any (λ x. x ≡ b) xs
    → b ≢ a
other a b [] far found = elim found [ ]
other a b (x ∷ xs) (far, _) (inl here) = λ same. far (here ∙ same)
other a b (x ∷ xs) (_, far) (inr there) = other a b xs far there

others :
    (a : Bool × SocketAddr) (addresses : List (Bool × SocketAddr)) (listeners : List ListenerConfig)
    → IsCovered addresses listeners
    → All (λ x. x ≢ a) addresses
    → All (λ x. x ≢ a) (map binding listeners)
others a addresses [] covered far = tt
others a addresses (l ∷ listeners) (here, covered) far =
    (other a (binding l) addresses far here, others a addresses listeners covered far)

abbrev pub HasPort : ListenerConfig → Type 0
HasPort listener = listener.address.port ≢ 0

module _ {Session Association FilePath : Type 0} where
  record IsBound (p : Parsing Session Association FilePath) : Type 0 where
    covered : IsCovered p.listener_addresses p.listeners
    distinct : NoDup (map binding p.listeners)
    ports : All HasPort p.listeners

  step-IsBound :
      (fields : List Bytes) (line : ℕ) (p p' : Parsing Session Association FilePath)
      → Accepts fields line p p'
      → IsBound p
      → IsBound p'
  unfolding add_resolver
  step-IsBound fields line p _ blank h = h
  step-IsBound fields line p _ version h = ground arith
  step-IsBound fields line p _ (allow _ _ _ _ _) h = ground arith
  step-IsBound fields line p _ (listen protocol address _ port new) h =
      let l : ListenerConfig = record { protocol = protocol; address = address } in
      let far = apart (binding l) p.listener_addresses new in
      record {
        covered =
            All-append _ p.listeners (l ∷ []) (All-map p.listeners (λ x i. inr i) h.covered)
              (inl refl, tt);
        distinct = rw (map-push binding l p.listeners) (
            NoDup-push (binding l) (map binding p.listeners) h.distinct
              (others (binding l) p.listener_addresses p.listeners h.covered far));
        ports = All-append HasPort p.listeners (l ∷ []) h.ports (port, tt);
      }
  step-IsBound fields line p _ (resolver _ _ _ _) h = ground arith
  step-IsBound fields line p _ (endpoint _ _ _ _) h = ground arith
  step-IsBound fields line p _ (default _ _ _) h = ground arith
  step-IsBound fields line p _ (rule _ _ _) h = ground arith
  step-IsBound fields line p _ (blocklist _ _ _ _) h = ground arith
  step-IsBound fields line p _ (hosts _ _ _) h = ground arith

  start-IsBound : IsBound start
  unfolding start
  start-IsBound = record { covered = tt; distinct = tt; ports = tt }

  -- What a configuration that is accepted listens on: no two listeners have the same address on
  -- the same transport, and none has the port 0.
  pub parse_config_at-binding :
      (host : Surroundings Session Association FilePath) (root : FilePath) (text : Bytes)
      (c : CompiledConfig Session Association FilePath)
      → parse_config_at host root text ≡ ok c
      → NoDup (map binding c.listeners) × All HasPort c.listeners
  parse_config_at-binding host root text c e =
      let (_, (p, parsed, f)) = parse_config_at-IsFinished host root text c e in
      let h =
        parse_lines-Holds host root IsBound step-IsBound 1 (lines text) start p start-IsBound
          parsed in
      rw f.listeners (h.distinct, h.ports)
