-- ===== src/Config/Private.antt =====
-- Listening beyond the machine itself takes a directive that allows it.
use commeatus.Prelude.{
  ℕ, ◌≡◌, ◌≢◌, refl, Bool, true, false, not, some, List, [], ◌∷◌, Bytes, bytes, eqb, eqb_iff, any,
  All, arith, Bool-cases, inl, inr, or_false,
}
use commeatus.Text.Lines.{lines}
use commeatus.Ip.{is_loopback}
use commeatus.Outcome.{ok}
use commeatus.Config.{Surroundings, Parsing, CompiledConfig, ListenerConfig}
use commeatus.Config.Directives.{add_resolver, parse_bool}
use commeatus.Config.Steps.{
  Accepts, blank, version, allow, listen, resolver, endpoint, default, rule, blocklist, hosts,
}
use commeatus.Config.Compile.{start, parse_config_at, line_fields, is_public, is_allowed}
use commeatus.Config.Invariant.{parse_lines-Allowed}
use commeatus.Config.Finished.{parse_config_at-IsFinished}

abbrev allowing : List Bytes
allowing = bytes "allow-public-listen" ∷ bytes "true" ∷ []

-- The fields do not allow public listeners.
abbrev pub IsSilent : List Bytes → Type 0
IsSilent fields = fields ≢ allowing

abbrev pub IsLocal : ListenerConfig → Type 0
IsLocal listener = is_loopback listener.address.ip ≡ true

says_true : (word : Bytes) → parse_bool word ≡ some true → word ≡ bytes "true"
unfolding parse_bool
says_true word e = elim (Bool-cases (eqb word (bytes "true"))) [
  | inl found ↦ (eqb_iff word (bytes "true")).0 found
  | inr missing ↦ elim (Bool-cases (eqb word (bytes "false"))) [
    | inl other ↦ absurd (cc (rw (missing, other) at e))
    | inr nothing ↦ absurd (cc (rw (missing, nothing) at e))
  ]
]

none_public :
    (listeners : List ListenerConfig) → any is_public listeners ≡ false → All IsLocal listeners
none_public [] e = tt
none_public (l ∷ listeners) e =
    let (here, there) = or_false (is_public l) (any is_public listeners) e in
    (local (is_loopback l.address.ip) here, none_public listeners there)
  where
    local : (b : Bool) → not b ≡ false → b ≡ true
    local b e = ground arith

module _ {Session Association FilePath : Type 0} where
  abbrev IsPrivate : Parsing Session Association FilePath → Type 0
  IsPrivate p = is_allowed p.allow_public_listen ≡ false

  step-IsPrivate :
      (fields : List Bytes) (line : ℕ) (p p' : Parsing Session Association FilePath)
      → IsSilent fields
      → Accepts fields line p p'
      → IsPrivate p
      → IsPrivate p'
  unfolding add_resolver
  step-IsPrivate fields line p _ silent blank h = h
  step-IsPrivate fields line p _ silent version h = h
  step-IsPrivate fields line p _ silent (allow true word _ is given) h =
      let said = says_true word given in absurd (silent (cc (is, said)))
  step-IsPrivate fields line p _ silent (allow false word _ is given) h = refl
  step-IsPrivate fields line p _ silent (listen _ _ _ _ _) h = h
  step-IsPrivate fields line p _ silent (resolver _ _ _ _) h = h
  step-IsPrivate fields line p _ silent (endpoint _ _ _ _) h = h
  step-IsPrivate fields line p _ silent (default _ _ _) h = h
  step-IsPrivate fields line p _ silent (rule _ _ _) h = h
  step-IsPrivate fields line p _ silent (blocklist _ _ _ _) h = h
  step-IsPrivate fields line p _ silent (hosts _ _ _) h = h

  -- If no line of a configuration that is accepted is `allow-public-listen true`, all of its
  -- listeners have loopback addresses.
  pub parse_config_at-IsLocal :
      (host : Surroundings Session Association FilePath) (root : FilePath) (text : Bytes)
      (c : CompiledConfig Session Association FilePath)
      → All (λ raw. IsSilent (line_fields raw)) (lines text)
      → parse_config_at host root text ≡ ok c
      → All IsLocal c.listeners
  unfolding start
  parse_config_at-IsLocal host root text c silent e =
      let (_, (p, parsed, f)) = parse_config_at-IsFinished host root text c e in
      let h : IsPrivate p =
        parse_lines-Allowed host root IsSilent IsPrivate step-IsPrivate 1 (lines text) start p
          silent refl parsed in
      rw f.listeners (none_public p.listeners (cc (rw h at f.private)))
