-- ===== src/Config/Invariant.antt =====
-- What holds at the start, and over every line that is accepted, holds at the end.
use commeatus.Prelude.{
  ℕ, ◌+◌, ◌≡◌, refl, eqb_iff, All, Bool, true, false, List, [], ◌∷◌, Bytes, bytes, eqb,
  if◌then◌else◌,
}
use commeatus.Outcome.{ok, >>=-eq-ok}
use commeatus.Config.{Surroundings, Parsing}
use commeatus.Config.Steps.{Accepts, blank}
use commeatus.Config.Accepted.{
  version_directive-Accepts, allow_public_listen_directive-Accepts, listen_directive-Accepts,
  default_directive-Accepts, rule_directive-Accepts, resolver_directive-Accepts,
  endpoint_directive-Accepts, blocklist_directive-Accepts, hosts_directive-Accepts,
}
use commeatus.Config.Compile.{directive, line_fields, parse_lines}

-- Either branch of a test.
pub branch :
    {A G : Type 0} {r : A} (test : Bool) (x y : A)
    → (if test then x else y) ≡ r
    → (test ≡ true → x ≡ r → G)
    → (y ≡ r → G)
    → G
branch true x y e f g = f refl e
branch false x y e f g = g e

module _ {Session Association FilePath : Type 0} (host : Surroundings Session Association FilePath)
    (root : FilePath) where
  pub directive-Accepts :
      (fields : List Bytes) (line : ℕ) (p p' : Parsing Session Association FilePath)
      → directive host root fields line p ≡ ok p'
      → Accepts fields line p p'
  unfolding directive
  directive-Accepts [] line p p' e = let same : p ≡ p' = cc in rw (← same) blank
  directive-Accepts (word ∷ fields) line p p' e =
      let all = word ∷ fields in
      branch (eqb word (bytes "version")) _ _ e (λ _. version_directive-Accepts all line p p')
        λ e.
          branch (eqb word (bytes "allow-public-listen")) _ _ e
            (λ is.
              allow_public_listen_directive-Accepts all line p p'
                ((eqb_iff word (bytes "allow-public-listen")).0 is))
            λ e.
              branch (eqb word (bytes "listen")) _ _ e (λ _. listen_directive-Accepts all line p p')
                λ e.
                  branch (eqb word (bytes "resolver")) _ _ e
                    (λ _. resolver_directive-Accepts host all line p p')
                    λ e.
                      branch (eqb word (bytes "endpoint")) _ _ e
                        (λ _. endpoint_directive-Accepts host all line p p')
                        λ e.
                          branch (eqb word (bytes "default")) _ _ e
                            (λ _. default_directive-Accepts all line p p')
                            λ e.
                              branch (eqb word (bytes "blocklist")) _ _ e
                                (λ _. blocklist_directive-Accepts host root all line p p')
                                λ e.
                                  branch (eqb word (bytes "hosts")) _ _ e
                                    (λ _. hosts_directive-Accepts host root all line p p')
                                    λ e.
                                      branch (eqb word (bytes "rule")) _ _ e
                                        (λ _. rule_directive-Accepts all line p p') λ e. cc

  -- `Allowed` is what is known of the fields of every line.
  module _ (Allowed : List Bytes → Type 0) (Holds : Parsing Session Association FilePath → Type 0)
      (step : (fields : List Bytes) (line : ℕ) (p p' : Parsing Session Association FilePath)
        → Allowed fields
        → Accepts fields line p p'
        → Holds p
        → Holds p') where
    pub parse_lines-Allowed :
        (line : ℕ) (rest : List Bytes) (p p' : Parsing Session Association FilePath)
        → All (λ raw. Allowed (line_fields raw)) rest
        → Holds p
        → parse_lines host root line rest p ≡ ok p'
        → Holds p'
    unfolding parse_lines
    parse_lines-Allowed line [] p p' all h e = let same : p ≡ p' = cc in rw (← same) h
    parse_lines-Allowed line (raw ∷ rest) p p' (fits, all) h e =
        let (q, here, e) = >>=-eq-ok (directive host root (line_fields raw) line p) _ e in
        parse_lines-Allowed (line + 1) rest q p' all
          (step _ line p q fits (directive-Accepts (line_fields raw) line p q here) h) e

  pub parse_lines-Holds :
      (Holds : Parsing Session Association FilePath → Type 0)
      (step : (fields : List Bytes) (line : ℕ) (p p' : Parsing Session Association FilePath)
        → Accepts fields line p p'
        → Holds p
        → Holds p')
      (line : ℕ) (rest : List Bytes) (p p' : Parsing Session Association FilePath)
      → Holds p
      → parse_lines host root line rest p ≡ ok p'
      → Holds p'
  parse_lines-Holds Holds step line rest p p' =
      parse_lines-Allowed (λ fields. Unit) Holds (λ fields line p p' _. step fields line p p') line
        rest p p' (anything rest)
    where
      anything : (rest : List Bytes) → All (λ raw. Unit) rest
      anything [] = tt
      anything (raw ∷ rest) = (tt, anything rest)
