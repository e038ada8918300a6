-- ===== src/Dns/Aliases/Reached.antt =====
-- The names that the CNAME records of a message lead to.
use commeatus.Prelude.{
  ℕ, zero, suc, ◌≡◌, ◌⊎◌, refl, Bool, true, false, not, List, [], ◌∷◌, arith, ◌==◌, if◌then◌else◌,
  Bytes, eqb, eqb_iff, ==_iff, All, Bool-cases, inl, inr,
}
use commeatus.Dns.Answer.{invalid_response, DnsResult, DnsResult-cases, ok, err, >>=-eq-ok}
use commeatus.Dns.Wire.{decode_name}
use commeatus.Dns.Records.{class_in, type_cname, ResourceRecord, require, ◌>>◌}
use commeatus.Dns.Aliases.{
  Aliases, contains, is_alias, alias_target, accept, alias_pass, alias_rounds,
}

abbrev pub In : ResourceRecord → List ResourceRecord → Type 0
In x [] = ⊥
In x (y ∷ ys) = (y ≡ x) ⊎ In x ys

-- Names that the CNAME records of a message lead to.
pub data Reaches (message : Bytes) (items : List ResourceRecord) (name : Bytes)
    : Bytes → Type 0 where
  itself : Reaches message items name name
  by_alias :
      (item : ResourceRecord) (owner target : Bytes)
      → In item items
      → item.rr_class ≡ class_in
      → item.rr_type ≡ type_cname
      → item.owner ≡ owner
      → Reaches message items name owner
      → decode_name message item.rdata_start ≡ ok (target, item.rdata_end)
      → Reaches message items name target

is_alias_parts :
    (s : Aliases) (item : ResourceRecord)
    → is_alias s item ≡ true
    → (item.rr_class ≡ class_in)
      × (item.rr_type ≡ type_cname)
      × (contains s.accepted_names item.owner ≡ true)
unfolding is_alias
is_alias_parts s item h = ground arith

round_ends :
    (changed over : Bool) (s r : Aliases) (later : DnsResult Aliases)
    → (if not changed then ok s else if over then err invalid_response else later) ≡ ok r
    → (s ≡ r) ⊎ (later ≡ ok r)
round_ends false over s r later e = inl (cc e)
round_ends true true s r later e = cc
round_ends true false s r later e = inr e

module _ (message : Bytes) (items : List ResourceRecord) (name : Bytes) where
  abbrev pub Reached : List Bytes → Type 0
  Reached names = All (Reaches message items name) names

  pub contains-Reached :
      (names : List Bytes) (owner : Bytes)
      → Reached names
      → contains names owner ≡ true
      → Reaches message items name owner
  contains-Reached [] owner h e = cc
  contains-Reached (n ∷ names) owner (h, hs) e = elim (Bool-cases (eqb n owner)) [
    | inl same ↦ rw (← (eqb_iff n owner).0 same) h
    | inr other ↦ contains-Reached names owner hs (rw other at e)
  ]

  accept-Reached :
      (s : Aliases) (ttl : ℕ) (target : Bytes)
      → Reached s.accepted_names
      → Reaches message items name target
      → Reached (accept s ttl target).accepted_names
  unfolding accept
  accept-Reached s ttl target h t = elim (Bool-cases (contains s.accepted_names target)) [
    | inl old ↦ rw old h
    | inr new ↦ rw new (t, h)
  ]

  alias_target-decode :
      (item : ResourceRecord) (target : Bytes)
      → alias_target message item ≡ ok target
      → decode_name message item.rdata_start ≡ ok (target, item.rdata_end)
  unfolding alias_target
  alias_target-decode item target e =
      let ((target', offset), decoded, e₁) = >>=-eq-ok (decode_name message item.rdata_start) _ e in
      rest target' offset decoded e₁
    where
      rest :
          (target' : Bytes) (offset : ℕ)
          → decode_name message item.rdata_start ≡ ok (target', offset)
          → (require (offset == item.rdata_end) >> ok target') ≡ ok target
          → decode_name message item.rdata_start ≡ ok (target, item.rdata_end)
      rest target' offset decoded e = elim (Bool-cases (offset == item.rdata_end)) [
        | inl all ↦
            let end : offset ≡ item.rdata_end = (==_iff offset item.rdata_end).0 all in
            let same : target' ≡ target = cc (rw all at e) in rw (← end, ← same) decoded
        | inr part ↦ absurd (cc (rw part at e))
      ]

  alias_pass-Reached :
      (rest : List ResourceRecord) (s s' : Aliases)
      → ((item : ResourceRecord) → In item rest → In item items)
      → Reached s.accepted_names
      → alias_pass message rest s ≡ ok s'
      → Reached s'.accepted_names
  unfolding alias_pass
  alias_pass-Reached [] s s' sub h e = let q : s ≡ s' = cc e in rw (← q) h
  alias_pass-Reached (item ∷ rest) s s' sub h e = elim (Bool-cases (is_alias s item)) [
    | inr other ↦
        alias_pass-Reached rest s s' (λ x i. sub x (inr i)) h (rw (other, alias_pass) at e)
    | inl alias ↦ elim (DnsResult-cases (alias_target message item)) [
      | inl (kind, failed) ↦ absurd (cc (rw (alias, failed, alias_pass) at e))
      | inr (target, found) ↦
          let (in_class, is_cname, known) = is_alias_parts s item alias in
          let owner = contains-Reached s.accepted_names item.owner h known in
          let reached =
            by_alias item item.owner target (sub item (inl refl)) in_class is_cname refl owner
              (alias_target-decode item target found) in
          alias_pass-Reached rest (accept s item.ttl target) s' (λ x i. sub x (inr i))
            (accept-Reached s item.ttl target h reached) (rw (alias, found, alias_pass) at e)
    ]
  ]

  pub alias_rounds-Reached :
      (rounds : ℕ) (s s' : Aliases)
      → Reached s.accepted_names
      → alias_rounds rounds message items s ≡ ok s'
      → Reached s'.accepted_names
  unfolding alias_rounds
  alias_rounds-Reached zero s s' h e = let q : s ≡ s' = cc e in rw (← q) h
  alias_rounds-Reached (suc rounds) s s' h e =
      let start : Aliases = record s { changed = false } in
      elim (DnsResult-cases (alias_pass message items start)) [
        | inl (kind, failed) ↦ absurd (cc (rw (failed, alias_rounds) at e))
        | inr (next, passed) ↦
            let h' = alias_pass-Reached items start next (λ x i. i) h passed in
            elim (round_ends next.changed _ next s' (alias_rounds rounds message items next)
              (rw (passed, alias_rounds) at e)) [
                | inl q ↦ rw (← q) h'
                | inr later ↦ alias_rounds-Reached rounds next s' h' later
              ]
      ]
