-- ===== src/Policy/Suffix.antt =====
-- `domain_matches_suffix` respects label boundaries, and compares without regard to ASCII case.
use native.Mathlib.Numerals.{add-one}
use commeatus.Prelude.{
  ℕ, zero, suc, ◌+◌, ◌-◌, ◌≤◌, ◌≡◌, ==_iff, ◌≢◌, ◌↔◌, inl, inr, refl, sym, ap, ◌∙◌, Bool, true,
  false, ◌&&◌, Option, none, some, [], ◌∷◌, ◌++◌, arith, ltb, if◌then◌else◌, Bytes, length,
  length-append, get_elem?, drop, take, Bool-cases,
}
use commeatus.Text.{dot, lower, trim, trim_end, to_ascii_lowercase, eq_ignore_ascii_case, is_utf8}
use commeatus.Text.Case.{
  length-to_ascii_lowercase, to_ascii_lowercase-append, to_ascii_lowercase_split, lower-dot,
  eq_ignore_ascii_case_iff,
}
use commeatus.Text.Valid.{starts_char, trim-starts_char}
use commeatus.DomainSet.Matching.{LabelSuffix}
use commeatus.Policy.{
  domain_matches_suffix, is_char_boundary, get_from, is_dot, is_suffix, empty, continues,
}

-- The comparison behind the boundary, for a trimmed name and a trimmed suffix.
abbrev at_boundary : Bytes → Bytes → Bool
at_boundary name tail =
    let prefix = length name - (length tail + 1) in
    if ltb (length name) (length tail + 1)
    then false
    else is_char_boundary name prefix
      && is_dot (get_elem? name prefix)
      && is_suffix (get_from name (prefix + 1)) tail

split_at : (s : Bytes) (k c : ℕ) → get_elem? s k ≡ some c → s ≡ take k s ++ c ∷ drop (suc k) s
split_at [] k c e = cc
split_at (x ∷ s) zero c e = let q : x ≡ c = cc in rw q
split_at (x ∷ s) (suc k) c e = ap (◌∷◌ x) (split_at s k c e)

get_elem?-append : (a : Bytes) (c : ℕ) (b : Bytes) → get_elem? (a ++ c ∷ b) (length a) ≡ some c
get_elem?-append [] c b = refl
get_elem?-append (x ∷ a) c b = get_elem?-append a c b

drop-append_suc : (a : Bytes) (c : ℕ) (b : Bytes) → drop (suc (length a)) (a ++ c ∷ b) ≡ b
drop-append_suc [] c b = refl
drop-append_suc (x ∷ a) c b = drop-append_suc a c b

get_elem?-append_suc :
    (a : Bytes) (c : ℕ) (b : Bytes) → get_elem? (a ++ c ∷ b) (suc (length a)) ≡ get_elem? b 0
get_elem?-append_suc [] c b = refl
get_elem?-append_suc (x ∷ a) c b = get_elem?-append_suc a c b

is_dot-some : (o : Option ℕ) → is_dot o ≡ true → o ≡ some dot
unfolding is_dot
is_dot-some none h = cc
is_dot-some (some c) h = ap some ((==_iff c dot).0 h)

get_from-drop :
    (s : Bytes) (i : ℕ) (tail : Bytes)
    → is_suffix (get_from s i) tail ≡ true
    → eq_ignore_ascii_case (drop i s) tail ≡ true
unfolding get_from is_suffix
get_from-drop s i tail h = ground arith

-- What the comparison finds.
at_boundary-split :
    (name tail : Bytes)
    → at_boundary name tail ≡ true
    → (a : Bytes) × (b : Bytes) × (name ≡ a ++ dot ∷ b) × (eq_ignore_ascii_case b tail ≡ true)
at_boundary-split name tail h =
    let k : ℕ = length name - (length tail + 1) in
    let found : is_dot (get_elem? name k) ≡ true = ground arith in
    let rest : is_suffix (get_from name (k + 1)) tail ≡ true = ground arith in
    (
      take k name,
      drop (suc k) name,
      split_at name k dot (is_dot-some (get_elem? name k) found),
      rw (add-one k) at (get_from-drop name (k + 1) tail rest),
    )

-- A byte and its lower case are alike inside a character or not.
starts_char-lower :
    (a b : Bytes)
    → to_ascii_lowercase a ≡ to_ascii_lowercase b
    → starts_char b ≡ true
    → starts_char a ≡ true
unfolding to_ascii_lowercase lower
starts_char-lower [] b e h = refl
starts_char-lower (x ∷ a) [] e h = cc
starts_char-lower (x ∷ a) (y ∷ b) e h = ground arith

lower_length : (a b : Bytes) → to_ascii_lowercase a ≡ to_ascii_lowercase b → length a ≡ length b
lower_length a b e = sym (length-to_ascii_lowercase a) ∙ ap length e ∙ length-to_ascii_lowercase b

starts_char-get : (s : Bytes) → starts_char s ≡ true → continues (get_elem? s 0) ≡ false
unfolding continues
starts_char-get [] h = refl
starts_char-get (c ∷ cs) h = ground arith

boundary :
    (s : Bytes) (i : ℕ) (o : Option ℕ)
    → i ≤ length s
    → get_elem? s i ≡ o
    → continues o ≡ false
    → is_char_boundary s i ≡ true
unfolding is_char_boundary
boundary s i o fits at_i h = rw (at_i, h) (ground arith)

tail_at :
    (s : Bytes) (i : ℕ) (tail : Bytes)
    → is_char_boundary s i ≡ true
    → eq_ignore_ascii_case (drop i s) tail ≡ true
    → is_suffix (get_from s i) tail ≡ true
unfolding get_from is_suffix
tail_at s i tail b h = rw (b, h)

split-at_boundary :
    (a b tail : Bytes)
    → to_ascii_lowercase b ≡ to_ascii_lowercase tail
    → starts_char tail ≡ true
    → at_boundary (a ++ dot ∷ b) tail ≡ true
unfolding continues is_dot
split-at_boundary a b tail e h =
    let s : Bytes = a ++ dot ∷ b in
    let same : length b ≡ length tail = lower_length b tail e in
    let size : length s ≡ length a + suc (length b) = length-append a (dot ∷ b) in
    let prefix : length s - (length tail + 1) ≡ length a = omega arith in
    let room : ltb (length s) (length tail + 1) ≡ false = ground arith in
    let first : is_char_boundary s (length a) ≡ true =
      boundary s (length a) (some dot) (omega arith) (get_elem?-append a dot b) refl in
    let second : is_char_boundary s (suc (length a)) ≡ true =
      boundary s (suc (length a)) (get_elem? b 0) (omega arith) (get_elem?-append_suc a dot b)
        (starts_char-get b (starts_char-lower b tail e h)) in
    rw (room, prefix, first, get_elem?-append a dot b, add-one (length a))
      (tail_at s (suc (length a)) tail second
        (rw (drop-append_suc a dot b) ((eq_ignore_ascii_case_iff b tail).1 e)))

lower_cons :
    (b tail : Bytes)
    → to_ascii_lowercase b ≡ to_ascii_lowercase tail
    → to_ascii_lowercase (dot ∷ b) ≡ dot ∷ to_ascii_lowercase tail
unfolding to_ascii_lowercase lower
lower_cons b tail e = ap (◌∷◌ dot) e

lower_uncons :
    (b tail : Bytes)
    → to_ascii_lowercase b ≡ dot ∷ tail
    → (b' : Bytes) × (b ≡ dot ∷ b') × (to_ascii_lowercase b' ≡ tail)
unfolding to_ascii_lowercase
lower_uncons [] tail e = cc
lower_uncons (c ∷ cs) tail e =
    let q : c ≡ dot = lower-dot c (cc) in (cs, ap (λ (x : ℕ). x ∷ cs) q, cc)

suffix_tests :
    (host suffix : Bytes)
    → domain_matches_suffix host suffix ≡ (
        if empty (trim dot suffix)
        then false
        else if eq_ignore_ascii_case (trim_end dot host) (trim dot suffix)
        then true
        else at_boundary (trim_end dot host) (trim dot suffix))
unfolding domain_matches_suffix
suffix_tests host suffix = refl

-- The same tests, for names that are trimmed already.
trimmed_iff :
    (name tail : Bytes)
    → starts_char tail ≡ true
    → ((if empty tail
          then false
          else if eq_ignore_ascii_case name tail
          then true
          else at_boundary name tail)
        ≡ true)
      ↔ ((tail ≢ []) × LabelSuffix (to_ascii_lowercase tail) (to_ascii_lowercase name))
unfolding empty
trimmed_iff name [] h = (λ e. absurd (cc e), λ k. absurd (k.0 refl))
trimmed_iff name (t ∷ ts) h = (to, from)
  where
    to :
        (if eq_ignore_ascii_case name (t ∷ ts) then true else at_boundary name (t ∷ ts)) ≡ true
        → (t ∷ ts ≢ []) × LabelSuffix (to_ascii_lowercase (t ∷ ts)) (to_ascii_lowercase name)
    to e = (
      λ q. cc q,
      elim (Bool-cases (eq_ignore_ascii_case name (t ∷ ts))) [
        | inl same ↦ inl (sym ((eq_ignore_ascii_case_iff name (t ∷ ts)).0 same))
        | inr differ ↦
            let (a, b, cut, alike) = at_boundary-split name (t ∷ ts) (rw differ at e) in
            inr (
              to_ascii_lowercase a,
              ap to_ascii_lowercase cut
                  ∙ to_ascii_lowercase-append a (dot ∷ b)
                  ∙ ap (λ (r : Bytes). to_ascii_lowercase a ++ r)
                      (lower_cons b (t ∷ ts) ((eq_ignore_ascii_case_iff b (t ∷ ts)).0 alike)),
            )
      ],
    )

    from :
        (t ∷ ts ≢ []) × LabelSuffix (to_ascii_lowercase (t ∷ ts)) (to_ascii_lowercase name)
        → (if eq_ignore_ascii_case name (t ∷ ts) then true else at_boundary name (t ∷ ts)) ≡ true
    from (ne, inl same) = rw ((eq_ignore_ascii_case_iff name (t ∷ ts)).1 (sym same))
    from (ne, inr (front, cut)) =
        let (a, b, e, ea, eb) =
          to_ascii_lowercase_split name front (dot ∷ to_ascii_lowercase (t ∷ ts)) cut in
        let (b', shape, alike) = lower_uncons b (to_ascii_lowercase (t ∷ ts)) eb in
        let found = split-at_boundary a b' (t ∷ ts) alike h in
        let behind : at_boundary name (t ∷ ts) ≡ true = rw (e, shape) found in ground arith

-- A domain matches a suffix exactly if, dots trimmed (at the domain's end, at both ends of the
-- suffix) and in lower case, the suffix is not empty and is the domain or what stands behind one of
-- the domain's dots. The suffix is valid UTF-8, as every `str` is.
pub domain_matches_suffix_iff :
    (host suffix : Bytes)
    → is_utf8 suffix ≡ true
    → (domain_matches_suffix host suffix ≡ true) ↔ (
        (trim dot suffix ≢ [])
        × LabelSuffix
            (to_ascii_lowercase (trim dot suffix))
            (to_ascii_lowercase (trim_end dot host)))
domain_matches_suffix_iff host suffix valid =
    rw (suffix_tests host suffix)
      (trimmed_iff (trim_end dot host) (trim dot suffix) (trim-starts_char suffix valid))
