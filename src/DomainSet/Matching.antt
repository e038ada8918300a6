-- ===== src/DomainSet/Matching.antt =====
-- A compiled set answers as the lists that it was compiled from: the exact names, and the
-- suffixes at label boundaries.
use mathlib.Core.Path.{ap₂}
use commeatus.Prelude.{
  ℕ, zero, suc, ◌+◌, ◌≤◌, ◌<◌, ◌≡◌, ◌≢◌, ◌↔◌, ◌⊎◌, refl, sym, ap, ◌∙◌, Bool, true, not, ◌&&◌, ◌||◌,
  none, some, List, [], ◌∷◌, ◌++◌, arith, ltb, ◌==◌, if◌then◌else◌, Bytes, eqb, eqb_iff, any, Any,
  any_iff, any-ext, any_swap, length, ==_iff, eqb_refl, eqb_comm, and_iff, or_iff, Bool-cases,
  Option-cases, inl, inr,
}
use commeatus.Text.{dot, trim, trim_end, to_ascii_lowercase, is_ascii, split_once}
use commeatus.Text.Hostname.{hostname, max_domain_length, is_empty}
use commeatus.DomainSet.{
  DomainSet, sort, dedup, normalize_all, of_names, compile, binary_search, suffix_loop, matches,
}
use commeatus.DomainSet.Order.{any-dedup-sort, dedup-sort-IsSorted}
use commeatus.DomainSet.Search.{binary_search-any}

-- What stands behind each dot, in order.
after_dots : Bytes → List Bytes
after_dots [] = []
after_dots (c ∷ cs) = let rest = after_dots cs in if c == dot then cs ∷ rest else rest

after_dots-split_once-none : (s : Bytes) → split_once dot s ≡ none → after_dots s ≡ []
unfolding after_dots split_once
after_dots-split_once-none [] e = refl
after_dots-split_once-none (c ∷ cs) e = ground (arith, after_dots-split_once-none cs)

after_dots-split_once :
    (s a b : Bytes)
    → split_once dot s ≡ some (a, b)
    → (after_dots s ≡ b ∷ after_dots b) × (length b < length s)
unfolding after_dots split_once
after_dots-split_once [] a b e = cc
after_dots-split_once (c ∷ cs) a b e = elim (Bool-cases (c == dot)) [
  | inl found ↦ let q : cs ≡ b = cc (rw found at e) in rw (found, q) (refl, omega arith)
  | inr other ↦ elim (Option-cases (split_once dot cs)) [
    | inl last ↦ absurd (cc (rw (other, last, split_once) at e))
    | inr ((a', b'), cut) ↦
        let (shape, shorter) = after_dots-split_once cs a' b' cut in
        let q : b' ≡ b = cc (rw (other, cut, split_once) at e) in
        rw (other, ← q) (shape, omega arith)
  ]
]

suffix_loop-any :
    (fuel : ℕ) (suffixes : List Bytes) (s : Bytes)
    → length s < fuel
    → suffix_loop fuel suffixes s ≡ any (binary_search suffixes) (s ∷ after_dots s)
unfolding suffix_loop
suffix_loop-any zero suffixes s h = elim h [ ]
suffix_loop-any (suc fuel) suffixes s h = elim (Option-cases (split_once dot s)) [
  | inl last ↦ rw (after_dots-split_once-none s last) (ground arith)
  | inr ((a, b), cut) ↦
      let (shape, shorter) = after_dots-split_once s a b cut in
      rw shape (ground (arith, suffix_loop-any fuel suffixes b))
]

-- `s` is the whole name, or what stands behind one of its dots.
abbrev pub LabelSuffix : Bytes → Bytes → Type 0
LabelSuffix s name = (s ≡ name) ⊎ ((front : Bytes) × (name ≡ front ++ dot ∷ s))

after_dots-front :
    (s name : Bytes)
    → any (λ c. eqb s c) (after_dots name) ≡ true
    → (front : Bytes) × (name ≡ front ++ dot ∷ s)
unfolding after_dots
after_dots-front s [] e = cc
after_dots-front s (c ∷ cs) e = elim (Bool-cases (c == dot)) [
  | inr other ↦ let (front, q) = after_dots-front s cs (rw other at e) in (c ∷ front, ap (◌∷◌ c) q)
  | inl found ↦ elim (Bool-cases (eqb s cs)) [
    | inl same ↦ ([], ap₂ ◌∷◌ ((==_iff c dot).0 found) (sym ((eqb_iff s cs).0 same)))
    | inr differ ↦
        let (front, q) = after_dots-front s cs (rw (found, differ) at e) in
        (c ∷ front, ap (◌∷◌ c) q)
  ]
]

front-after_dots : (front s : Bytes) → any (λ c. eqb s c) (after_dots (front ++ dot ∷ s)) ≡ true
unfolding after_dots
front-after_dots [] s = rw (eqb_refl s)
front-after_dots (c ∷ front) s = ground (arith, front-after_dots front s)

-- The names that the loop tries for `name` are its label suffixes.
any-LabelSuffix :
    (s name : Bytes) → (any (λ c. eqb s c) (name ∷ after_dots name) ≡ true) ↔ LabelSuffix s name
any-LabelSuffix s name = (to, from)
  where
    to : any (λ c. eqb s c) (name ∷ after_dots name) ≡ true → LabelSuffix s name
    to e = elim (Bool-cases (eqb s name)) [
      | inl same ↦ inl ((eqb_iff s name).0 same)
      | inr differ ↦ inr (after_dots-front s name (rw differ at e))
    ]

    from : LabelSuffix s name → any (λ c. eqb s c) (name ∷ after_dots name) ≡ true
    from h = elim h [
      | inl same ↦ rw ((eqb_iff s name).1 same)
      | inr (front, q) ↦
          let found = front-after_dots front s in
          let tried : any (λ c. eqb s c) (after_dots name) ≡ true = rw q found in ground arith
    ]

-- The name that `compile` stores for a text.
abbrev pub name_of : Bytes → Bytes
name_of text = to_ascii_lowercase (trim dot text)

hostname-name_of : (text name : Bytes) → hostname text ≡ some name → name ≡ name_of text
unfolding hostname
hostname-name_of text name e = ground arith

any-normalize_all :
    (p : Bytes → Bool) (texts names : List Bytes)
    → normalize_all texts ≡ some names
    → any p names ≡ any (λ t. p (name_of t)) texts
unfolding normalize_all
any-normalize_all p [] names e = let q : names ≡ [] = cc in rw q
any-normalize_all p (t ∷ ts) names e = elim (Option-cases (hostname t)) [
  | inl bad ↦ absurd (cc (rw (bad, normalize_all) at e))
  | inr (n, good) ↦ elim (Option-cases (normalize_all ts)) [
    | inl bad ↦ absurd (cc (rw (good, bad, normalize_all) at e))
    | inr (ns, rest) ↦
        let q : names ≡ n ∷ ns = cc (rw (good, rest, normalize_all) at e) in
        rw (q, hostname-name_of t n good, any-normalize_all p ts ns rest)
  ]
]

compile-names :
    (exact suffixes : List Bytes) (set : DomainSet)
    → compile exact suffixes ≡ some set
    → (es : List Bytes) × (ss : List Bytes) × (normalize_all exact ≡ some es)
      × (normalize_all suffixes ≡ some ss)
      × (set ≡ record { exact = dedup (sort es); suffixes = dedup (sort ss) })
unfolding compile of_names
compile-names exact suffixes set e = elim (Option-cases (normalize_all exact)) [
  | inl bad ↦ absurd (cc (rw (bad, of_names) at e))
  | inr (es, he) ↦ elim (Option-cases (normalize_all suffixes)) [
    | inl bad ↦ absurd (cc (rw (he, bad, of_names) at e))
    | inr (ss, hs) ↦ (es, ss, he, hs, sym (cc (rw (he, hs) at e)))
  ]
]

-- A compiled list, searched for a name, answers as the texts that it came from.
search_compiled :
    (texts names : List Bytes) (key : Bytes)
    → normalize_all texts ≡ some names
    → binary_search (dedup (sort names)) key ≡ any (λ t. eqb key (name_of t)) texts
search_compiled texts names key e =
    binary_search-any (dedup (sort names)) key (dedup-sort-IsSorted names)
    ∙ any-dedup-sort (eqb key) names
    ∙ any-normalize_all (eqb key) texts names e

-- The name that `matches` looks up, and the check that it makes first.
abbrev pub query : Bytes → Bytes
query domain = trim_end dot domain

abbrev pub IsQuery : Bytes → Type 0
IsQuery name = (name ≢ []) × (length name ≤ 253) × (is_ascii name ≡ true)

abbrev is_query : Bytes → Bool
is_query name = not (is_empty name || ltb max_domain_length (length name) || not (is_ascii name))

is_query_iff : (name : Bytes) → (is_query name ≡ true) ↔ IsQuery name
is_query_iff [] = ground arith
is_query_iff (c ∷ cs) = ground arith

matches-tests :
    (set : DomainSet) (domain : Bytes)
    → matches set domain ≡ (
        is_query (query domain)
        && (binary_search set.exact (query domain)
            || any (binary_search set.suffixes) (query domain ∷ after_dots (query domain))))
unfolding matches
matches-tests set domain =
    let name = query domain in
    let loop = suffix_loop-any (length name + 1) set.suffixes name (omega arith) in
    ground (arith, loop)

-- A name is listed exactly, or one of its label suffixes is listed.
abbrev pub IsListed : List Bytes → List Bytes → Bytes → Type 0
IsListed exact suffixes name =
    Any (λ text. name_of text ≡ name) exact ⊎ Any (λ text. LabelSuffix (name_of text) name) suffixes

listed_exact :
    (texts : List Bytes) (name : Bytes)
    → (any (λ t. eqb name (name_of t)) texts ≡ true) ↔ Any (λ text. name_of text ≡ name) texts
listed_exact texts name =
    any_iff (λ t. eqb name (name_of t)) (λ text. name_of text ≡ name) texts
      λ t. let (to, from) = eqb_iff name (name_of t) in (λ e. sym (to e), λ e. from (sym e))

suffixes_tried :
    (texts names : List Bytes) (name : Bytes)
    → normalize_all texts ≡ some names
    → any (binary_search (dedup (sort names))) (name ∷ after_dots name)
      ≡ any (λ t. any (λ c. eqb (name_of t) c) (name ∷ after_dots name)) texts
suffixes_tried texts names name e =
    let tried = name ∷ after_dots name in
    any-ext (binary_search (dedup (sort names))) (λ c. any (λ t. eqb c (name_of t)) texts) tried
      (λ c. search_compiled texts names c e)
    ∙ any_swap (λ c t. eqb c (name_of t)) tried texts
    ∙ any-ext (λ t. any (λ c. eqb c (name_of t)) tried) (λ t. any (λ c. eqb (name_of t) c) tried)
        texts
        (λ t.
          any-ext (λ c. eqb c (name_of t)) (λ c. eqb (name_of t) c) tried
            (λ c. eqb_comm c (name_of t)))

listed_suffix :
    (texts : List Bytes) (name : Bytes)
    → (any (λ t. any (λ c. eqb (name_of t) c) (name ∷ after_dots name)) texts ≡ true)
      ↔ Any (λ text. LabelSuffix (name_of text) name) texts
listed_suffix texts name =
    any_iff (λ t. any (λ c. eqb (name_of t) c) (name ∷ after_dots name))
      (λ text. LabelSuffix (name_of text) name) texts (λ t. any-LabelSuffix (name_of t) name)

-- A set compiled from lists of texts matches a domain exactly if the domain, less its trailing
-- dots, is non-empty ASCII of at most 253 bytes, and is one of the exact texts (trimmed of dots and
-- in lower case), or is or ends behind a dot in one of the suffix texts (likewise).
pub compile-matches :
    (exact suffixes : List Bytes) (domain : Bytes) {set : DomainSet}
    → compile exact suffixes ≡ some set
    → (matches set domain ≡ true)
      ↔ (IsQuery (query domain) × IsListed exact suffixes (query domain))
compile-matches exact suffixes domain {set} e =
    let (es, ss, he, hs, shape) = compile-names exact suffixes set e in
    let name = query domain in
    let by_name : Bool = any (λ t. eqb name (name_of t)) exact in
    let by_suffix : Bool =
      any (λ t. any (λ c. eqb (name_of t) c) (name ∷ after_dots name)) suffixes in
    let listed = or_iff by_name by_suffix (listed_exact exact name) (listed_suffix suffixes name) in
    let compiled : DomainSet = record { exact = dedup (sort es); suffixes = dedup (sort ss) } in
    let answers =
      ap (λ (s : DomainSet). matches s domain) shape
      ∙ matches-tests compiled domain
      ∙ ap₂ (λ x y. is_query name && (x || y)) (search_compiled exact es name he)
          (suffixes_tried suffixes ss name hs) in
    rw answers (and_iff (is_query name) (by_name || by_suffix) (is_query_iff name) listed)
