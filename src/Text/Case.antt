-- ===== src/Text/Case.antt =====
-- ASCII lower case: byte by byte, so it goes with lengths, joining and splitting.
use commeatus.Prelude.{
  ℕ, suc, ◌≡◌, refl, ap, [], ◌∷◌, ◌++◌, arith, Bytes, length, true, ◌↔◌, eqb_iff,
}
use commeatus.Text.{dot, lower, to_ascii_lowercase, eq_ignore_ascii_case}

pub length-to_ascii_lowercase : (s : Bytes) → length (to_ascii_lowercase s) ≡ length s
unfolding to_ascii_lowercase
length-to_ascii_lowercase [] = refl
length-to_ascii_lowercase (c ∷ cs) = ap suc (length-to_ascii_lowercase cs)

pub to_ascii_lowercase-append :
    (a b : Bytes) → to_ascii_lowercase (a ++ b) ≡ to_ascii_lowercase a ++ to_ascii_lowercase b
unfolding to_ascii_lowercase
to_ascii_lowercase-append [] b = refl
to_ascii_lowercase-append (c ∷ a) b = ap (◌∷◌ (lower c)) (to_ascii_lowercase-append a b)

pub lower-lower : (c : ℕ) → lower (lower c) ≡ lower c
unfolding lower
lower-lower c = ground arith

pub to_ascii_lowercase_idem :
    (s : Bytes) → to_ascii_lowercase (to_ascii_lowercase s) ≡ to_ascii_lowercase s
unfolding to_ascii_lowercase
to_ascii_lowercase_idem [] = refl
to_ascii_lowercase_idem (c ∷ cs) = rw (lower-lower c, to_ascii_lowercase_idem cs)

-- No other byte becomes a dot.
pub lower-dot : (c : ℕ) → lower c ≡ dot → c ≡ dot
unfolding lower
lower-dot c h = ground arith

-- Where the lower case of a string splits, the string splits.
pub to_ascii_lowercase_split :
    (s a b : Bytes)
    → to_ascii_lowercase s ≡ a ++ b
    → (a' : Bytes) × (b' : Bytes) × (s ≡ a' ++ b')
      × (to_ascii_lowercase a' ≡ a)
      × (to_ascii_lowercase b' ≡ b)
unfolding to_ascii_lowercase
to_ascii_lowercase_split s [] b h = ([], s, refl, refl, h)
to_ascii_lowercase_split [] (x ∷ a) b h = cc
to_ascii_lowercase_split (c ∷ s) (x ∷ a) b h =
    let (a', b', e, ea, eb) = to_ascii_lowercase_split s a b (cc) in
    (c ∷ a', b', ap (◌∷◌ c) e, cc, eb)

pub eq_ignore_ascii_case_iff :
    (a b : Bytes)
    → (eq_ignore_ascii_case a b ≡ true) ↔ (to_ascii_lowercase a ≡ to_ascii_lowercase b)
unfolding eq_ignore_ascii_case
eq_ignore_ascii_case_iff a b = eqb_iff (to_ascii_lowercase a) (to_ascii_lowercase b)
