-- ===== src/Text/Split.antt =====
-- Splitting at a byte, and joining again.
use commeatus.Prelude.{
  ℕ, ◌≡◌, refl, ap, sym, ◌∙◌, Bool, true, List, [], ◌∷◌, ◌++◌, arith, ◌==◌, ==_iff, Bytes, all, All,
  Bool-cases, inl, inr,
}
use commeatus.Text.{split}

-- `join(c)`
unfoldable pub join : ℕ → List Bytes → Bytes
join c [] = []
join c (label ∷ []) = label
join c (label ∷ next ∷ labels) = label ++ (c ∷ join c (next ∷ labels))

pub split-nonempty : (c : ℕ) (s : Bytes) → (p : Bytes) × (ps : List Bytes) × (split c s ≡ p ∷ ps)
unfolding split
split-nonempty c [] = ([], [], refl)
split-nonempty c (x ∷ s) =
    let (p, ps, e) = split-nonempty c s in
    elim (Bool-cases (x == c)) [
      | inl found ↦ ([], p ∷ ps, rw (found, e) refl)
      | inr other ↦ (x ∷ p, ps, rw (other, e) refl)
    ]

pub join-split : (c : ℕ) (s : Bytes) → join c (split c s) ≡ s
unfolding split join
join-split c [] = refl
join-split c (x ∷ s) =
    let (p, ps, e) = split-nonempty c s in
    let ih : join c (p ∷ ps) ≡ s = ap (join c) (sym e) ∙ join-split c s in
    elim (Bool-cases (x == c)) [
      | inl found ↦
          rw (found, e) (ap (◌∷◌ c) ih ∙ ap (λ (y : ℕ). y ∷ s) (sym ((==_iff x c).0 found)))
      | inr other ↦ rw (other, e) (join-head c x p ps ∙ ap (◌∷◌ x) ih)
    ]
  where
    join-head :
        (c x : ℕ) (p : Bytes) (ps : List Bytes) → join c ((x ∷ p) ∷ ps) ≡ x ∷ join c (p ∷ ps)
    join-head c x p [] = refl
    join-head c x p (q ∷ ps) = refl

-- What holds of every byte holds of every byte of a piece.
pub split-all :
    (p : ℕ → Bool) (c : ℕ) (s : Bytes)
    → all p s ≡ true
    → All (λ (l : Bytes). all p l ≡ true) (split c s)
unfolding split
split-all p c [] h = (refl, tt)
split-all p c (x ∷ s) h =
    let (q, qs, e) = split-nonempty c s in
    let here : p x ≡ true = ground arith in
    let there : all p s ≡ true = ground arith in
    let ih = rw e at (split-all p c s there) in
    elim (Bool-cases (x == c)) [
      | inl found ↦ rw (found, e) (refl, ih)
      | inr other ↦ rw (other, e) (rw (here, ih.0) refl, ih.1)
    ]
