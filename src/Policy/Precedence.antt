-- ===== src/Policy/Precedence.antt =====
-- The engine's rules stand by authority, and within a tier in their original order: what the
-- sorting and the search for the first match decide together.
use mathlib.Core.Path.{fun_ext}
use commeatus.Prelude.{
  ap, ℕ, ◌≤◌, ◌≡◌, refl, inl, inr, Bool, true, false, ◌&&◌, Option, none, some, List, [], ◌∷◌,
  arith, ltb, ◌==◌, if◌then◌else◌, find, ◌∙◌, Bool-cases, Option-cases,
}
use commeatus.Plan.{PolicyTier, user_hard, safety, compatibility, adaptive, default}
use commeatus.Policy.{rank, PolicyRule, insert, sort_by_rank}

abbrev Below : PolicyRule → List PolicyRule → Type 0
Below x [] = Unit
Below x (y ∷ ys) = (rank x.tier ≤ rank y.tier) × Below x ys

abbrev IsSorted : List PolicyRule → Type 0
IsSorted [] = Unit
IsSorted (x ∷ xs) = Below x xs × IsSorted xs

Below-le :
    (x y : PolicyRule) (ys : List PolicyRule) → rank x.tier ≤ rank y.tier → Below y ys → Below x ys
Below-le x y [] h b = tt
Below-le x y (z ∷ ys) h b = (omega arith, Below-le x y ys h b.1)

Below-insert :
    (x y : PolicyRule) (ys : List PolicyRule)
    → rank x.tier ≤ rank y.tier
    → Below x ys
    → Below x (insert y ys)
unfolding insert
Below-insert x y [] h b = (h, tt)
Below-insert x y (z ∷ ys) h b = elim (Bool-cases (ltb (rank z.tier) (rank y.tier))) [
  | inl after ↦ rw after (b.0, Below-insert x y ys h b.1)
  | inr before ↦ rw before (h, (b.0, b.1))
]

insert-IsSorted : (x : PolicyRule) (ys : List PolicyRule) → IsSorted ys → IsSorted (insert x ys)
unfolding insert
insert-IsSorted x [] s = (tt, tt)
insert-IsSorted x (y ∷ ys) s = elim (Bool-cases (ltb (rank y.tier) (rank x.tier))) [
  | inl after ↦ rw after (Below-insert y x ys (ground arith) s.0, insert-IsSorted x ys s.1)
  | inr before ↦
      let le : rank x.tier ≤ rank y.tier = ground arith in
      rw before ((le, Below-le x y ys le s.0), (s.0, s.1))
]

-- The engine keeps its rules in order of authority.
pub sort_by_rank-IsSorted : (rules : List PolicyRule) → IsSorted (sort_by_rank rules)
unfolding sort_by_rank
sort_by_rank-IsSorted [] = tt
sort_by_rank-IsSorted (x ∷ xs) = insert-IsSorted x (sort_by_rank xs) (sort_by_rank-IsSorted xs)

-- The found rule, unless `x` has at least its authority and stands in front of it.
unfoldable pub prefer : Option PolicyRule → PolicyRule → Option PolicyRule
prefer none x = some x
prefer (some y) x = if ltb (rank y.tier) (rank x.tier) then some y else some x

-- The first rule of the tier that passes, in the order given.
abbrev pub first_in : (PolicyRule → Bool) → ℕ → List PolicyRule → Option PolicyRule
first_in p k rules = find (λ r. rank r.tier == k && p r) rules

abbrev pub or_else {ℓ} : {A : Type ℓ} → Option A → Option A → Option A
or_else none b = b
or_else (some a) b = some a

-- The strongest tier in which some rule passes, and in it the first such rule.
unfoldable pub strongest : (PolicyRule → Bool) → List PolicyRule → Option PolicyRule
strongest p rules = or_else (first_in p 0 rules) (
    or_else (first_in p 1 rules)
      (or_else (first_in p 2 rules) (or_else (first_in p 3 rules) (first_in p 4 rules))))

-- What is found, if anything, has this rank.
abbrev HasRank : ℕ → Option PolicyRule → Type 0
HasRank k none = Unit
HasRank k (some r) = rank r.tier ≡ k

-- The first of five results.
abbrev cascade : (ℕ → Option PolicyRule) → Option PolicyRule
cascade f = or_else (f 0) (or_else (f 1) (or_else (f 2) (or_else (f 3) (f 4))))

rank_le : (t : PolicyTier) → rank t ≤ 4
unfolding rank
rank_le user_hard = omega arith
rank_le safety = omega arith
rank_le compatibility = omega arith
rank_le adaptive = omega arith
rank_le default = omega arith

-- A rule put in front of the results of its tier.
cascade-prefer :
    (x : PolicyRule) (a0 a1 a2 a3 a4 : Option PolicyRule)
    → HasRank 0 a0
    → HasRank 1 a1
    → HasRank 2 a2
    → HasRank 3 a3
    → HasRank 4 a4
    → or_else (if rank x.tier == 0 then some x else a0) (
        or_else (if rank x.tier == 1 then some x else a1) (
          or_else (if rank x.tier == 2 then some x else a2) (
            or_else
              (if rank x.tier == 3 then some x else a3)
              (if rank x.tier == 4 then some x else a4))))
      ≡ prefer (or_else a0 (or_else a1 (or_else a2 (or_else a3 a4)))) x
unfolding prefer
cascade-prefer x a0 a1 a2 a3 a4 h0 h1 h2 h3 h4 = ground (arith, rank_le x.tier)

module _ (p : PolicyRule → Bool) where
  find-Below :
      (x : PolicyRule) (ys : List PolicyRule) (y : PolicyRule)
      → Below x ys
      → find p ys ≡ some y
      → rank x.tier ≤ rank y.tier
  find-Below x [] y b e = cc
  find-Below x (z ∷ ys) y b e = elim (Bool-cases (p z)) [
    | inl here ↦ let q : z ≡ y = cc (rw here at e) in rw (← q) b.0
    | inr later ↦ find-Below x ys y b.1 (rw later at e)
  ]

  find-insert_skip :
      (x : PolicyRule) (ys : List PolicyRule) → p x ≡ false → find p (insert x ys) ≡ find p ys
  unfolding insert
  find-insert_skip x [] h = rw h
  find-insert_skip x (y ∷ ys) h = ground (arith, find-insert_skip x ys h)

  find-insert :
      (x : PolicyRule) (ys : List PolicyRule)
      → IsSorted ys
      → p x ≡ true
      → find p (insert x ys) ≡ prefer (find p ys) x
  unfolding insert prefer
  find-insert x [] s h = rw h
  find-insert x (y ∷ ys) s h = elim (Bool-cases (ltb (rank y.tier) (rank x.tier))) [
    | inl after ↦ rw after (ground (arith, find-insert x ys s.1 h))
    | inr before ↦
        rw (before, h)
          (elim (Option-cases (find p (y ∷ ys))) [
            | inl nothing ↦ rw nothing
            | inr (z, found) ↦
                let le : rank x.tier ≤ rank y.tier = ground arith in
                let reach = find-Below x (y ∷ ys) z (le, Below-le x y ys le s.0) found in
                rw found (ground arith)
          ])
  ]

  first_in-HasRank : (k : ℕ) (rules : List PolicyRule) → HasRank k (first_in p k rules)
  first_in-HasRank k [] = tt
  first_in-HasRank k (x ∷ xs) = ground (arith, first_in-HasRank k xs)

  first_in-cons :
      (k : ℕ) (x : PolicyRule) (xs : List PolicyRule)
      → first_in p k (x ∷ xs)
        ≡ (if p x then (if rank x.tier == k then some x else first_in p k xs) else first_in p k xs)
  first_in-cons k x xs = ground arith

  pub strongest-cons :
      (x : PolicyRule) (xs : List PolicyRule)
      → strongest p (x ∷ xs) ≡ (if p x then prefer (strongest p xs) x else strongest p xs)
  unfolding strongest
  strongest-cons x xs = ap cascade (fun_ext λ k. first_in-cons k x xs) ∙ (elim (Bool-cases (p x)) [
    | inr miss ↦ rw miss
    | inl hit ↦ rw hit (
        cascade-prefer x (first_in p 0 xs) (first_in p 1 xs) (first_in p 2 xs) (first_in p 3 xs)
          (first_in p 4 xs) (first_in-HasRank 0 xs) (first_in-HasRank 1 xs) (first_in-HasRank 2 xs)
          (first_in-HasRank 3 xs) (first_in-HasRank 4 xs))
  ])

  -- Sorting by tier and taking the first match is taking the strongest tier's first match.
  pub find-sort_by_rank :
      (rules : List PolicyRule) → find p (sort_by_rank rules) ≡ strongest p rules
  unfolding sort_by_rank strongest
  find-sort_by_rank [] = refl
  find-sort_by_rank (x ∷ xs) = elim (Bool-cases (p x)) [
    | inl hit ↦
        find-insert x (sort_by_rank xs) (sort_by_rank-IsSorted xs) hit
        ∙ rw (find-sort_by_rank xs, strongest-cons x xs, hit)
    | inr miss ↦
        find-insert_skip x (sort_by_rank xs) miss
        ∙ rw (find-sort_by_rank xs, strongest-cons x xs, miss)
  ]
