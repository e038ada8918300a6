-- ===== src/DomainSet/Order.antt =====
-- The order on names is total, and sorting and removing repetitions keep what a list holds.
use commeatus.Prelude.{
  ◌≡◌, refl, Bool, true, false, ◌||◌, List, [], ◌∷◌, arith, Bytes, eqb, eqb_iff, any, Bool-cases,
  inl, inr,
}
use commeatus.DomainSet.{gtb, insert, sort, cons_new, dedup}

pub gtb_asymm : (a b : Bytes) → gtb a b ≡ true → gtb b a ≡ false
unfolding gtb
gtb_asymm [] b h = cc
gtb_asymm (x ∷ a) [] h = refl
gtb_asymm (x ∷ a) (y ∷ b) h = ground (arith, gtb_asymm a b)

-- `a ≤ b` is `gtb a b ≡ false`.
pub gtb_trans : (a b c : Bytes) → gtb a b ≡ false → gtb b c ≡ false → gtb a c ≡ false
unfolding gtb
gtb_trans [] b c h k = refl
gtb_trans (x ∷ a) [] c h k = cc
gtb_trans (x ∷ a) (y ∷ b) [] h k = cc
gtb_trans (x ∷ a) (y ∷ b) (z ∷ c) h k = ground (arith, gtb_trans a b c)

pub gtb_antisymm : (a b : Bytes) → gtb a b ≡ false → gtb b a ≡ false → a ≡ b
unfolding gtb
gtb_antisymm [] [] h k = refl
gtb_antisymm [] (y ∷ b) h k = cc
gtb_antisymm (x ∷ a) [] h k = cc
gtb_antisymm (x ∷ a) (y ∷ b) h k = ground (arith, gtb_antisymm a b)

pub gtb_irrefl : (a : Bytes) → gtb a a ≡ false
unfolding gtb
gtb_irrefl [] = refl
gtb_irrefl (x ∷ a) = ground (arith, gtb_irrefl a)

-- No later item is smaller.
abbrev pub Below : Bytes → List Bytes → Type 0
Below x [] = Unit
Below x (y ∷ ys) = (gtb x y ≡ false) × Below x ys

abbrev pub IsSorted : List Bytes → Type 0
IsSorted [] = Unit
IsSorted (x ∷ xs) = Below x xs × IsSorted xs

Below-le : (x y : Bytes) (ys : List Bytes) → gtb x y ≡ false → Below y ys → Below x ys
Below-le x y [] h b = tt
Below-le x y (z ∷ ys) h b = (gtb_trans x y z h b.0, Below-le x y ys h b.1)

Below-insert :
    (x y : Bytes) (ys : List Bytes) → gtb x y ≡ false → Below x ys → Below x (insert y ys)
unfolding insert
Below-insert x y [] h b = (h, tt)
Below-insert x y (z ∷ ys) h b = elim (Bool-cases (gtb y z)) [
  | inl after ↦ rw after (b.0, Below-insert x y ys h b.1)
  | inr before ↦ rw before (h, (b.0, b.1))
]

insert-IsSorted : (x : Bytes) (ys : List Bytes) → IsSorted ys → IsSorted (insert x ys)
unfolding insert
insert-IsSorted x [] s = (tt, tt)
insert-IsSorted x (y ∷ ys) s = elim (Bool-cases (gtb x y)) [
  | inl after ↦ rw after (Below-insert y x ys (gtb_asymm x y after) s.0, insert-IsSorted x ys s.1)
  | inr before ↦ rw before ((before, Below-le x y ys before s.0), (s.0, s.1))
]

pub sort-IsSorted : (xs : List Bytes) → IsSorted (sort xs)
unfolding sort
sort-IsSorted [] = tt
sort-IsSorted (x ∷ xs) = insert-IsSorted x (sort xs) (sort-IsSorted xs)

Below-cons_new :
    (x y : Bytes) (ys : List Bytes) → gtb x y ≡ false → Below x ys → Below x (cons_new y ys)
unfolding cons_new
Below-cons_new x y [] h b = (h, tt)
Below-cons_new x y (z ∷ ys) h b = ground arith

Below-dedup : (x : Bytes) (ys : List Bytes) → Below x ys → Below x (dedup ys)
unfolding dedup
Below-dedup x [] b = tt
Below-dedup x (y ∷ ys) b = Below-cons_new x y (dedup ys) b.0 (Below-dedup x ys b.1)

cons_new-IsSorted :
    (x : Bytes) (ys : List Bytes) → Below x ys → IsSorted ys → IsSorted (cons_new x ys)
unfolding cons_new
cons_new-IsSorted x [] b s = (tt, tt)
cons_new-IsSorted x (y ∷ ys) b s = ground arith

pub dedup-IsSorted : (xs : List Bytes) → IsSorted xs → IsSorted (dedup xs)
unfolding dedup
dedup-IsSorted [] s = tt
dedup-IsSorted (x ∷ xs) s =
    cons_new-IsSorted x (dedup xs) (Below-dedup x xs s.0) (dedup-IsSorted xs s.1)

any-insert :
    (p : Bytes → Bool) (x : Bytes) (ys : List Bytes) → any p (insert x ys) ≡ (p x || any p ys)
unfolding insert
any-insert p x [] = refl
any-insert p x (y ∷ ys) = ground (arith, any-insert p x ys)

any-sort : (p : Bytes → Bool) (xs : List Bytes) → any p (sort xs) ≡ any p xs
unfolding sort
any-sort p [] = refl
any-sort p (x ∷ xs) = ground (arith, any-insert p x (sort xs), any-sort p xs)

any-cons_new :
    (p : Bytes → Bool) (x : Bytes) (ys : List Bytes) → any p (cons_new x ys) ≡ (p x || any p ys)
unfolding cons_new
any-cons_new p x [] = refl
any-cons_new p x (y ∷ ys) = elim (Bool-cases (eqb x y)) [
  | inl same ↦ let e = (eqb_iff x y).0 same in rw (same, e) (ground arith)
  | inr other ↦ rw other
]

any-dedup : (p : Bytes → Bool) (xs : List Bytes) → any p (dedup xs) ≡ any p xs
unfolding dedup
any-dedup p [] = refl
any-dedup p (x ∷ xs) = ground (arith, any-cons_new p x (dedup xs), any-dedup p xs)

-- Compiling a list keeps what some item of it has.
pub any-dedup-sort : (p : Bytes → Bool) (xs : List Bytes) → any p (dedup (sort xs)) ≡ any p xs
any-dedup-sort p xs = rw (any-dedup p (sort xs)) (any-sort p xs)

-- A compiled list is in strictly ascending order.
pub dedup-sort-IsSorted : (xs : List Bytes) → IsSorted (dedup (sort xs))
dedup-sort-IsSorted xs = dedup-IsSorted (sort xs) (sort-IsSorted xs)
