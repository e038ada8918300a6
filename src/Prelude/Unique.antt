-- ===== src/Prelude/Unique.antt =====
-- Lists of items that differ.
use Prim.Native.Nat.{ℕ, ◌≤◌, ◌<◌}
use mathlib.Core.Logic.{◌≢◌}
use mathlib.Core.List.{List, [], ◌∷◌, ◌++◌}
use native.Mathlib.Omega.{arith}
use commeatus.Prelude.Lists.{All, All-map}

-- No item stands in the list twice.
abbrev pub NoDup : {A : Type 0} → List A → Type 0
NoDup [] = Unit
NoDup (x ∷ xs) = All (λ y. x ≢ y) xs × NoDup xs

pub All-append :
    {A : Type 0} (P : A → Type 0) (xs ys : List A) → All P xs → All P ys → All P (xs ++ ys)
All-append P [] ys hs ks = ks
All-append P (x ∷ xs) ys (h, hs) ks = (h, All-append P xs ys hs ks)

pub NoDup-append :
    (n : ℕ) (xs ys : List ℕ)
    → All (λ x. n ≤ x) xs
    → All (λ y. y < n) ys
    → NoDup xs
    → NoDup ys
    → NoDup (xs ++ ys)
NoDup-append n [] ys hs ks d e = e
NoDup-append n (x ∷ xs) ys (h, hs) ks (new, d) e = (
  All-append (λ y. x ≢ y) xs ys new (All-map ys (λ y k. omega arith) ks),
  NoDup-append n xs ys hs ks d e,
)
