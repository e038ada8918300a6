-- ===== src/Text/Lines/Words.antt =====
-- The words of a text of visible ASCII characters and spaces.
use commeatus.Prelude.{
  ℕ, ◌<◌, ◌≡◌, refl, Bool, true, ◌&&◌, List, [], ◌∷◌, ◌++◌, arith, leb, ltb, Bytes, length, all,
}
use commeatus.Text.{is_utf8, utf8_run, utf8_next, utf8_start}
use commeatus.Text.Lines.{white_space, pieces, words, split_whitespace}

abbrev pub is_visible : ℕ → Bool
is_visible c = leb 33 c && leb c 126

abbrev pub is_ascii_byte : ℕ → Bool
is_ascii_byte c = ltb c 128

white_space-visible : (c : ℕ) (cs : Bytes) → is_visible c ≡ true → white_space (c ∷ cs) ≡ 0
unfolding white_space
white_space-visible c [] h = ground arith
white_space-visible c (d ∷ []) h = ground arith
white_space-visible c (d ∷ e ∷ cs) h = ground arith

white_space_space : (cs : Bytes) → white_space (b' ' ∷ cs) ≡ 1
unfolding white_space
white_space_space [] = refl
white_space_space (d ∷ []) = refl
white_space_space (d ∷ e ∷ cs) = refl

-- A word ends at a space.
pieces_word :
    (word rest : Bytes)
    → all is_visible word ≡ true
    → pieces 0 (word ++ (b' ' ∷ rest)) ≡ word ∷ pieces 0 rest
unfolding pieces
pieces_word [] rest h = rw (white_space_space rest, pieces) refl
pieces_word (c ∷ cs) rest h =
    let here : is_visible c ≡ true = ground arith in
    let later : all is_visible cs ≡ true = ground arith in
    rw (white_space-visible c (cs ++ (b' ' ∷ rest)) here, pieces, pieces_word cs rest later) refl

pieces_last : (word : Bytes) → all is_visible word ≡ true → pieces 0 word ≡ word ∷ []
unfolding pieces
pieces_last [] h = refl
pieces_last (c ∷ cs) h =
    let here : is_visible c ≡ true = ground arith in
    let later : all is_visible cs ≡ true = ground arith in
    rw (white_space-visible c cs here, pieces, pieces_last cs later) refl

words-cons :
    (word : Bytes) (rest : List Bytes) → 0 < length word → words (word ∷ rest) ≡ word ∷ words rest
unfolding words
words-cons [] rest h = absurd (omega arith)
words-cons (c ∷ cs) rest h = refl

module _ (first second third : Bytes) (h₁ : all is_visible first ≡ true)
    (h₂ : all is_visible second ≡ true) (h₃ : all is_visible third ≡ true) (k₁ : 0 < length first)
    (k₂ : 0 < length second) (k₃ : 0 < length third) where
  pub split_whitespace-three :
      split_whitespace (first ++ (b' ' ∷ (second ++ (b' ' ∷ third)))) ≡ first ∷ second ∷ third ∷ []
  unfolding split_whitespace
  split_whitespace-three =
      rw
        (
          pieces_word first (second ++ (b' ' ∷ third)) h₁,
          pieces_word second third h₂,
          pieces_last third h₃,
          words-cons first (second ∷ third ∷ []) k₁,
          words-cons second (third ∷ []) k₂,
          words-cons third [] k₃,
        )
        (unfold words in refl)

-- ASCII is UTF-8.
pub is_utf8-ascii : (s : Bytes) → all is_ascii_byte s ≡ true → is_utf8 s ≡ true
unfolding is_utf8 utf8_run utf8_next utf8_start
is_utf8-ascii [] h = refl
is_utf8-ascii (c ∷ cs) h =
    let here : ltb c 128 ≡ true = ground arith in
    let later : all is_ascii_byte cs ≡ true = ground arith in rw here (is_utf8-ascii cs later)
