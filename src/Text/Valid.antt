-- ===== src/Text/Valid.antt =====
-- Valid UTF-8 begins with a character, also after dots are trimmed.
use commeatus.Prelude.{
  ℕ, ◌≡◌, refl, Bool, true, false, not, ◌&&◌, [], ◌∷◌, arith, ltb, leb, ◌==◌, ==_iff, Bytes,
  Bool-cases, inl, inr,
}
use commeatus.Text.{
  Utf8, dot, trim, trim_start, trim_end, keep_end, utf8_start, utf8_next, utf8_run, is_utf8,
}

-- The byte is not one inside a character.
abbrev pub starts_char : Bytes → Bool
starts_char [] = true
starts_char (c ∷ cs) = not (leb 0x80 c && ltb c 0xc0)

bad_run : (s : Bytes) → utf8_run Utf8.bad s ≡ false
unfolding utf8_run utf8_next
bad_run [] = refl
bad_run (c ∷ cs) = bad_run cs

is_utf8-starts_char : (s : Bytes) → is_utf8 s ≡ true → starts_char s ≡ true
unfolding is_utf8
is_utf8-starts_char [] h = refl
is_utf8-starts_char (c ∷ cs) h = elim (Bool-cases (leb 0x80 c && ltb c 0xc0)) [
  | inr other ↦ rw other
  | inl inside ↦
      let dead : utf8_start c ≡ Utf8.bad = ground arith in absurd (cc (rw dead at h, bad_run cs))
]

trim_start-is_utf8 : (s : Bytes) → is_utf8 s ≡ true → is_utf8 (trim_start dot s) ≡ true
unfolding is_utf8 trim_start
trim_start-is_utf8 [] h = refl
trim_start-is_utf8 (c ∷ cs) h = elim (Bool-cases (c == dot)) [
  | inr other ↦ rw other h
  | inl found ↦ let e = (==_iff c dot).0 found in rw found (trim_start-is_utf8 cs (rw e at h))
]

keep_end-starts_char :
    (c : ℕ) (cs : Bytes) → starts_char (c ∷ []) ≡ true → starts_char (keep_end dot c cs) ≡ true
keep_end-starts_char c [] h = ground arith
keep_end-starts_char c (d ∷ cs) h = h

trim_end-starts_char : (s : Bytes) → starts_char s ≡ true → starts_char (trim_end dot s) ≡ true
unfolding trim_end
trim_end-starts_char [] h = refl
trim_end-starts_char (c ∷ cs) h = keep_end-starts_char c (trim_end dot cs) h

-- A trimmed string begins with a character.
pub trim-starts_char : (s : Bytes) → is_utf8 s ≡ true → starts_char (trim dot s) ≡ true
unfolding trim
trim-starts_char s h =
    trim_end-starts_char (trim_start dot s)
      (is_utf8-starts_char (trim_start dot s) (trim_start-is_utf8 s h))
