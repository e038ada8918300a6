-- ===== src/Stream.antt =====
-- Byte streams, as `Read` and `Write` show them: the bytes that are yet to come and the error behind
-- them (`UnexpectedEof` for a stream that is closed, another kind for one that times out or breaks),
-- the bytes that were written, and the error of a stream that takes no more.
use commeatus.Prelude.{
  ℕ, ◌≡◌, refl, ap, ◌⊎◌, inl, inr, Bool, true, false, Option, none, some, [], ◌++◌, ltb,
  if◌then◌else◌, Bytes, length, take, drop, arith, take-append, drop-append, length-append,
  not_below,
}
use commeatus.Io.{ErrorKind, Result, ok, err}

pub record ByteStream : Type 0 where
  pub input : Bytes
  pub ended : ErrorKind
  pub output : Bytes
  pub refuses : Option ErrorKind

abbrev pub Exchange : Type 0 → Type 0
Exchange Value = ByteStream → Result Value × ByteStream

abbrev pub and_then :
    {A B : Type 0} → Result A × ByteStream → (A → Exchange B) → Result B × ByteStream
and_then (err kind, s) next = (err kind, s)
and_then (ok value, s) next = next value s

-- `?`
infixl 5 ◌>>=◌
abbrev pub ◌>>=◌ : {A B : Type 0} → Exchange A → (A → Exchange B) → Exchange B
(first >>= next) s = and_then (first s) next

infixl 5 ◌>>◌
abbrev pub ◌>>◌ : {A B : Type 0} → Exchange A → Exchange B → Exchange B
(first >> next) s = and_then (first s) (λ _. next)

abbrev pub lift : {A : Type 0} → Result A → Exchange A
lift result s = (result, s)

abbrev pub return : {A : Type 0} → A → Exchange A
return value s = (ok value, s)

abbrev pub fail : {A : Type 0} → ErrorKind → Exchange A
fail kind s = (err kind, s)

-- An early return.
abbrev pub refuse_if : Bool → ErrorKind → Exchange (Unit {0})
refuse_if true kind s = (err kind, s)
refuse_if false kind s = (ok tt, s)

unfoldable pub read_exact : ℕ → Exchange Bytes
read_exact n s =
    if ltb (length s.input) n
    then (err s.ended, record s { input = [] })
    else (ok (take n s.input), record s { input = drop n s.input })

unfoldable pub write_all : Bytes → Exchange (Unit {0})
write_all bytes s = elim s.refuses [
  | none ↦ (ok tt, record s { output = s.output ++ bytes })
  | some kind ↦ (err kind, s)
]

unfoldable pub flush : Exchange (Unit {0})
flush s = elim s.refuses [ none ↦ (ok tt, s) | some kind ↦ (err kind, s) ]

-- A stream that takes what is written.
abbrev pub working : ErrorKind → Bytes → Bytes → ByteStream
working ended input output = record {
  input = input;
  ended = ended;
  output = output;
  refuses = none;
}

pub read_exact-append :
    (n : ℕ) (ended : ErrorKind) (front rest output : Bytes)
    → n ≡ length front
    → read_exact n (working ended (front ++ rest) output) ≡ (ok front, working ended rest output)
unfolding read_exact
read_exact-append n ended front rest output e =
    let room : ltb (length (front ++ rest)) n ≡ false =
      not_below (length (front ++ rest)) n (omega (arith, length-append front rest)) in
    rw (room, take-append n front rest e, drop-append n front rest e) refl

-- A write is taken whole, or fails.
write_cases :
    (text : Bytes) (s : ByteStream) (refuses : Option ErrorKind)
    → (write_all text (record s { refuses = refuses })
        ≡ (ok tt, record s { output = s.output ++ text; refuses = refuses }))
      ⊎ ((kind : ErrorKind) × (write_all text (record s { refuses = refuses })
            ≡ (err kind, record s { refuses = refuses })))
unfolding write_all
write_cases text s none = inl refl
write_cases text s (some kind) = inr (kind, refl)

pub write_all-cases :
    (text : Bytes) (s : ByteStream)
    → (write_all text s ≡ (ok tt, record s { output = s.output ++ text }))
      ⊎ ((kind : ErrorKind) × (write_all text s ≡ (err kind, s)))
write_all-cases text s = write_cases text s s.refuses

-- A stream that takes what is written takes it.
pub write_all-none :
    (text : Bytes) (s : ByteStream)
    → s.refuses ≡ none
    → write_all text s ≡ (ok tt, record s { output = s.output ++ text; refuses = none })
unfolding write_all
write_all-none text s q =
    let after : Option ErrorKind → Result (Unit {0}) × ByteStream =
      λ k. (ok tt, record s { output = s.output ++ text; refuses = k }) in
    rw (q, write_all) (ap after q)
