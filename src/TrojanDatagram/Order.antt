-- ===== src/TrojanDatagram/Order.antt =====
-- What is sent over the stream, and in which order.
use commeatus.Prelude.{
  ℕ, zero, suc, ◌+◌, ◌-◌, ◌≤◌, ◌≡◌, refl, sym, ap, ◌∙◌, Bool, true, false, Option, none, some, List,
  [], ◌∷◌, ◌++◌, ◌==◌, ==_iff, if◌then◌else◌, Bytes, length, take, drop, arith, Bool-cases, inl,
  inr, append_assoc, length-append, length-drop, take-append-drop,
}
use Prim.Native.Nat.{min}
use commeatus.Text.Hostname.{is_empty}
use commeatus.Io.{ErrorKind, would_block, interrupted, write_zero, Result, ok, err}
use commeatus.TrojanDatagram.{PendingFrame, Sending, remaining, drain}

-- The bytes that are yet to be given to the stream.
unfoldable pub waiting : List PendingFrame → Bytes
waiting [] = []
waiting (frame ∷ pending) = remaining frame ++ waiting pending

drop_nil : (n : ℕ) → drop {A = ℕ} n [] ≡ []
drop_nil zero = refl
drop_nil (suc n) = refl

drop-drop : (a b : ℕ) (s : Bytes) → drop (a + b) s ≡ drop b (drop a s)
drop-drop zero b s = ap (λ (k : ℕ). drop k s) (omega arith)
drop-drop (suc a) b [] = let e : suc a + b ≡ suc (a + b) = omega arith in rw e (sym (drop_nil b))
drop-drop (suc a) b (c ∷ s) =
    let e : suc a + b ≡ suc (a + b) = omega arith in rw e (drop-drop a b s)

drop_all : (n : ℕ) (s : Bytes) → length s ≤ n → drop n s ≡ []
drop_all zero [] h = refl
drop_all zero (c ∷ s) h = absurd (omega arith)
drop_all (suc n) [] h = refl
drop_all (suc n) (c ∷ s) h = drop_all n s (omega arith)

empty_nil : (s : Bytes) → is_empty s ≡ true → s ≡ []
empty_nil [] e = refl
empty_nil (c ∷ s) e = cc

-- Nothing is lost or reordered, the count is right, and no frame is added.
pub record IsKept (taken : Bytes) (pending : List PendingFrame) (s : Sending) : Type 0 where
  pub whole : s.taken ++ waiting s.pending ≡ taken ++ waiting pending
  pub counted : s.pending_bytes ≡ length (waiting s.pending)
  pub fewer : length s.pending ≤ length pending
  pub less : length (waiting s.pending) ≤ length (waiting pending)

popped-IsKept :
    (taken : Bytes) (frame : PendingFrame) (pending : List PendingFrame) (s : Sending)
    → is_empty (remaining frame) ≡ true
    → IsKept taken pending s
    → IsKept taken (frame ∷ pending) s
unfolding waiting
popped-IsKept taken frame pending s e h =
    let nothing = empty_nil (remaining frame) e in
    record {
      whole = rw nothing h.whole;
      counted = h.counted;
      fewer = omega (arith, h.fewer);
      less = rw nothing h.less;
    }

stays-IsKept :
    (taken : Bytes) (pending : List PendingFrame) (count : ℕ)
    → count ≡ length (waiting pending)
    → IsKept taken pending (record { taken = taken; pending = pending; pending_bytes = count })
stays-IsKept taken pending count e = record {
  whole = refl;
  counted = e;
  fewer = omega arith;
  less = omega arith;
}

-- After `written` bytes of the first frame.
written-IsKept :
    (taken : Bytes) (frame : PendingFrame) (pending next : List PendingFrame) (written : ℕ)
    (s : Sending)
    → waiting next ≡ drop written (remaining frame) ++ waiting pending
    → length next ≤ suc (length pending)
    → IsKept (taken ++ take written (remaining frame)) next s
    → IsKept taken (frame ∷ pending) s
unfolding waiting
written-IsKept taken frame pending next written s e few h =
    let rest = remaining frame in
    let split : take written rest ++ (drop written rest ++ waiting pending)
        ≡ rest ++ waiting pending =
      sym (append_assoc (take written rest) (drop written rest) (waiting pending))
      ∙ ap (λ (b : Bytes). b ++ waiting pending) (take-append-drop written rest) in
    record {
      whole =
          h.whole
          ∙ append_assoc taken (take written rest) (waiting next)
          ∙ ap (λ (b : Bytes). taken ++ (take written rest ++ b)) e
          ∙ ap (◌++◌ taken) split;
      counted = h.counted;
      fewer = omega (arith, h.fewer, few);
      less = omega (
        arith,
        h.less,
        ap length e,
        length-append (drop written rest) (waiting pending),
        length-append rest (waiting pending),
        length-drop written rest,
      );
    }

count_written :
    (rest after : Bytes) (count written : ℕ)
    → count ≡ length (rest ++ after)
    → written ≤ length rest
    → count - written ≡ length (drop written rest ++ after)
count_written rest after count written e h = omega (
  arith,
  length-append rest after,
  length-append (drop written rest) after,
  length-drop written rest,
)

-- A frame with a further offset.
abbrev moved : PendingFrame → ℕ → PendingFrame
moved frame written = record frame { offset = frame.offset + written }

-- A round of the loop: the frame is spent, or it is the round's business.
round-IsKept :
    (frame : PendingFrame) (pending : List PendingFrame) (taken : Bytes) (count : ℕ)
    (r : Result (Unit {0})) (s : Sending) (popped more : Option (Result (Unit {0}) × Sending))
    → count ≡ length (remaining frame ++ waiting pending)
    → (count ≡ length (waiting pending) → popped ≡ some (r, s) → IsKept taken pending s)
    → (more ≡ some (r, s) → IsKept taken (frame ∷ pending) s)
    → (if is_empty (remaining frame) then popped else more) ≡ some (r, s)
    → IsKept taken (frame ∷ pending) s
round-IsKept frame pending taken count r s popped more e spent busy d =
    elim (Bool-cases (is_empty (remaining frame))) [
      | inl done ↦
          popped-IsKept taken frame pending s done
            (spent (rw (empty_nil (remaining frame) done) at e) (rw done at d))
      | inr waits ↦ busy (rw waits at d)
    ]

-- The loop ends as it stands.
abbrev stops :
    Result (Unit {0}) → Bytes → List PendingFrame → ℕ → Option (Result (Unit {0}) × Sending)
stops q taken pending count =
    some (q, record { taken = taken; pending = pending; pending_bytes = count })

stopped-IsKept :
    (taken : Bytes) (frame : PendingFrame) (pending : List PendingFrame) (count : ℕ)
    (r q : Result (Unit {0})) (s : Sending)
    → count ≡ length (remaining frame ++ waiting pending)
    → stops q taken (frame ∷ pending) count ≡ some (r, s)
    → IsKept taken (frame ∷ pending) s
unfolding waiting
stopped-IsKept taken frame pending count r q s e d =
    let same : record { taken = taken; pending = frame ∷ pending; pending_bytes = count } ≡ s =
      cc in
    rw (← same) (stays-IsKept taken (frame ∷ pending) count e)

-- The round that writes: with what the further rounds do after a frame that is spent, and after
-- one that is not.
wrote-IsKept :
    (frame : PendingFrame) (pending : List PendingFrame) (taken : Bytes) (written : ℕ) (s : Sending)
    (spent : Bool)
    → (frame.offset + written == length frame.bytes) ≡ spent
    → (spent ≡ true
        → drop written (remaining frame) ≡ []
        → IsKept (taken ++ take written (remaining frame)) pending s)
    → (spent ≡ false
        → IsKept (taken ++ take written (remaining frame)) (moved frame written ∷ pending) s)
    → IsKept taken (frame ∷ pending) s
unfolding waiting
wrote-IsKept frame pending taken written s true e whole part =
    let at_end : frame.offset + written ≡ length frame.bytes =
      (==_iff (frame.offset + written) (length frame.bytes)).0 e in
    let over : drop written (remaining frame) ≡ [] =
      drop_all written (remaining frame) (omega (arith, length-drop frame.offset frame.bytes)) in
    written-IsKept taken frame pending pending written s (rw over refl) (omega arith)
      (whole refl over)
wrote-IsKept frame pending taken written s false e whole part =
    written-IsKept taken frame pending (moved frame written ∷ pending) written s
      (ap (λ (b : Bytes). b ++ waiting pending) (drop-drop frame.offset written frame.bytes))
      (omega arith) (part refl)

pub drain-IsKept :
    (results : List (Result ℕ)) (pending : List PendingFrame) (taken : Bytes) (count : ℕ)
    (r : Result (Unit {0})) (s : Sending)
    → count ≡ length (waiting pending)
    → drain results pending taken count ≡ some (r, s)
    → IsKept taken pending s
unfolding drain waiting
drain-IsKept results [] taken count r s e d =
    let same : record { taken = taken; pending = []; pending_bytes = count } ≡ s = cc in
    rw (← same) (stays-IsKept taken [] count e)
drain-IsKept [] (frame ∷ pending) taken count r s e d =
    round-IsKept frame pending taken count r s (drain [] pending taken count) none e
      (drain-IsKept [] pending taken count r s) (λ stuck. cc stuck) d
drain-IsKept (err ErrorKind.interrupted ∷ results) (frame ∷ pending) taken count r s e d =
    round-IsKept frame pending taken count r s
      (drain (err interrupted ∷ results) pending taken count)
      (drain results (frame ∷ pending) taken count) e
      (drain-IsKept (err interrupted ∷ results) pending taken count r s)
      (drain-IsKept results (frame ∷ pending) taken count r s e) d
drain-IsKept (err ErrorKind.would_block ∷ results) (frame ∷ pending) taken count r s e d =
    round-IsKept frame pending taken count r s
      (drain (err would_block ∷ results) pending taken count)
      (stops (ok tt) taken (frame ∷ pending) count) e
      (drain-IsKept (err would_block ∷ results) pending taken count r s)
      (stopped-IsKept taken frame pending count r (ok tt) s e) d
drain-IsKept (err kind ∷ results) (frame ∷ pending) taken count r s e d =
    round-IsKept frame pending taken count r s (drain (err kind ∷ results) pending taken count)
      (stops (err kind) taken (frame ∷ pending) count) e
      (drain-IsKept (err kind ∷ results) pending taken count r s)
      (stopped-IsKept taken frame pending count r (err kind) s e) d
drain-IsKept (ok room ∷ results) (frame ∷ pending) taken count r s e d =
    let rest = remaining frame in
    let written = min room (length rest) in
    let after = taken ++ take written rest in
    let left = count_written rest (waiting pending) count written e (omega arith) in
    let more = drain results (moved frame written ∷ pending) after (count - written) in
    let fewer = drain results pending after (count - written) in
    let stays = stops (err write_zero) taken (frame ∷ pending) count in
    let writes = if frame.offset + written == length frame.bytes then fewer else more in
    round-IsKept frame pending taken count r s (drain (ok room ∷ results) pending taken count)
      (if written == 0 then stays else writes) e
      (drain-IsKept (ok room ∷ results) pending taken count r s)
      (λ busy. elim (Bool-cases (written == 0)) [
        | inl nothing ↦
            stopped-IsKept taken frame pending count r (err write_zero) s e (rw nothing at busy)
        | inr something ↦
            wrote-IsKept frame pending taken written s
              (frame.offset + written == length frame.bytes) refl
              (λ spent over.
                drain-IsKept results pending after (count - written) r s (rw over at left)
                  (rw (something, spent) at busy))
              (λ part.
                drain-IsKept results (moved frame written ∷ pending) after (count - written) r s
                  (left
                    ∙ ap (λ (b : Bytes). length (b ++ waiting pending))
                        (sym (drop-drop frame.offset written frame.bytes)))
                  (rw (something, part) at busy))
      ])
      d
