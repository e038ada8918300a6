-- ===== src/Socks5/Associate/Flush.antt =====
-- How the replies that wait are sent.
use commeatus.Prelude.{
  ℕ, suc, ◌≤◌, ◌≡◌, refl, ap, Bool, ◌||◌, ◌==◌, some, List, [], ◌∷◌, ◌++◌, Bytes, length, arith,
}
use commeatus.Ip.Socket.{SocketAddr}
use commeatus.Io.{ErrorKind, interrupted, Result, ok, err}
use commeatus.Socks5.Associate.{flush_pending_client_replies}

-- How many of the calls of `send_to` were not interrupted.
abbrev pub settled : List (Result ℕ) → ℕ
settled [] = 0
settled (err interrupted ∷ results) = settled results
settled (_ ∷ results) = suc (settled results)

-- The loop ends, at the latest with as many calls that are not interrupted as there are replies;
-- the replies that are left are the last ones, in their order.
pub flush_pending_client_replies-append :
    (results : List (Result ℕ)) (sent_any : Bool) (pending : List (Bytes × SocketAddr))
    → length pending ≤ settled results
    → (any_sent : Bool) × (gone : List (Bytes × SocketAddr)) × (left : List (Bytes × SocketAddr))
      × (flush_pending_client_replies results sent_any pending ≡ some (any_sent, left))
      × (pending ≡ gone ++ left)
unfolding flush_pending_client_replies
flush_pending_client_replies-append results sent_any [] h = (sent_any, [], [], refl, refl)
flush_pending_client_replies-append [] sent_any (reply ∷ pending) h = absurd (omega arith)
flush_pending_client_replies-append (ok sent ∷ results) sent_any (reply ∷ pending) h =
    let (any_sent, gone, left, e, split) =
      flush_pending_client_replies-append results (sent == length reply.0 || sent_any) pending
        (omega arith) in
    (any_sent, reply ∷ gone, left, e, ap (◌∷◌ reply) split)
flush_pending_client_replies-append (err ErrorKind.would_block ∷ results) sent_any (reply ∷ pending)
      h =
    (sent_any, [], reply ∷ pending, refl, refl)
flush_pending_client_replies-append (err ErrorKind.interrupted ∷ results) sent_any (reply ∷ pending)
      h =
    flush_pending_client_replies-append results sent_any (reply ∷ pending) h
flush_pending_client_replies-append (err kind ∷ results) sent_any (reply ∷ pending) h =
    let (any_sent, gone, left, e, split) =
      flush_pending_client_replies-append results sent_any pending (omega arith) in
    (any_sent, reply ∷ gone, left, e, ap (◌∷◌ reply) split)
