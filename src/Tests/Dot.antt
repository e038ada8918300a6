-- ===== src/Tests/Dot.antt =====
-- DNS over TLS, on a connection that the resolver closed.
use commeatus.Prelude.{ℕ, ◌≡◌, refl, inr, some, [], ◌∷◌, ◌++◌, arith, Bytes, replicate}
use commeatus.Io
use commeatus.Io.{Result, unexpected_eof}
use commeatus.Stream.{ByteStream, working, read_exact, write_all, flush}
use commeatus.Dns.Answer.{ok}
use commeatus.Dns.Dot.{DotResolver, exchange_message, exchange}
use commeatus.Dns.Dot.Recovers.{framed, IsLost, exchange-framed}

abbrev query : Bytes
query = 0 ∷ 7 ∷ 1 ∷ []

abbrev response : Bytes
response = replicate 12 0x07

abbrev later : Bytes
later = 1 ∷ 2 ∷ []

abbrev server : ℕ → Result ByteStream
server n = Io.ok (working unexpected_eof (framed response ++ later) [])

-- The session was closed by the other side.
abbrev stale : DotResolver
stale = record { session = some (working unexpected_eof [] []); connects = 3; next_id = 9 }

stale_lost :
    exchange_message query (working unexpected_eof [] [])
    ≡ (Io.err unexpected_eof, working unexpected_eof [] (framed query))
unfolding exchange_message write_all flush read_exact
stale_lost = refl

stale-IsLost : IsLost query stale
stale-IsLost = inr (
  working unexpected_eof [] [],
  unexpected_eof,
  working unexpected_eof [] (framed query),
  refl,
  stale_lost,
)

exchange-framed_example : exchange server query stale ≡ (
  ok response,
  record stale { session = some (working unexpected_eof later (framed query)); connects = 4 },
)
exchange-framed_example =
    exchange-framed server stale query response later unexpected_eof stale-IsLost (omega arith)
      (omega arith) (omega arith) refl
