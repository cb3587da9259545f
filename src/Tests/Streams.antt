-- ===== src/Tests/Streams.antt =====
-- A stream that arrives out of order.
use microps_rs.Base.{ℕ, refl, List, [], ◌∷◌, arith, All}
use microps_rs.Tcp.{SegInfo}
use microps_rs.Tcp.Flags.{flag_isset}
use microps_rs.Tcp.Stream.{Event, arrives, receives, run, IsSent, Delivers, run-Delivers}
use microps_rs.Tests.Data.{local, remote, tcp, conn}

abbrev stream : List ℕ
stream = 1 ∷ 2 ∷ 7 ∷ 8 ∷ 9 ∷ []

abbrev at : ℕ → ℕ → SegInfo
at seq len = record { seq = seq; ack = 600; len = len; wnd = 2000; up = 0 }

-- The last byte comes first, is refused, and comes again.
abbrev events : List Event
events =
    arrives (at 9002 1) 24 (9 ∷ [])
    ∷ arrives (at 9000 2) 24 (7 ∷ 8 ∷ [])
    ∷ receives 3
    ∷ arrives (at 9002 1) 24 (9 ∷ [])
    ∷ []

events-IsSent : All (IsSent stream 8998) events
unfolding flag_isset
events-IsSent = (
  (refl, refl, refl, (4, omega arith, refl, refl)),
  (
    (refl, refl, refl, (2, omega arith, refl, refl)),
    (tt, ((refl, refl, refl, (4, omega arith, refl, refl)), tt)),
  ),
)

begins : Delivers stream 8998 1 ([], tcp)
begins = (conn, refl, refl, refl, (2, omega arith, refl, refl))

run-Delivers_example : Delivers stream 8998 1 (run 1 local remote events ([], tcp))
run-Delivers_example =
    run-Delivers stream 8998 1 local remote events ([], tcp) (omega arith) events-IsSent begins
