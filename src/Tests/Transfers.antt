-- ===== src/Tests/Transfers.antt =====
-- Three bytes from one end of a connection to the other, the second segment before the first.
use microps_rs.Base.{refl, inl, inr, List, [], ◌∷◌, ℕ, some, none, arith, All}
use microps_rs.Task.{fresh_task}
use microps_rs.Tcp.{Tcp, TcpPcb}
use microps_rs.Tcp.Flags.{flag_isset}
use microps_rs.Tcp.Pcb.{output, output_seq, queued, is_kept, retrans_queue_add}
use microps_rs.Tcp.Api.Transfer.{send_poll, send_segment, send_capacity, segment_size}
use microps_rs.Tcp.Stream
use microps_rs.Tcp.Stream.{Delivers}
use microps_rs.Tcp.Outgoing.{Event, sends, arrives, ticks, run, Keeps}
use microps_rs.Tcp.Outgoing.Run.{IsSteady}
use microps_rs.Tcp.Outgoing.Transfer.{Sent, AllPut, transfer-Delivers}
use microps_rs.Tests.Data.{local, remote, conn, net}

-- The sender has nothing in flight, and takes segments of two bytes.
abbrev sender : TcpPcb
sender = record conn {
  mss = 2;
  buf = [];
  queue = [];
  rcv = record (conn.rcv) { wnd = 65535 };
  snd = record (conn.snd) { nxt = 500; una = 500 };
}

abbrev receiver : TcpPcb
receiver = record conn { buf = []; queue = []; rcv = record { nxt = 500; wnd = 65535; up = 0 } }

abbrev with_block : TcpPcb → Tcp
with_block p = record { pcbs = none ∷ some p ∷ []; tasks = fresh_task ∷ fresh_task ∷ []; net = net }

-- Two turns of `send`, a tick, and the acknowledgement of two bytes.
abbrev events : List Event
events =
    sends (7 ∷ 8 ∷ 9 ∷ []) 0
    ∷ sends (7 ∷ 8 ∷ 9 ∷ []) 2
    ∷ ticks 20300
    ∷ arrives (record { seq = 9000; ack = 502; len = 0; wnd = 900; up = 0 }) 0x10 []
    ∷ []

events-IsSteady : All IsSteady events
unfolding flag_isset
events-IsSteady = (tt, (tt, (tt, ((refl, refl, refl), tt))))

begins : Keeps 500 1 ([], with_block sender)
begins = (sender, refl, inl (refl, refl, ([], refl, tt, refl, omega arith, omega arith)))

abbrev piece : ℕ → List ℕ → Stream.Event
piece seq text =
    Stream.arrives (record { seq = seq; ack = 9000; len = 2; wnd = 900; up = 0 }) 0x18 text

abbrev arrivals : List Stream.Event
arrivals =
    piece 502 (9 ∷ []) ∷ piece 500 (7 ∷ 8 ∷ []) ∷ piece 502 (9 ∷ []) ∷ Stream.receives 10 ∷ []

arrivals-Sent : All (Sent 500 1 local remote events ([], with_block sender)) arrivals
unfolding send_poll send_segment send_capacity segment_size output output_seq queued is_kept
    retrans_queue_add flag_isset
arrivals-Sent = (
  inr (inr (inl (_, refl, refl, inl (inr (inl (refl, refl, refl)))))),
  (
    inr (inl (_, refl, refl, inl (inl (refl, refl, refl)))),
    (inr (inr (inl (_, refl, refl, inl (inr (inl (refl, refl, refl)))))), (inl tt, tt)),
  ),
)

transfer-Delivers_example :
    Delivers
      (run 1 local remote events ([], with_block sender)).0
      500
      1
      (Stream.run 1 remote local arrivals ([], with_block receiver))
    × AllPut 500 1 local remote events ([], with_block sender)
transfer-Delivers_example =
    transfer-Delivers 500 1 local remote events ([], with_block sender) arrivals 1 remote local
      ([], with_block receiver) (omega arith) events-IsSteady begins arrivals-Sent
      (receiver, refl, refl, refl, (0, omega arith, refl, refl))
