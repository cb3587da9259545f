-- ===== src/Tcp/Timer.antt =====
-- The timer of src/tcp.rs: TIME-WAIT ends, unacknowledged segments are sent again, and a connection
-- that gets no answer is closed.
pub mod Laws
use microps_rs.Base.{
  ℕ, zero, suc, ◌+◌, ◌*◌, Bool, true, false, ◌&&◌, ◌||◌, List, [], ◌∷◌, Option, none, some, ltb,
  leb, if◌then◌else◌, length,
}
use microps_rs.Addr.{IpEndp}
use microps_rs.Link.{Net}
use microps_rs.Table.{slot}
use microps_rs.Tcp.{TcpState, closed, time_wait, Tcp, TcpPcb, TcpQueueEntry}
use microps_rs.Tcp.Segment.{output_segment}
use microps_rs.Tcp.Pcb.{store, notify, transition, close_and_release}

-- `TCP_RETRANS_DEADLINE`, 12 seconds.
abbrev pub retrans_deadline : ℕ
retrans_deadline = 12000

unfoldable pub deadline_exceeded : ℕ → List TcpQueueEntry → Bool
deadline_exceeded now [] = false
deadline_exceeded now (e ∷ es) = leb (e.first + retrans_deadline) now || deadline_exceeded now es

abbrev pub is_due : ℕ → TcpQueueEntry → Bool
is_due now e = leb (e.last + e.rto) now

-- A segment that is sent again waits twice as long.
unfoldable pub backoff : ℕ → TcpQueueEntry → TcpQueueEntry
backoff now e = if is_due now e then record e { last = now; rto = e.rto * 2 } else e

unfoldable pub resend : TcpPcb → TcpQueueEntry → Net → Net
resend p e n =
    let sent = output_segment e.seq p.rcv.nxt e.flg p.rcv.wnd e.payload p.local p.remote n in
    if is_due n.now e then sent.1 else n

-- The loop over the queue; `now` is read once, before it.
unfoldable pub resend_queue : ℕ → TcpPcb → List TcpQueueEntry → Net → List TcpQueueEntry × Net
resend_queue now p [] n = ([], n)
resend_queue now p (e ∷ es) n =
    let (es', n') = resend_queue now p es (resend p e (record n { now = now })) in
    (backoff now e ∷ es', n')

unfoldable pub retrans_emit : ℕ → TcpPcb → Tcp → Tcp
retrans_emit desc p s =
    let (queue, n) = resend_queue s.net.now p p.queue s.net in
    if deadline_exceeded s.net.now p.queue
    then notify p (store desc (transition closed p) s)
    else store desc (record p { queue = queue }) (record s { net = n })

abbrev pub has_timed_out : TcpState → ℕ → ℕ → Bool
has_timed_out time_wait now tw_timer = ltb tw_timer now
has_timed_out _ now tw_timer = false

unfoldable pub on_timer_slot : ℕ → Tcp → Tcp
on_timer_slot desc s = elim (slot s.pcbs desc) [
  | none ↦ s
  | some p ↦
      if has_timed_out p.state s.net.now p.tw_timer
      then close_and_release desc p s
      else retrans_emit desc p s
]

-- The loop over the slots from `desc`.
unfoldable pub on_timer_from : ℕ → ℕ → Tcp → Tcp
on_timer_from zero desc s = s
on_timer_from (suc left) desc s = on_timer_from left (desc + 1) (on_timer_slot desc s)

unfoldable pub on_timer : Tcp → Tcp
on_timer s = on_timer_from (length s.pcbs) 0 s
