-- ===== src/Tcp/Arrives/Established.antt =====
-- `segment_arrives` in SYN-RECEIVED and the states behind it: the eight checks, in order.
use microps_rs.Base.{
  ℕ, ◌+◌, ◌-◌, Bool, true, false, not, ◌&&◌, ◌||◌, List, [], ◌∷◌, ◌++◌, Option, none, some, ltb,
  leb, ◌==◌, if◌then◌else◌, length, is_empty, wrapping_add, wrapping_sub,
}
use microps_rs.Addr.{IpEndp}
use microps_rs.Table.{slot}
use microps_rs.Tcp.{
  TcpState, closed, listen, syn_sent, syn_received, established, fin_wait1, fin_wait2, close_wait,
  closing, last_ack, time_wait, Tcp, TcpPcb, SegInfo, SndVars, RcvVars,
}
use microps_rs.Tcp.Flags.{flag_isset, fin, syn, rst, ack}
use microps_rs.Tcp.Pcb.{store, notify, transition, emit, retrans_queue_cleanup, close_and_release}
use microps_rs.Tcp.Arrives.Opening.{send_bare}

-- A step ends the handling, or the next one goes on with the block.
pub data Flow : Type 0 where
  return : Tcp → Flow
  go : TcpPcb → Tcp → Flow

-- 1st, the sequence number lies in the receive window.
unfoldable pub in_window : TcpPcb → ℕ → Bool
in_window p seq = leb p.rcv.nxt seq && ltb seq (wrapping_add p.rcv.nxt p.rcv.wnd)

unfoldable pub seq_acceptable : TcpPcb → SegInfo → Bool
seq_acceptable p seg =
    let end_seq = wrapping_sub (wrapping_add seg.seq seg.len) 1 in
    if seg.len == 0
    then (if p.rcv.wnd == 0 then seg.seq == p.rcv.nxt else in_window p seg.seq)
    else (if p.rcv.wnd == 0 then false else in_window p seg.seq || in_window p end_seq)

-- 2nd, a reset ends the connection.
unfoldable pub on_reset : TcpState → ℕ → TcpPcb → Tcp → Tcp
on_reset closed desc p s = s
on_reset listen desc p s = s
on_reset syn_sent desc p s = s
on_reset _ desc p s = close_and_release desc p s

-- 4th, a SYN in the window is an error: the peer is reset.
unfoldable pub on_syn : ℕ → TcpPcb → Tcp → Tcp
on_syn desc p s = let (p', s') = emit rst p s in close_and_release desc p' s'

-- `TCP_TIMEWAIT_SEC`, 30 seconds.
abbrev pub timewait : ℕ
timewait = 30000

abbrev pub set_timewait_timer : TcpPcb → Tcp → TcpPcb
set_timewait_timer p s = record p { tw_timer = s.net.now + timewait }

-- 5th: the ACK of our SYN establishes the connection, and nothing else does.
unfoldable pub ack_syn_received : TcpPcb → SegInfo → IpEndp → IpEndp → Tcp → Flow
ack_syn_received p seg local remote s =
    if leb p.snd.una seg.ack && leb seg.ack p.snd.nxt
    then go (transition established p) (notify p s)
    else return (send_bare seg.ack 0 rst local remote s)

-- The ACK conveys a newer window than the one we have.
unfoldable pub is_newer_window : TcpPcb → SegInfo → Bool
is_newer_window p seg = ltb p.snd.wl1 seg.seq || ((p.snd.wl1 == seg.seq) && leb p.snd.wl2 seg.ack)

-- New data is acknowledged: the queue is cleaned, and the send window may be updated.
unfoldable pub advance_una : TcpPcb → SegInfo → TcpPcb
advance_una p seg =
    let snd1 : SndVars = record (p.snd) { una = seg.ack } in
    let p1 = retrans_queue_cleanup (record p { snd = snd1 }) in
    let snd2 : SndVars = record (p1.snd) { wnd = seg.wnd; wl1 = seg.seq; wl2 = seg.ack } in
    if is_newer_window p1 seg then record p1 { snd = snd2 } else p1

abbrev pub fin_acked : TcpState → Bool → TcpPcb → TcpPcb
fin_acked fin_wait1 true p = transition fin_wait2 p
fin_acked _ _ p = p

-- The ACK of ESTABLISHED, CLOSE-WAIT, FIN-WAIT-1 and FIN-WAIT-2.
unfoldable pub ack_established : ℕ → TcpPcb → SegInfo → Tcp → Flow
ack_established desc p seg s =
    let p1 = advance_una p seg in
    let (p2, s2) = emit ack p s in
    if ltb p.snd.una seg.ack && leb seg.ack p.snd.nxt
    then go (fin_acked p1.state (seg.ack == p1.snd.nxt) p1) s
    else if ltb seg.ack p.snd.una
    then go (fin_acked p.state (seg.ack == p.snd.nxt) p) s
    else if ltb p.snd.nxt seg.ack
    then return (store desc p2 s2)
    else go (fin_acked p.state (seg.ack == p.snd.nxt) p) s

-- The ACK check by state.
unfoldable pub ack_by_state : TcpState → ℕ → TcpPcb → SegInfo → ℕ → Tcp → Flow
ack_by_state established desc p seg flags s = ack_established desc p seg s
ack_by_state close_wait desc p seg flags s = ack_established desc p seg s
ack_by_state fin_wait1 desc p seg flags s = ack_established desc p seg s
ack_by_state fin_wait2 desc p seg flags s = ack_established desc p seg s
ack_by_state closing desc p seg flags s =
    if seg.ack == p.snd.nxt
    then go (set_timewait_timer (transition time_wait p) s) (notify p s)
    else go p s
ack_by_state last_ack desc p seg flags s =
    return (if seg.ack == p.snd.nxt then close_and_release desc p s else s)
ack_by_state time_wait desc p seg flags s =
    go (if flag_isset flags fin then set_timewait_timer p s else p) s
ack_by_state _ desc p seg flags s = go p s

-- A new connection is handed to the socket that listens for it.
unfoldable pub push_backlog : Option ℕ → ℕ → Tcp → Tcp
push_backlog none desc s = s
push_backlog (some parent_desc) desc s = elim (slot s.pcbs parent_desc) [
  | none ↦ s
  | some parent ↦
      notify parent (store parent_desc (record parent { backlog = parent.backlog ++ desc ∷ [] }) s)
]

abbrev pub is_receiving : TcpState → Bool
is_receiving established = true
is_receiving fin_wait1 = true
is_receiving fin_wait2 = true
is_receiving _ = false

-- The text goes to the buffer, and the window shrinks by it.
unfoldable pub take_text : TcpPcb → SegInfo → List ℕ → TcpPcb
take_text p seg payload =
    let rcv : RcvVars = record (p.rcv) {
      nxt = wrapping_add seg.seq (length payload);
      wnd = p.rcv.wnd - length payload;
    } in
    record p { buf = p.buf ++ payload; rcv = rcv }

-- 7th, the text; what is out of order or too long is not taken, and acknowledged again.
unfoldable pub process_text : ℕ → TcpPcb → SegInfo → List ℕ → Tcp → Flow
process_text desc p seg payload s =
    let (p1, s1) = emit ack p s in
    let (p2, s2) = emit ack (take_text p seg payload) s in
    if not (is_receiving p.state && not (is_empty payload))
    then go p s
    else if not (p.rcv.nxt == seg.seq) || ltb p.rcv.wnd (length payload)
    then return (store desc p1 s1)
    else go p2 (notify p2 s2)

-- The state after a FIN.
unfoldable pub fin_transition : TcpState → TcpPcb → SegInfo → Tcp → TcpPcb × Tcp
fin_transition syn_received p seg s = (transition close_wait p, notify p s)
fin_transition established p seg s = (transition close_wait p, notify p s)
fin_transition fin_wait1 p seg s = (
  if seg.ack == p.snd.nxt
      then set_timewait_timer (transition time_wait p) s
      else transition closing p,
  s,
)
fin_transition fin_wait2 p seg s = (set_timewait_timer (transition time_wait p) s, s)
fin_transition _ p seg s = (p, s)

-- The FIN is acknowledged.
unfoldable pub take_fin : TcpPcb → SegInfo → TcpPcb
take_fin p seg =
    let rcv : RcvVars = record (p.rcv) { nxt = wrapping_add seg.seq 1 } in record p { rcv = rcv }

abbrev pub is_closed_or_listen : TcpState → Bool
is_closed_or_listen closed = true
is_closed_or_listen listen = true
is_closed_or_listen _ = false

-- 8th, the FIN.
unfoldable pub process_fin : ℕ → TcpPcb → SegInfo → Tcp → Tcp
process_fin desc p seg s =
    let (p1, s1) = emit ack (take_fin p seg) s in
    let (p2, s2) = fin_transition p1.state p1 seg s1 in
    if is_closed_or_listen p.state then store desc p s else store desc p2 s2

-- The steps behind the ACK check.
unfoldable pub after_ack : ℕ → TcpPcb → SegInfo → ℕ → List ℕ → Tcp → Tcp
after_ack desc p seg flags payload s = elim (process_text desc p seg payload s) [
  | return s' ↦ s'
  | go p' s' ↦ if flag_isset flags fin then process_fin desc p' seg s' else store desc p' s'
]

-- The new connection, if there is one, reaches the backlog between the two.
unfoldable pub hand_over : Option ℕ → ℕ → TcpPcb → SegInfo → ℕ → List ℕ → Tcp → Tcp
hand_over parent desc p seg flags payload s =
    let s' = push_backlog parent desc (store desc p s) in
    elim (slot s'.pcbs desc) [ none ↦ s' | some p' ↦ after_ack desc p' seg flags payload s' ]

unfoldable pub ack_then : Option ℕ → ℕ → TcpPcb → SegInfo → ℕ → List ℕ → Tcp → Tcp
ack_then parent desc p seg flags payload s = elim (ack_by_state p.state desc p seg flags s) [
  | return s' ↦ s'
  | go p' s' ↦ hand_over parent desc p' seg flags payload s'
]

-- 5th to 8th: the ACK check starts with SYN-RECEIVED, and goes on as ESTABLISHED.
unfoldable pub check_ack :
    TcpState → ℕ → TcpPcb → SegInfo → ℕ → List ℕ → IpEndp → IpEndp → Tcp → Tcp
check_ack syn_received desc p seg flags payload local remote s =
    elim (ack_syn_received p seg local remote s) [
      | return s' ↦ s'
      | go p' s' ↦ ack_then p.parent_desc desc p' seg flags payload s'
    ]
check_ack _ desc p seg flags payload local remote s = ack_then none desc p seg flags payload s

unfoldable pub on_synchronized : ℕ → TcpPcb → SegInfo → ℕ → List ℕ → IpEndp → IpEndp → Tcp → Tcp
on_synchronized desc p seg flags payload local remote s =
    let (p1, s1) = emit ack p s in
    if not (seq_acceptable p seg)
    then (if flag_isset flags rst then s else store desc p1 s1)
    else if flag_isset flags rst
    then on_reset p.state desc p s
    else if flag_isset flags syn
    then on_syn desc p s
    else if not (flag_isset flags ack)
    then s
    else check_ack p.state desc p seg flags payload local remote s
