-- ===== src/Tcp/Api/Transfer.antt =====
-- `send`, `receive` and `accept` of src/tcp.rs, one turn of each loop.
use microps_rs.Base.{
  ℕ, ◌+◌, ◌-◌, Bool, true, false, not, List, [], ◌∷◌, none, some, ◌==◌, leb, min, if◌then◌else◌,
  length, take, drop, slice, is_empty, u16, wrapping_add, wrapping_sub,
}
use microps_rs.Addr.{IpEndp}
use microps_rs.Link.{device_at}
use microps_rs.Ip.Route.{route_lookup}
use microps_rs.Table.{slot}
use microps_rs.Task.{snapshot}
use microps_rs.Tcp.{
  TcpState, listen, established, fin_wait1, fin_wait2, close_wait, closing, last_ack, time_wait,
  Tcp, TcpPcb, SndVars, RcvVars,
}
use microps_rs.Tcp.Pcb.{store, output}

-- One turn of a loop: it returns, fails, goes round again, or waits on a task whose generation
-- it has read.
pub data Poll {ℓ} (A : Type ℓ) : Type ℓ where
  ready : A → Poll A
  failed : Poll A
  again : Poll A
  wait : ℕ → ℕ → Poll A

abbrev pub wait_on {ℓ} : {A : Type ℓ} → TcpPcb → Tcp → Poll A
wait_on p s = wait p.task (snapshot p.task s.tasks)

abbrev pub can_send : TcpState → Bool
can_send established = true
can_send close_wait = true
can_send _ = false

-- What the peer's window still takes.
unfoldable pub send_capacity : TcpPcb → ℕ
send_capacity p = p.snd.wnd - wrapping_sub p.snd.nxt p.snd.una

unfoldable pub segment_size : TcpPcb → ℕ → ℕ
segment_size p remain = min (min p.mss remain) (send_capacity p)

-- A turn that sends ends with the new number of bytes sent; it goes round again.
pub record Sending : Type 0 where
  pub poll : Poll ℕ
  pub sent : ℕ
  pub after : Tcp

-- The segment that goes out, ACK and PSH, and the block behind it.
unfoldable pub send_segment : ℕ → TcpPcb → List ℕ → ℕ → Tcp → Sending
send_segment desc p payload sent s =
    let slen = segment_size p (length payload - sent) in
    let (r, p', n) = output 0x18 (slice payload sent (sent + slen)) p s.net in
    let snd : SndVars = record (p'.snd) { nxt = wrapping_add p'.snd.nxt slen } in
    record {
      poll = again;
      sent = sent + slen;
      after = store desc (record p' { snd = snd }) (record s { net = n });
    }

unfoldable pub send_poll : ℕ → List ℕ → ℕ → Tcp → Sending
send_poll desc payload sent s = elim (slot s.pcbs desc) [
  | none ↦ record { poll = failed; sent = sent; after = s }
  | some p ↦
      if not (can_send p.state)
      then record { poll = failed; sent = sent; after = s }
      else if leb (length payload) sent
      then record { poll = ready sent; sent = sent; after = s }
      else if send_capacity p == 0
      then record { poll = wait_on p s; sent = sent; after = s }
      else send_segment desc p payload sent s
]

-- What a wait that was interrupted makes `send` return.
abbrev pub send_interrupted : ℕ → Poll ℕ
send_interrupted sent = if sent == 0 then failed else ready sent

-- The bytes that are handed out, and the window that they free; it wraps, as without overflow
-- checks.
unfoldable pub take_bytes : ℕ → TcpPcb → List ℕ × TcpPcb
take_bytes len p =
    let n = min len (length p.buf) in
    let rcv : RcvVars = record (p.rcv) { wnd = u16 (p.rcv.wnd + u16 n) } in
    (take n p.buf, record p { buf = drop n p.buf; rcv = rcv })

unfoldable pub receive_bytes : ℕ → ℕ → TcpPcb → Tcp → Poll (List ℕ) × Tcp
receive_bytes desc len p s = let (bytes, p') = take_bytes len p in (ready bytes, store desc p' s)

unfoldable pub receive_by_state : TcpState → ℕ → ℕ → TcpPcb → Tcp → Poll (List ℕ) × Tcp
receive_by_state established desc len p s =
    if is_empty p.buf then (wait_on p s, s) else receive_bytes desc len p s
receive_by_state fin_wait1 desc len p s =
    if is_empty p.buf then (wait_on p s, s) else receive_bytes desc len p s
receive_by_state fin_wait2 desc len p s =
    if is_empty p.buf then (wait_on p s, s) else receive_bytes desc len p s
receive_by_state close_wait desc len p s =
    if is_empty p.buf then (ready [], s) else receive_bytes desc len p s
receive_by_state closing desc len p s = (ready [], s)
receive_by_state last_ack desc len p s = (ready [], s)
receive_by_state time_wait desc len p s = (ready [], s)
receive_by_state _ desc len p s = (failed, s)

-- `receive`; the bytes stand for the count and what is copied to the caller's buffer of `len`.
unfoldable pub receive_poll : ℕ → ℕ → Tcp → Poll (List ℕ) × Tcp
receive_poll desc len s = elim (slot s.pcbs desc) [
  | none ↦ (failed, s)
  | some p ↦ receive_by_state p.state desc len p s
]

-- `(mtu - 40) as u16`, which wraps for an MTU below 40, as without overflow checks.
abbrev pub mss_of : ℕ → ℕ
mss_of mtu = u16 (mtu + 65536 - 40)

unfoldable pub accept_child : ℕ → Tcp → Poll (ℕ × IpEndp) × Tcp
accept_child new_desc s = elim (slot s.pcbs new_desc) [
  | none ↦ (again, s)
  | some c ↦ elim (route_lookup c.remote.addr s.net.routes) [
    | none ↦ (failed, s)
    | some r ↦ (
      ready (new_desc, c.remote),
      store new_desc (record c { mss = mss_of (device_at s.net r.iface.dev).mtu }) s,
    )
  ]
]

unfoldable pub accept_next : List ℕ → ℕ → TcpPcb → Tcp → Poll (ℕ × IpEndp) × Tcp
accept_next [] desc p s = (wait_on p s, s)
accept_next (d ∷ ds) desc p s = accept_child d (store desc (record p { backlog = ds }) s)

abbrev pub is_listening : TcpState → Bool
is_listening listen = true
is_listening _ = false

-- `accept`: the oldest entry of the backlog that is still there.
unfoldable pub accept_poll : ℕ → Tcp → Poll (ℕ × IpEndp) × Tcp
accept_poll desc s = elim (slot s.pcbs desc) [
  | none ↦ (failed, s)
  | some p ↦ if is_listening p.state then accept_next p.backlog desc p s else (failed, s)
]
