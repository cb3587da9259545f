-- ===== src/Tcp/Arrives/Opening.antt =====
-- `segment_arrives` in CLOSED, LISTEN and SYN-SENT.
use microps_rs.Base.{
  ℕ, Bool, not, ◌&&◌, ◌||◌, [], none, some, ltb, leb, if◌then◌else◌, length, wrapping_add,
}
use microps_rs.Addr.{IpEndp}
use microps_rs.Link.{random32}
use microps_rs.Table.{slot}
use microps_rs.Tcp.{
  TcpMode, rfc, socket, syn_received, established, Tcp, TcpPcb, SegInfo, SndVars, RcvVars,
}
use microps_rs.Tcp.Flags.{flag_isset, syn, rst, ack}
use microps_rs.Tcp.Segment.{output_segment}
use microps_rs.Tcp.Pcb.{
  pcb_alloc, store, notify, transition, emit, retrans_queue_cleanup, close_and_release,
}

-- `RECV_BUF_SIZE`.
abbrev pub recv_buf_size : ℕ
recv_buf_size = 65535

-- A segment that no block sends: sequence number, acknowledgement and flags are given.
unfoldable pub send_bare : ℕ → ℕ → ℕ → IpEndp → IpEndp → Tcp → Tcp
send_bare seq ack' flg local remote s = record s {
  net = (output_segment seq ack' flg 0 [] local remote s.net).1;
}

-- A segment for no connection is answered by a reset, unless it is one.
unfoldable pub on_closed : SegInfo → ℕ → IpEndp → IpEndp → Tcp → Tcp
on_closed seg flags local remote s =
    if flag_isset flags rst
    then s
    else if flag_isset flags ack
    then send_bare seg.ack 0 rst local remote s
    else
        -- RST and ACK together
        send_bare 0 (wrapping_add seg.seq seg.len) 0x14 local remote s

-- A SYN is answered by SYN and ACK, from the block `d`.
unfoldable pub accept_syn : ℕ → TcpPcb → SegInfo → IpEndp → IpEndp → Tcp → Tcp
accept_syn d c seg local remote s =
    let (iss, n) = random32 s.net in
    let rcv : RcvVars = record (c.rcv) { wnd = recv_buf_size; nxt = wrapping_add seg.seq 1 } in
    let c1 = record c { local = local; remote = remote; rcv = rcv; irs = seg.seq; iss = iss } in
    -- SYN and ACK together
    let (c2, s') = emit 0x12 c1 (record s { net = n }) in
    let snd : SndVars = record (c2.snd) { nxt = wrapping_add c2.iss 1; una = c2.iss } in
    store d (transition syn_received (record c2 { snd = snd })) s'

-- A listening socket makes a new block for the connection, if its backlog has room.
unfoldable pub spawn_child : ℕ → TcpPcb → SegInfo → IpEndp → IpEndp → Tcp → Tcp
spawn_child desc p seg local remote s =
    let (new_desc, s') = pcb_alloc s in
    if leb p.backlog_max (length p.backlog) then s else elim new_desc [
      | none ↦ s'
      | some d ↦ elim (slot s'.pcbs d) [
        | none ↦ s'
        | some c ↦ accept_syn d (record c { parent_desc = some desc }) seg local remote s'
      ]
    ]

unfoldable pub accept_by_mode : TcpMode → ℕ → TcpPcb → SegInfo → IpEndp → IpEndp → Tcp → Tcp
accept_by_mode socket desc p seg local remote s = spawn_child desc p seg local remote s
accept_by_mode rfc desc p seg local remote s = accept_syn desc p seg local remote s

unfoldable pub on_listen : ℕ → TcpPcb → SegInfo → ℕ → IpEndp → IpEndp → Tcp → Tcp
on_listen desc p seg flags local remote s =
    if flag_isset flags rst
    then s
    else if flag_isset flags ack
    then send_bare seg.ack 0 rst local remote s
    else if flag_isset flags syn
    then accept_by_mode p.mode desc p seg local remote s
    else s

-- The acknowledgement is out of the window that SYN opened.
unfoldable pub ack_refused : TcpPcb → SegInfo → Bool
ack_refused p seg = leb seg.ack p.iss || ltb p.snd.nxt seg.ack

-- `acceptable` of SYN-SENT.
unfoldable pub ack_acceptable : TcpPcb → SegInfo → ℕ → Bool
ack_acceptable p seg flags =
    flag_isset flags ack && (leb p.snd.una seg.ack && leb seg.ack p.snd.nxt)

-- The connection is established from our side: the answer is ACK, the send window is taken over.
unfoldable pub establish_active : ℕ → TcpPcb → SegInfo → Tcp → Tcp
establish_active desc p seg s =
    let (p', s') = emit ack (transition established p) s in
    let snd : SndVars = record (p'.snd) { wnd = seg.wnd; wl1 = seg.seq; wl2 = seg.ack } in
    notify p' (store desc (record p' { snd = snd }) s')

-- Both sides sent a SYN.
unfoldable pub simultaneous_open : ℕ → TcpPcb → Tcp → Tcp
simultaneous_open desc p s =
    let (p', s') = emit 0x12 (transition syn_received p) s in store desc p' s'

-- What the SYN of SYN-SENT does to the block.
unfoldable pub take_syn : TcpPcb → SegInfo → Bool → TcpPcb
take_syn p seg acceptable =
    let rcv : RcvVars = record (p.rcv) { nxt = wrapping_add seg.seq 1 } in
    let p' = record p { rcv = rcv; irs = seg.seq } in
    if acceptable
    then retrans_queue_cleanup (record p' { snd = record (p'.snd) { una = seg.ack } })
    else p'

unfoldable pub on_syn_sent : ℕ → TcpPcb → SegInfo → ℕ → IpEndp → IpEndp → Tcp → Tcp
on_syn_sent desc p seg flags local remote s =
    let acceptable = ack_acceptable p seg flags in
    let p' = take_syn p seg acceptable in
    if flag_isset flags ack && ack_refused p seg
    then send_bare seg.ack 0 rst local remote s
    else if flag_isset flags rst
    then (if acceptable then close_and_release desc p s else s)
    else if not (flag_isset flags syn)
    then s
    else if ltb p'.iss p'.snd.una
    then establish_active desc p' seg s
    else simultaneous_open desc p' s
