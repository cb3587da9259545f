-- ===== src/Tcp/Handshake/Complete.antt =====
-- The whole opening in src/tcp.rs: `connect` at the one end, a listening socket at the other.
use microps_rs.Base.{
  ℕ, ◌+◌, ◌<◌, ◌≡◌, ◌≢◌, refl, sym, ap, ◌∙◌, true, false, inl, inr, [], some, arith, length, leb,
  Option-cases, some≢none,
}
use microps_rs.Addr.{IpEndp}
use microps_rs.Link.{Net, random32}
use microps_rs.Table.{slot}
use microps_rs.Table.Laws.{slot-lt, slot-set_ne}
use microps_rs.Tcp.{socket, empty, Tcp, TcpPcb, SegInfo}
use microps_rs.Tcp.Flags.{flag_isset}
use microps_rs.Tcp.Pcb.{emit}
use microps_rs.Tcp.Arrives.Opening.{accept_syn, on_listen, accept_by_mode, spawn_child}
use microps_rs.Tcp.Api.Connect.{send_syn}
use microps_rs.Tcp.Pcb.{pcb_alloc, pcb_size_max}
use microps_rs.Tcp.Pcb.Alloc.{pcb_alloc-IsAlloc}
use microps_rs.Table.{alloc}
use microps_rs.Tcp.Pcb.Queue.{put}
use microps_rs.Tcp.Handshake.{syn_of, send_syn-HasSent, accept_syn-HasSent}
use microps_rs.Tcp.Handshake.Opened.{IsOpened, opened}

pcb_alloc-net : (s : Tcp) → (pcb_alloc s).1.net ≡ s.net
unfolding pcb_alloc
pcb_alloc-net s = elim (Option-cases (alloc pcb_size_max (empty (length s.tasks)) s.pcbs)) [
  | inl e ↦ rw (e, pcb_alloc) refl
  | inr (r, e) ↦ rw (e, pcb_alloc) refl
]

-- The block of the new connection changes its own slot only.
accept_syn-other :
    (d j : ℕ) (c : TcpPcb) (seg : SegInfo) (local remote : IpEndp) (s : Tcp)
    → d ≢ j
    → slot (accept_syn d c seg local remote s).pcbs j ≡ slot s.pcbs j
unfolding accept_syn emit
accept_syn-other d j c seg local remote s ne = slot-set_ne s.pcbs d j _ ne

-- The child that a listening socket makes.
abbrev child : ℕ → Tcp → TcpPcb
child parent s = record (empty (length s.tasks)) { parent_desc = some parent }

on_listen_lem :
    (parent d : ℕ) (listener : TcpPcb) (seg : SegInfo) (local remote : IpEndp) (s : Tcp)
    → listener.mode ≡ socket
    → length listener.backlog < listener.backlog_max
    → (pcb_alloc s).0 ≡ some d
    → on_listen parent listener seg 0x02 local remote s
      ≡ accept_syn d (child parent s) seg local remote (pcb_alloc s).1
unfolding on_listen accept_by_mode spawn_child flag_isset
on_listen_lem parent d listener seg local remote s mode room given =
    let full : leb listener.backlog_max (length listener.backlog) ≡ false = ground arith in
    let made = (pcb_alloc-IsAlloc s d given).holds in
    let spawned : spawn_child parent listener seg local remote s
        ≡ accept_syn d (child parent s) seg local remote (pcb_alloc s).1 =
      rw (spawn_child, full, given, made) refl in
    ap (λ m. accept_by_mode m parent listener seg local remote s) mode ∙ spawned

-- A SYN that connect sent for a block with an empty queue and buffer, to a listening socket with
-- room in its backlog and a block to give, opens the connection at both ends by the three segments
-- that the two ends give to `output_segment` (SYN, SYN and ACK, ACK), and a transfer can begin in
-- either direction, where neither of the initial sequence numbers brings the segments or
-- the window to 2 ^ 32.
pub handshake-IsOpened :
    (caller parent d : ℕ) (p listener : TcpPcb) (here there : IpEndp) (a b : Tcp)
    → slot a.pcbs caller ≡ some p
    → (p.queue ≡ []) × (p.buf ≡ [])
    → (send_syn caller p here there a).0 ≡ true
    → slot b.pcbs parent ≡ some listener
    → listener.mode ≡ socket
    → length listener.backlog < listener.backlog_max
    → (pcb_alloc b).0 ≡ some d
    → (random32 a.net).0 + 65536 < 4294967296
    → (random32 b.net).0 + 1 < 4294967296
    → IsOpened caller parent d listener here there
        (random32 a.net).1
        (send_syn caller p here there a).1
        b
handshake-IsOpened caller parent d p listener here there a b found (bare, unread) sent waits mode
      room given near_isn far_isn =
    let (q, q_slot, q_sent, q_iss, q_buf, q_waits, q_ends, q_sends) =
      send_syn-HasSent caller p here there a (slot-lt a.pcbs caller p found) sent in
    let given_slot = pcb_alloc-IsAlloc b d given in
    let distinct : d ≢ parent =
      λ e. some≢none (sym waits ∙ ap (slot b.pcbs) (sym e) ∙ given_slot.was_free) in
    let b' = (pcb_alloc b).1 in
    let spawned = on_listen_lem parent d listener (syn_of q) there here b mode room given in
    let (r, r_slot, r_sent, r_next, r_child, r_iss, r_buf, r_waits, r_sends) =
      accept_syn-HasSent d (child parent b) (syn_of q) there here b'
        (slot-lt b'.pcbs d _ given_slot.holds) in
    let at : (j : ℕ)
        → slot (on_listen parent listener (syn_of q) 0x02 there here b).pcbs j
          ≡ slot (accept_syn d (child parent b) (syn_of q) there here b').pcbs j =
      λ j. ap (λ (t : Tcp). slot t.pcbs j) spawned in
    let far_small = ap (λ (n : Net). (random32 n).0) (pcb_alloc-net b) in
    opened caller parent d listener q r here there (random32 a.net).1
      (send_syn caller p here there a).1 b q_slot q_sent (omega (arith, q_iss)) (at d ∙ r_slot)
      (at parent
        ∙ accept_syn-other d parent (child parent b) (syn_of q) there here b' distinct
        ∙ given_slot.others parent distinct
        ∙ waits)
      r_sent r_next r_child (omega (arith, r_iss, far_small)) distinct
      (q_buf ∙ unread, q_waits bare) (r_buf, r_waits refl) q_ends q_sends
      (ap (λ (t : Tcp). t.net) spawned
        ∙ r_sends
        ∙ ap (λ n. put (syn_of r) 0x12 [] there here (random32 n).1) (pcb_alloc-net b))
