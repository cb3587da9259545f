-- ===== src/Tcp/Handshake/Opened.antt =====
-- The two ends of an opening in src/tcp.rs behind the three segments.
use microps_rs.Base.{
  ℕ, ◌+◌, ◌<◌, ◌≡◌, ◌≢◌, refl, sym, ap, subst, ◌∙◌, true, [], some, arith, wrapping_add,
}
use microps_rs.Addr.{IpEndp}
use microps_rs.Table.{slot}
use microps_rs.Table.Laws.{slot-lt}
use microps_rs.Tcp.{syn_sent, syn_received, established, Tcp, TcpPcb, RcvVars}
use microps_rs.Tcp.Pcb.{notify, transition, retrans_queue_cleanup}
use microps_rs.Tcp.Arrives.Opening.{on_listen, on_syn_sent, take_syn}
use microps_rs.Tcp.Arrives.Established.{on_synchronized}
use microps_rs.Tcp.Arrives.Established.{advance_una}
use microps_rs.Tcp.Arrives.Steady.Acked.{advance_una-Kept}
use microps_rs.Link.{Net, random32}
use microps_rs.Tcp.Pcb.Queue.{put}
use microps_rs.Tcp.Handshake.{
  syn_of, ack_of, HasSent, establish_active-established, on_syn_sent_lem, AwaitsAck,
  AwaitsAck-acked,
}
use microps_rs.Tcp.Handshake.Listening.{
  HandedOver, advance_una-snd, advance_una-queue, hand_over-HandedOver, on_synchronized_lem,
}
use microps_rs.Tcp.Handshake.Ready.{IsBlank, IsBlank-Keeps, IsBlank-Delivers}
use microps_rs.Tcp.Stream.{Delivers}
use microps_rs.Tcp.Outgoing.{Keeps}

-- The listening end behind the SYN, the calling end behind SYN and ACK, and the listening end behind
-- the ACK.
abbrev pub behind_syn : ℕ → TcpPcb → TcpPcb → IpEndp → IpEndp → Tcp → Tcp
behind_syn parent listener q here there b = on_listen parent listener (syn_of q) 0x02 there here b

abbrev pub behind_syn_ack : ℕ → TcpPcb → TcpPcb → IpEndp → IpEndp → Tcp → Tcp
behind_syn_ack caller q r here there a = on_syn_sent caller q (syn_of r) 0x12 here there a

abbrev pub behind_ack : ℕ → TcpPcb → TcpPcb → IpEndp → IpEndp → Tcp → Tcp
behind_ack d r n here there b = on_synchronized d r (ack_of n) 0x10 [] there here b

-- The three segments, each with what `output_segment` was given for it, on a state `before` in
-- which the caller had its initial number; and the two blocks behind them: both connections are established, each end
-- expects what the other sends next, everything is acknowledged, and the new connection waits in
-- the backlog of the socket that listens. In both directions a transfer can begin: the one end has
-- nothing in flight and the other has received nothing yet.
pub record IsOpened (caller parent d : ℕ) (listener : TcpPcb) (here there : IpEndp) (before : Net)
    (a b : Tcp) : Type 0 where
  pub calling : TcpPcb
  pub called : slot a.pcbs caller ≡ some calling
  pub sends_syn : a.net ≡ put (syn_of calling) 0x02 [] here there before
  pub answering : TcpPcb
  pub answered : slot (behind_syn parent listener calling here there b).pcbs d ≡ some answering
  pub sends_syn_ack :
      (behind_syn parent listener calling here there b).net
      ≡ put (syn_of answering) 0x12 [] there here (random32 b.net).1
  pub near : TcpPcb
  pub near_slot :
      slot (behind_syn_ack caller calling answering here there a).pcbs caller ≡ some near
  pub sends_ack :
      (behind_syn_ack caller calling answering here there a).net
      ≡ put (ack_of near) 0x10 [] here there a.net
  pub far : TcpPcb
  pub far_slot :
      HandedOver parent d listener far
        (behind_ack d answering near here there (behind_syn parent listener calling here there b))
  pub established_near : near.state ≡ established
  pub established_far : far.state ≡ established
  pub forth : (near.snd.nxt ≡ far.rcv.nxt) × (near.snd.una ≡ near.snd.nxt)
  pub back : (far.snd.nxt ≡ near.rcv.nxt) × (far.snd.una ≡ far.snd.nxt)
  pub begins_forth :
      Keeps near.snd.nxt caller ([], behind_syn_ack caller calling answering here there a)
      × Delivers [] near.snd.nxt d (
        [],
        behind_ack d answering near here there (behind_syn parent listener calling here there b),
      )
  pub begins_back :
      Keeps far.snd.nxt d (
        [],
        behind_ack d answering near here there (behind_syn parent listener calling here there b),
      )
      × Delivers [] far.snd.nxt caller ([], behind_syn_ack caller calling answering here there a)

-- What follows from the two blocks that have sent their SYN.
pub opened :
    (caller parent d : ℕ) (listener q r : TcpPcb) (here there : IpEndp) (before : Net) (a b : Tcp)
    → slot a.pcbs caller ≡ some q
    → HasSent syn_sent q
    → q.iss + 65536 < 4294967296
    → slot (on_listen parent listener (syn_of q) 0x02 there here b).pcbs d ≡ some r
    → slot (on_listen parent listener (syn_of q) 0x02 there here b).pcbs parent ≡ some listener
    → HasSent syn_received r
    → r.rcv.nxt ≡ wrapping_add q.iss 1
    → r.parent_desc ≡ some parent
    → r.iss + 1 < 4294967296
    → d ≢ parent
    → (q.buf ≡ []) × AwaitsAck q.iss q.queue
    → (r.buf ≡ []) × AwaitsAck r.iss r.queue
    → ((q.local ≡ here) × (q.remote ≡ there))
    → a.net ≡ put (syn_of q) 0x02 [] here there before
    → (behind_syn parent listener q here there b).net
      ≡ put (syn_of r) 0x12 [] there here (random32 b.net).1
    → IsOpened caller parent d listener here there before a b
unfolding take_syn retrans_queue_cleanup
opened caller parent d listener q r here there before a b q_slot q_sent q_small r_slot waits r_sent
      r_next r_child r_small distinct (q_buf, q_waits) (r_buf, r_waits) (q_local, q_remote) q_sends
      r_sends =
    let b1 = on_listen parent listener (syn_of q) 0x02 there here b in
    let near_eq = on_syn_sent_lem caller q (syn_of r) here there a q_sent (omega arith) r_next in
    let (n, n_slot, n_state, n_una, n_nxt, n_rcv, n_queue, n_buf, n_sends) =
      establish_active-established caller (take_syn q (syn_of r) true) (syn_of r) a
        (slot-lt a.pcbs caller q q_slot) in
    let in_order : n.snd.nxt ≡ r.rcv.nxt = n_nxt ∙ q_sent.2 ∙ sym r_next in
    let n_next : n.rcv.nxt ≡ wrapping_add r.iss 1 = ap (λ (v : RcvVars). v.nxt) n_rcv in
    let near_blank : IsBlank n = (
      n_state,
      n_una ∙ sym in_order,
      n_queue ∙ AwaitsAck-acked q.iss r.rcv.nxt q.queue r_next q_waits,
      n_buf ∙ q_buf,
      ap (λ (v : RcvVars). v.wnd) n_rcv ∙ q_sent.3,
    ) in
    let far_eq =
      on_synchronized_lem parent d listener (ack_of n) distinct r there here b1 r_sent r_small
        (omega (arith, r_next)) r_child in_order n_next refl in
    let e = transition established r in
    let far = advance_una e (ack_of n) in
    let (state, kept) = advance_una-Kept (ack_of n) e in
    let (una, nxt) = advance_una-snd e (ack_of n) in
    let far_blank : IsBlank far = (
      state,
      una ∙ n_next ∙ sym r_sent.2 ∙ sym nxt,
      advance_una-queue e (ack_of n) ∙ AwaitsAck-acked r.iss n.rcv.nxt r.queue n_next r_waits,
      kept.0 ∙ r_buf,
      ap (λ (v : RcvVars). v.wnd) kept.1 ∙ r_sent.3,
    ) in
    let near_slot = ap (λ (t : Tcp). slot t.pcbs caller) near_eq ∙ n_slot in
    let far_slot = subst (HandedOver parent d listener far) (sym far_eq) (
      hand_over-HandedOver parent d listener (ack_of n) distinct far (notify r b1) state
        (slot-lt b1.pcbs d r r_slot) waits) in
    let a' = behind_syn_ack caller q r here there a in
    let b' = behind_ack d r n here there b1 in
    let forth : n.snd.nxt ≡ far.rcv.nxt = in_order ∙ ap (λ (v : RcvVars). v.nxt) (sym kept.1) in
    let back : far.snd.nxt ≡ n.rcv.nxt = nxt ∙ r_sent.2 ∙ sym n_next in
    record {
      calling = q;
      called = q_slot;
      sends_syn = q_sends;
      answering = r;
      sends_syn_ack = r_sends;
      answered = r_slot;
      near = n;
      near_slot = near_slot;
      sends_ack =
          ap (λ (t : Tcp). t.net) near_eq
          ∙ n_sends
          ∙ ap (λ e. put (ack_of n) 0x10 [] e q.remote a.net) q_local
          ∙ ap (λ e. put (ack_of n) 0x10 [] here e a.net) q_remote;
      far = far;
      far_slot = far_slot;
      established_near = n_state;
      established_far = state;
      forth = (forth, near_blank.1);
      back = (back, far_blank.1);
      begins_forth = (
        IsBlank-Keeps caller n a' near_slot near_blank,
        IsBlank-Delivers n.snd.nxt d far b' far_slot.0 (omega (arith, n_nxt, q_sent.2)) forth
            far_blank,
      );
      begins_back = (
        IsBlank-Keeps d far b' far_slot.0 far_blank,
        IsBlank-Delivers far.snd.nxt caller n a' near_slot (omega (arith, nxt, r_sent.2)) back
            near_blank,
      );
    }
