-- ===== src/Tcp/Handshake.antt =====
-- The opening of a connection in src/tcp.rs, from both ends: SYN, SYN and ACK, ACK.
pub mod Listening
pub mod Complete
pub mod Opened
pub mod Ready
use microps_rs.Base.{
  ℕ, ◌+◌, ◌-◌, ◌%◌, ◌≤◌, ◌<◌, ◌≡◌, ◌≢◌, refl, sym, ap, subst, ◌∙◌, Bool, true, false, not, ◌&&◌,
  ◌||◌, ◌⊎◌, inl, inr, List, [], ◌∷◌, ◌++◌, Option, none, some, arith, length, ltb, leb, ◌==◌,
  wrapping_add, Bool-cases, if_cases, is_none, length-set, is_empty, if◌then◌else◌,
}
use microps_rs.Addr.{IpEndp}
use microps_rs.Link.{Net, random32}
use microps_rs.Tcp.Segment.{output_segment}
use microps_rs.Table.{slot}
use microps_rs.Table.Laws.{slot-lt, slot-set_self, slot-set_ne}
use microps_rs.Tcp.{
  TcpState, syn_sent, syn_received, established, Tcp, TcpPcb, SegInfo, SndVars, RcvVars,
  TcpQueueEntry,
}
use microps_rs.Tcp.Flags.{flag_isset, fin, syn, rst, ack}
use microps_rs.Tcp.Pcb.{
  emit, store, notify, transition, output, retrans_queue_cleanup, drop_acked, consume, queued,
  is_kept, output_seq, retrans_queue_add,
}
use microps_rs.Tcp.Pcb.Queue.{
  put, emit-state, emit-rcv, emit-snd, emit-iss, emit-pcbs, emit_block, queued_block, emit-buf,
  emit-queue,
}
use microps_rs.Tcp.Arrives.Opening.{
  recv_buf_size, accept_syn, on_syn_sent, ack_acceptable, ack_refused, take_syn, establish_active,
}
use microps_rs.Tcp.Arrives.Established.{on_synchronized, seq_acceptable, in_window}
use microps_rs.Tcp.Api.Connect.{send_syn}

-- The segments that the two ends send, as the other one reads them.
abbrev pub syn_of : TcpPcb → SegInfo
syn_of p = record { seq = p.iss; ack = p.rcv.nxt; len = 1; wnd = p.rcv.wnd; up = 0 }

abbrev pub ack_of : TcpPcb → SegInfo
ack_of p = record { seq = p.snd.nxt; ack = p.rcv.nxt; len = 0; wnd = p.rcv.wnd; up = 0 }

-- A block that has sent a SYN, which is not acknowledged yet.
abbrev pub HasSent : TcpState → TcpPcb → Type 0
HasSent b p =
    (p.state ≡ b)
    × (p.snd.una ≡ p.iss)
    × (p.snd.nxt ≡ wrapping_add p.iss 1)
    × (p.rcv.wnd ≡ 65535)
    × (p.iss < 4294967296)

-- The only entry of the queue is the SYN, which the peer is to acknowledge.
abbrev pub AwaitsAck : ℕ → List TcpQueueEntry → Type 0
AwaitsAck iss queue =
    (e : TcpQueueEntry) × (queue ≡ e ∷ []) × (wrapping_add e.seq (consume e) ≡ wrapping_add iss 1)

-- A SYN is the only entry behind `output`, where the queue was empty.
output-AwaitsAck :
    (now flg : ℕ) (p : TcpPcb)
    → flag_isset flg 3 ≡ true
    → flag_isset flg syn ≡ true
    → p.queue ≡ []
    → AwaitsAck p.iss (queued now flg [] p).queue
unfolding queued is_kept retrans_queue_add output_seq consume
output-AwaitsAck now flg p kept opens bare =
    rw (kept, opens, queued, is_kept, output_seq, bare) (_, refl, rw (consume, kept) refl)

-- It is gone when the peer has acknowledged it.
pub AwaitsAck-acked :
    (iss una : ℕ) (queue : List TcpQueueEntry)
    → una ≡ wrapping_add iss 1
    → AwaitsAck iss queue
    → drop_acked una queue ≡ []
unfolding drop_acked
AwaitsAck-acked iss una queue acked (e, alone, takes) =
    let over : ltb una (wrapping_add e.seq (consume e)) ≡ false = ground arith in
    rw (alone, drop_acked, over) refl

-- The numbers that the generator gives are words.
random32-lt : (n : Net) → (random32 n).0 < 4294967296
unfolding random32
random32-lt n = omega arith

-- The block that is about to send its SYN, and the state with it.
abbrev calling : TcpPcb → IpEndp → IpEndp → Tcp → TcpPcb
calling p local remote s =
    let rcv : RcvVars = record (p.rcv) { wnd = recv_buf_size } in
    record p { local = local; remote = remote; rcv = rcv; iss = (random32 s.net).0 }

-- The caller's block behind the SYN.
pub send_syn-HasSent :
    (desc : ℕ) (p : TcpPcb) (local remote : IpEndp) (s : Tcp)
    → desc < length s.pcbs
    → (send_syn desc p local remote s).0 ≡ true
    → (q : TcpPcb) × (slot (send_syn desc p local remote s).1.pcbs desc ≡ some q)
      × HasSent syn_sent q
      × (q.iss ≡ (random32 s.net).0)
      × (q.buf ≡ p.buf)
      × (p.queue ≡ [] → AwaitsAck q.iss q.queue)
      × ((q.local ≡ local) × (q.remote ≡ remote))
      × ((send_syn desc p local remote s).1.net
          ≡ put (syn_of q) 0x02 [] local remote (random32 s.net).1)
unfolding send_syn output_seq output flag_isset
send_syn-HasSent desc p local remote s lt done =
    let p1 = calling p local remote s in
    let n = (random32 s.net).1 in
    let p2 = (output syn [] p1 n).1 in
    let same = queued_block n.now syn [] p1 in
    elim (Bool-cases (is_none (output syn [] p1 n).0)) [
      | inl failed ↦ let wrong = rw (failed, send_syn) at done in absurd (cc)
      | inr sent ↦
          rw (sent, send_syn)
            (
              transition syn_sent (record p2 {
                snd = record (p2.snd) { una = p2.iss; nxt = wrapping_add p2.iss 1 };
              }),
              slot-set_self s.pcbs desc _ lt,
              (
                refl,
                refl,
                refl,
                ap (λ (x : TcpPcb). x.rcv.wnd) same,
                subst (λ v. v < 4294967296) (ap (λ (x : TcpPcb). x.iss) (sym same))
                    (random32-lt s.net),
              ),
              ap (λ (x : TcpPcb). x.iss) same,
              ap (λ (x : TcpPcb). x.buf) same,
              λ bare.
                  subst (λ v. AwaitsAck v p2.queue) (ap (λ (x : TcpPcb). x.iss) (sym same))
                    (output-AwaitsAck n.now syn p1 refl refl bare),
              (ap (λ (x : TcpPcb). x.local) same, ap (λ (x : TcpPcb). x.remote) same),
              ap (λ (x : TcpPcb). put (syn_of x) 0x02 [] local remote n) (sym same),
            )
    ]

-- The block of the connection at the other end.
pub accept_syn-HasSent :
    (d : ℕ) (c : TcpPcb) (seg : SegInfo) (local remote : IpEndp) (s : Tcp)
    → d < length s.pcbs
    → (q : TcpPcb) × (slot (accept_syn d c seg local remote s).pcbs d ≡ some q)
      × HasSent syn_received q
      × (q.rcv.nxt ≡ wrapping_add seg.seq 1)
      × (q.parent_desc ≡ c.parent_desc)
      × (q.iss ≡ (random32 s.net).0)
      × (q.buf ≡ c.buf)
      × (c.queue ≡ [] → AwaitsAck q.iss q.queue)
      × ((accept_syn d c seg local remote s).net
          ≡ put (syn_of q) 0x12 [] local remote (random32 s.net).1)
unfolding accept_syn output_seq emit output flag_isset
accept_syn-HasSent d c seg local remote s lt =
    let (iss, n) = random32 s.net in
    let rcv : RcvVars = record (c.rcv) { wnd = recv_buf_size; nxt = wrapping_add seg.seq 1 } in
    let c1 = record c { local = local; remote = remote; rcv = rcv; irs = seg.seq; iss = iss } in
    let t : Tcp = record s { net = n } in
    let c2 = (emit 0x12 c1 t).0 in
    (
      transition syn_received
          (record c2 { snd = record (c2.snd) { nxt = wrapping_add c2.iss 1; una = c2.iss } }),
      slot-set_self (emit 0x12 c1 t).1.pcbs d _ (rw (emit-pcbs 0x12 c1 t) lt),
      (
        refl,
        refl,
        refl,
        ap (λ (r : RcvVars). r.wnd) (emit-rcv 0x12 c1 t),
        subst (λ v. v < 4294967296) (sym (emit-iss 0x12 c1 t)) (random32-lt s.net),
      ),
      ap (λ (r : RcvVars). r.nxt) (emit-rcv 0x12 c1 t),
      ap (λ (x : TcpPcb). x.parent_desc) (emit_block 0x12 c1 t),
      emit-iss 0x12 c1 t,
      emit-buf 0x12 c1 t,
      λ bare.
          subst (λ v. AwaitsAck v c2.queue) (sym (emit-iss 0x12 c1 t))
            (output-AwaitsAck n.now 0x12 c1 refl refl bare),
      ap (λ (x : TcpPcb). put (syn_of x) 0x12 [] local remote n) (sym (emit_block 0x12 c1 t)),
    )

-- The caller's connection behind SYN and ACK.
pub establish_active-established :
    (desc : ℕ) (p : TcpPcb) (seg : SegInfo) (s : Tcp)
    → desc < length s.pcbs
    → (q : TcpPcb) × (slot (establish_active desc p seg s).pcbs desc ≡ some q)
      × (q.state ≡ established)
      × (q.snd.una ≡ p.snd.una)
      × (q.snd.nxt ≡ p.snd.nxt)
      × (q.rcv ≡ p.rcv)
      × (q.queue ≡ p.queue)
      × (q.buf ≡ p.buf)
      × ((establish_active desc p seg s).net ≡ put (ack_of q) 0x10 [] p.local p.remote s.net)
unfolding establish_active emit output output_seq flag_isset
establish_active-established desc p seg s lt =
    let p1 = transition established p in
    let (e, t) = emit ack p1 s in
    (
      record e { snd = record (e.snd) { wnd = seg.wnd; wl1 = seg.seq; wl2 = seg.ack } },
      slot-set_self t.pcbs desc _ (rw (emit-pcbs ack p1 s) lt),
      emit-state ack p1 s,
      ap (λ (v : SndVars). v.una) (emit-snd ack p1 s),
      ap (λ (v : SndVars). v.nxt) (emit-snd ack p1 s),
      emit-rcv ack p1 s,
      emit-queue p1 s,
      emit-buf ack p1 s,
      ap (λ (x : TcpPcb). put (ack_of x) 0x10 [] p.local p.remote s.net)
          (sym (emit_block ack p1 s)),
    )

-- SYN and ACK for our SYN establish the connection.
pub on_syn_sent_lem :
    (desc : ℕ) (p : TcpPcb) (seg : SegInfo) (local remote : IpEndp) (s : Tcp)
    → HasSent syn_sent p
    → p.iss + 1 < 4294967296
    → seg.ack ≡ wrapping_add p.iss 1
    → on_syn_sent desc p seg 0x12 local remote s ≡ establish_active desc (take_syn p seg true) seg s
unfolding on_syn_sent ack_refused ack_acceptable take_syn retrans_queue_cleanup flag_isset
on_syn_sent_lem desc p seg local remote s (state, una, nxt, wnd, lt) small acked =
    let refused : ack_refused p seg ≡ false = ground arith in
    let low : leb p.snd.una seg.ack ≡ true = ground arith in
    let high : leb seg.ack p.snd.nxt ≡ true = ground arith in
    let newer : ltb p.iss seg.ack ≡ true = ground arith in
    rw (on_syn_sent, refused, low, high, newer) refl
