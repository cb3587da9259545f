-- ===== src/Tcp/Pcb/Queue.antt =====
-- What `output` and the retransmission queue of src/tcp.rs do to a block.
use microps_rs.Base.{ℕ, ◌≡◌, refl, inl, inr, List, [], ap, Bool-cases}
use microps_rs.Addr.{IpEndp}
use microps_rs.Link.{Net}
use microps_rs.Tcp.Segment.{output_segment}
use microps_rs.Tcp.{Tcp, TcpPcb, SegInfo}
use microps_rs.Tcp.Flags.{ack, flag_isset}
use microps_rs.Tcp.Pcb.{queued, is_kept, emit, output, retrans_queue_add}

-- The state below TCP behind a segment that goes out with these fields, flags and text.
abbrev pub put : SegInfo → ℕ → List ℕ → IpEndp → IpEndp → Net → Net
put seg flags payload local remote n =
    (output_segment seg.seq seg.ack flags seg.wnd payload local remote n).1

-- Of a block, `output` changes the queue only.
pub queued_block :
    (now flg : ℕ) (payload : List ℕ) (p : TcpPcb)
    → queued now flg payload p ≡ record p { queue = (queued now flg payload p).queue }
queued_block now flg payload p = elim (Bool-cases (is_kept flg payload)) [
  | inl e ↦ unfold queued retrans_queue_add in rw (e, queued)
  | inr e ↦ unfold queued in rw (e, queued)
]

pub emit-pcbs : (flg : ℕ) (p : TcpPcb) (s : Tcp) → (emit flg p s).1.pcbs ≡ s.pcbs
unfolding emit
emit-pcbs flg p s = refl

pub emit-tasks : (flg : ℕ) (p : TcpPcb) (s : Tcp) → (emit flg p s).1.tasks ≡ s.tasks
unfolding emit
emit-tasks flg p s = refl

pub emit_block :
    (flg : ℕ) (p : TcpPcb) (s : Tcp)
    → (emit flg p s).0 ≡ record p { queue = (emit flg p s).0.queue }
unfolding emit output
emit_block flg p s = queued_block s.net.now flg [] p

pub emit-state : (flg : ℕ) (p : TcpPcb) (s : Tcp) → (emit flg p s).0.state ≡ p.state
emit-state flg p s = ap (λ (q : TcpPcb). q.state) (emit_block flg p s)

pub emit-backlog : (flg : ℕ) (p : TcpPcb) (s : Tcp) → (emit flg p s).0.backlog ≡ p.backlog
emit-backlog flg p s = ap (λ (q : TcpPcb). q.backlog) (emit_block flg p s)

pub emit-rcv : (flg : ℕ) (p : TcpPcb) (s : Tcp) → (emit flg p s).0.rcv ≡ p.rcv
emit-rcv flg p s = ap (λ (q : TcpPcb). q.rcv) (emit_block flg p s)

pub emit-snd : (flg : ℕ) (p : TcpPcb) (s : Tcp) → (emit flg p s).0.snd ≡ p.snd
emit-snd flg p s = ap (λ (q : TcpPcb). q.snd) (emit_block flg p s)

pub emit-buf : (flg : ℕ) (p : TcpPcb) (s : Tcp) → (emit flg p s).0.buf ≡ p.buf
emit-buf flg p s = ap (λ (q : TcpPcb). q.buf) (emit_block flg p s)

-- An acknowledgement is not kept.
pub emit-queue : (p : TcpPcb) (s : Tcp) → (emit ack p s).0.queue ≡ p.queue
unfolding emit output queued is_kept flag_isset
emit-queue p s = refl

pub emit-iss : (flg : ℕ) (p : TcpPcb) (s : Tcp) → (emit flg p s).0.iss ≡ p.iss
emit-iss flg p s = ap (λ (q : TcpPcb). q.iss) (emit_block flg p s)
