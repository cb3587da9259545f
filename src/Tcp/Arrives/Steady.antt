-- ===== src/Tcp/Arrives/Steady.antt =====
-- A segment without RST, SYN and FIN for an established connection, through all of
-- `segment_arrives` of src/tcp.rs: what becomes of the text.
pub mod Acked
use microps_rs.Base.{
  ℕ, ◌+◌, ◌≤◌, ◌<◌, ◌≡◌, refl, sym, ap, subst, ◌∙◌, Bool, true, false, not, ◌&&◌, ◌||◌, ◌⊎◌, inl,
  inr, List, ◌++◌, Option, none, some, arith, ltb, leb, ◌==◌, length, set, if◌then◌else◌, is_empty,
  wrapping_add, Bool-cases, if_cases,
}
use microps_rs.Addr.{IpEndp}
use microps_rs.Table.{slot}
use microps_rs.Table.Laws.{slot-lt, slot-set_self}
use microps_rs.Tcp.{TcpState, established, Tcp, TcpPcb, TcpQueueEntry, SegInfo, SndVars, RcvVars}
use microps_rs.Tcp.Flags.{flag_isset, fin, syn, rst, ack}
use microps_rs.Tcp.Pcb.{emit, store, notify, retrans_queue_cleanup}
use microps_rs.Tcp.Pcb.Queue.{emit-buf, emit-rcv, emit-snd, emit-queue, emit-state, emit-pcbs}
use microps_rs.Tcp.Arrives.Established.{
  Flow, return, go, is_receiving, take_text, process_text, after_ack, hand_over, push_backlog,
  ack_then, ack_by_state, ack_established, advance_una, is_newer_window, fin_acked, check_ack,
  on_synchronized, seq_acceptable,
}
use microps_rs.Tcp.Arrives.Window.{IsWindow, take_text-IsWindow}
use microps_rs.Tcp.Arrives.Fin.{texted, with_text, text_step}

-- The block keeps its text and what it expects, or takes the text that it expects.
abbrev pub Kept : TcpPcb → TcpPcb → Type 0
Kept p q = (q.buf ≡ p.buf) × (q.rcv ≡ p.rcv)

abbrev pub Taken : TcpPcb → SegInfo → List ℕ → TcpPcb → Type 0
Taken p seg payload q =
    (p.rcv.nxt ≡ seg.seq)
    × (q.buf ≡ p.buf ++ payload)
    × (q.rcv.nxt ≡ wrapping_add seg.seq (length payload))
    × IsWindow q

-- What is said of the send side.
abbrev pub OfSending : Type 1
OfSending = SndVars → List TcpQueueEntry → Type 0

-- What is in the slot behind a segment, with what is said of its send side.
abbrev pub Steady : OfSending → ℕ → TcpPcb → SegInfo → List ℕ → Tcp → Type 0
Steady P desc p seg payload t =
    (q : TcpPcb) × (slot t.pcbs desc ≡ some q)
    × (q.state ≡ established)
    × P q.snd q.queue
    × (Kept p q ⊎ Taken p seg payload q)

module _ (desc : ℕ) (seg : SegInfo) (payload : List ℕ) where
  -- What the text step does, case by case.
  pub text_skipped :
      (p : TcpPcb) (s : Tcp)
      → is_empty payload ≡ true
      → p.state ≡ established
      → process_text desc p seg payload s ≡ go p s
  unfolding process_text
  text_skipped p s e est =
      let receiving : is_receiving p.state ≡ true = ap is_receiving est in
      rw (receiving, e, process_text) refl

  text_refused :
      (p : TcpPcb) (s : Tcp)
      → is_empty payload ≡ false
      → p.state ≡ established
      → (not (p.rcv.nxt == seg.seq) || ltb p.rcv.wnd (length payload)) ≡ true
      → process_text desc p seg payload s ≡ return (store desc (emit ack p s).0 (emit ack p s).1)
  unfolding process_text
  text_refused p s e est bad =
      let receiving : is_receiving p.state ≡ true = ap is_receiving est in
      rw (receiving, e, bad, process_text) refl

module _ (P : OfSending) (desc : ℕ) (seg : SegInfo) (flags : ℕ) (payload : List ℕ) where
  -- A block that is answered for, and stored.
  pub emit-Steady :
      (p : TcpPcb) (s : Tcp)
      → desc < length s.pcbs
      → p.state ≡ established
      → P p.snd p.queue
      → Steady P desc p seg payload (store desc (emit ack p s).0 (emit ack p s).1)
  emit-Steady p s lt est h = (
    (emit ack p s).0,
    slot-set_self (emit ack p s).1.pcbs desc _ (rw (emit-pcbs ack p s) lt),
    emit-state ack p s ∙ est,
    rw (emit-snd ack p s, emit-queue p s) h,
    inl (emit-buf ack p s, emit-rcv ack p s),
  )

  taken-Steady :
      (p : TcpPcb) (s : Tcp)
      → desc < length s.pcbs
      → p.state ≡ established
      → IsWindow p
      → p.rcv.nxt ≡ seg.seq
      → length payload ≤ p.rcv.wnd
      → P p.snd p.queue
      → Steady P desc p seg payload
          (store desc (texted p seg payload s) (with_text p seg payload s))
  taken-Steady p s lt est w order fits h =
      let q = take_text p seg payload in
      (
        texted p seg payload s,
        slot-set_self (with_text p seg payload s).pcbs desc _ (rw (emit-pcbs ack q s) lt),
        emit-state ack q s ∙ unfold take_text in est,
        rw (emit-snd ack q s, emit-queue q s) (unfold take_text in h),
        inr (
          order,
          emit-buf ack q s ∙ unfold take_text in refl,
          ap (λ (r : RcvVars). r.nxt) (emit-rcv ack q s) ∙ unfold take_text in refl,
          rw (emit-buf ack q s, emit-rcv ack q s) (take_text-IsWindow p seg payload fits w),
        ),
      )

  pub after_ack-Steady :
      (p : TcpPcb) (s : Tcp)
      → flag_isset flags fin ≡ false
      → desc < length s.pcbs
      → p.state ≡ established
      → IsWindow p
      → P p.snd p.queue
      → Steady P desc p seg payload (after_ack desc p seg flags payload s)
  unfolding after_ack
  after_ack-Steady p s nofin lt est w h = elim (Bool-cases (is_empty payload)) [
    | inl e ↦
        rw (after_ack, text_skipped desc seg payload p s e est, nofin)
          (p, slot-set_self s.pcbs desc (some p) lt, est, h, inl (refl, refl))
    | inr e ↦ elim (Bool-cases (not (p.rcv.nxt == seg.seq) || ltb p.rcv.wnd (length payload))) [
      | inl bad ↦
          rw (after_ack, text_refused desc seg payload p s e est bad) (emit-Steady p s lt est h)
      | inr good ↦
          let order : p.rcv.nxt ≡ seg.seq = ground arith in
          let fits : length payload ≤ p.rcv.wnd = ground arith in
          rw (after_ack, text_step desc p seg payload s est e order fits, nofin)
            (taken-Steady p s lt est w order fits h)
    ]
  ]
