-- ===== src/Tcp/Arrives/Window.antt =====
-- The text step of `segment_arrives` of src/tcp.rs and the receive window.
use microps_rs.Base.{
  ℕ, ◌+◌, ◌≤◌, ◌<◌, ◌≡◌, ◌≢◌, refl, ap, ◌∙◌, Bool, true, false, not, ◌&&◌, ◌||◌, ◌⊎◌, inl, inr,
  List, ◌++◌, some, arith, ltb, ◌==◌, length, set, length-append, if_cases, is_empty, wrapping_add,
}
use microps_rs.Tcp.{Tcp, TcpPcb, SegInfo, RcvVars}
use microps_rs.Tcp.Flags.{ack}
use microps_rs.Tcp.Pcb.{emit}
use microps_rs.Tcp.Pcb.Queue.{emit-buf, emit-rcv}
use microps_rs.Tcp.Arrives.Established.{Flow, return, go, is_receiving, take_text, process_text}

-- The window and the bytes that wait in the buffer are the whole buffer.
abbrev pub IsWindow : TcpPcb → Type 0
IsWindow p = p.rcv.wnd + length p.buf ≡ 65535

-- What the text step does: it passes the block on as it was, or with the text behind the
-- buffer, or ends the handling with the buffer as it was.
abbrev pub TextOutcome : ℕ → TcpPcb → SegInfo → List ℕ → Tcp → Flow → Type 0
TextOutcome desc p seg payload s (go q t) =
    IsWindow q
    × (((q ≡ p) × ((is_receiving p.state && not (is_empty payload)) ≡ false))
        ⊎ ((q.buf ≡ p.buf ++ payload)
            × (q.rcv.nxt ≡ wrapping_add p.rcv.nxt (length payload))
            × (p.rcv.nxt ≡ seg.seq)))
TextOutcome desc p seg payload s (return t) =
    ((p.rcv.nxt ≢ seg.seq) ⊎ (p.rcv.wnd < length payload))
    × ((q : TcpPcb) × (t.pcbs ≡ set s.pcbs desc (some q)) × (q.buf ≡ p.buf) × (q.rcv ≡ p.rcv))

pub take_text-IsWindow :
    (p : TcpPcb) (seg : SegInfo) (payload : List ℕ)
    → length payload ≤ p.rcv.wnd
    → IsWindow p
    → IsWindow (take_text p seg payload)
unfolding take_text
take_text-IsWindow p seg payload le h = omega (arith, length-append p.buf payload)

-- Where the window and the bytes in the buffer add up to 65535: text is taken only if it starts at
-- the next byte expected and fits the window. Then it stands behind what was in the buffer, the
-- next byte expected moves on by its length, and window and buffer still add up. Otherwise the
-- buffer and the receive variables stay.
pub process_text-TextOutcome :
    (desc : ℕ) (p : TcpPcb) (seg : SegInfo) (payload : List ℕ) (s : Tcp)
    → IsWindow p
    → TextOutcome desc p seg payload s (process_text desc p seg payload s)
unfolding process_text emit
process_text-TextOutcome desc p seg payload s h =
    if_cases P (not (is_receiving p.state && not (is_empty payload)))
      (λ e. (h, inl (refl, negated (is_receiving p.state && not (is_empty payload)) e)))
      λ _.
        if_cases P (not (p.rcv.nxt == seg.seq) || ltb p.rcv.wnd (length payload))
          (λ e. (refused e, ((emit ack p s).0, refl, emit-buf ack p s, emit-rcv ack p s)))
          λ e. (
            taken_window (fits e),
            inr (
              emit-buf ack taken s ∙ unfold take_text in refl,
              ap (λ (r : RcvVars). r.nxt) (emit-rcv ack taken s)
                  ∙ unfold take_text in moved (same e),
              same e,
            ),
          )
  where
    P : Flow → Type 0
    P = TextOutcome desc p seg payload s

    taken : TcpPcb
    taken = take_text p seg payload

    negated : (b : Bool) → not b ≡ true → b ≡ false
    negated true e = absurd (cc)
    negated false e = refl

    refused :
        (not (p.rcv.nxt == seg.seq) || ltb p.rcv.wnd (length payload)) ≡ true
        → (p.rcv.nxt ≢ seg.seq) ⊎ (p.rcv.wnd < length payload)
    refused e = ground arith

    same :
        (not (p.rcv.nxt == seg.seq) || ltb p.rcv.wnd (length payload)) ≡ false → p.rcv.nxt ≡ seg.seq
    same e = ground arith

    fits :
        (not (p.rcv.nxt == seg.seq) || ltb p.rcv.wnd (length payload)) ≡ false
        → length payload ≤ p.rcv.wnd
    fits e = ground arith

    moved :
        p.rcv.nxt ≡ seg.seq
        → wrapping_add seg.seq (length payload) ≡ wrapping_add p.rcv.nxt (length payload)
    moved e = rw e refl

    taken_window : length payload ≤ p.rcv.wnd → IsWindow (emit ack taken s).0
    taken_window le =
        rw (emit-buf ack taken s, emit-rcv ack taken s) (take_text-IsWindow p seg payload le h)
