-- ===== src/Tcp/Arrives/Acceptance.antt =====
-- The first two checks of `segment_arrives` in a synchronized state: the sequence number and RST.
use microps_rs.Base.{
  ℕ, ◌+◌, ◌-◌, ◌≤◌, ◌<◌, ◌≡◌, refl, ◌∙◌, ◌↔◌, Bool, true, false, ◌&&◌, ◌⊎◌, inl, inr, List, none,
  some, arith, ltb, leb, ◌==◌, wrapping_add, wrapping_sub, if◌then◌else◌, Bool-cases,
}
use microps_rs.Addr.{IpEndp}
use microps_rs.Table.{slot}
use microps_rs.Tcp.{TcpState, closed, listen, syn_sent, Tcp, TcpPcb, SegInfo}
use microps_rs.Tcp.Flags.{flag_isset, rst}
use microps_rs.Tcp.Pcb.{store, pcb_select, close_and_release, transition}
use microps_rs.Tcp.Pcb.Release.{pcb_release_frees}
use microps_rs.Tcp.Arrives.{dispatch, segment_arrives}
use microps_rs.Tcp.Arrives.Established.{in_window, seq_acceptable, on_reset, on_synchronized}

-- One of the sequence numbers of the segment lies in the window; where no number wraps.
abbrev pub Overlaps : TcpPcb → SegInfo → Type 0
Overlaps p seg =
    ((p.rcv.nxt ≤ seg.seq) × (seg.seq < p.rcv.nxt + p.rcv.wnd))
    ⊎ ((p.rcv.nxt ≤ seg.seq + seg.len - 1) × (seg.seq + seg.len - 1 < p.rcv.nxt + p.rcv.wnd))

-- Where neither the window nor the segment crosses 2 ^ 32, a segment with text, SYN or FIN is
-- acceptable if and only if its first or its last sequence number lies in the window.
pub seq_acceptable_iff :
    (p : TcpPcb) (seg : SegInfo)
    → p.rcv.nxt + p.rcv.wnd < 4294967296
    → seg.seq + seg.len < 4294967296
    → 0 < seg.len
    → (seq_acceptable p seg ≡ true) ↔ Overlaps p seg
unfolding seq_acceptable in_window
seq_acceptable_iff p seg h k lt =
    let last : wrapping_sub (wrapping_add seg.seq seg.len) 1 ≡ seg.seq + seg.len - 1 =
      omega arith in
    let edge : wrapping_add p.rcv.nxt p.rcv.wnd ≡ p.rcv.nxt + p.rcv.wnd = omega arith in
    rw (last, edge) (λ e. ground arith, λ e. ground arith)

-- Where the open window crosses 2 ^ 32 no segment at all is acceptable, not even the one that is
-- expected next.
pub seq_acceptable-wrapped :
    (p : TcpPcb) (seg : SegInfo)
    → p.rcv.nxt < 4294967296
    → p.rcv.wnd < 65536
    → 0 < p.rcv.wnd
    → 4294967296 ≤ p.rcv.nxt + p.rcv.wnd
    → seq_acceptable p seg ≡ false
unfolding seq_acceptable in_window
seq_acceptable-wrapped p seg a b c d =
    let edge : wrapping_add p.rcv.nxt p.rcv.wnd ≡ p.rcv.nxt + p.rcv.wnd - 4294967296 =
      omega arith in
    let outside : (x : ℕ)
        → (leb p.rcv.nxt x && ltb x (p.rcv.nxt + p.rcv.wnd - 4294967296)) ≡ false =
      λ x. ground arith in
    let open_window : (p.rcv.wnd == 0) ≡ false = ground arith in
    rw (edge, open_window, outside seg.seq, outside (wrapping_sub (wrapping_add seg.seq seg.len) 1))
      (same (seg.len == 0))
  where
    same : (b : Bool) → (if b then false else false) ≡ false
    same true = refl
    same false = refl

-- The states in which both sides have seen a SYN.
abbrev pub IsSynchronized : TcpState → Type 0
IsSynchronized closed = ⊥
IsSynchronized listen = ⊥
IsSynchronized syn_sent = ⊥
IsSynchronized _ = Unit

dispatch-synchronized :
    (b : TcpState) (desc : ℕ) (p : TcpPcb) (seg : SegInfo) (flags : ℕ) (payload : List ℕ)
    (local remote : IpEndp) (s : Tcp)
    → IsSynchronized b
    → dispatch b desc p seg flags payload local remote s
      ≡ on_synchronized desc p seg flags payload local remote s
unfolding dispatch
dispatch-synchronized closed desc p seg flags payload local remote s h = absurd h
dispatch-synchronized listen desc p seg flags payload local remote s h = absurd h
dispatch-synchronized syn_sent desc p seg flags payload local remote s h = absurd h
dispatch-synchronized _ desc p seg flags payload local remote s h = refl

on_reset-synchronized :
    (b : TcpState) (desc : ℕ) (p : TcpPcb) (s : Tcp)
    → IsSynchronized b
    → on_reset b desc p s ≡ close_and_release desc p s
unfolding on_reset
on_reset-synchronized closed desc p s h = absurd h
on_reset-synchronized listen desc p s h = absurd h
on_reset-synchronized syn_sent desc p s h = absurd h
on_reset-synchronized _ desc p s h = refl

module _ (desc : ℕ) (p : TcpPcb) (seg : SegInfo) (flags : ℕ) (payload : List ℕ)
    (local remote : IpEndp) (s : Tcp) where
  accepted_rst :
      seq_acceptable p seg ≡ true
      → flag_isset flags rst ≡ true
      → on_synchronized desc p seg flags payload local remote s ≡ on_reset p.state desc p s
  unfolding on_synchronized
  accepted_rst e r = rw (e, r, on_synchronized) refl

  refused_rst :
      seq_acceptable p seg ≡ false
      → flag_isset flags rst ≡ true
      → on_synchronized desc p seg flags payload local remote s ≡ s
  unfolding on_synchronized
  refused_rst e r = rw (e, r, on_synchronized) refl

-- What a reset does to the connection that it is for.
abbrev pub ResetOutcome : ℕ → Bool → Tcp → Tcp → Type 0
ResetOutcome desc true s t = slot t.pcbs desc ≡ none
ResetOutcome desc false s t = t ≡ s

-- A reset for a connection in a synchronized state ends it, and frees its slot, if its sequence
-- number is acceptable. Otherwise it changes nothing, and nothing is sent.
pub segment_arrives-rst :
    (seg : SegInfo) (flags : ℕ) (payload : List ℕ) (local remote : IpEndp) (s : Tcp) (desc : ℕ)
    (p : TcpPcb)
    → pcb_select local remote s.pcbs ≡ some desc
    → slot s.pcbs desc ≡ some p
    → IsSynchronized p.state
    → flag_isset flags rst ≡ true
    → ResetOutcome desc (seq_acceptable p seg) s (segment_arrives seg flags payload local remote s)
unfolding segment_arrives
segment_arrives-rst seg flags payload local remote s desc p chosen found sync r =
    elim (Bool-cases (seq_acceptable p seg)) [
      | inl ok ↦
          rw
            (
              ok,
              ResetOutcome,
              whole ∙ accepted_rst desc p seg flags payload local remote s ok r,
              on_reset-synchronized p.state desc p s sync,
            )
            freed
      | inr bad ↦
          rw (bad, ResetOutcome) (whole ∙ refused_rst desc p seg flags payload local remote s bad r)
    ]
  where
    whole :
        segment_arrives seg flags payload local remote s
        ≡ on_synchronized desc p seg flags payload local remote s
    whole =
        rw (chosen, found, segment_arrives)
          (dispatch-synchronized p.state desc p seg flags payload local remote s sync)

    freed : slot (close_and_release desc p s).pcbs desc ≡ none
    freed =
        unfold close_and_release in (pcb_release_frees desc (store desc (transition closed p) s)).0
