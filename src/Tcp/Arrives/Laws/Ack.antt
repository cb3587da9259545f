-- ===== src/Tcp/Arrives/Laws/Ack.antt =====
-- The ACK check of `segment_arrives`, by state.
use microps_rs.Base.{
  ℕ, ◌<◌, ◌≡◌, refl, sym, ◌∙◌, Bool, true, false, List, Option, ◌&&◌, ltb, leb, ◌==◌, length,
  if_cases, subst,
}
use microps_rs.Tcp.{
  TcpState, established, fin_wait1, fin_wait2, close_wait, closing, last_ack, time_wait, Tcp,
  TcpPcb, SegInfo,
}
use microps_rs.Tcp.Flags.{ack}
use microps_rs.Tcp.Pcb.{emit, retrans_queue_cleanup}
use microps_rs.Tcp.Pcb.Queue.{emit-pcbs, emit-state}
use microps_rs.Tcp.Arrives.Established.{
  Flow, return, go, advance_una, ack_established, fin_acked, ack_by_state, hand_over, ack_then,
}
use microps_rs.Tcp.Arrives.Laws.Edges.{
  AckEdge, unmoved, fin_acked_edge, both_closed, kept, by_ack_fin, MayEnd, Leaves, FlowOutcome,
  store-Outcome, close-Outcome, hand_over-Outcome,
}

module _ (desc : ℕ) where
  -- The ACK check leaves a state from which the later steps go on, or has dealt with the block.
  fin_acked-AckEdge :
      (b : TcpState) (t : Bool) (p : TcpPcb) → p.state ≡ b → AckEdge b (fin_acked b t p).state
  fin_acked-AckEdge fin_wait1 true p e = fin_acked_edge
  fin_acked-AckEdge fin_wait1 false p e = rw e unmoved
  fin_acked-AckEdge _ t p e = rw e unmoved

  advance_una-state : (p : TcpPcb) (seg : SegInfo) → (advance_una p seg).state ≡ p.state
  unfolding advance_una retrans_queue_cleanup
  advance_una-state p seg = if_cases (λ (q : TcpPcb). q.state ≡ p.state) _ (λ _. refl) (λ _. refl)

  module _ (a b : TcpState) (up : (x : TcpState) → AckEdge b x → AckEdge a x) (may_end : MayEnd a)
      (p : TcpPcb) (seg : SegInfo) (s : Tcp) (e : p.state ≡ b) (lt : desc < length s.pcbs)
      (here : Leaves desc a s) where
    ack_established-FlowOutcome : FlowOutcome desc AckEdge a (ack_established desc p seg s)
    unfolding ack_established
    ack_established-FlowOutcome =
        if_cases (FlowOutcome desc AckEdge a) (ltb p.snd.una seg.ack && leb seg.ack p.snd.nxt)
          (λ _. (moved (advance_una p seg) (advance_una-state p seg ∙ e) _, lt))
          λ _.
            if_cases (FlowOutcome desc AckEdge a) (ltb seg.ack p.snd.una) (λ _. (moved p e _, lt))
              λ _.
                if_cases (FlowOutcome desc AckEdge a) (ltb p.snd.nxt seg.ack)
                  (λ _.
                    store-Outcome desc a (emit ack p s).0 (emit ack p s).1
                      (rw (emit-pcbs ack p s) lt)
                      (rw (emit-state ack p s, e) (by_ack_fin (up b unmoved) kept)))
                  (λ _. (moved p e _, lt))
      where
        moved : (q : TcpPcb) → q.state ≡ b → (t : Bool) → AckEdge a (fin_acked q.state t q).state
        moved q f t =
            up _
              (subst (λ x. AckEdge b (fin_acked x t q).state) (sym f) (fin_acked-AckEdge b t q f))

    closing-FlowOutcome :
        b ≡ closing → FlowOutcome desc AckEdge a (ack_by_state closing desc p seg 0 s)
    unfolding ack_by_state
    closing-FlowOutcome f =
        if_cases (FlowOutcome desc AckEdge a) (seg.ack == p.snd.nxt)
          (λ _. (up time_wait (subst (λ x. AckEdge x time_wait) (sym f) both_closed), lt))
          (λ _. (rw e (up b unmoved), lt))

    ack_by_state-FlowOutcome :
        (c : TcpState) (flags : ℕ)
        → b ≡ c
        → FlowOutcome desc AckEdge a (ack_by_state c desc p seg flags s)
    unfolding ack_by_state
    ack_by_state-FlowOutcome established flags f = ack_established-FlowOutcome
    ack_by_state-FlowOutcome close_wait flags f = ack_established-FlowOutcome
    ack_by_state-FlowOutcome fin_wait1 flags f = ack_established-FlowOutcome
    ack_by_state-FlowOutcome fin_wait2 flags f = ack_established-FlowOutcome
    ack_by_state-FlowOutcome closing flags f = closing-FlowOutcome f
    ack_by_state-FlowOutcome last_ack flags f =
        if_cases (Leaves desc a) _ (λ _. close-Outcome desc a p s may_end) (λ _. here)
    ack_by_state-FlowOutcome time_wait flags f =
        (if_cases (λ (q : TcpPcb). AckEdge a q.state) _ (λ _. stay) (λ _. stay), lt)
      where
        stay : AckEdge a p.state
        stay = rw e (up b unmoved)
    ack_by_state-FlowOutcome _ flags f = (rw e (up b unmoved), lt)

    pub ack_then-Outcome :
        (parent : Option ℕ) (flags : ℕ) (payload : List ℕ)
        → Leaves desc a (ack_then parent desc p seg flags payload s)
    unfolding ack_then
    ack_then-Outcome parent flags payload =
        finish (ack_by_state p.state desc p seg flags s)
          (ack_by_state-FlowOutcome p.state flags (sym e))
      where
        finish :
            (f : Flow)
            → FlowOutcome desc AckEdge a f
            → Leaves desc a (elim f as (λ _. Tcp) [
              | return s' ↦ s'
              | go p' s' ↦ hand_over parent desc p' seg flags payload s'
            ])
        finish (return s') h = h
        finish (go p' s') h = hand_over-Outcome desc parent a p' seg flags payload s' h.0 h.1
