-- ===== src/Tcp/Handshake/Listening.antt =====
-- The last step of the opening in src/tcp.rs: the ACK at the listening end.
use microps_rs.Base.{
  ℕ, ◌+◌, ◌≤◌, ◌<◌, ◌≡◌, ◌≢◌, refl, sym, ap, subst, ◌∙◌, true, [], ◌∷◌, ◌++◌, Option, none, some,
  arith, length, ltb, leb, ◌==◌, wrapping_add, if_cases,
}
use microps_rs.Addr.{IpEndp}
use microps_rs.Table.{slot}
use microps_rs.Table.Laws.{slot-lt, slot-set_self, slot-set_ne}
use microps_rs.Tcp.{syn_received, established, Tcp, TcpPcb, SegInfo}
use microps_rs.Tcp.Flags.{flag_isset}
use microps_rs.Tcp.Pcb.{store, notify, transition, retrans_queue_cleanup, drop_acked}
use microps_rs.Tcp.Arrives.Established.{on_synchronized, seq_acceptable, in_window}
use microps_rs.Tcp.Arrives.Established.{
  Flow, return, go, check_ack, ack_syn_received, ack_then, ack_by_state, ack_established,
  advance_una, is_newer_window, hand_over, push_backlog, after_ack,
}
use microps_rs.Tcp.Arrives.Steady.{text_skipped}
use microps_rs.Tcp.Arrives.Steady.Acked.{fin_acked-established, advance_una-Kept}
use microps_rs.Tcp.Handshake.{HasSent}

-- The send side behind an acknowledgement.
pub advance_una-snd :
    (p : TcpPcb) (seg : SegInfo)
    → ((advance_una p seg).snd.una ≡ seg.ack) × ((advance_una p seg).snd.nxt ≡ p.snd.nxt)
unfolding advance_una retrans_queue_cleanup
advance_una-snd p seg =
    if_cases (λ (q : TcpPcb). (q.snd.una ≡ seg.ack) × (q.snd.nxt ≡ p.snd.nxt))
      (is_newer_window (retrans_queue_cleanup (record p { snd = record (p.snd) { una = seg.ack } }))
        seg)
      (λ _. (refl, refl)) (λ _. (refl, refl))

pub advance_una-queue :
    (p : TcpPcb) (seg : SegInfo) → (advance_una p seg).queue ≡ drop_acked seg.ack p.queue
unfolding advance_una retrans_queue_cleanup
advance_una-queue p seg =
    if_cases (λ (q : TcpPcb). q.queue ≡ drop_acked seg.ack p.queue)
      (is_newer_window (retrans_queue_cleanup (record p { snd = record (p.snd) { una = seg.ack } }))
        seg)
      (λ _. refl) (λ _. refl)

-- The connection reaches the backlog of its listener, and stays as it is.
abbrev pub HandedOver : ℕ → ℕ → TcpPcb → TcpPcb → Tcp → Type 0
HandedOver parent desc listener q t =
    (slot t.pcbs desc ≡ some q)
    × (slot t.pcbs parent ≡ some (record listener { backlog = listener.backlog ++ desc ∷ [] }))

module _ (parent desc : ℕ) (listener : TcpPcb) (seg : SegInfo) (distinct : desc ≢ parent) where
  -- Without text and FIN the block is stored as it is.
  after_ack-stored :
      (q : TcpPcb) (s : Tcp)
      → q.state ≡ established
      → after_ack desc q seg 0x10 [] s ≡ store desc q s
  unfolding after_ack flag_isset
  after_ack-stored q s est = rw (after_ack, text_skipped desc seg [] q s refl est) refl

  pub hand_over-HandedOver :
      (q : TcpPcb) (s : Tcp)
      → q.state ≡ established
      → desc < length s.pcbs
      → slot s.pcbs parent ≡ some listener
      → HandedOver parent desc listener q (hand_over (some parent) desc q seg 0x10 [] s)
  unfolding hand_over push_backlog
  hand_over-HandedOver q s est lt waits =
      let listener' = record listener { backlog = listener.backlog ++ desc ∷ [] } in
      let with_q = (store desc q s).pcbs in
      let with_both = (store parent listener' (store desc q s)).pcbs in
      let there : slot with_q parent ≡ some listener =
        slot-set_ne s.pcbs desc parent (some q) distinct ∙ waits in
      let here : slot with_both desc ≡ some q =
        slot-set_ne with_q parent desc (some listener') (λ e. distinct (sym e))
        ∙ slot-set_self s.pcbs desc (some q) lt in
      let s' = notify listener (store parent listener' (store desc q s)) in
      let pushed : push_backlog (some parent) desc (store desc q s) ≡ s' =
        rw (there, push_backlog) refl in
      let done : hand_over (some parent) desc q seg 0x10 [] s ≡ store desc q s' =
        ap (λ (u : Tcp). finish (slot u.pcbs desc) u) pushed
        ∙ ap (λ o. finish o s') here
        ∙ after_ack-stored q s' est in
      subst (HandedOver parent desc listener q) (sym done) (
        slot-set_self with_both desc (some q) (slot-lt with_both desc q here),
        slot-set_ne with_both desc parent (some q) distinct
            ∙ slot-set_self with_q parent (some listener') (slot-lt with_q parent listener there),
      )
    where
      finish : Option TcpPcb → Tcp → Tcp
      finish o u = elim o [ none ↦ u | some p' ↦ after_ack desc p' seg 0x10 [] u ]

  -- An ACK of everything that is outstanding moves on to the backlog.
  ack_then_lem :
      (p : TcpPcb) (s : Tcp)
      → p.state ≡ established
      → p.snd.una < seg.ack
      → seg.ack ≤ p.snd.nxt
      → ack_then (some parent) desc p seg 0x10 [] s
        ≡ hand_over (some parent) desc (advance_una p seg) seg 0x10 [] s
  unfolding ack_then ack_by_state
  ack_then_lem p s est newer known =
      let p1 = advance_una p seg in
      let a : ltb p.snd.una seg.ack ≡ true = ground arith in
      let b : leb seg.ack p.snd.nxt ≡ true = ground arith in
      let same =
        fin_acked-established p1.state (seg.ack == p1.snd.nxt) p1
          ((advance_una-Kept seg p).0 ∙ est) in
      let acked : ack_established desc p seg s ≡ go p1 s =
        unfold ack_established in rw (a, b, same) refl in
      subst
        (λ st.
          resume (ack_by_state st desc p seg 0x10 s)
          ≡ hand_over (some parent) desc p1 seg 0x10 [] s)
        (sym est) (ap resume acked)
    where
      resume : Flow → Tcp
      resume f = elim f [
        | return s' ↦ s'
        | go p' s' ↦ hand_over (some parent) desc p' seg 0x10 [] s'
      ]

  -- The ACK of our SYN establishes the connection.
  pub on_synchronized_lem :
      (p : TcpPcb) (local remote : IpEndp) (s : Tcp)
      → HasSent syn_received p
      → p.iss + 1 < 4294967296
      → p.rcv.nxt + 65535 < 4294967296
      → p.parent_desc ≡ some parent
      → seg.seq ≡ p.rcv.nxt
      → seg.ack ≡ wrapping_add p.iss 1
      → seg.len ≡ 0
      → on_synchronized desc p seg 0x10 [] local remote s
        ≡ hand_over
            (some parent)
            desc
            (advance_una (transition established p) seg)
            seg
            0x10
            []
            (notify p s)
  unfolding on_synchronized seq_acceptable in_window check_ack ack_syn_received flag_isset
  on_synchronized_lem p local remote s (state, una, nxt, wnd, lt) small room child next acked bare =
      let q = transition established p in
      let inside : seq_acceptable p seg ≡ true = ground arith in
      let low : leb p.snd.una seg.ack ≡ true = ground arith in
      let high : leb seg.ack p.snd.nxt ≡ true = ground arith in
      let checked : on_synchronized desc p seg 0x10 [] local remote s
          ≡ check_ack p.state desc p seg 0x10 [] local remote s =
        rw (on_synchronized, inside) refl in
      let opened : check_ack syn_received desc p seg 0x10 [] local remote s
          ≡ ack_then p.parent_desc desc q seg 0x10 [] (notify p s) =
        rw (check_ack, ack_syn_received, low, high) refl in
      checked
      ∙ ap (λ st. check_ack st desc p seg 0x10 [] local remote s) state
      ∙ opened
      ∙ ap (λ o. ack_then o desc q seg 0x10 [] (notify p s)) child
      ∙ ack_then_lem q (notify p s) refl (omega arith) (omega arith)
