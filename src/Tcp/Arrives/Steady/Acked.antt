-- ===== src/Tcp/Arrives/Steady/Acked.antt =====
-- The acknowledgement in front of the text, in `segment_arrives` of src/tcp.rs.
use microps_rs.Base.{
  ℕ, ◌≤◌, ◌<◌, ◌≡◌, refl, sym, ap, subst, ◌∙◌, Bool, false, arith, not, ◌&&◌, inl, inr, List, ◌++◌,
  none, some, ltb, leb, ◌==◌, length, length-set, if_cases,
}
use microps_rs.Addr.{IpEndp}
use microps_rs.Table.{slot}
use microps_rs.Table.Laws.{slot-lt, slot-set_self}
use microps_rs.Tcp.{TcpState, established, Tcp, TcpPcb, SegInfo, RcvVars}
use microps_rs.Tcp.Flags.{flag_isset, fin, syn, rst, ack}
use microps_rs.Tcp.Pcb.{store, retrans_queue_cleanup}
use microps_rs.Tcp.Arrives.Established.{
  Flow, return, go, after_ack, hand_over, push_backlog, ack_then, ack_by_state, ack_established,
  advance_una, is_newer_window, fin_acked, check_ack, on_synchronized, seq_acceptable,
}
use microps_rs.Tcp.Arrives.Window.{IsWindow}
use microps_rs.Tcp.Arrives.Steady.{OfSending, Kept, Steady, emit-Steady, after_ack-Steady}

module _ (seg : SegInfo) where
  -- The acknowledgement changes the send side only.
  pub advance_una-Kept :
      (p : TcpPcb) → (advance_una p seg).state ≡ p.state × Kept p (advance_una p seg)
  unfolding advance_una retrans_queue_cleanup
  advance_una-Kept p =
      if_cases (λ q. (q.state ≡ p.state) × Kept p q)
        (is_newer_window
          (retrans_queue_cleanup (record p { snd = record (p.snd) { una = seg.ack } })) seg)
        (λ _. (refl, (refl, refl))) (λ _. (refl, (refl, refl)))

pub fin_acked-established :
    (st : TcpState) (b : Bool) (p : TcpPcb) → st ≡ established → fin_acked st b p ≡ p
fin_acked-established st b p e = subst (λ x. fin_acked x b p ≡ p) (sym e) refl

-- What is said of the send side also holds behind an acknowledgement of data that is outstanding.
abbrev pub Advances : OfSending → TcpPcb → SegInfo → Type 0
Advances P p seg =
    p.snd.una < seg.ack → seg.ack ≤ p.snd.nxt → P (advance_una p seg).snd (advance_una p seg).queue

module _ (P : OfSending) (desc : ℕ) (seg : SegInfo) (flags : ℕ) (payload : List ℕ) where
  -- What the ACK check hands on, or leaves.
  Acked : TcpPcb → Tcp → Flow → Type 0
  Acked p s (go q t) = (q.state ≡ established) × P q.snd q.queue × Kept p q × (t.pcbs ≡ s.pcbs)
  Acked p s (return t) = Steady P desc p seg payload t

  ack_established-Acked :
      (p : TcpPcb) (s : Tcp)
      → desc < length s.pcbs
      → p.state ≡ established
      → P p.snd p.queue
      → Advances P p seg
      → Acked p s (ack_established desc p seg s)
  unfolding ack_established Acked
  ack_established-Acked p s lt est h adv =
      let p1 = advance_una p seg in
      let (state, kept) = advance_una-Kept seg p in
      let same = fin_acked-established p.state (seg.ack == p.snd.nxt) p est in
      if_cases (Acked p s) (ltb p.snd.una seg.ack && leb seg.ack p.snd.nxt)
        (λ e.
          rw (fin_acked-established p1.state (seg.ack == p1.snd.nxt) p1 (state ∙ est))
            (state ∙ est, adv (ground arith) (ground arith), kept, refl))
        λ _.
          if_cases (Acked p s) (ltb seg.ack p.snd.una) (λ _. rw same (est, h, (refl, refl), refl))
            λ _.
              if_cases (Acked p s) (ltb p.snd.nxt seg.ack)
                (λ _. emit-Steady P desc seg flags payload p s lt est h)
                λ _. rw same (est, h, (refl, refl), refl)

  Kept-Steady :
      (p q : TcpPcb) (t : Tcp)
      → Kept p q
      → Steady P desc q seg payload t
      → Steady P desc p seg payload t
  Kept-Steady p q t k (r, stored, state, h, inl kept) =
      (r, stored, state, h, inl (kept.0 ∙ k.0, kept.1 ∙ k.1))
  Kept-Steady p q t k (r, stored, state, h, inr taken) = (
    r,
    stored,
    state,
    h,
    inr (
      ap (λ (v : RcvVars). v.nxt) (sym k.1) ∙ taken.0,
      taken.1 ∙ ap (λ b. b ++ payload) k.0,
      taken.2,
      taken.3,
    ),
  )

  IsWindow-Kept : (p q : TcpPcb) → Kept p q → IsWindow p → IsWindow q
  IsWindow-Kept p q k w = rw (k.0, k.1) w

  hand_over-Steady :
      (p q : TcpPcb) (t : Tcp)
      → flag_isset flags fin ≡ false
      → desc < length t.pcbs
      → q.state ≡ established
      → Kept p q
      → IsWindow p
      → P q.snd q.queue
      → Steady P desc p seg payload (hand_over none desc q seg flags payload t)
  unfolding hand_over push_backlog
  hand_over-Steady p q t nofin lt est kept w h =
      rw (hand_over, slot-set_self t.pcbs desc (some q) lt)
        (Kept-Steady p q (after_ack desc q seg flags payload (store desc q t)) kept (
          after_ack-Steady P desc seg flags payload q (store desc q t) nofin
            (subst (λ n. desc < n) (sym (length-set t.pcbs desc (some q))) lt) est
            (IsWindow-Kept p q kept w) h))

  ack_then-Steady :
      (p : TcpPcb) (s : Tcp)
      → flag_isset flags fin ≡ false
      → desc < length s.pcbs
      → p.state ≡ established
      → IsWindow p
      → P p.snd p.queue
      → Advances P p seg
      → Steady P desc p seg payload (ack_then none desc p seg flags payload s)
  unfolding ack_then ack_by_state Acked
  ack_then-Steady p s nofin lt est w h adv =
      subst (λ b. Steady P desc p seg payload (resume (ack_by_state b desc p seg flags s)))
        (sym est) (continue (ack_established desc p seg s) (ack_established-Acked p s lt est h adv))
    where
      resume : Flow → Tcp
      resume f = elim f [ return s' ↦ s' | go p' s' ↦ hand_over none desc p' seg flags payload s' ]

      continue : (f : Flow) → Acked p s f → Steady P desc p seg payload (resume f)
      continue (return t) a = a
      continue (go q t) (state, k, kept, same) =
          hand_over-Steady p q t nofin (rw same lt) state kept w k

  -- All of the checks, for a block that is in its slot.
  pub on_synchronized-Steady :
      (p : TcpPcb) (s : Tcp) (local remote : IpEndp)
      → slot s.pcbs desc ≡ some p
      → p.state ≡ established
      → IsWindow p
      → flag_isset flags rst ≡ false
      → flag_isset flags syn ≡ false
      → flag_isset flags fin ≡ false
      → P p.snd p.queue
      → Advances P p seg
      → Steady P desc p seg payload (on_synchronized desc p seg flags payload local remote s)
  unfolding on_synchronized check_ack
  on_synchronized-Steady p s local remote found est w norst nosyn nofin h adv =
      let lt = slot-lt s.pcbs desc p found in
      let same : Steady P desc p seg payload s = (p, found, est, h, inl (refl, refl)) in
      let checked : Steady P desc p seg payload
          (check_ack p.state desc p seg flags payload local remote s) =
        subst
          (λ b. Steady P desc p seg payload (check_ack b desc p seg flags payload local remote s))
          (sym est) (ack_then-Steady p s nofin lt est w h adv) in
      rw (norst, nosyn)
        (if_cases (Steady P desc p seg payload) (not (seq_acceptable p seg))
          (λ _. emit-Steady P desc seg flags payload p s lt est h)
          λ _.
            if_cases (Steady P desc p seg payload) (not (flag_isset flags ack)) (λ _. same)
              (λ _. checked))
