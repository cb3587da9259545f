-- ===== src/Tcp/Arrives/Laws/Edges.antt =====
-- The transitions that a segment may cause, and the steps of `segment_arrives` behind the ACK
-- check.
use microps_rs.Base.{
  ℕ, ◌<◌, ◌≡◌, ◌≢◌, refl, sym, ◌∙◌, ap, inl, inr, List, [], ◌∷◌, ◌++◌, Option, none, some, ◌&&◌,
  not, ltb, ◌==◌, length, set, Option-cases, Bool-cases, if◌then◌else◌, if_cases, is_empty, ◌||◌,
  subst,
}
use native.Mathlib.Decide.{ℕ_discrete}
use microps_rs.Table.{slot}
use microps_rs.Table.Laws.{slot-set_self, slot-set_ne, slot-lt}
use microps_rs.Tcp.{
  TcpState, closed, listen, syn_sent, syn_received, established, fin_wait1, fin_wait2, close_wait,
  closing, time_wait, Tcp, TcpPcb, SegInfo,
}
use microps_rs.Tcp.Flags.{flag_isset, fin, ack}
use microps_rs.Tcp.Pcb.{store, transition, emit, close_and_release}
use microps_rs.Tcp.Pcb.Queue.{emit-pcbs, emit-state}
use microps_rs.Tcp.Pcb.Release.{pcb_release_frees}
use microps_rs.Tcp.Arrives.Established.{
  Flow, return, go, push_backlog, process_text, take_text, process_fin, take_fin, fin_transition,
  after_ack, hand_over, is_closed_or_listen, is_receiving,
}

-- What an acknowledgement may do to a state.
pub data AckEdge : TcpState → TcpState → Type 0 where
  unmoved : {a : TcpState} → AckEdge a a
  opened : AckEdge syn_received established
  fin_acked_edge : AckEdge fin_wait1 fin_wait2
  both_closed : AckEdge closing time_wait

-- What a FIN may do to a state.
pub data FinEdge : TcpState → TcpState → Type 0 where
  kept : {a : TcpState} → FinEdge a a
  peer_closed : FinEdge established close_wait
  peer_closed_early : FinEdge syn_received close_wait
  crossed : FinEdge fin_wait1 closing
  crossed_acked : FinEdge fin_wait1 time_wait
  finished : FinEdge fin_wait2 time_wait

-- What a SYN may do.
pub data SynEdge : TcpState → TcpState → Type 0 where
  received : SynEdge listen syn_received
  answered : SynEdge syn_sent established
  simultaneous : SynEdge syn_sent syn_received

-- One segment moves a connection by its SYN, or by its ACK and then its FIN.
pub data Edge : TcpState → TcpState → Type 0 where
  by_syn : {a b : TcpState} → SynEdge a b → Edge a b
  by_ack_fin : {a b c : TcpState} → AckEdge a b → FinEdge b c → Edge a c

-- A segment never releases a block that is closed or listens.
pub data MayEnd : TcpState → Type 0 where
  ends : {a : TcpState} → a ≢ closed → a ≢ listen → MayEnd a

-- What may stand in the slot of a block that was in state `a`.
abbrev pub Outcome : TcpState → Option TcpPcb → Type 0
Outcome a none = MayEnd a
Outcome a (some q) = Edge a q.state

pub stays : {a : TcpState} → Edge a a
stays = by_ack_fin unmoved kept

module _ (desc : ℕ) where
  -- The slot of the block, after the handling.
  abbrev pub Leaves : TcpState → Tcp → Type 0
  Leaves a s = Outcome a (slot s.pcbs desc)

  pub store-Outcome :
      (a : TcpState) (q : TcpPcb) (s : Tcp)
      → desc < length s.pcbs
      → Edge a q.state
      → Outcome a (slot (store desc q s).pcbs desc)
  store-Outcome a q s lt e = rw (slot-set_self s.pcbs desc (some q) lt) e

  pub close-Outcome :
      (a : TcpState) (p : TcpPcb) (s : Tcp)
      → MayEnd a
      → Outcome a (slot (close_and_release desc p s).pcbs desc)
  unfolding close_and_release
  close-Outcome a p s e = rw (pcb_release_frees desc (store desc (transition closed p) s)).0 e

  -- What a step of the handling may leave.
  abbrev pub FlowOutcome : (TcpState → TcpState → Type 0) → TcpState → Flow → Type 0
  FlowOutcome R a (return s) = Outcome a (slot s.pcbs desc)
  FlowOutcome R a (go q s) = R a q.state × (desc < length s.pcbs)

  fin_transition-FinEdge :
      (a : TcpState) (p : TcpPcb) (seg : SegInfo) (s : Tcp)
      → p.state ≡ a
      → FinEdge a (fin_transition a p seg s).0.state × ((fin_transition a p seg s).1.pcbs ≡ s.pcbs)
  unfolding fin_transition
  fin_transition-FinEdge syn_received p seg s e = (peer_closed_early, refl)
  fin_transition-FinEdge established p seg s e = (peer_closed, refl)
  fin_transition-FinEdge fin_wait1 p seg s e = elim (Bool-cases (seg.ack == p.snd.nxt)) [
    | inl t ↦ rw t (crossed_acked, refl)
    | inr t ↦ rw t (crossed, refl)
  ]
  fin_transition-FinEdge fin_wait2 p seg s e = (finished, refl)
  fin_transition-FinEdge _ p seg s e = (rw e kept, refl)

  process_fin-Outcome :
      (a b : TcpState) (p : TcpPcb) (seg : SegInfo) (s : Tcp)
      → AckEdge a b
      → p.state ≡ b
      → desc < length s.pcbs
      → Outcome a (slot (process_fin desc p seg s).pcbs desc)
  unfolding process_fin
  process_fin-Outcome a b p seg s e q lt =
      if_cases (Leaves a) (is_closed_or_listen p.state)
        (λ _. store-Outcome a p s lt (rw q (by_ack_fin e kept)))
        (λ _.
          store-Outcome a next.0 next.1 (rw (moved.1, emit-pcbs ack (take_fin p seg) s) lt)
            (by_ack_fin e (subst (λ x. FinEdge x next.0.state) same moved.0)))
    where
      p1 : TcpPcb
      p1 = (emit ack (take_fin p seg) s).0

      s1 : Tcp
      s1 = (emit ack (take_fin p seg) s).1

      next : TcpPcb × Tcp
      next = fin_transition p1.state p1 seg s1

      moved : FinEdge p1.state next.0.state × (next.1.pcbs ≡ s1.pcbs)
      moved = fin_transition-FinEdge p1.state p1 seg s1 refl

      same : p1.state ≡ b
      same = emit-state ack (take_fin p seg) s ∙ unfold take_fin in q

  -- The text leaves the state as it is.
  process_text-FlowOutcome :
      (a b : TcpState) (p : TcpPcb) (seg : SegInfo) (payload : List ℕ) (s : Tcp)
      → AckEdge a b
      → p.state ≡ b
      → desc < length s.pcbs
      → FlowOutcome (λ x y. (x ≡ a) × (y ≡ b)) a (process_text desc p seg payload s)
  unfolding process_text
  process_text-FlowOutcome a b p seg payload s e q lt =
      if_cases (FlowOutcome R a) (not (is_receiving p.state && not (is_empty payload)))
        (λ _. ((refl, q), lt))
        λ _.
          if_cases (FlowOutcome R a) (not (p.rcv.nxt == seg.seq) || ltb p.rcv.wnd (length payload))
            (λ _.
              store-Outcome a (emit ack p s).0 (emit ack p s).1 (rw (emit-pcbs ack p s) lt)
                (rw (emit-state ack p s, q) (by_ack_fin e kept)))
            (λ _. (
              (refl, emit-state ack (take_text p seg payload) s ∙ unfold take_text in q),
              rw (emit-pcbs ack (take_text p seg payload) s) lt,
            ))
    where
      R : TcpState → TcpState → Type 0
      R x y = (x ≡ a) × (y ≡ b)

  after_ack-Outcome :
      (a b : TcpState) (p : TcpPcb) (seg : SegInfo) (flags : ℕ) (payload : List ℕ) (s : Tcp)
      → AckEdge a b
      → p.state ≡ b
      → desc < length s.pcbs
      → Outcome a (slot (after_ack desc p seg flags payload s).pcbs desc)
  unfolding after_ack
  after_ack-Outcome a b p seg flags payload s e q lt =
      finish (process_text desc p seg payload s)
        (process_text-FlowOutcome a b p seg payload s e q lt)
    where
      finish :
          (f : Flow)
          → FlowOutcome (λ x y. (x ≡ a) × (y ≡ b)) a f
          → Outcome a (
              slot
                (elim f as (λ _. Tcp) [
                  | return s' ↦ s'
                  | go p' s' ↦
                      if flag_isset flags fin then process_fin desc p' seg s' else store desc p' s'
                ]).pcbs
                desc)
      finish (return s') h = h
      finish (go p' s') h =
          if_cases (Leaves a) (flag_isset flags fin)
            (λ _. process_fin-Outcome a b p' seg s' e h.0.1 h.1)
            (λ _. store-Outcome a p' s' h.1 (rw h.0.1 (by_ack_fin e kept)))

  -- The backlog of the listening block grows; no state changes.
  push_backlog-state :
      (parent : Option ℕ) (d : ℕ) (q : TcpPcb) (s : Tcp)
      → slot s.pcbs d ≡ some q
      → (r : TcpPcb) × (slot (push_backlog parent desc s).pcbs d ≡ some r) × (r.state ≡ q.state)
  unfolding push_backlog
  push_backlog-state none d q s e = (q, e, refl)
  push_backlog-state (some k) d q s e = elim (Option-cases (slot s.pcbs k)) [
    | inl f ↦ rw (f, push_backlog) (q, e, refl)
    | inr (parent, f) ↦
        rw (f, push_backlog)
          (elim (ℕ_discrete k d) [
            | yes same ↦
                let r : TcpPcb = record parent { backlog = parent.backlog ++ desc ∷ [] } in
                let here : some parent ≡ some q = sym f ∙ (ap (slot s.pcbs) same ∙ e) in
                (
                  r,
                  subst (λ x. slot (set s.pcbs x (some r)) d ≡ some r) (sym same)
                      (slot-set_self s.pcbs d (some r) (slot-lt s.pcbs d q e)),
                  ap
                      (λ (o : Option TcpPcb). elim o as (λ _. TcpState) [
                        | none ↦ closed
                        | some x ↦ x.state
                      ])
                      here,
                )
            | no other ↦ (q, slot-set_ne s.pcbs k d _ other ∙ e, refl)
          ])
  ]

  pub hand_over-Outcome :
      (parent : Option ℕ) (a : TcpState) (p : TcpPcb) (seg : SegInfo) (flags : ℕ) (payload : List ℕ)
      (s : Tcp)
      → AckEdge a p.state
      → desc < length s.pcbs
      → Leaves a (hand_over parent desc p seg flags payload s)
  unfolding hand_over
  hand_over-Outcome parent a p seg flags payload s e lt =
      let t = push_backlog parent desc (store desc p s) in
      let (r, found, same) =
        push_backlog-state parent desc p (store desc p s) (slot-set_self s.pcbs desc (some p) lt) in
      rw (found, hand_over)
        (after_ack-Outcome a p.state r seg flags payload t e same (slot-lt t.pcbs desc r found))
