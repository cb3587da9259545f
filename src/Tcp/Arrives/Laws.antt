-- ===== src/Tcp/Arrives/Laws.antt =====
-- The state machine of src/tcp.rs, as far as segments drive it.
pub mod Edges
mod Ack
use native.Mathlib.Decide.{ℕ_discrete}
use microps_rs.Base.{
  ℕ, ◌<◌, ◌≡◌, ◌≢◌, refl, sym, ap, ◌∙◌, Bool, true, false, inl, inr, List, Option, none, some,
  arith, ◌&&◌, not, ltb, leb, length, Option-cases, if_cases, subst, some≢none,
}
use microps_rs.Addr.{IpEndp}
use microps_rs.Table.{slot}
use microps_rs.Table.Laws.{slot-lt, slot-set_self, slot-set_ne, IsAlloc}
use microps_rs.Tcp.{
  TcpMode, rfc, socket, TcpState, closed, listen, syn_sent, syn_received, established, fin_wait1,
  fin_wait2, close_wait, closing, last_ack, time_wait, Tcp, TcpPcb, SegInfo, SndVars, RcvVars,
  empty,
}
use microps_rs.Tcp.Flags.{flag_isset, ack, rst, syn}
use microps_rs.Tcp.Pcb.{emit, transition, pcb_select, pcb_alloc, pcb_size_max}
use microps_rs.Tcp.Pcb.Alloc.{pcb_alloc-none, pcb_alloc-IsAlloc}
use microps_rs.Tcp.Pcb.Queue.{emit-pcbs, emit-state}
use microps_rs.Tcp.Arrives.{dispatch, segment_arrives}
use microps_rs.Tcp.Arrives.Opening.{
  on_closed, on_listen, on_syn_sent, send_bare, accept_syn, spawn_child, accept_by_mode,
  establish_active, simultaneous_open, take_syn, ack_acceptable, ack_refused,
}
use microps_rs.Tcp.Arrives.Established.{
  Flow, return, go, ack_syn_received, ack_then, check_ack, on_synchronized, on_reset, on_syn,
  seq_acceptable,
}
use Edges.{
  AckEdge, unmoved, opened, SynEdge, received, answered, simultaneous, by_syn, MayEnd, ends,
  Outcome, Leaves, stays, store-Outcome, close-Outcome,
}
use Ack.{ack_then-Outcome}

opened_by_ack : {x : TcpState} → AckEdge established x → AckEdge syn_received x
opened_by_ack unmoved = opened

module _ (desc : ℕ) (p : TcpPcb) (seg : SegInfo) (flags : ℕ) (payload : List ℕ)
    (local remote : IpEndp) (s : Tcp) (found : slot s.pcbs desc ≡ some p) where
  in_range : desc < length s.pcbs
  in_range = slot-lt s.pcbs desc p found

  -- Where the table is left alone, or another slot is written, the block stays.
  pub untouched :
      (b : TcpState) (t : Tcp) → p.state ≡ b → slot t.pcbs desc ≡ some p → Leaves desc b t
  untouched b t e same = rw (same, e) stays

  check_ack-Outcome :
      (b : TcpState)
      → p.state ≡ b
      → MayEnd b
      → Leaves desc b (check_ack b desc p seg flags payload local remote s)
  unfolding check_ack ack_syn_received send_bare
  check_ack-Outcome syn_received e m = finish (ack_syn_received p seg local remote s) (
      if_cases Fine (leb p.snd.una seg.ack && leb seg.ack p.snd.nxt) (λ _. (refl, found))
        (λ _. found))
    where
      Fine : Flow → Type 0
      Fine (return t) = slot t.pcbs desc ≡ some p
      Fine (go q t) = (q.state ≡ established) × (slot t.pcbs desc ≡ some p)

      finish :
          (f : Flow)
          → Fine f
          → Leaves desc syn_received (elim f as (λ _. Tcp) [
            | return s' ↦ s'
            | go p' s' ↦ ack_then p.parent_desc desc p' seg flags payload s'
          ])
      finish (return t) h = untouched syn_received t e h
      finish (go q t) h =
          ack_then-Outcome desc syn_received established (λ x. opened_by_ack) m q seg t h.0
            (slot-lt t.pcbs desc p h.1) (untouched syn_received t e h.1) p.parent_desc flags payload
  check_ack-Outcome b e m =
      ack_then-Outcome desc b b (λ x f. f) m p seg s e in_range (untouched b s e found) none flags
        payload

  on_reset-Outcome : (b c : TcpState) → p.state ≡ b → MayEnd b → Leaves desc b (on_reset c desc p s)
  unfolding on_reset
  on_reset-Outcome b closed e m = untouched b s e found
  on_reset-Outcome b listen e m = untouched b s e found
  on_reset-Outcome b syn_sent e m = untouched b s e found
  on_reset-Outcome b _ e m = close-Outcome desc b p s m

  pub on_synchronized-Outcome :
      (b : TcpState)
      → p.state ≡ b
      → MayEnd b
      → Leaves desc b (on_synchronized desc p seg flags payload local remote s)
  unfolding on_synchronized
  on_synchronized-Outcome b e m =
      if_cases (Leaves desc b) (not (seq_acceptable p seg))
        (λ _.
          if_cases (Leaves desc b) (flag_isset flags rst) (λ _. untouched b s e found)
            (λ _.
              store-Outcome desc b (emit ack p s).0 (emit ack p s).1
                (rw (emit-pcbs ack p s) in_range) (rw (emit-state ack p s, e) stays)))
        λ _.
          if_cases (Leaves desc b) (flag_isset flags rst) (λ _. on_reset-Outcome b p.state e m)
            λ _.
              if_cases (Leaves desc b) (flag_isset flags syn)
                (λ _. unfold on_syn in close-Outcome desc b (emit rst p s).0 (emit rst p s).1 m)
                λ _.
                  if_cases (Leaves desc b) (not (flag_isset flags ack)) (λ _. untouched b s e found)
                    (λ _.
                      subst
                        (λ x. Leaves desc b (check_ack x desc p seg flags payload local remote s))
                        (sym e) (check_ack-Outcome b e m))

  pub on_syn_sent-Outcome :
      p.state ≡ syn_sent → Leaves desc syn_sent (on_syn_sent desc p seg flags local remote s)
  unfolding on_syn_sent send_bare establish_active simultaneous_open emit
  on_syn_sent-Outcome e =
      if_cases (Leaves desc syn_sent) (flag_isset flags ack && ack_refused p seg)
        (λ _. untouched syn_sent s e found)
        λ _.
          if_cases (Leaves desc syn_sent) (flag_isset flags rst)
            (λ _.
              if_cases (Leaves desc syn_sent) (ack_acceptable p seg flags)
                (λ _. close-Outcome desc syn_sent p s (ends (λ f. cc) (λ f. cc)))
                (λ _. untouched syn_sent s e found))
            λ _.
              if_cases (Leaves desc syn_sent) (not (flag_isset flags syn))
                (λ _. untouched syn_sent s e found)
                λ _.
                  if_cases (Leaves desc syn_sent) (ltb taken.iss taken.snd.una)
                    (λ _.
                      rw (slot-set_self s.pcbs desc (some (established_block taken)) in_range)
                        (rw (emit-state ack (transition established taken) s) (by_syn answered)))
                    (λ _.
                      rw
                        (slot-set_self s.pcbs desc
                          (some (emit 0x12 (transition syn_received taken) s).0) in_range)
                        (rw (emit-state 0x12 (transition syn_received taken) s)
                          (by_syn simultaneous)))
    where
      taken : TcpPcb
      taken = take_syn p seg (ack_acceptable p seg flags)

      established_block : TcpPcb → TcpPcb
      established_block q =
          let p' = (emit ack (transition established q) s).0 in
          let snd : SndVars = record (p'.snd) { wnd = seg.wnd; wl1 = seg.seq; wl2 = seg.ack } in
          record p' { snd = snd }

  accept_syn_other :
      (d : ℕ) (c : TcpPcb) (t : Tcp)
      → d ≢ desc
      → slot (accept_syn d c seg local remote t).pcbs desc ≡ slot t.pcbs desc
  unfolding accept_syn emit
  accept_syn_other d c t ne = slot-set_ne t.pcbs d desc _ ne

  pub accept_syn-Outcome : (c : TcpPcb) → Leaves desc listen (accept_syn desc c seg local remote s)
  unfolding accept_syn emit
  accept_syn-Outcome c = rw (slot-set_self s.pcbs desc _ in_range) (by_syn received)

  -- The child's slot was free, so it is not the listener's.
  pub spawn_child-slot : slot (spawn_child desc p seg local remote s).pcbs desc ≡ some p
  unfolding spawn_child
  spawn_child-slot =
      if_cases Same (leb p.backlog_max (length p.backlog)) (λ _. found)
        λ _. elim (Option-cases (pcb_alloc s).0) [
          | inl e ↦ rw e (ap Tcp_slot (pcb_alloc-none s e) ∙ found)
          | inr (d, e) ↦ rw e (child d (pcb_alloc-IsAlloc s d e))
        ]
    where
      Same : Tcp → Type 0
      Same t = slot t.pcbs desc ≡ some p

      Tcp_slot : Tcp → Option TcpPcb
      Tcp_slot t = slot t.pcbs desc

      child :
          (d : ℕ)
          → IsAlloc pcb_size_max (empty (length s.tasks)) s.pcbs d (pcb_alloc s).1.pcbs
          → Same (elim (slot (pcb_alloc s).1.pcbs d) as (λ _. Tcp) [
            | none ↦ (pcb_alloc s).1
            | some c ↦
                accept_syn d (record c { parent_desc = some desc }) seg local remote (pcb_alloc s).1
          ])
      child d a = rw a.holds (accept_syn_other d _ (pcb_alloc s).1 ne ∙ (a.others desc ne ∙ found))
        where
          ne : d ≢ desc
          ne q = some≢none (sym found ∙ (ap (slot s.pcbs) (sym q) ∙ a.was_free))
