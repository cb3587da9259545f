-- ===== src/Tcp/Timer/Laws.antt =====
-- What one turn of the timer of src/tcp.rs does to a block.
use microps_rs.Base.{
  ℕ, ◌+◌, ◌*◌, ◌<◌, ◌≤◌, ◌≡◌, refl, sym, ap, subst, true, false, ◌||◌, ◌⊎◌, inl, inr, List, [], ◌∷◌,
  map, Option, none, some, arith, leb, All, Bool-cases, if_cases,
}
use microps_rs.Link.{Net}
use microps_rs.Table.{slot}
use microps_rs.Table.Laws.{slot-lt, slot-set_self}
use microps_rs.Tcp.{TcpState, closed, time_wait, Tcp, TcpPcb, TcpQueueEntry}
use microps_rs.Tcp.Pcb.{store, close_and_release, transition}
use microps_rs.Tcp.Pcb.Release.{pcb_release_frees}
use microps_rs.Tcp.Timer.{
  deadline_exceeded, backoff, resend, resend_queue, retrans_emit, on_timer_slot, has_timed_out,
  retrans_deadline,
}

resend_queue-map :
    (now : ℕ) (p : TcpPcb) (es : List TcpQueueEntry) (n : Net)
    → (resend_queue now p es n).0 ≡ map (backoff now) es
unfolding resend_queue
resend_queue-map now p [] n = refl
resend_queue-map now p (e ∷ es) n =
    ap (λ xs. backoff now e ∷ xs) (resend_queue-map now p es (resend p e (record n { now = now })))

-- Every entry is younger than the deadline.
abbrev pub IsYoung : ℕ → List TcpQueueEntry → Type 0
IsYoung now es = All (λ e. now < e.first + retrans_deadline) es

deadline_exceeded-IsYoung :
    (now : ℕ) (es : List TcpQueueEntry) → deadline_exceeded now es ≡ false → IsYoung now es
unfolding deadline_exceeded
deadline_exceeded-IsYoung now [] h = tt
deadline_exceeded-IsYoung now (e ∷ es) h = (ground arith, deadline_exceeded-IsYoung now es (rest h))
  where
    rest :
        (leb (e.first + retrans_deadline) now || deadline_exceeded now es) ≡ false
        → deadline_exceeded now es ≡ false
    rest k = elim (Bool-cases (leb (e.first + retrans_deadline) now)) [
      | inl t ↦ absurd (cc)
      | inr f ↦ cc
    ]

-- An entry whose timeout is over since it was last sent waits twice as long from now on; any other
-- stays as it is.
abbrev pub IsBackedOff : ℕ → TcpQueueEntry → TcpQueueEntry → Type 0
IsBackedOff now e e' =
    ((e.last + e.rto ≤ now) × (e' ≡ record e { last = now; rto = e.rto + e.rto }))
    ⊎ ((now < e.last + e.rto) × (e' ≡ e))

abbrev pub AreBackedOff : ℕ → List TcpQueueEntry → List TcpQueueEntry → Type 0
AreBackedOff now [] [] = Unit
AreBackedOff now (e ∷ es) (e' ∷ es') = IsBackedOff now e e' × AreBackedOff now es es'
AreBackedOff now _ _ = ⊥

-- An entry has reached the deadline.
abbrev pub HasOld : ℕ → List TcpQueueEntry → Type 0
HasOld now [] = ⊥
HasOld now (e ∷ es) = (e.first + 12000 ≤ now) ⊎ HasOld now es

backoff-IsBackedOff : (now : ℕ) (e : TcpQueueEntry) → IsBackedOff now e (backoff now e)
unfolding backoff
backoff-IsBackedOff now e =
    let twice : e.rto * 2 ≡ e.rto + e.rto = omega arith in
    if_cases (IsBackedOff now e) (leb (e.last + e.rto) now)
      (λ due. inl (ground arith, ap (λ n. record e { last = now; rto = n }) twice))
      (λ early. inr (ground arith, refl))

map-AreBackedOff : (now : ℕ) (es : List TcpQueueEntry) → AreBackedOff now es (map (backoff now) es)
map-AreBackedOff now [] = tt
map-AreBackedOff now (e ∷ es) = (backoff-IsBackedOff now e, map-AreBackedOff now es)

pub deadline_exceeded-HasOld :
    (now : ℕ) (es : List TcpQueueEntry) → deadline_exceeded now es ≡ true → HasOld now es
unfolding deadline_exceeded
deadline_exceeded-HasOld now [] h = absurd (cc)
deadline_exceeded-HasOld now (e ∷ es) h = elim (Bool-cases (leb (e.first + retrans_deadline) now)) [
  | inl old ↦ inl (ground arith)
  | inr young ↦ inr (deadline_exceeded-HasOld now es (rw young at h))
]

-- What a turn leaves in the slot of a block.
abbrev pub TimerOutcome : ℕ → TcpPcb → Option TcpPcb → Type 0
TimerOutcome now p none = (p.state ≡ time_wait) × (p.tw_timer < now)
TimerOutcome now p (some q) =
    ((q ≡ transition closed p) × HasOld now p.queue)
    ⊎ ((q ≡ record p { queue = map (backoff now) p.queue })
        × AreBackedOff now p.queue q.queue
        × All (λ e. now < e.first + 12000) p.queue)

has_timed_out-lem :
    (b : TcpState) (now t : ℕ) → has_timed_out b now t ≡ true → (b ≡ time_wait) × (t < now)
has_timed_out-lem time_wait now t h = (refl, ground arith)
has_timed_out-lem _ now t h = absurd (cc)

retrans_emit-TimerOutcome :
    (desc : ℕ) (p : TcpPcb) (s : Tcp)
    → slot s.pcbs desc ≡ some p
    → TimerOutcome s.net.now p (slot (retrans_emit desc p s).pcbs desc)
unfolding retrans_emit
retrans_emit-TimerOutcome desc p s found =
    if_cases (λ (t : Tcp). TimerOutcome s.net.now p (slot t.pcbs desc))
      (deadline_exceeded s.net.now p.queue)
      (λ e. put (transition closed p) (inl (refl, deadline_exceeded-HasOld s.net.now p.queue e)))
      (λ e.
        put (record p { queue = (resend_queue s.net.now p p.queue s.net).0 })
          (inr (
            ap (λ q. record p { queue = q }) (resend_queue-map s.net.now p p.queue s.net),
            subst (AreBackedOff s.net.now p.queue)
                (sym (resend_queue-map s.net.now p p.queue s.net))
                (map-AreBackedOff s.net.now p.queue),
            deadline_exceeded-IsYoung s.net.now p.queue e,
          )))
  where
    put :
        (q : TcpPcb)
        → TimerOutcome s.net.now p (some q)
        → TimerOutcome s.net.now p (slot (store desc q s).pcbs desc)
    put q h =
        subst (TimerOutcome s.net.now p)
          (sym (slot-set_self s.pcbs desc (some q) (slot-lt s.pcbs desc p found))) h

-- One turn of the timer: a block is released only in TIME-WAIT and behind its time. Any other is
-- closed if an entry of its queue has waited for 12 seconds since it was first sent; otherwise
-- every entry that is due waits twice as long from now on, and nothing else of it changes.
pub on_timer_slot-TimerOutcome :
    (desc : ℕ) (p : TcpPcb) (s : Tcp)
    → slot s.pcbs desc ≡ some p
    → TimerOutcome s.net.now p (slot (on_timer_slot desc s).pcbs desc)
unfolding on_timer_slot
on_timer_slot-TimerOutcome desc p s found =
    rw (found, on_timer_slot)
      (if_cases (λ (t : Tcp). TimerOutcome s.net.now p (slot t.pcbs desc))
        (has_timed_out p.state s.net.now p.tw_timer)
        (λ e. rw freed (has_timed_out-lem p.state s.net.now p.tw_timer e))
        (λ _. retrans_emit-TimerOutcome desc p s found))
  where
    freed : slot (close_and_release desc p s).pcbs desc ≡ none
    freed =
        unfold close_and_release in (pcb_release_frees desc (store desc (transition closed p) s)).0
