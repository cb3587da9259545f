-- ===== src/Tcp/Pcb/Retrans.antt =====
-- The retransmission queue of src/tcp.rs: what an acknowledgement takes off it.
use microps_rs.Base.{
  ℕ, ◌≤◌, ◌<◌, ◌≡◌, refl, subst, sym, ap, Bool, true, false, ◌&&◌, ◌⊎◌, inl, inr, List, [], ◌∷◌,
  ◌++◌, arith, ◌+◌, length, if◌then◌else◌, Bool-cases, ltb, leb, All, if_cases, wrapping_add, ◌==◌,
}
use microps_rs.Tcp.{TcpState, fin_wait1, Tcp, TcpPcb, TcpQueueEntry, SegInfo, SndVars}
use microps_rs.Tcp.Flags.{flag_isset, ack}
use microps_rs.Tcp.Pcb.{consume, drop_acked, retrans_queue_cleanup, emit, store}
use microps_rs.Tcp.Arrives.Established.{
  Flow, return, go, advance_una, is_newer_window, fin_acked, ack_established,
}

-- The end of what an entry takes of the sequence space: its text, and one more for SYN or FIN.
abbrev pub end_of : TcpQueueEntry → ℕ
end_of e = e.seq + length e.payload + (if flag_isset e.flg 3 then 1 else 0)

-- No entry reaches 2 ^ 32.
abbrev pub AllFit : List TcpQueueEntry → Type 0
AllFit es = All (λ e. end_of e < 4294967296) es

-- All that an entry takes is acknowledged.
abbrev pub IsAcked : ℕ → TcpQueueEntry → Type 0
IsAcked una e = end_of e ≤ una

consume-end_of :
    (e : TcpQueueEntry) → end_of e < 4294967296 → wrapping_add e.seq (consume e) ≡ end_of e
unfolding consume
consume-end_of e fits = elim (Bool-cases (flag_isset e.flg 3)) [
  | inl b ↦
      let small : e.seq + length e.payload + 1 < 4294967296 = rw b at fits in
      rw (b, consume) (omega arith)
  | inr b ↦
      let small : e.seq + length e.payload + 0 < 4294967296 = rw b at fits in
      rw (b, consume) (omega arith)
]

-- The queue is empty or starts with an entry that is not acknowledged in full.
abbrev pub StartsOpen : ℕ → List TcpQueueEntry → Type 0
StartsOpen una [] = Unit
StartsOpen una (e ∷ es) = una < end_of e

less : (a b : ℕ) → ltb a b ≡ true → a < b
less a b h = ground arith

not_less : (a b : ℕ) → ltb a b ≡ false → b ≤ a
not_less a b h = ground arith

-- A queue with the acknowledged entries taken off its front.
abbrev pub IsCleaned : ℕ → List TcpQueueEntry → List TcpQueueEntry → Type 0
IsCleaned una old new =
    (gone : List TcpQueueEntry) × (gone ++ new ≡ old) × All (IsAcked una) gone × StartsOpen una new

drop_acked-IsCleaned :
    (una : ℕ) (es : List TcpQueueEntry) → AllFit es → IsCleaned una es (drop_acked una es)
unfolding drop_acked
drop_acked-IsCleaned una [] fits = ([], refl, tt, tt)
drop_acked-IsCleaned una (e ∷ es) (fit, fits) =
    let same_end = consume-end_of e fit in
    if_cases (IsCleaned una (e ∷ es)) (ltb una (wrapping_add e.seq (consume e)))
      (λ open_entry. ([], refl, tt, omega (arith, same_end, less una _ open_entry)))
      λ done.
        let (gone, same, acked, starts) = drop_acked-IsCleaned una es fits in
        (
          e ∷ gone,
          ap (λ xs. e ∷ xs) same,
          (omega (arith, same_end, not_less una _ done), acked),
          starts,
        )

-- What the ACK check makes of a block: the acknowledgement is new, and `snd.una` and the queue
-- follow it, or it is old, and both stay.
abbrev pub AckOutcome : ℕ → TcpPcb → SegInfo → Tcp → Flow → Type 0
AckOutcome desc p seg s (go q t) =
    (t ≡ s)
    × (q.snd.nxt ≡ p.snd.nxt)
    × (((p.snd.una < seg.ack)
          × (seg.ack ≤ p.snd.nxt)
          × (q.snd.una ≡ seg.ack)
          × IsCleaned seg.ack p.queue q.queue)
        ⊎ ((seg.ack ≤ p.snd.una) × (q.snd ≡ p.snd) × (q.queue ≡ p.queue)))
AckOutcome desc p seg s (return t) =
    (p.snd.nxt < seg.ack) × (t ≡ store desc (emit ack p s).0 (emit ack p s).1)

-- The step to FIN-WAIT-2 keeps everything but the state.
fin_acked-fields :
    (P : SndVars → List TcpQueueEntry → Type 0) (b : TcpState) (q : TcpPcb) (c : Bool)
    → P q.snd q.queue
    → P (fin_acked b c q).snd (fin_acked b c q).queue
fin_acked-fields P fin_wait1 q true h = h
fin_acked-fields P fin_wait1 q false h = h
fin_acked-fields P _ q c h = h

pub advance_una-lem :
    (p : TcpPcb) (seg : SegInfo)
    → ((advance_una p seg).snd.una ≡ seg.ack)
      × ((advance_una p seg).snd.nxt ≡ p.snd.nxt)
      × ((advance_una p seg).queue ≡ drop_acked seg.ack p.queue)
unfolding advance_una retrans_queue_cleanup
advance_una-lem p seg =
    if_cases
      (λ (q : TcpPcb).
        (q.snd.una ≡ seg.ack) × (q.snd.nxt ≡ p.snd.nxt) × (q.queue ≡ drop_acked seg.ack p.queue))
      (is_newer_window (retrans_queue_cleanup (record p { snd = record (p.snd) { una = seg.ack } }))
        seg)
      (λ _. (refl, refl, refl)) (λ _. (refl, refl, refl))

-- Where no entry of the queue reaches 2 ^ 32: an acknowledgement of data that is outstanding moves `snd.una` up to it, and takes off the
-- queue exactly the entries at its front that it covers in full. An old one changes neither, and
-- one of data that was never sent is only answered.
pub ack_established-AckOutcome :
    (desc : ℕ) (p : TcpPcb) (seg : SegInfo) (s : Tcp)
    → AllFit p.queue
    → AckOutcome desc p seg s (ack_established desc p seg s)
unfolding ack_established
ack_established-AckOutcome desc p seg s fits =
    if_cases P (ltb p.snd.una seg.ack && leb seg.ack p.snd.nxt)
      (λ e. fin_acked-fields New p1.state p1 (seg.ack == p1.snd.nxt) (fresh e))
      λ new.
        if_cases P (ltb seg.ack p.snd.una)
          (λ e. fin_acked-fields New p.state p (seg.ack == p.snd.nxt) (stale (ground arith)))
          λ le.
            if_cases P (ltb p.snd.nxt seg.ack) (λ e. (ground arith, refl))
              (λ e. fin_acked-fields New p.state p (seg.ack == p.snd.nxt) (stale (ground arith)))
  where
    P : Flow → Type 0
    P = AckOutcome desc p seg s

    p1 : TcpPcb
    p1 = advance_una p seg

    New : SndVars → List TcpQueueEntry → Type 0
    New snd queue =
        (s ≡ s)
        × (snd.nxt ≡ p.snd.nxt)
        × (((p.snd.una < seg.ack)
              × (seg.ack ≤ p.snd.nxt)
              × (snd.una ≡ seg.ack)
              × IsCleaned seg.ack p.queue queue)
            ⊎ ((seg.ack ≤ p.snd.una) × (snd ≡ p.snd) × (queue ≡ p.queue)))

    stale : seg.ack ≤ p.snd.una → New p.snd p.queue
    stale le = (refl, refl, inr (le, refl, refl))

    fresh : (ltb p.snd.una seg.ack && leb seg.ack p.snd.nxt) ≡ true → New p1.snd p1.queue
    fresh e =
        let (una, nxt, queue) = advance_una-lem p seg in
        (
          refl,
          nxt,
          inl (
            ground arith,
            ground arith,
            una,
            subst (IsCleaned seg.ack p.queue) (sym queue)
                (drop_acked-IsCleaned seg.ack p.queue fits),
          ),
        )
