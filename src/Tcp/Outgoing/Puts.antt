-- ===== src/Tcp/Outgoing/Puts.antt =====
-- What each event of an established connection of src/tcp.rs gives to `output_segment`.
use microps_rs.Base.{
  ℕ, ◌+◌, ◌-◌, ◌≡◌, ◌⊎◌, inl, inr, refl, sym, ap, subst, ◌∙◌, false, List, [], ◌∷◌, ◌++◌, some, leb,
  ◌==◌, length, slice, if◌then◌else◌, if_cases, is_empty, not,
}
use microps_rs.Link.{Net}
use microps_rs.Table.{slot}
use microps_rs.Table.Laws.{slot-lt, slot-set_self}
use microps_rs.Tcp.{TcpState, closed, established, Tcp, TcpPcb, TcpQueueEntry, SegInfo}
use microps_rs.Tcp.Flags.{flag_isset}
use microps_rs.Tcp.Pcb.{queued, output, output_seq, is_kept, retrans_queue_add, default_rto}
use microps_rs.Tcp.Pcb.Queue.{put}
use microps_rs.Tcp.Api.Transfer.{
  Poll, Sending, can_send, send_capacity, segment_size, send_segment, send_poll, receive_poll,
  receive_by_state, receive_bytes, take_bytes,
}
use microps_rs.Tcp.Timer.{
  on_timer_slot, retrans_emit, resend_queue, resend, deadline_exceeded, has_timed_out,
}
use microps_rs.Tcp.Timer.Laws.{HasOld, deadline_exceeded-HasOld}
use microps_rs.Tcp.Outgoing.{Event, sends, arrives, receives, ticks, Keeps, Holds, at_time}

-- A segment of the block with a sequence number and some text.
abbrev pub fields : TcpPcb → ℕ → List ℕ → SegInfo
fields p seq text = record {
  seq = seq;
  ack = p.rcv.nxt;
  len = length text;
  wnd = p.rcv.wnd;
  up = 0;
}

-- The entries whose timeout is over go out again, in their order, as they stand in the queue.
abbrev pub resent : ℕ → TcpPcb → List TcpQueueEntry → Net → Net
resent now p [] n = n
resent now p (e ∷ es) n =
    let n' : Net = record n { now = now } in
    let again = put (fields p e.seq e.payload) e.flg e.payload p.local p.remote n' in
    resent now p es (if leb (e.last + e.rto) now then again else n')

-- What stands in the queue for text that was sent.
abbrev pub entry_of : ℕ → ℕ → List ℕ → TcpQueueEntry
entry_of now seq text = record {
  first = now;
  last = now;
  rto = default_rto;
  seq = seq;
  flg = 0x18;
  payload = text;
}

-- A turn of `send` sends nothing, or one segment with the next number and the text that it takes;
-- that segment is the new end of the queue, if there is text in it.
abbrev pub PutsText : ℕ → TcpPcb → List ℕ → ℕ → Tcp → Sending → Type 0
PutsText desc p payload sent s t =
    ((t.sent ≡ sent) × (t.after.net ≡ s.net))
    ⊎ (let text = slice payload sent t.sent in
        (t.after.net ≡ put (fields p p.snd.nxt text) 0x18 text p.local p.remote s.net)
        × ((q : TcpPcb) × (slot t.after.pcbs desc ≡ some q)
            × ((text ≡ []) ⊎ (q.queue ≡ p.queue ++ entry_of s.net.now p.snd.nxt text ∷ []))))

-- A tick sends what is due again, unless an entry is too old; a call of `receive` sends nothing.
-- The acknowledgements that answer a segment are not followed.
abbrev pub Puts : ℕ → Event → Tcp → Type 0
Puts desc (sends payload sent) s =
    (p : TcpPcb) × (slot s.pcbs desc ≡ some p)
    × PutsText desc p payload sent s (send_poll desc payload sent s)
Puts desc (arrives seg flags payload) s = Unit
Puts desc (receives len) s = (receive_poll desc len s).1.net ≡ s.net
Puts desc (ticks now) s =
    (p : TcpPcb) × (slot s.pcbs desc ≡ some p)
    × (let s' = at_time now s in
        let n = (on_timer_slot desc s').net in
        (HasOld now p.queue × (n ≡ s'.net)) ⊎ (n ≡ resent now p p.queue s'.net))

resend_queue-resent :
    (now : ℕ) (p : TcpPcb) (es : List TcpQueueEntry) (n : Net)
    → (resend_queue now p es n).1 ≡ resent now p es n
unfolding resend_queue resend
resend_queue-resent now p [] n = refl
resend_queue-resent now p (e ∷ es) n =
    resend_queue-resent now p es (resend p e (record n { now = now }))

retrans_emit-Puts :
    (desc now : ℕ) (p : TcpPcb) (s : Tcp)
    → s.net.now ≡ now
    → (HasOld now p.queue × ((retrans_emit desc p s).net ≡ s.net))
      ⊎ ((retrans_emit desc p s).net ≡ resent now p p.queue s.net)
unfolding retrans_emit
retrans_emit-Puts desc now p s same =
    if_cases
      (λ (t : Tcp). (HasOld now p.queue × (t.net ≡ s.net)) ⊎ (t.net ≡ resent now p p.queue s.net))
      (deadline_exceeded s.net.now p.queue)
      (λ e.
        inl
          (subst (λ n. HasOld n p.queue) same (deadline_exceeded-HasOld s.net.now p.queue e), refl))
      (λ _. inr (
        subst (λ n. (resend_queue s.net.now p p.queue s.net).1 ≡ resent n p p.queue s.net) same
          (resend_queue-resent s.net.now p p.queue s.net)))

-- A block that is established or closed does not time out.
stays_on :
    (b : TcpState) (now t : ℕ) → (b ≡ established) ⊎ (b ≡ closed) → has_timed_out b now t ≡ false
stays_on b now t (inl e) = subst (λ x. has_timed_out x now t ≡ false) (sym e) refl
stays_on b now t (inr e) = subst (λ x. has_timed_out x now t ≡ false) (sym e) refl

Holds-state :
    (base : ℕ) (out : List ℕ) (p : TcpPcb)
    → Holds base out p
    → (p.state ≡ established) ⊎ (p.state ≡ closed)
Holds-state base out p (inl h) = inl h.0
Holds-state base out p (inr h) = inr h

queued-entry :
    (now : ℕ) (p : TcpPcb) (text : List ℕ)
    → (text ≡ []) ⊎ ((queued now 0x18 text p).queue ≡ p.queue ++ entry_of now p.snd.nxt text ∷ [])
unfolding queued is_kept retrans_queue_add output_seq flag_isset
queued-entry now p [] = inl refl
queued-entry now p (x ∷ xs) = inr refl

module _ (desc : ℕ) (p : TcpPcb) (payload : List ℕ) (sent : ℕ) (s : Tcp)
    (found : slot s.pcbs desc ≡ some p) where
  send_segment-PutsText : PutsText desc p payload sent s (send_segment desc p payload sent s)
  unfolding send_segment output output_seq flag_isset
  send_segment-PutsText = inr (
    refl,
    (_, slot-set_self s.pcbs desc _ (slot-lt s.pcbs desc p found), queued-entry s.net.now p text),
  )
    where
      text : List ℕ
      text = slice payload sent (sent + segment_size p (length payload - sent))

  send_poll-PutsText : PutsText desc p payload sent s (send_poll desc payload sent s)
  unfolding send_poll
  send_poll-PutsText =
      let P = PutsText desc p payload sent s in
      rw (found, send_poll)
        (if_cases P (not (can_send p.state)) (λ _. inl (refl, refl))
          λ _.
            if_cases P (leb (length payload) sent) (λ _. inl (refl, refl))
              λ _.
                if_cases P (send_capacity p == 0) (λ _. inl (refl, refl))
                  λ _. send_segment-PutsText)

receive_by_state-net :
    (b : TcpState) (desc len : ℕ) (p : TcpPcb) (s : Tcp)
    → (b ≡ established) ⊎ (b ≡ closed)
    → (receive_by_state b desc len p s).1.net ≡ s.net
unfolding receive_by_state receive_bytes take_bytes
receive_by_state-net b desc len p s (inl e) =
    subst (λ x. (receive_by_state x desc len p s).1.net ≡ s.net) (sym e)
      (if_cases (λ (r : Poll (List ℕ) × Tcp). r.1.net ≡ s.net) (is_empty p.buf) (λ _. refl)
        (λ _. refl))
receive_by_state-net b desc len p s (inr e) =
    subst (λ x. (receive_by_state x desc len p s).1.net ≡ s.net) (sym e) refl

module _ (base desc : ℕ) where
  pub event-Puts : (e : Event) (r : List ℕ × Tcp) → Keeps base desc r → Puts desc e r.1
  unfolding receive_poll on_timer_slot
  event-Puts (sends payload sent) (out, s) (p, found, h) =
      (p, found, send_poll-PutsText desc p payload sent s found)
  event-Puts (arrives seg flags payload) (out, s) k = tt
  event-Puts (receives len) (out, s) (p, found, h) =
      let same : receive_poll desc len s ≡ receive_by_state p.state desc len p s =
        rw (found, receive_poll) refl in
      ap (λ (x : Poll (List ℕ) × Tcp). x.1.net) same
      ∙ receive_by_state-net p.state desc len p s (Holds-state base out p h)
  event-Puts (ticks now) (out, s) (p, found, h) =
      let s' = at_time now s in
      let on = stays_on p.state now p.tw_timer (Holds-state base out p h) in
      let same : on_timer_slot desc s' ≡ retrans_emit desc p s' =
        rw (found, on, on_timer_slot) refl in
      let P : Tcp → Type 0 =
        λ t. (HasOld now p.queue × (t.net ≡ s'.net)) ⊎ (t.net ≡ resent now p p.queue s'.net) in
      (p, found, subst P (sym same) (retrans_emit-Puts desc now p s' refl))
