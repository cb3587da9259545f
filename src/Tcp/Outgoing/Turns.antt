-- ===== src/Tcp/Outgoing/Turns.antt =====
-- Each event of an established connection of src/tcp.rs keeps in the queue what was sent and is not
-- acknowledged.
use microps_rs.Base.{
  ℕ, ◌+◌, ◌-◌, ◌≤◌, ◌<◌, ◌≡◌, refl, sym, ap, subst, ◌∙◌, true, false, inl, inr, List, [], ◌++◌, map,
  Option, none, some, arith, leb, ◌==◌, length, length-append, length-take, length-drop, take, drop,
  min, slice, is_empty, u16, wrapping_add, if_cases,
}
use mathlib.Core.List.{append_assoc, append-nil}
use microps_rs.Addr.{IpEndp}
use microps_rs.Table.{slot}
use microps_rs.Table.Laws.{slot-lt, slot-set_self}
use microps_rs.Tcp.{established, time_wait, Tcp, TcpPcb, SegInfo}
use microps_rs.Tcp.Flags.{flag_isset, fin, syn, rst, ack}
use microps_rs.Tcp.Pcb.{queued, output}
use microps_rs.Tcp.Pcb.Queue.{queued_block}
use microps_rs.Tcp.Arrives.{dispatch}
use microps_rs.Tcp.Arrives.Opening.{on_closed, send_bare}
use microps_rs.Tcp.Arrives.Established.{on_synchronized}
use microps_rs.Tcp.Arrives.Window.{IsWindow}
use microps_rs.Tcp.Arrives.Steady.{Steady}
use microps_rs.Tcp.Arrives.Steady.Acked.{on_synchronized-Steady}
use microps_rs.Tcp.Api.Transfer.{
  Poll, Sending, can_send, send_capacity, segment_size, send_segment, send_poll, receive_poll,
  receive_by_state, receive_bytes, take_bytes,
}
use microps_rs.Tcp.Timer.{on_timer_slot, backoff}
use microps_rs.Tcp.Timer.Laws.{TimerOutcome, on_timer_slot-TimerOutcome}
use microps_rs.Tcp.Stream.{deliver}
use microps_rs.Tcp.Outgoing.{texts, IsChain, Sends, Holds, Keeps, at_time}
use microps_rs.Tcp.Outgoing.Acked.{Sends-Advances}
use microps_rs.Tcp.Outgoing.Queued.{queued-Queued, texts-backoff, IsChain-backoff}

slice_empty : (xs : List ℕ) (a : ℕ) → slice xs a a ≡ []
slice_empty xs a = let same : a - a ≡ 0 = omega arith in ap (λ n. take n (drop a xs)) same

length-slice : (xs : List ℕ) (a n : ℕ) → n ≤ length xs - a → length (slice xs a (a + n)) ≡ n
length-slice xs a n le = omega (arith, length-take (a + n - a) (drop a xs), length-drop a xs)

module _ (base desc : ℕ) where
  -- Nothing is taken, and nothing changes.
  idle :
      (out payload : List ℕ) (sent : ℕ) (s : Tcp)
      → Keeps base desc (out, s)
      → Keeps base desc (out ++ slice payload sent sent, s)
  idle out payload sent s =
      subst (λ l. Keeps base desc (l, s))
        (sym (ap (λ l. out ++ l) (slice_empty payload sent) ∙ append-nil out))

  send_segment-Keeps :
      (p : TcpPcb) (out payload : List ℕ) (sent : ℕ) (s : Tcp)
      → slot s.pcbs desc ≡ some p
      → p.state ≡ established
      → IsWindow p
      → Sends base out p.snd p.queue
      → base + length out + length payload < 4294967296
      → let r = send_segment desc p payload sent s in
        Keeps base desc (out ++ slice payload sent r.sent, r.after)
  unfolding send_segment segment_size output
  send_segment-Keeps p out payload sent s found est w (done, whole, chain, nxt, acked, within)
        small =
      (
        record q { snd = record (q.snd) { nxt = wrapping_add q.snd.nxt slen } },
        slot-set_self s.pcbs desc _ (slot-lt s.pcbs desc p found),
        inl (
          ap (λ (b : TcpPcb). b.state) same ∙ est,
          rw same w,
          (
            done,
            ap (λ l. done ++ l) added
                ∙ sym (append_assoc done (texts p.queue) text)
                ∙ ap (λ l. l ++ text) whole,
            link (base + length done) chain (omega (arith, total)),
            rw same (omega (arith, long, length-append out text)),
            rw same acked,
            rw same (omega (arith, long)),
          ),
        ),
      )
    where
      slen : ℕ
      slen = segment_size p (length payload - sent)

      text : List ℕ
      text = slice payload sent (sent + slen)

      q : TcpPcb
      q = queued s.net.now 0x18 text p

      same : q ≡ record p { queue = q.queue }
      same = queued_block s.net.now 0x18 text p

      total : length done + length (texts p.queue) ≡ length out
      total = sym (length-append done (texts p.queue)) ∙ ap length whole

      long : length text ≡ slen
      long = length-slice payload sent slen (unfold segment_size in omega arith)

      added : texts q.queue ≡ texts p.queue ++ text
      added = (queued-Queued s.net.now text p).0

      link :
          (at : ℕ)
          → IsChain at p.queue
          → p.snd.nxt ≡ at + length (texts p.queue)
          → IsChain at q.queue
      link = (queued-Queued s.net.now text p).1

  -- A turn of `send`.
  pub send_poll-Keeps :
      (out payload : List ℕ) (sent : ℕ) (s : Tcp)
      → base + length out + length payload < 4294967296
      → Keeps base desc (out, s)
      → let r = send_poll desc payload sent s in
        Keeps base desc (out ++ slice payload sent r.sent, r.after)
  unfolding send_poll
  send_poll-Keeps out payload sent s small (p, found, inr shut) =
      let mute : can_send p.state ≡ false = ap can_send shut in
      rw (found, mute, send_poll) (idle out payload sent s (p, found, inr shut))
  send_poll-Keeps out payload sent s small (p, found, inl (est, w, h)) =
      let talks : can_send p.state ≡ true = ap can_send est in
      let before = idle out payload sent s (p, found, inl (est, w, h)) in
      rw (found, talks, send_poll)
        (if_cases After (leb (length payload) sent) (λ _. before)
          λ _.
            if_cases After (send_capacity p == 0) (λ _. before)
              λ _. send_segment-Keeps p out payload sent s found est w h small)
    where
      After : Sending → Type 0
      After r = Keeps base desc (out ++ slice payload sent r.sent, r.after)

  -- A call of `receive`.
  pub receive_poll-Keeps :
      (out : List ℕ) (len : ℕ) (s : Tcp)
      → Keeps base desc (out, s)
      → Keeps base desc (out, (receive_poll desc len s).1)
  unfolding receive_poll receive_by_state receive_bytes take_bytes
  receive_poll-Keeps out len s (p, found, inr shut) =
      rw (found, receive_poll)
        (subst (λ b. Keeps base desc (out, (receive_by_state b desc len p s).1)) (sym shut)
          (p, found, inr shut))
  receive_poll-Keeps out len s (p, found, inl (est, w, h)) =
      rw (found, receive_poll)
        (subst (λ b. After (receive_by_state b desc len p s)) (sym est)
          (if_cases After (is_empty p.buf) (λ _. (p, found, inl (est, w, h))) (λ _. taken)))
    where
      After : Poll (List ℕ) × Tcp → Type 0
      After (answer, t) = Keeps base desc (out, t)

      taken : After (receive_bytes desc len p s)
      taken =
          let j = min len (length p.buf) in
          (
            record p { buf = drop j p.buf; rcv = record (p.rcv) { wnd = u16 (p.rcv.wnd + u16 j) } },
            slot-set_self s.pcbs desc _ (slot-lt s.pcbs desc p found),
            inl (est, omega (arith, length-drop j p.buf), h),
          )

  on_closed-pcbs :
      (seg : SegInfo) (flags : ℕ) (local remote : IpEndp) (s : Tcp)
      → (on_closed seg flags local remote s).pcbs ≡ s.pcbs
  unfolding on_closed send_bare
  on_closed-pcbs seg flags local remote s =
      if_cases (λ (t : Tcp). t.pcbs ≡ s.pcbs) (flag_isset flags rst) (λ _. refl)
        (λ _.
          if_cases (λ (t : Tcp). t.pcbs ≡ s.pcbs) (flag_isset flags ack) (λ _. refl) (λ _. refl))

  -- A segment without RST, SYN and FIN, whatever it acknowledges.
  pub deliver-Keeps :
      (out : List ℕ) (local remote : IpEndp) (seg : SegInfo) (flags : ℕ) (payload : List ℕ)
      (s : Tcp)
      → base + length out < 4294967296
      → flag_isset flags rst ≡ false
      → flag_isset flags syn ≡ false
      → flag_isset flags fin ≡ false
      → Keeps base desc (out, s)
      → Keeps base desc (out, deliver desc local remote seg flags payload s)
  unfolding dispatch
  deliver-Keeps out local remote seg flags payload s small norst nosyn nofin (p, found, inr shut) =
      rw (found, deliver)
        (subst (λ b. Keeps base desc (out, dispatch b desc p seg flags payload local remote s))
          (sym shut)
          (p, ap (λ ps. slot ps desc) (on_closed-pcbs seg flags local remote s) ∙ found, inr shut))
  deliver-Keeps out local remote seg flags payload s small norst nosyn nofin
        (p, found, inl (est, w, h)) =
      rw (found, deliver)
        (subst (λ b. Keeps base desc (out, dispatch b desc p seg flags payload local remote s))
          (sym est)
          (taken (
            on_synchronized-Steady (Sends base out) desc seg flags payload p s local remote found
              est w norst nosyn nofin h (Sends-Advances base out p seg small h))))
    where
      taken :
          Steady
            (Sends base out)
            desc
            p
            seg
            payload
            (on_synchronized desc p seg flags payload local remote s)
          → Keeps base desc (out, on_synchronized desc p seg flags payload local remote s)
      taken (q, stored, state, k, inl kept) = (q, stored, inl (state, rw (kept.0, kept.1) w, k))
      taken (q, stored, state, k, inr (order, buf, nxt, window)) =
          (q, stored, inl (state, window, k))

  -- A tick of the timer, at any time.
  pub on_timer_slot-Keeps :
      (out : List ℕ) (now : ℕ) (s : Tcp)
      → Keeps base desc (out, s)
      → Keeps base desc (out, on_timer_slot desc (at_time now s))
  on_timer_slot-Keeps out now s (p, found, h) =
      outcome (slot (on_timer_slot desc (at_time now s)).pcbs desc) refl
        (on_timer_slot-TimerOutcome desc p (at_time now s) found)
    where
      waits : Holds base out p → p.state ≡ time_wait → ⊥
      waits (inl (est, _, _)) e = absurd (cc)
      waits (inr shut) e = absurd (cc)

      later : Holds base out p → Holds base out (record p { queue = map (backoff now) p.queue })
      later (inl (est, w, (done, whole, chain, nxt, acked, within))) = inl (
        est,
        w,
        (
          done,
          ap (λ l. done ++ l) (texts-backoff now p.queue) ∙ whole,
          IsChain-backoff now (base + length done) p.queue chain,
          nxt,
          acked,
          within,
        ),
      )
      later (inr shut) = inr shut

      outcome :
          (o : Option TcpPcb)
          → slot (on_timer_slot desc (at_time now s)).pcbs desc ≡ o
          → TimerOutcome now p o
          → Keeps base desc (out, on_timer_slot desc (at_time now s))
      outcome none e t = absurd (waits h t.0)
      outcome (some q) e (inl (same, _)) = (q, e, inr (rw same refl))
      outcome (some q) e (inr (same, _, _)) = (q, e, subst (Holds base out) (sym same) (later h))
