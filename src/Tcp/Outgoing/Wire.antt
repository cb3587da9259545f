-- ===== src/Tcp/Outgoing/Wire.antt =====
-- What the segments in the queue of a connection of src/tcp.rs say of the stream that was sent.
use microps_rs.Base.{
  ℕ, zero, suc, ◌+◌, ◌≤◌, ◌<◌, ◌≡◌, ◌⊎◌, inl, inr, refl, sym, ap, subst, ◌∙◌, List, [], ◌∷◌, ◌++◌,
  some, arith, length, length-append, take, drop,
}
use mathlib.Core.List.{append_assoc}
use microps_rs.Table.{slot}
use microps_rs.Tcp.{established, Tcp, TcpPcb, TcpQueueEntry, SegInfo, SndVars}
use microps_rs.Tcp.Flags.{flag_isset, ack}
use microps_rs.Tcp.Stream
use microps_rs.Tcp.Stream.{IsSent, Delivers}
use microps_rs.Tcp.Outgoing.{texts, IsChain, Sends}

abbrev pub Any : (TcpQueueEntry → Type 0) → List TcpQueueEntry → Type 0
Any P [] = ⊥
Any P (e ∷ es) = P e ⊎ Any P es

abbrev pub IsEntry : SegInfo → ℕ → List ℕ → TcpQueueEntry → Type 0
IsEntry seg flags payload e = (seg.seq ≡ e.seq) × (flags ≡ e.flg) × (payload ≡ e.payload)

-- A segment that the block has in its queue, or a bare ACK with the next number to send.
abbrev pub Carries : SndVars → List TcpQueueEntry → SegInfo → ℕ → List ℕ → Type 0
Carries snd queue seg flags payload =
    Any (IsEntry seg flags payload) queue ⊎ ((seg.seq ≡ snd.nxt) × (flags ≡ ack) × (payload ≡ []))

-- An established sender has it in its block at this moment; a call of `receive` needs nothing.
abbrev pub Queued : ℕ → Tcp → Stream.Event → Type 0
Queued desc s (Stream.arrives seg flags payload) =
    (p : TcpPcb) × (slot s.pcbs desc ≡ some p)
    × (p.state ≡ established)
    × Carries p.snd p.queue seg flags payload
Queued desc s (Stream.receives len) = Unit

take_front : (n : ℕ) (xs ys : List ℕ) → n ≤ length xs → take n (xs ++ ys) ≡ take n xs
take_front zero xs ys le = refl
take_front (suc n) [] ys le = ground arith
take_front (suc n) (x ∷ xs) ys le = ap (λ l. x ∷ l) (take_front n xs ys (omega arith))

take-drop_front :
    (n k : ℕ) (xs ys : List ℕ) → k + n ≤ length xs → take n (drop k (xs ++ ys)) ≡ take n (drop k xs)
take-drop_front n zero xs ys le = take_front n xs ys (omega arith)
take-drop_front n (suc k) [] ys le = ground arith
take-drop_front n (suc k) (x ∷ xs) ys le = take-drop_front n k xs ys (omega arith)

take_all : (xs ys : List ℕ) → take (length xs) (xs ++ ys) ≡ xs
take_all [] ys = refl
take_all (x ∷ xs) ys = ap (λ l. x ∷ l) (take_all xs ys)

drop_all : (xs ys : List ℕ) → drop (length xs) (xs ++ ys) ≡ ys
drop_all [] ys = refl
drop_all (x ∷ xs) ys = drop_all xs ys

module _ (base : ℕ) where
  -- A segment of a stream is one of a longer stream, and a front of it stays a front.
  pub IsSent-grown :
      (out more : List ℕ) (e : Stream.Event) → IsSent out base e → IsSent (out ++ more) base e
  IsSent-grown out more (Stream.arrives seg flags payload)
        (norst, nosyn, nofin, (k, inside, text, at)) =
      (
        norst,
        nosyn,
        nofin,
        (
          k,
          omega (arith, length-append out more),
          text ∙ sym (take-drop_front (length payload) k out more inside),
          at,
        ),
      )
  IsSent-grown out more (Stream.receives len) h = tt

  pub Delivers-grown :
      (out more : List ℕ) (desc : ℕ) (r : List ℕ × Tcp)
      → Delivers out base desc r
      → Delivers (out ++ more) base desc r
  Delivers-grown out more desc (received, t) (p, found, est, w, (n, le, front, next)) = (
    p,
    found,
    est,
    w,
    (n, omega (arith, length-append out more), front ∙ sym (take_front n out more le), next),
  )

  -- An entry of the queue is a piece of what was sent.
  entry-IsSent :
      (out done : List ℕ) (queue : List TcpQueueEntry) (seg : SegInfo) (flags : ℕ)
      (payload : List ℕ)
      → base + length out < 4294967296
      → done ++ texts queue ≡ out
      → IsChain (base + length done) queue
      → Any (IsEntry seg flags payload) queue
      → IsSent out base (Stream.arrives seg flags payload)
  unfolding flag_isset
  entry-IsSent out done [] seg flags payload small whole chain h = absurd h
  entry-IsSent out done (e ∷ es) seg flags payload small whole (seq, flg, chain)
        (inl (same, plain, text)) =
      let pushed : flags ≡ 0x18 = plain ∙ flg in
      let lens : length done + (length e.payload + length (texts es)) ≡ length out = omega (
        arith,
        length-append done (e.payload ++ texts es),
        length-append e.payload (texts es),
        ap length whole,
      ) in
      (
        ap (λ f. flag_isset f 0x04) pushed,
        ap (λ f. flag_isset f 0x02) pushed,
        ap (λ f. flag_isset f 0x01) pushed,
        (
          length done,
          omega (arith, lens, ap length text),
          text
              ∙ sym (take_all e.payload (texts es))
              ∙ ap (λ l. take (length e.payload) l) (sym (drop_all done (e.payload ++ texts es)))
              ∙ ap (λ l. take (length e.payload) (drop (length done) l)) whole
              ∙ ap (λ n. take n (drop (length done) out)) (ap length (sym text)),
          omega (arith, same, seq, lens, small),
        ),
      )
  entry-IsSent out done (e ∷ es) seg flags payload small whole (seq, flg, chain) (inr later) =
      let far : base + length done + length e.payload ≡ base + length (done ++ e.payload) =
        omega (arith, length-append done e.payload) in
      entry-IsSent out (done ++ e.payload) es seg flags payload small
        (append_assoc done e.payload (texts es) ∙ whole) (subst (λ n. IsChain n es) far chain) later

  pub Carries-IsSent :
      (out : List ℕ) (snd : SndVars) (queue : List TcpQueueEntry) (seg : SegInfo) (flags : ℕ)
      (payload : List ℕ)
      → base + length out < 4294967296
      → Sends base out snd queue
      → Carries snd queue seg flags payload
      → IsSent out base (Stream.arrives seg flags payload)
  unfolding flag_isset
  Carries-IsSent out snd queue seg flags payload small (done, whole, chain, nxt, acked, within)
        (inl h) =
      entry-IsSent out done queue seg flags payload small whole chain h
  Carries-IsSent out snd queue seg flags payload small (done, whole, chain, nxt, acked, within)
        (inr (at, bare, nothing)) =
      (
        ap (λ f. flag_isset f 0x04) bare,
        ap (λ f. flag_isset f 0x02) bare,
        ap (λ f. flag_isset f 0x01) bare,
        (
          length out,
          omega (arith, ap length nothing),
          nothing ∙ ap (λ l. take (length l) (drop (length out) out)) (sym nothing),
          omega (arith, at, nxt),
        ),
      )
