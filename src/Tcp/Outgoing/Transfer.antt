-- ===== src/Tcp/Outgoing/Transfer.antt =====
-- A transfer between two ends of src/tcp.rs: the segments that one end has in its queue, which are
-- those that it sends, reach the other in any order, repeated or not at all.
use microps_rs.Base.{
  ℕ, ◌+◌, ◌<◌, ◌≡◌, ◌⊎◌, inl, inr, sym, ap, subst, ◌∙◌, List, [], ◌∷◌, arith, length, length-append,
  All,
}
use mathlib.Core.Option.{some-injective}
use microps_rs.Addr.{IpEndp}
use microps_rs.Tcp.{closed, established, Tcp, TcpPcb, SegInfo}
use microps_rs.Tcp.Stream
use microps_rs.Tcp.Stream.{IsSent, Delivers, run-Delivers}
use microps_rs.Tcp.Outgoing.{Event, run, step, offered, Holds, Keeps}
use microps_rs.Tcp.Outgoing.Run.{IsSteady, run-Grown, step-Keeps, step-offered, alone}
use microps_rs.Tcp.Outgoing.Puts.{Puts, event-Puts}
use microps_rs.Tcp.Outgoing.Wire.{Carries, Queued, IsSent-grown, Delivers-grown, Carries-IsSent}

module _ (base desc : ℕ) (local remote : IpEndp) where
  -- At some moment of the run the segment is one of the queue, or a bare ACK.
  abbrev pub Sent : List Event → List ℕ × Tcp → Stream.Event → Type 0
  Sent [] r ev = Queued desc r.1 ev
  Sent (e ∷ es) r ev = Queued desc r.1 ev ⊎ Sent es (step desc local remote e r) ev

  Holds-Carries :
      (out : List ℕ) (p : TcpPcb) (seg : SegInfo) (flags : ℕ) (payload : List ℕ)
      → base + length out < 4294967296
      → Holds base out p
      → p.state ≡ established
      → Carries p.snd p.queue seg flags payload
      → IsSent out base (Stream.arrives seg flags payload)
  Holds-Carries out p seg flags payload small (inl (est, w, h)) state carried =
      Carries-IsSent base out p.snd p.queue seg flags payload small h carried
  Holds-Carries out p seg flags payload small (inr shut) state carried =
      let never : closed ≡ established = sym shut ∙ state in absurd (cc)

  Queued-IsSent :
      (r : List ℕ × Tcp) (ev : Stream.Event)
      → base + length r.0 < 4294967296
      → Keeps base desc r
      → Queued desc r.1 ev
      → IsSent r.0 base ev
  Queued-IsSent (out, s) (Stream.arrives seg flags payload) small (p, found, h)
        (q, there, state, carried) =
      let same = some-injective p q (sym found ∙ there) in
      Holds-Carries out q seg flags payload small (subst (Holds base out) same h) state carried
  Queued-IsSent (out, s) (Stream.receives len) small k h = tt

  -- A segment of any moment is a segment of the whole stream.
  Sent-IsSent :
      (es : List Event) (r : List ℕ × Tcp) (ev : Stream.Event)
      → base + length r.0 + offered es < 4294967296
      → All IsSteady es
      → Keeps base desc r
      → Sent es r ev
      → IsSent (run desc local remote es r).0 base ev
  Sent-IsSent [] r ev small steady k h = Queued-IsSent r ev (omega arith) k h
  Sent-IsSent (e ∷ es) r ev small steady k (inl now) =
      let (more, grown, le) = run-Grown desc local remote (e ∷ es) r in
      subst (λ out. IsSent out base ev) (sym grown)
        (IsSent-grown base r.0 more ev (Queued-IsSent r ev (omega arith) k now))
  Sent-IsSent (e ∷ es) r ev small (h, hs) k (inr later) =
      Sent-IsSent es (step desc local remote e r) ev
        (step-offered desc local remote base e es r small) hs
        (step-Keeps desc local remote base e r
          (alone desc local remote base e es (length r.0) small) h k)
        later

  each_IsSent :
      (es : List Event) (r : List ℕ × Tcp) (evs : List Stream.Event)
      → base + length r.0 + offered es < 4294967296
      → All IsSteady es
      → Keeps base desc r
      → All (Sent es r) evs
      → All (IsSent (run desc local remote es r).0 base) evs
  each_IsSent es r [] small steady k h = tt
  each_IsSent es r (ev ∷ evs) small steady k (h, hs) =
      (Sent-IsSent es r ev small steady k h, each_IsSent es r evs small steady k hs)

  -- What every event of a row gives to `output_segment`.
  abbrev pub AllPut : List Event → List ℕ × Tcp → Type 0
  AllPut [] r = Unit
  AllPut (e ∷ es) r = Puts desc e r.1 × AllPut es (step desc local remote e r)

  run-AllPut :
      (es : List Event) (r : List ℕ × Tcp)
      → base + length r.0 + offered es < 4294967296
      → All IsSteady es
      → Keeps base desc r
      → AllPut es r
  run-AllPut [] r small steady k = tt
  run-AllPut (e ∷ es) r small (h, hs) k = (
    event-Puts base desc e r k,
    run-AllPut es (step desc local remote e r) (step-offered desc local remote base e es r small) hs
        (step-Keeps desc local remote base e r
          (alone desc local remote base e es (length r.0) small) h k),
  )

  -- An established end sends, over any row of turns of send, ticks, calls of receive and segments
  -- without RST, SYN and FIN; the other, established too, has received a front of what was sent
  -- before, and gets, in any order, segments that repeat an entry of the sender's queue, or are a
  -- bare ACK with its next number, at any moment of that row, each any number of times or not at
  -- all, with calls of receive between them. Where the sequence numbers stay below 2 ^ 32, the
  -- bytes that it has handed out and those that wait are a front of all that the sender's
  -- application has sent. And the entries are what the sender gives to `output_segment`: a turn of
  -- send nothing, or one segment with the next number and the text taken, which is the new end of
  -- the queue; a tick the entries that are due, as they stand, unless one is too old; a call of
  -- receive nothing. What answers a segment is not followed.
  pub transfer-Delivers :
      (es : List Event) (r : List ℕ × Tcp) (evs : List Stream.Event) (d : ℕ) (here there : IpEndp)
      (got : List ℕ × Tcp)
      → base + length r.0 + offered es < 4294967296
      → All IsSteady es
      → Keeps base desc r
      → All (Sent es r) evs
      → Delivers r.0 base d got
      → Delivers (run desc local remote es r).0 base d (Stream.run d here there evs got)
        × AllPut es r
  transfer-Delivers es r evs d here there got small steady k sent begins =
      let (more, grown, le) = run-Grown desc local remote es r in
      (
        run-Delivers (run desc local remote es r).0 base d here there evs got
            (omega (arith, length-append r.0 more, ap length grown, le, small))
            (each_IsSent es r evs small steady k sent)
            (subst (λ out. Delivers out base d got) (sym grown)
              (Delivers-grown base r.0 more d got begins)),
        run-AllPut es r small steady k,
      )
