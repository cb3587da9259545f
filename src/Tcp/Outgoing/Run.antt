-- ===== src/Tcp/Outgoing/Run.antt =====
-- Any row of events of an established connection of src/tcp.rs, from the side that sends.
use microps_rs.Base.{
  ℕ, ◌+◌, ◌-◌, ◌≤◌, ◌<◌, ◌≡◌, sym, ◌∙◌, false, List, [], ◌∷◌, ◌++◌, arith, length, length-append,
  length-take, length-drop, drop, slice,
}
use mathlib.Core.List.{append_assoc, append-nil}
use microps_rs.Addr.{IpEndp}
use microps_rs.Tcp.{Tcp}
use microps_rs.Tcp.Flags.{flag_isset, fin, syn, rst}
use microps_rs.Tcp.Api.Transfer.{send_poll, receive_poll}
use microps_rs.Tcp.Timer.{on_timer_slot}
use microps_rs.Tcp.Stream.{deliver}
use microps_rs.Tcp.Outgoing.{
  Event, sends, arrives, receives, ticks, step, run, offered, Keeps, at_time,
}
use microps_rs.Tcp.Outgoing.Turns.{
  send_poll-Keeps, receive_poll-Keeps, deliver-Keeps, on_timer_slot-Keeps,
}

-- The segments of the peer carry no RST, SYN and FIN.
abbrev pub IsSteady : Event → Type 0
IsSteady (arrives seg flags payload) =
    (flag_isset flags rst ≡ false) × (flag_isset flags syn ≡ false) × (flag_isset flags fin ≡ false)
IsSteady _ = Unit

-- What was sent grows behind, by at most some bytes.
abbrev pub Grown : ℕ → List ℕ → List ℕ → Type 0
Grown n out out' = (more : List ℕ) × (out' ≡ out ++ more) × (length more ≤ n)

same_Grown : (n : ℕ) (out : List ℕ) → Grown n out out
same_Grown n out = ([], sym (append-nil out), omega arith)

slice_short : (xs : List ℕ) (a b : ℕ) → length (slice xs a b) ≤ length xs
slice_short xs a b = omega (arith, length-take (b - a) (drop a xs), length-drop a xs)

module _ (desc : ℕ) (local remote : IpEndp) where
  pub run-Grown :
      (es : List Event) (r : List ℕ × Tcp) → Grown (offered es) r.0 (run desc local remote es r).0
  run-Grown [] r = same_Grown 0 r.0
  run-Grown (sends payload sent ∷ es) (out, s) =
      let t = send_poll desc payload sent s in
      let (more, e, le) = run-Grown es (out ++ slice payload sent t.sent, t.after) in
      (
        slice payload sent t.sent ++ more,
        e ∙ append_assoc out (slice payload sent t.sent) more,
        omega (
          arith,
          length-append (slice payload sent t.sent) more,
          slice_short payload sent t.sent,
          le,
        ),
      )
  run-Grown (arrives seg flags payload ∷ es) (out, s) =
      run-Grown es (out, deliver desc local remote seg flags payload s)
  run-Grown (receives len ∷ es) (out, s) = run-Grown es (out, (receive_poll desc len s).1)
  run-Grown (ticks now ∷ es) (out, s) = run-Grown es (out, on_timer_slot desc (at_time now s))

  pub step-Keeps :
      (base : ℕ) (e : Event) (r : List ℕ × Tcp)
      → base + length r.0 + offered (e ∷ []) < 4294967296
      → IsSteady e
      → Keeps base desc r
      → Keeps base desc (step desc local remote e r)
  step-Keeps base (sends payload sent) (out, s) small steady k =
      send_poll-Keeps base desc out payload sent s (omega arith) k
  step-Keeps base (arrives seg flags payload) (out, s) small (norst, nosyn, nofin) k =
      deliver-Keeps base desc out local remote seg flags payload s (omega arith) norst nosyn nofin k
  step-Keeps base (receives len) (out, s) small steady k = receive_poll-Keeps base desc out len s k
  step-Keeps base (ticks now) (out, s) small steady k = on_timer_slot-Keeps base desc out now s k

  -- One event uses up what it offers.
  pub step-offered :
      (base : ℕ) (e : Event) (es : List Event) (r : List ℕ × Tcp)
      → base + length r.0 + offered (e ∷ es) < 4294967296
      → base + length (step desc local remote e r).0 + offered es < 4294967296
  step-offered base (sends payload sent) es (out, s) small =
      let t = send_poll desc payload sent s in
      omega (
        arith,
        length-append out (slice payload sent t.sent),
        slice_short payload sent t.sent,
        small,
      )
  step-offered base (arrives seg flags payload) es (out, s) small = small
  step-offered base (receives len) es (out, s) small = small
  step-offered base (ticks now) es (out, s) small = small

  pub alone :
      (base : ℕ) (e : Event) (es : List Event) (n : ℕ)
      → base + n + offered (e ∷ es) < 4294967296
      → base + n + offered (e ∷ []) < 4294967296
  alone base (sends payload sent) es n small = omega arith
  alone base (arrives seg flags payload) es n small = omega arith
  alone base (receives len) es n small = omega arith
  alone base (ticks now) es n small = omega arith
