-- ===== src/Tcp/Outgoing.antt =====
-- What an application sends over an established connection of src/tcp.rs, and the queue that holds
-- it until it is acknowledged.
pub mod Acked
pub mod Queued
pub mod Turns
pub mod Run
pub mod Wire
pub mod Puts
pub mod Transfer
use microps_rs.Base.{ℕ, ◌+◌, ◌≤◌, ◌≡◌, ◌⊎◌, List, [], ◌∷◌, ◌++◌, none, some, length, slice}
use microps_rs.Addr.{IpEndp}
use microps_rs.Link.{Net}
use microps_rs.Table.{slot}
use microps_rs.Tcp.{closed, established, Tcp, TcpPcb, TcpQueueEntry, SegInfo, SndVars}
use microps_rs.Tcp.Arrives.Steady.{OfSending}
use microps_rs.Tcp.Arrives.Window.{IsWindow}
use microps_rs.Tcp.Api.Transfer.{send_poll, receive_poll}
use microps_rs.Tcp.Timer.{on_timer_slot}
use microps_rs.Tcp.Stream.{deliver}

-- A turn of `send` over some bytes, of which some are sent; a segment for the connection, with its
-- flags and text; a call of `receive`; a tick of the timer at a time.
pub data Event : Type 0 where
  sends : List ℕ → ℕ → Event
  arrives : SegInfo → ℕ → List ℕ → Event
  receives : ℕ → Event
  ticks : ℕ → Event

abbrev pub at_time : ℕ → Tcp → Tcp
at_time now s = record s { net = record (s.net) { now = now } }

module _ (desc : ℕ) (local remote : IpEndp) where
  -- The bytes that `send` has taken, and the state.
  abbrev pub step : Event → List ℕ × Tcp → List ℕ × Tcp
  step (sends payload sent) (out, s) =
      let r = send_poll desc payload sent s in (out ++ slice payload sent r.sent, r.after)
  step (arrives seg flags payload) (out, s) = (out, deliver desc local remote seg flags payload s)
  step (receives len) (out, s) = (out, (receive_poll desc len s).1)
  step (ticks now) (out, s) = (out, on_timer_slot desc (at_time now s))

  abbrev pub run : List Event → List ℕ × Tcp → List ℕ × Tcp
  run [] r = r
  run (e ∷ es) r = run es (step e r)

-- The bytes that the calls of `send` have at hand, all together.
abbrev pub offered : List Event → ℕ
offered [] = 0
offered (sends payload sent ∷ es) = length payload + offered es
offered (_ ∷ es) = offered es

-- The text of a queue.
abbrev pub texts : List TcpQueueEntry → List ℕ
texts [] = []
texts (e ∷ es) = e.payload ++ texts es

-- Each entry starts where the one before it ends, and carries ACK and PSH.
abbrev pub IsChain : ℕ → List TcpQueueEntry → Type 0
IsChain at [] = Unit
IsChain at (e ∷ es) = (e.seq ≡ at) × (e.flg ≡ 0x18) × IsChain (at + length e.payload) es

-- The queue is the end of what was sent, entry by entry, from a place that is acknowledged.
abbrev pub Sends : ℕ → List ℕ → OfSending
Sends base out snd queue =
    (done : List ℕ) × (done ++ texts queue ≡ out)
    × IsChain (base + length done) queue
    × (snd.nxt ≡ base + length out)
    × (base + length done ≤ snd.una)
    × (snd.una ≤ snd.nxt)

-- A block of a connection that holds what is not acknowledged, or of one that the timer gave up.
abbrev pub Holds : ℕ → List ℕ → TcpPcb → Type 0
Holds base out p =
    ((p.state ≡ established) × IsWindow p × Sends base out p.snd p.queue) ⊎ (p.state ≡ closed)

abbrev pub Keeps : ℕ → ℕ → List ℕ × Tcp → Type 0
Keeps base desc (out, s) = (p : TcpPcb) × (slot s.pcbs desc ≡ some p) × Holds base out p
