-- ===== src/Tcp/Api/Laws.antt =====
-- `receive` and `send` of src/tcp.rs: the bytes that they move, and the windows.
use microps_rs.Base.{
  ℕ, ◌-◌, ◌≤◌, ◌<◌, ◌≡◌, ◌⊎◌, List, [], ◌++◌, some, length, min, wrapping_add, wrapping_sub,
}
use microps_rs.Table.{slot}
use microps_rs.Tcp.{close_wait, closing, last_ack, time_wait, Tcp, TcpPcb}
use microps_rs.Tcp.Arrives.Window.{IsWindow}
use microps_rs.Tcp.Api.Transfer.{Poll, ready, wait, Sending}

-- The peer has closed its side and nothing waits, or the connection is past that.
abbrev pub IsEnd : TcpPcb → Type 0
IsEnd p =
    ((p.state ≡ close_wait) × (p.buf ≡ []))
    ⊎ (p.state ≡ closing)
    ⊎ (p.state ≡ last_ack)
    ⊎ (p.state ≡ time_wait)

-- What `receive` answers.
abbrev pub ReceiveOutcome : ℕ → ℕ → TcpPcb → Tcp → Poll (List ℕ) × Tcp → Type 0
ReceiveOutcome desc len p s (ready bytes, t) =
    (q : TcpPcb) × (slot t.pcbs desc ≡ some q)
    × (bytes ++ q.buf ≡ p.buf)
    × (length bytes ≤ len)
    × IsWindow q
    × (((0 < length p.buf) × (length bytes ≡ min len (length p.buf)))
        ⊎ ((bytes ≡ []) × (t ≡ s) × IsEnd p))
ReceiveOutcome desc len p s (wait task generation, t) = (t ≡ s) × (p.buf ≡ [])
ReceiveOutcome desc len p s (other, t) = t ≡ s

-- A turn of `send` that puts bytes on the wire: how many, and what is in flight behind it.
pub record SendOutcome (desc : ℕ) (p : TcpPcb) (payload : List ℕ) (sent : ℕ) (r : Sending)
    : Type 0 where
  pub progress : sent < r.sent
  pub within : r.sent ≤ length payload
  pub segment_fits : r.sent - sent ≤ p.mss
  pub block : TcpPcb
  pub stored : slot r.after.pcbs desc ≡ some block
  pub in_flight : wrapping_sub block.snd.nxt block.snd.una ≤ p.snd.wnd
  pub advanced : block.snd.nxt ≡ wrapping_add p.snd.nxt (r.sent - sent)
