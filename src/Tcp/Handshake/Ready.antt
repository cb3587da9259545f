-- ===== src/Tcp/Handshake/Ready.antt =====
-- A connection of src/tcp.rs that was just opened, as the start of a transfer.
use microps_rs.Base.{ℕ, ◌<◌, ◌≡◌, refl, inl, [], some, arith}
use microps_rs.Table.{slot}
use microps_rs.Tcp.{established, Tcp, TcpPcb}
use microps_rs.Tcp.Stream.{Delivers}
use microps_rs.Tcp.Outgoing.{Keeps}

-- Nothing waits in a block: neither what was sent nor what was received.
abbrev pub IsBlank : TcpPcb → Type 0
IsBlank p =
    (p.state ≡ established)
    × (p.snd.una ≡ p.snd.nxt)
    × (p.queue ≡ [])
    × (p.buf ≡ [])
    × (p.rcv.wnd ≡ 65535)

pub IsBlank-Keeps :
    (desc : ℕ) (p : TcpPcb) (s : Tcp)
    → slot s.pcbs desc ≡ some p
    → IsBlank p
    → Keeps p.snd.nxt desc ([], s)
IsBlank-Keeps desc p s found (est, known, queue, buf, wnd) = (
  p,
  found,
  inl (est, rw (buf, wnd) refl, rw queue ([], refl, tt, omega arith, omega arith, omega arith)),
)

pub IsBlank-Delivers :
    (base desc : ℕ) (p : TcpPcb) (s : Tcp)
    → slot s.pcbs desc ≡ some p
    → base < 4294967296
    → base ≡ p.rcv.nxt
    → IsBlank p
    → Delivers [] base desc ([], s)
IsBlank-Delivers base desc p s found small next (est, known, queue, buf, wnd) =
    (p, found, est, rw (buf, wnd) refl, (0, omega arith, rw buf refl, omega arith))
