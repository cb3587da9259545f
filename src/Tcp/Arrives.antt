-- ===== src/Tcp/Arrives.antt =====
-- `segment_arrives` of src/tcp.rs, one function for each of its numbered steps.
pub mod Opening
pub mod Established
pub mod Laws
pub mod Transitions
pub mod Window
pub mod Acceptance
pub mod Fin
pub mod Steady
use microps_rs.Base.{ℕ, ◌+◌, Bool, true, false, List, Option, none, some}
use microps_rs.Addr.{IpEndp}
use microps_rs.Table.{slot}
use microps_rs.Tcp.{
  TcpState, closed, listen, syn_sent, syn_received, established, fin_wait1, fin_wait2, close_wait,
  closing, last_ack, time_wait, Tcp, TcpPcb, SegInfo,
}
use microps_rs.Tcp.Pcb.{pcb_select}
use Opening.{on_closed, on_listen, on_syn_sent}
use Established.{on_synchronized}

-- The `match` on the state of the block that was selected.
unfoldable pub dispatch : TcpState → ℕ → TcpPcb → SegInfo → ℕ → List ℕ → IpEndp → IpEndp → Tcp → Tcp
dispatch closed desc p seg flags payload local remote s = on_closed seg flags local remote s
dispatch listen desc p seg flags payload local remote s = on_listen desc p seg flags local remote s
dispatch syn_sent desc p seg flags payload local remote s =
    on_syn_sent desc p seg flags local remote s
dispatch _ desc p seg flags payload local remote s =
    on_synchronized desc p seg flags payload local remote s

-- A selected slot is never empty, so the second `none` is not reached.
unfoldable pub segment_arrives : SegInfo → ℕ → List ℕ → IpEndp → IpEndp → Tcp → Tcp
segment_arrives seg flags payload local remote s = elim (pcb_select local remote s.pcbs) [
  | none ↦ on_closed seg flags local remote s
  | some desc ↦ elim (slot s.pcbs desc) [
    | none ↦ s
    | some p ↦ dispatch p.state desc p seg flags payload local remote s
  ]
]
