-- ===== src/Tcp/Api.antt =====
-- The calls of src/tcp.rs that the application makes. A call that may wait is a sequence of
-- sections under the lock: `poll` functions are one such section, and say whether it waits.
pub mod Connect
pub mod Transfer
pub mod Laws
pub mod Bound
use microps_rs.Base.{
  ℕ, ◌+◌, Bool, true, false, not, List, [], ◌∷◌, Option, none, some, ◌==◌, if◌then◌else◌,
  wrapping_add,
}
use microps_rs.Addr.{IpEndp, any}
use microps_rs.Table.{slot}
use microps_rs.Task
use microps_rs.Tcp.{
  TcpState, closed, listen, syn_sent, syn_received, established, fin_wait1, fin_wait2, close_wait,
  closing, last_ack, time_wait, TcpMode, socket, Tcp, TcpPcb, SndVars,
}
use microps_rs.Tcp.Pcb.{
  pcb_alloc, pcb_release, pcb_select, store, notify, transition, emit, is_closed,
}

-- `socket()`.
unfoldable pub open_socket : Tcp → Option ℕ × Tcp
open_socket s =
    let (desc, s') = pcb_alloc s in
    elim desc [
      | none ↦ (none, s')
      | some d ↦ elim (slot s'.pcbs d) [
        | none ↦ (none, s')
        | some p ↦ (some d, store d (record p { mode = socket }) s')
      ]
    ]

unfoldable pub bind : ℕ → IpEndp → Tcp → Bool × Tcp
bind desc local s = elim (slot s.pcbs desc) [
  | none ↦ (false, s)
  | some p ↦
      if local.port == 0
      then (false, s)
      else if not (is_closed p.state)
      then (false, s)
      else elim (pcb_select local (record { addr = any; port = 0 }) s.pcbs) [
        | some exist ↦ (false, s)
        | none ↦ (true, store desc (record p { local = local }) s)
      ]
]

-- `listen`.
unfoldable pub start_listen : ℕ → ℕ → Tcp → Bool × Tcp
start_listen desc backlog s = elim (slot s.pcbs desc) [
  | none ↦ (false, s)
  | some p ↦
      if p.local.port == 0
      then (false, s)
      else if not (is_closed p.state)
      then (false, s)
      else (true, store desc (transition listen (record p { backlog_max = backlog })) s)
]

-- `close` in a state that still has data to confirm: FIN is sent, and the state moves on.
unfoldable pub send_fin : TcpState → ℕ → TcpPcb → Tcp → Bool × Tcp
send_fin next desc p s =
    -- ACK and FIN together
    let (p', s') = emit 0x11 p s in
    let snd : SndVars = record (p'.snd) { nxt = wrapping_add p'.snd.nxt 1 } in
    (true, notify p' (store desc (transition next (record p' { snd = snd })) s'))

unfoldable pub close_by_state : TcpState → ℕ → TcpPcb → Tcp → Bool × Tcp
close_by_state listen desc p s = pcb_release desc (store desc (transition closed p) s)
close_by_state syn_sent desc p s = pcb_release desc (store desc (transition closed p) s)
close_by_state syn_received desc p s = send_fin fin_wait1 desc p s
close_by_state established desc p s = send_fin fin_wait1 desc p s
close_by_state close_wait desc p s = send_fin last_ack desc p s
close_by_state _ desc p s = (false, s)

unfoldable pub close : ℕ → Tcp → Bool × Tcp
close desc s = elim (slot s.pcbs desc) [
  | none ↦ (false, s)
  | some p ↦ close_by_state p.state desc p s
]
