-- ===== src/Udp/Pcb.antt =====
-- The control blocks of src/udp.rs.
use microps_rs.Base.{
  ℕ, suc, Bool, true, false, ◌&&◌, ◌||◌, List, [], ◌∷◌, ◌++◌, Option, none, some, ◌==◌,
  if◌then◌else◌, length, set,
}
use microps_rs.Addr.{IpEndp, addr_eq, any}
use microps_rs.Link.{Net}
use microps_rs.Task.{TaskState, fresh_task}
use microps_rs.Task
use microps_rs.Table.{slot, alloc}

pub record UdpQueueEntry : Type 0 where
  pub remote : IpEndp
  pub payload : List ℕ

pub record UdpPcb : Type 0 where
  pub local : IpEndp
  pub queue : List UdpQueueEntry
  pub task : ℕ

-- `PCBS`, with the tasks and the layers below.
pub record Udp : Type 0 where
  pub pcbs : List (Option UdpPcb)
  pub tasks : List TaskState
  pub net : Net

abbrev pub empty : ℕ → UdpPcb
empty task = record { local = record { addr = any; port = 0 }; queue = []; task = task }

abbrev pub pcb_size_max : ℕ
pcb_size_max = 16

-- `pcb_alloc`, and `open`, which does no more.
unfoldable pub pcb_alloc : Udp → Option ℕ × Udp
pcb_alloc s = elim (alloc pcb_size_max (empty (length s.tasks)) s.pcbs) [
  | none ↦ (none, s)
  | some (d, pcbs) ↦ (some d, record s { pcbs = pcbs; tasks = s.tasks ++ fresh_task ∷ [] })
]

-- `pcb_release`, and `close`, which does no more.
unfoldable pub pcb_release : ℕ → Udp → Bool × Udp
pcb_release desc s = elim (slot s.pcbs desc) [
  | none ↦ (false, s)
  | some p ↦ (true, record s { pcbs = set s.pcbs desc none; tasks = Task.notify p.task s.tasks })
]

-- Two endpoints collide: the same port, and the same address or a wildcard on either side.
unfoldable pub endp_match : IpEndp → UdpPcb → Bool
endp_match key p =
    (p.local.port == key.port)
    && (addr_eq p.local.addr key.addr || (addr_eq p.local.addr any || addr_eq key.addr any))

unfoldable pub pcb_select : IpEndp → List (Option UdpPcb) → Option ℕ
pcb_select key [] = none
pcb_select key (none ∷ ps) = elim (pcb_select key ps) [ none ↦ none | some i ↦ some (suc i) ]
pcb_select key (some p ∷ ps) =
    let rest = elim (pcb_select key ps) as (λ _. Option ℕ) [
      | none ↦ none
      | some i ↦ some (suc i)
    ] in
    if endp_match key p then some 0 else rest
