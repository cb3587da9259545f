-- ===== src/Tcp/Pcb.antt =====
-- The control blocks of src/tcp.rs: allocation, selection, output with the retransmission queue,
-- and release.
pub mod Queue
pub mod Release
pub mod Select
pub mod Alloc
pub mod Retrans
use microps_rs.Base.{
  ℕ, zero, suc, ◌+◌, ◌%◌, Bool, true, false, not, ◌&&◌, ◌||◌, List, [], ◌∷◌, ◌++◌, Option, none,
  some, ltb, leb, ◌==◌, if◌then◌else◌, length, set, is_empty, bit_or, wrapping_add,
}
use microps_rs.Addr.{IpAddr, IpEndp, addr_eq, any}
use microps_rs.Link.{Net}
use microps_rs.Task.{TaskState, fresh_task}
use microps_rs.Task
use microps_rs.Table.{slot, alloc}
use microps_rs.Tcp.{
  TcpState, closed, listen, syn_sent, syn_received, established, fin_wait1, fin_wait2, close_wait,
  closing, last_ack, time_wait, Tcp, TcpPcb, TcpQueueEntry, empty,
}
use microps_rs.Tcp.Flags.{flag_isset, fin, syn, rst}
use microps_rs.Tcp.Segment.{output_segment}

abbrev pub pcb_size_max : ℕ
pcb_size_max = 16

-- `TCP_DEFAULT_RTO`, 200 milliseconds.
abbrev pub default_rto : ℕ
default_rto = 200

unfoldable pub pcb_alloc : Tcp → Option ℕ × Tcp
pcb_alloc s = elim (alloc pcb_size_max (empty (length s.tasks)) s.pcbs) [
  | none ↦ (none, s)
  | some (d, pcbs) ↦ (some d, record s { pcbs = pcbs; tasks = s.tasks ++ fresh_task ∷ [] })
]

-- A block is written back to its slot.
abbrev pub store : ℕ → TcpPcb → Tcp → Tcp
store desc p s = record s { pcbs = set s.pcbs desc (some p) }

abbrev pub notify : TcpPcb → Tcp → Tcp
notify p s = record s { tasks = Task.notify p.task s.tasks }

abbrev pub transition : TcpState → TcpPcb → TcpPcb
transition state p = record p { state = state }

unfoldable pub retrans_queue_add : ℕ → ℕ → ℕ → List ℕ → TcpPcb → TcpPcb
retrans_queue_add now seq flg payload p = record p {
  queue =
      p.queue
      ++ record {
        first = now;
        last = now;
        rto = default_rto;
        seq = seq;
        flg = flg;
        payload = payload;
      }
        ∷ [];
}

-- The sequence number that `output` uses, and whether the segment has to be kept.
unfoldable pub output_seq : ℕ → TcpPcb → ℕ
output_seq flg p = if flag_isset flg syn then p.iss else p.snd.nxt

unfoldable pub is_kept : ℕ → List ℕ → Bool
is_kept flg payload = flag_isset flg 3 || not (is_empty payload)

-- The block that `output` leaves.
unfoldable pub queued : ℕ → ℕ → List ℕ → TcpPcb → TcpPcb
queued now flg payload p =
    if is_kept flg payload then retrans_queue_add now (output_seq flg p) flg payload p else p

unfoldable pub output : ℕ → List ℕ → TcpPcb → Net → Option ℕ × TcpPcb × Net
output flg payload p n =
    let p' = queued n.now flg payload p in
    let (sent, n') =
      output_segment (output_seq flg p) p.rcv.nxt flg p.rcv.wnd payload p.local p.remote n in
    (sent, p', n')

-- `let _ = output(pcb, flg, &[])` inside a larger operation: the result is dropped.
unfoldable pub emit : ℕ → TcpPcb → Tcp → TcpPcb × Tcp
emit flg p s = let (sent, p', n) = output flg [] p s.net in (p', record s { net = n })

-- The sequence space that an entry takes: its data, and one for SYN or FIN.
unfoldable pub consume : TcpQueueEntry → ℕ
consume e =
    let len = length e.payload % 4294967296 in
    if flag_isset e.flg 3 then wrapping_add len 1 else len

-- `retrans_queue_cleanup`: entries are dropped from the front while they are acknowledged.
unfoldable pub drop_acked : ℕ → List TcpQueueEntry → List TcpQueueEntry
drop_acked una [] = []
drop_acked una (e ∷ es) =
    let rest = drop_acked una es in
    if ltb una (wrapping_add e.seq (consume e)) then e ∷ es else rest

unfoldable pub retrans_queue_cleanup : TcpPcb → TcpPcb
retrans_queue_cleanup p = record p { queue = drop_acked p.snd.una p.queue }

abbrev pub is_closed : TcpState → Bool
is_closed closed = true
is_closed _ = false

abbrev pub is_listen : TcpState → Bool
is_listen listen = true
is_listen _ = false

-- The test of `pcb_select` on one block.
unfoldable pub endp_match : IpEndp → IpEndp → TcpPcb → Bool
endp_match local remote p =
    (p.local.port == local.port)
    && ((addr_eq p.local.addr local.addr
          || (addr_eq p.local.addr any || not (addr_eq local.addr any)))
        && ((addr_eq p.remote.addr remote.addr && (p.remote.port == remote.port))
            || ((addr_eq p.remote.addr any && (p.remote.port == 0))
                || (addr_eq remote.addr any && (remote.port == 0)))))

-- The first match that does not listen, or else the last one that does.
unfoldable pub select_from : IpEndp → IpEndp → ℕ → Option ℕ → List (Option TcpPcb) → Option ℕ
select_from local remote i candidate [] = candidate
select_from local remote i candidate (none ∷ ps) = select_from local remote (i + 1) candidate ps
select_from local remote i candidate (some p ∷ ps) =
    let kept = select_from local remote (i + 1) candidate ps in
    let taken = select_from local remote (i + 1) (some i) ps in
    if not (endp_match local remote p) then kept else if is_listen p.state then taken else some i

unfoldable pub pcb_select : IpEndp → IpEndp → List (Option TcpPcb) → Option ℕ
pcb_select local remote pcbs = select_from local remote 0 none pcbs

-- The entries that wait in all backlogs together.
unfoldable pub backlog_total : List (Option TcpPcb) → ℕ
backlog_total [] = 0
backlog_total (none ∷ ps) = backlog_total ps
backlog_total (some p ∷ ps) = length p.backlog + backlog_total ps

-- A connection that still waits in the backlog is reset before its block is released.
unfoldable pub reset : ℕ → Tcp → Tcp
reset desc s = elim (slot s.pcbs desc) [
  | none ↦ s
  | some p ↦
      let (p', s') = emit rst p s in
      if is_closed p.state then s else store desc (transition closed p') s'
]

-- The end of `pcb_release`: the slot is freed and whoever waits on the block is woken.
unfoldable pub free_slot : ℕ → Tcp → Bool × Tcp
free_slot desc s = elim (slot s.pcbs desc) [
  | none ↦ (false, s)
  | some p ↦ (true, notify p (record s { pcbs = set s.pcbs desc none }))
]

unfoldable pub take_backlog : ℕ → TcpPcb → Tcp → Tcp
take_backlog desc p s = store desc (record p { backlog = [] }) s

-- The loop over the backlog; `release` is the recursive call.
unfoldable pub each_backlog : (ℕ → Tcp → Bool × Tcp) → List ℕ → Tcp → Tcp
each_backlog release [] s = s
each_backlog release (d ∷ ds) s =
    let s' : Tcp = elim (slot s.pcbs d) [ none ↦ s | some p ↦ (release d (reset d s)).1 ] in
    each_backlog release ds s'

-- `pcb_release` on fuel: each call empties a backlog, so the calls below it are at most the
-- entries of all backlogs.
unfoldable pub release_fuel : ℕ → ℕ → Tcp → Bool × Tcp
release_fuel zero desc s = (false, s)
release_fuel (suc fuel) desc s = elim (slot s.pcbs desc) [
  | none ↦ (false, s)
  | some p ↦ free_slot desc (each_backlog (release_fuel fuel) p.backlog (take_backlog desc p s))
]

unfoldable pub pcb_release : ℕ → Tcp → Bool × Tcp
pcb_release desc s = release_fuel (suc (backlog_total s.pcbs)) desc s

-- `transition` to CLOSED and `pcb_release`, as several handlers end a connection.
unfoldable pub close_and_release : ℕ → TcpPcb → Tcp → Tcp
close_and_release desc p s = (pcb_release desc (store desc (transition closed p) s)).1
