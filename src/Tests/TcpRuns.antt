-- ===== src/Tests/TcpRuns.antt =====
-- Segments and the timer, on the connection of the test data.
use microps_rs.Base.{◌≡◌, refl, ◌<◌, [], ◌∷◌, some, true, false, arith}
use microps_rs.Addr.{addr_eq}
use microps_rs.Table.{slot}
use microps_rs.Tcp.{TcpPcb, SegInfo, established, close_wait}
use microps_rs.Tcp.Flags.{flag_isset, rst, fin}
use microps_rs.Tcp.Pcb.{
  pcb_select, select_from, endp_match, pcb_release, release_fuel, backlog_total,
}
use microps_rs.Tcp.Pcb.Release.{release_fuel-pcb_release}
use microps_rs.Tcp.Pcb.Retrans.{AllFit, AckOutcome, ack_established-AckOutcome}
use microps_rs.Tcp.Arrives.{segment_arrives}
use microps_rs.Tcp.Arrives.Established.{ack_established, process_text, seq_acceptable, after_ack}
use microps_rs.Tcp.Arrives.Laws.Edges.{Outcome}
use microps_rs.Tcp.Arrives.Transitions.{segment_arrives-Outcome}
use microps_rs.Tcp.Arrives.Window.{TextOutcome, process_text-TextOutcome}
use microps_rs.Tcp.Arrives.Acceptance.{
  Overlaps, seq_acceptable_iff, seq_acceptable-wrapped, ResetOutcome, segment_arrives-rst,
}
use microps_rs.Tcp.Arrives.Fin.{after_ack-fin}
use microps_rs.Tcp.Timer.{on_timer_slot}
use microps_rs.Tcp.Timer.Laws.{TimerOutcome, on_timer_slot-TimerOutcome}
use microps_rs.Tests.Data.{local, remote, tcp, conn, seg}

chosen : pcb_select local remote tcp.pcbs ≡ some 1
unfolding pcb_select select_from endp_match addr_eq
chosen = refl

segment_arrives-Outcome_example :
    Outcome established (slot (segment_arrives seg 0x11 (1 ∷ 2 ∷ 3 ∷ []) local remote tcp).pcbs 1)
segment_arrives-Outcome_example =
    segment_arrives-Outcome seg 0x11 (1 ∷ 2 ∷ 3 ∷ []) local remote tcp 1 conn chosen refl

few : backlog_total tcp.pcbs < 5
unfolding backlog_total
few = omega arith

release_fuel-pcb_release_example : release_fuel 5 1 tcp ≡ pcb_release 1 tcp
release_fuel-pcb_release_example = release_fuel-pcb_release 5 1 tcp few

conn_fits : AllFit conn.queue
unfolding flag_isset
conn_fits = (omega arith, tt)

ack_established-AckOutcome_example : AckOutcome 1 conn seg tcp (ack_established 1 conn seg tcp)
ack_established-AckOutcome_example = ack_established-AckOutcome 1 conn seg tcp conn_fits

process_text-TextOutcome_example :
    TextOutcome 1 conn seg (1 ∷ 2 ∷ 3 ∷ []) tcp (process_text 1 conn seg (1 ∷ 2 ∷ 3 ∷ []) tcp)
process_text-TextOutcome_example = process_text-TextOutcome 1 conn seg (1 ∷ 2 ∷ 3 ∷ []) tcp refl

is_reset : flag_isset 0x14 rst ≡ true
unfolding flag_isset
is_reset = refl

segment_arrives-rst_example :
    ResetOutcome 1 (seq_acceptable conn seg) tcp (segment_arrives seg 0x14 [] local remote tcp)
segment_arrives-rst_example =
    segment_arrives-rst seg 0x14 [] local remote tcp 1 conn chosen refl tt is_reset

seq_acceptable_iff_example :
    ((seq_acceptable conn seg ≡ true) → Overlaps conn seg)
    × (Overlaps conn seg → seq_acceptable conn seg ≡ true)
seq_acceptable_iff_example = seq_acceptable_iff conn seg (omega arith) (omega arith) (omega arith)

-- The same connection 10 bytes before the sequence numbers wrap.
abbrev late : TcpPcb
late = record conn { rcv = record { nxt = 4294967286; wnd = 65533; up = 0 } }

abbrev next : SegInfo
next = record seg { seq = 4294967286 }

seq_acceptable-wrapped_example : seq_acceptable late next ≡ false
seq_acceptable-wrapped_example =
    seq_acceptable-wrapped late next (omega arith) (omega arith) (omega arith) (omega arith)

is_fin : flag_isset 0x11 fin ≡ true
unfolding flag_isset
is_fin = refl

after_ack-fin_example :
    (q : TcpPcb) × (slot (after_ack 1 conn seg 0x11 (1 ∷ 2 ∷ 3 ∷ []) tcp).pcbs 1 ≡ some q)
    × (q.state ≡ close_wait)
    × (q.buf ≡ 1 ∷ 2 ∷ 1 ∷ 2 ∷ 3 ∷ [])
    × (q.rcv.nxt ≡ 9001)
after_ack-fin_example =
    after_ack-fin 1 conn seg 0x11 (1 ∷ 2 ∷ 3 ∷ []) tcp refl refl refl refl (omega arith) is_fin

on_timer_slot-TimerOutcome_example : TimerOutcome 20000 conn (slot (on_timer_slot 1 tcp).pcbs 1)
on_timer_slot-TimerOutcome_example = on_timer_slot-TimerOutcome 1 conn tcp refl
