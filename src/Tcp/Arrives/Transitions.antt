-- ===== src/Tcp/Arrives/Transitions.antt =====
-- `segment_arrives` as a whole: the transitions a segment may cause.
use microps_rs.Base.{ℕ, ◌≡◌, List, some, if_cases, refl, wrapping_add}
use microps_rs.Addr.{IpEndp}
use microps_rs.Table.{slot}
use microps_rs.Tcp.{TcpMode, rfc, socket, TcpState, closed, listen, syn_sent, Tcp, TcpPcb, SegInfo}
use microps_rs.Tcp.Flags.{flag_isset, ack, rst, syn}
use microps_rs.Tcp.Pcb.{pcb_select}
use microps_rs.Tcp.Arrives.{dispatch, segment_arrives}
use microps_rs.Tcp.Arrives.Opening.{on_closed, on_listen, send_bare, accept_by_mode, spawn_child}
use microps_rs.Tcp.Arrives.Laws.{
  untouched, on_synchronized-Outcome, on_syn_sent-Outcome, accept_syn-Outcome, spawn_child-slot,
}
use microps_rs.Tcp.Arrives.Laws.Edges.{Outcome, Leaves, ends}

module _ (desc : ℕ) (p : TcpPcb) (seg : SegInfo) (flags : ℕ) (payload : List ℕ)
    (local remote : IpEndp) (s : Tcp) (found : slot s.pcbs desc ≡ some p) where
  here : (b : TcpState) (t : Tcp) → p.state ≡ b → slot t.pcbs desc ≡ some p → Leaves desc b t
  here = untouched desc p seg flags payload local remote s found

  on_closed-Outcome : p.state ≡ closed → Leaves desc closed (on_closed seg flags local remote s)
  unfolding on_closed send_bare
  on_closed-Outcome e =
      if_cases (Leaves desc closed) (flag_isset flags rst) (λ _. here closed s e found)
        λ _.
          if_cases (Leaves desc closed) (flag_isset flags ack)
            (λ _. here closed (send_bare seg.ack 0 rst local remote s) e found)
            (λ _.
              here closed (send_bare 0 (wrapping_add seg.seq seg.len) 0x14 local remote s) e found)

  accept_by_mode-Outcome :
      (m : TcpMode)
      → p.state ≡ listen
      → Leaves desc listen (accept_by_mode m desc p seg local remote s)
  unfolding accept_by_mode
  accept_by_mode-Outcome rfc e = accept_syn-Outcome desc p seg flags payload local remote s found p
  accept_by_mode-Outcome socket e =
      here listen (spawn_child desc p seg local remote s) e
        (spawn_child-slot desc p seg flags payload local remote s found)

  on_listen-Outcome :
      p.state ≡ listen → Leaves desc listen (on_listen desc p seg flags local remote s)
  unfolding on_listen send_bare
  on_listen-Outcome e =
      if_cases (Leaves desc listen) (flag_isset flags rst) (λ _. here listen s e found)
        λ _.
          if_cases (Leaves desc listen) (flag_isset flags ack)
            (λ _. here listen (send_bare seg.ack 0 rst local remote s) e found)
            λ _.
              if_cases (Leaves desc listen) (flag_isset flags syn)
                (λ _. accept_by_mode-Outcome p.mode e) (λ _. here listen s e found)

  dispatch-Outcome :
      (b : TcpState)
      → p.state ≡ b
      → Leaves desc b (dispatch b desc p seg flags payload local remote s)
  unfolding dispatch
  dispatch-Outcome closed e = on_closed-Outcome e
  dispatch-Outcome listen e = on_listen-Outcome e
  dispatch-Outcome syn_sent e = on_syn_sent-Outcome desc p seg flags payload local remote s found e
  dispatch-Outcome b e =
      on_synchronized-Outcome desc p seg flags payload local remote s found b e
        (ends (λ f. cc) (λ f. cc))

-- A segment leaves the block that it is for in a state that one edge of the diagram leads to
-- from the old one: a SYN edge, or an ACK edge and then a FIN edge. A block that is released
-- was neither closed nor listening.
pub segment_arrives-Outcome :
    (seg : SegInfo) (flags : ℕ) (payload : List ℕ) (local remote : IpEndp) (s : Tcp) (desc : ℕ)
    (p : TcpPcb)
    → pcb_select local remote s.pcbs ≡ some desc
    → slot s.pcbs desc ≡ some p
    → Outcome p.state (slot (segment_arrives seg flags payload local remote s).pcbs desc)
unfolding segment_arrives
segment_arrives-Outcome seg flags payload local remote s desc p chosen found =
    rw (chosen, found, segment_arrives)
      (dispatch-Outcome desc p seg flags payload local remote s found p.state refl)
