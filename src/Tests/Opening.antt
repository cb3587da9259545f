-- ===== src/Tests/Opening.antt =====
-- A connection that is opened from both ends.
use microps_rs.Base.{◌+◌, ◌<◌, ◌≡◌, refl, [], ◌∷◌, some, true, arith}
use microps_rs.Addr.{IpEndp}
use microps_rs.Table.{alloc, first_free}
use microps_rs.Link.{random32}
use microps_rs.Tcp.{Tcp, empty}
use microps_rs.Tcp.Pcb.{pcb_alloc, output}
use microps_rs.Tcp.Segment.{output_segment}
use microps_rs.Ip
use microps_rs.Ip.Packet.{build_packet}
use microps_rs.Link.Driver.{output as device_output}
use microps_rs.Ip.{source_addr}
use microps_rs.Addr.{addr_eq}
use microps_rs.Ip.Route.{route_lookup, matches, prefix}
use microps_rs.Tcp.Api.Connect.{send_syn}
use microps_rs.Tcp.Handshake.Opened.{IsOpened}
use microps_rs.Tcp.Handshake.Complete.{handshake-IsOpened}
use microps_rs.Tests.Data.{here, peer, net, tcp, listener}
use microps_rs.Task.{fresh_task}

abbrev client : Tcp
client = record { pcbs = some (empty 0) ∷ []; tasks = fresh_task ∷ []; net = net }

abbrev near_end : IpEndp
near_end = record { addr = here; port = 4000 }

abbrev far_end : IpEndp
far_end = record { addr = peer; port = 7 }

syn_sent : (send_syn 0 (empty 0) near_end far_end client).0 ≡ true
unfolding send_syn output output_segment Ip.output addr_eq route_lookup random32 matches prefix
    source_addr Ip.output_via build_packet Ip.output_device device_output
syn_sent = refl

block_given : (pcb_alloc tcp).0 ≡ some 2
unfolding pcb_alloc alloc first_free
block_given = refl

near_isn : (random32 client.net).0 + 65536 < 4294967296
unfolding random32
near_isn = omega arith

far_isn : (random32 tcp.net).0 + 1 < 4294967296
unfolding random32
far_isn = omega arith

handshake-IsOpened_example :
    IsOpened 0 0 2 listener near_end far_end
      (random32 client.net).1
      (send_syn 0 (empty 0) near_end far_end client).1
      tcp
handshake-IsOpened_example =
    handshake-IsOpened 0 0 2 (empty 0) listener near_end far_end client tcp refl (refl, refl)
      syn_sent refl refl (omega arith) block_given near_isn far_isn
