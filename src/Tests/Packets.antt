-- ===== src/Tests/Packets.antt =====
-- Packets, routes, checksums, ARP, ICMP and tasks.
use microps_rs.Base.{
  length, ◌≤◌, ℕ, ◌≡◌, refl, ◌+◌, ◌<◌, List, [], ◌∷◌, ◌++◌, none, some, true, false, arith, to_ne16,
  if◌then◌else◌,
}
use microps_rs.Addr.{addr_eq}
use microps_rs.Util.{cksum16, sum_words, fold_carries}
use microps_rs.Util.Verify.{word_sum, cksum16_verifies}
use microps_rs.Link.{CacheEntry, resolved, incomplete}
use microps_rs.Ip.Route.{route_lookup}
use microps_rs.Ip.Route.Best.{IsBest, route_lookup-IsBest}
use microps_rs.Ip.Packet.{build_packet, hdr_head}
use microps_rs.Ip.Packet.RoundTrip.{IsPacket, build_packet-IsPacket}
use microps_rs.Icmp.{build_message, input, output, echo, echo_reply}
use microps_rs.Icmp.Laws.{input-echo}
use microps_rs.Arp.Cache.{cache_select, cache_insert}
use microps_rs.Arp.Cache.{expire}
use microps_rs.Arp.Cache.Size.{inserted, expired, start, Reachable-bounded}
use microps_rs.Task.{TaskState, fresh_task, may_wake, snapshot, task_at}
use microps_rs.Task.Wakeup.{notify_times, notify_times-may_wake}
use microps_rs.Tcp.Flags.{flag_isset, syn, fin}
use microps_rs.Tcp.Segment.{build_segment, parse, arrived}
use microps_rs.Tcp.Segment.RoundTrip.{is_broadcast, IsSegment, parse-build_segment}
use microps_rs.Tests.Data.{here, peer, local, remote, net, iface, near, default}

small_sum : 7 + word_sum (1 ∷ 2 ∷ []) + word_sum (3 ∷ 4 ∷ 5 ∷ []) + 65535 < 4294967296
unfolding word_sum
small_sum = omega arith

cksum16_verifies_example :
    cksum16
      ((1 ∷ 2 ∷ [])
        ++ (to_ne16 (cksum16 ((1 ∷ 2 ∷ []) ++ 0 ∷ 0 ∷ 3 ∷ 4 ∷ 5 ∷ []) 7) ++ 3 ∷ 4 ∷ 5 ∷ []))
      7
    ≡ 0
cksum16_verifies_example = cksum16_verifies (1 ∷ 2 ∷ []) (3 ∷ 4 ∷ 5 ∷ []) 7 tt small_sum

abbrev packet : List ℕ
packet =
    69 ∷ 0 ∷ 0 ∷ 22 ∷ 0 ∷ 9 ∷ 0 ∷ 0 ∷ 255 ∷ 17 ∷ 55 ∷ 202 ∷ 192 ∷ 0 ∷ 2 ∷ 1 ∷ 192 ∷ 0 ∷ 2 ∷ 2 ∷ 5
    ∷ 6 ∷ []

built : build_packet 17 (5 ∷ 6 ∷ []) peer here 9 ≡ some packet
unfolding build_packet hdr_head cksum16 sum_words fold_carries
built = refl

build_packet-IsPacket_example : IsPacket 17 (5 ∷ 6 ∷ []) peer here packet
build_packet-IsPacket_example =
    build_packet-IsPacket 17 (5 ∷ 6 ∷ []) peer here 9 packet (omega arith) (omega arith)
      (omega arith) built

route_lookup-IsBest_example :
    IsBest peer (default ∷ near ∷ []) (route_lookup peer (default ∷ near ∷ []))
route_lookup-IsBest_example = route_lookup-IsBest peer (default ∷ near ∷ [])

input-echo_example :
    input peer (build_message echo 0 77 (1 ∷ 2 ∷ 3 ∷ [])) iface net
    ≡ (output echo_reply 0 77 (1 ∷ 2 ∷ 3 ∷ []) here peer net).1
input-echo_example =
    input-echo 77 (1 ∷ 2 ∷ 3 ∷ []) peer iface net (omega arith) (omega arith) (omega arith)

abbrev waiting : List CacheEntry
waiting = record { state = incomplete; pa = peer; ha = 0 ∷ []; timestamp = 5 } ∷ []

unknown : cache_select here waiting ≡ none
unfolding cache_select addr_eq
unknown = refl

abbrev tasks : List TaskState
tasks = fresh_task ∷ record fresh_task { wc = 2; asleep = 2 } ∷ []

notify_times-may_wake_example :
    let t = task_at (notify_times 3 1 tasks) 1 in
    (t.asleep ≡ 0) × (may_wake (snapshot 1 tasks) t ≡ true)
notify_times-may_wake_example =
    notify_times-may_wake 3 1 tasks (omega arith) (omega arith) (λ e. omega arith)

payload-IsSegment : IsSegment 7 8 0x12 1000 (5 ∷ 6 ∷ []) local remote
payload-IsSegment = record {
  seq_fits = omega arith;
  ack_fits = omega arith;
  flg_fits = omega arith;
  wnd_fits = omega arith;
  payload_fits = omega arith;
  bytes = omega arith;
  local_fits = omega arith;
  remote_fits = omega arith;
}

unicast : is_broadcast here peer iface ≡ false
unfolding addr_eq
unicast = refl

counted : (if flag_isset 0x12 syn then 1 else 0) + (if flag_isset 0x12 fin then 1 else 0) ≡ 1
unfolding flag_isset
counted = refl

parse-build_segment_example :
    parse here peer iface (build_segment 7 8 0x12 1000 (5 ∷ 6 ∷ []) local remote)
    ≡ arrived
        (record {
          seq = 7;
          ack = 8;
          len = 2 + (if flag_isset 0x12 syn then 1 else 0) + (if flag_isset 0x12 fin then 1 else 0);
          wnd = 1000;
          up = 0;
        })
        0x12
        (5 ∷ 6 ∷ [])
        remote
        local
parse-build_segment_example =
    parse-build_segment 7 8 0x12 1000 (5 ∷ 6 ∷ []) local remote iface payload-IsSegment unicast

Reachable-bounded_example :
    length (expire 90000 (cache_insert 9 here (1 ∷ 2 ∷ []) resolved [])) ≤ 32
Reachable-bounded_example =
    Reachable-bounded (expire 90000 (cache_insert 9 here (1 ∷ 2 ∷ []) resolved []))
      (expired 90000 (inserted 9 here (1 ∷ 2 ∷ []) resolved start))
