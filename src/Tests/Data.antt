-- ===== src/Tests/Data.antt =====
-- A host at 192.0.2.2 with one connection, which the tests share.
use microps_rs.Base.{◌+◌, ◌*◌, [], ◌∷◌, none, some, true}
use microps_rs.Addr.{IpAddr, IpEndp, any}
use microps_rs.Link.{Net, Device, IpIface, IpRoute, loopback, new_device}
use microps_rs.Task.{fresh_task}
use microps_rs.Tcp.{Tcp, TcpPcb, SegInfo, established, listen, socket, empty}

abbrev pub here : IpAddr
here = record { o0 = 192; o1 = 0; o2 = 2; o3 = 2 }

abbrev pub peer : IpAddr
peer = record { o0 = 192; o1 = 0; o2 = 2; o3 = 1 }

abbrev pub local : IpEndp
local = record { addr = here; port = 7 }

abbrev pub remote : IpEndp
remote = record { addr = peer; port = 4000 }

abbrev pub iface : IpIface
iface = record {
  dev = 0;
  unicast = here;
  netmask = record { o0 = 255; o1 = 255; o2 = 255; o3 = 0 };
  broadcast = record { o0 = 192; o1 = 0; o2 = 2; o3 = 255 };
}

abbrev pub near : IpRoute
near = record {
  network = record { o0 = 192; o1 = 0; o2 = 2; o3 = 0 };
  netmask = record { o0 = 255; o1 = 255; o2 = 255; o3 = 0 };
  nexthop = any;
  iface = iface;
}

abbrev pub default : IpRoute
default = record { network = any; netmask = any; nexthop = peer; iface = iface }

abbrev pub device : Device
device = record (new_device 1 65535 17 loopback) { ifaces = iface ∷ [] }

abbrev pub net : Net
net = record {
  now = 20000;
  random = λ i. i * 17 + 5;
  drawn = 0;
  write_ok = λ i frame. true;
  wire = [];
  raised = 0;
  devices = device ∷ [];
  protocols = [];
  input_queue = [];
  ifaces = iface ∷ [];
  routes = default ∷ near ∷ [];
  cache = [];
}

-- 100 bytes in flight, three of them in the queue, and two bytes that nobody has received yet.
abbrev pub conn : TcpPcb
conn = record (empty 1) {
  state = established;
  mode = socket;
  local = local;
  remote = remote;
  snd = record { nxt = 600; una = 500; wnd = 1000; up = 0; wl1 = 0; wl2 = 0 };
  iss = 400;
  rcv = record { nxt = 9000; wnd = 65533; up = 0 };
  mss = 1460;
  buf = 1 ∷ 2 ∷ [];
  queue =
      record {
        first = 10000;
        last = 19000;
        rto = 400;
        seq = 500;
        flg = 24;
        payload = 9 ∷ 9 ∷ 9 ∷ [];
      }
      ∷ [];
}

abbrev pub listener : TcpPcb
listener = record (empty 0) {
  state = listen;
  mode = socket;
  local = record { addr = any; port = 7 };
  backlog_max = 4;
}

abbrev pub tcp : Tcp
tcp = record {
  pcbs = some listener ∷ some conn ∷ none ∷ [];
  tasks = fresh_task ∷ fresh_task ∷ [];
  net = net;
}

-- A segment that the connection expects, with three bytes and an acknowledgement.
abbrev pub seg : SegInfo
seg = record { seq = 9000; ack = 600; len = 3; wnd = 2000; up = 0 }
