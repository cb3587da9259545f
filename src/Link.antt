-- ===== src/Link.antt =====
-- The state below the transport protocols: src/device.rs (`Device`, `DEVICES`), src/net.rs
-- (`INPUT_QUEUE`), src/ip.rs (`IpIface`, `IpRoute`, `IFACES`, `ROUTES`) and src/arp.rs (`CACHE`),
-- with what the platform supplies: the clock, the random numbers and the outcome of `write`.
pub mod Devices
pub mod Driver
pub mod Tap
use microps_rs.Base.{ℕ, ◌+◌, ◌%◌, ◌^◌, Bool, List, [], Option, none, some, get_or, set, replicate}
use microps_rs.Addr.{IpAddr}

pub record IpIface : Type 0 where
  pub dev : ℕ
  pub unicast : IpAddr
  pub netmask : IpAddr
  pub broadcast : IpAddr

pub record IpRoute : Type 0 where
  pub network : IpAddr
  pub netmask : IpAddr
  pub nexthop : IpAddr
  pub iface : IpIface

-- The two implementations of the trait `Ops`; a tap has its descriptor open, or not.
pub data Ops : Type 0 where
  loopback : Ops
  ether_tap : Bool → Ops

pub record Device : Type 0 where
  pub index : ℕ
  pub ty : ℕ
  pub mtu : ℕ
  pub hlen : ℕ
  pub alen : ℕ
  pub addr : List ℕ
  pub peer : List ℕ
  pub broadcast : List ℕ
  pub flags : ℕ
  pub ifaces : List IpIface
  pub ops : Ops

pub record InputEntry : Type 0 where
  pub ty : ℕ
  pub payload : List ℕ
  pub dev : ℕ

pub data CacheState : Type 0 where
  incomplete resolved static : CacheState

pub record CacheEntry : Type 0 where
  pub state : CacheState
  pub pa : IpAddr
  pub ha : List ℕ
  pub timestamp : ℕ

-- The handlers that are registered with `net::register_protocol`.
pub data NetHandler : Type 0 where
  ip_input arp_input : NetHandler

pub record NetProtocol : Type 0 where
  pub ty : ℕ
  pub handler : NetHandler

-- Times are in milliseconds. `random` is the sequence that the platform's generator gives, and
-- `write_ok` says of each frame whether `write` takes it; `wire` holds the frames written,
-- newest first, each with its device's index.
pub record Net : Type 0 where
  pub now : ℕ
  pub random : ℕ → ℕ
  pub drawn : ℕ
  pub write_ok : ℕ → List ℕ → Bool
  pub wire : List (ℕ × List ℕ)
  pub raised : ℕ
  pub devices : List Device
  pub protocols : List NetProtocol
  pub input_queue : List InputEntry
  pub ifaces : List IpIface
  pub routes : List IpRoute
  pub cache : List CacheEntry

-- `platform::random32`.
unfoldable pub random32 : Net → ℕ × Net
random32 n = (n.random n.drawn % 4294967296, record n { drawn = n.drawn + 1 })

-- `Device::new`, before it is registered.
abbrev pub new_device : ℕ → ℕ → ℕ → Ops → Device
new_device ty mtu flags ops = record {
  index = 0;
  ty = ty;
  mtu = mtu;
  hlen = 0;
  alen = 0;
  addr = replicate 16 0;
  peer = replicate 16 0;
  broadcast = replicate 16 0;
  flags = flags;
  ifaces = [];
  ops = ops;
}

-- The device behind an `Arc<Device>`, by its index in `DEVICES`, where `register` put it; the
-- default stands for no device and is reached from no registered one.
abbrev pub device_at : Net → ℕ → Device
device_at n i = get_or n.devices i (new_device 0 0 0 (ether_tap Bool.false))
