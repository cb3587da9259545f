-- ===== src/Tcp.antt =====
-- src/tcp.rs: the state of the protocol.
pub mod Flags
pub mod Segment
pub mod Pcb
pub mod Arrives
pub mod Timer
pub mod Api
pub mod Stream
pub mod Outgoing
pub mod Handshake
pub mod Print
use microps_rs.Base.{ℕ, List, [], Option, none}
use microps_rs.Addr.{IpEndp, any}
use microps_rs.Link.{Net}
use microps_rs.Task.{TaskState}

pub data TcpState : Type 0 where
  closed listen syn_sent syn_received established fin_wait1 fin_wait2 close_wait closing last_ack
        time_wait :
      TcpState

pub data TcpMode : Type 0 where
  rfc socket : TcpMode

pub record SndVars : Type 0 where
  pub nxt : ℕ
  pub una : ℕ
  pub wnd : ℕ
  pub up : ℕ
  pub wl1 : ℕ
  pub wl2 : ℕ

pub record RcvVars : Type 0 where
  pub nxt : ℕ
  pub wnd : ℕ
  pub up : ℕ

pub record SegInfo : Type 0 where
  pub seq : ℕ
  pub ack : ℕ
  pub len : ℕ
  pub wnd : ℕ
  pub up : ℕ

-- Times in milliseconds.
pub record TcpQueueEntry : Type 0 where
  pub first : ℕ
  pub last : ℕ
  pub rto : ℕ
  pub seq : ℕ
  pub flg : ℕ
  pub payload : List ℕ

pub record TcpPcb : Type 0 where
  pub state : TcpState
  pub mode : TcpMode
  pub local : IpEndp
  pub remote : IpEndp
  pub snd : SndVars
  pub iss : ℕ
  pub rcv : RcvVars
  pub irs : ℕ
  pub mss : ℕ
  pub buf : List ℕ
  pub queue : List TcpQueueEntry
  pub tw_timer : ℕ
  pub parent_desc : Option ℕ
  pub backlog : List ℕ
  pub backlog_max : ℕ
  pub task : ℕ

-- `TcpPcb::empty`, with the task that was made for it.
abbrev pub empty : ℕ → TcpPcb
empty task = record {
  state = closed;
  mode = rfc;
  local = record { addr = any; port = 0 };
  remote = record { addr = any; port = 0 };
  snd = record { nxt = 0; una = 0; wnd = 0; up = 0; wl1 = 0; wl2 = 0 };
  iss = 0;
  rcv = record { nxt = 0; wnd = 0; up = 0 };
  irs = 0;
  mss = 0;
  buf = [];
  queue = [];
  tw_timer = 0;
  parent_desc = none;
  backlog = [];
  backlog_max = 0;
  task = task;
}

-- `PCBS`, with the tasks and the layers below.
pub record Tcp : Type 0 where
  pub pcbs : List (Option TcpPcb)
  pub tasks : List TaskState
  pub net : Net
