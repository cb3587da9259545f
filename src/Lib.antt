-- ===== src/Lib.antt =====
-- A model of microps-rs, a small TCP/IP stack in user space, and what is proved of it.
--
-- The crate keeps all its state in statics behind mutexes: devices, protocols, the input queue,
-- interfaces, routes, the ARP cache, the control blocks of UDP and TCP, the sockets and the tasks.
-- Here that state is a record that each operation takes and returns. A call under a mutex is one
-- function; a call that waits (`connect`, `send`, `receive`, `accept`, `recvfrom`) is the function
-- for one turn of its loop, which says on which task and generation it goes to wait.
--
-- Parts, in the order of their use:
--   Base              lists, bytes and Boolean tests on the native numbers; machine words keep
--                     their wrap-around (`u16`, `wrapping_add`, `wrapping_sub`)
--   Util              src/util.rs, `cksum16`, and `HexDump` in Util.Dump
--   Text              what the crate uses of the standard library on texts, which are lists of
--                     bytes: `split`, `split_once`, `rsplit_once`, `split_whitespace`, `trim`,
--                     `from_str_radix`, `{}` and `{:02x}`
--   Addr, Addr.Text   src/ip.rs, `IpAddr` and `IpEndp`, with `Display` and `FromStr`, also those
--                     of the socket addresses of src/sock.rs
--   Ether             src/ether.rs, addresses and the fields of a frame
--   Link              the state below the transport protocols (`Net`); Link.Devices is
--                     src/device.rs, Link.Driver the drivers (src/driver/loopback.rs,
--                     src/platform/linux/driver/ether_tap.rs) and `input_handler` of src/net.rs,
--                     Link.Tap the system calls of the tap and its read loop
--   Platform          src/platform/linux/intr.rs and timer.rs
--   Arp, Arp.Cache    src/arp.rs
--   Ip                src/ip.rs: `output`; Ip.Route the routing table, Ip.Packet the header,
--                     Ip.Iface `iface_register`
--   Task              src/platform/linux/task.rs
--   Table             the tables of optional entries that TCP, UDP and the sockets keep
--   Tcp               src/tcp.rs: Tcp.Segment the bytes of a segment, Tcp.Pcb the control blocks,
--                     Tcp.Arrives `segment_arrives` (Opening for CLOSED, LISTEN and SYN-SENT,
--                     Established for the eight checks behind), Tcp.Timer `on_timer`, Tcp.Api the
--                     calls of an application, Tcp.Stream a sequence of segments and calls at
--                     the receiving end, Tcp.Outgoing one at the sending end and the transfer
--                     between the two, Tcp.Handshake the opening
--   Icmp, Udp         src/icmp.rs and src/udp.rs
--   Print             the functions `print` of src/ether.rs, arp.rs, ip.rs, icmp.rs, udp.rs and
--                     tcp.rs: here what they share, the lines that one writes; each stands in
--                     the Print of its protocol, and Tcp.Print.Walk is about the options
--   Stack             src/net.rs and src/ip.rs: how a received packet finds its handler; a
--                     handler is a constructor where the crate stores a function pointer, and
--                     `none` stands for a panic
--   Stack.Sock        src/sock.rs; Stack.Sock.Calls has its calls as data, for rows of them
--   Stack.Lifecycle   `init`, `run` and `shutdown` of src/net.rs and src/platform/linux/mod.rs
--   Xtask             xtask/src/main.rs, over the commands that it runs (`Shell`, a parameter);
--                     Xtask.Nat the rules of iptables, Xtask.Main the flags
--   Tests             the theorems of the list below at concrete inputs
--
-- Functions keep the names of the source; a step of a long function has a name of its own, and the
-- comment above it says which step it is. The numbered checks of `segment_arrives` are composed
-- with `Flow`: a step returns, or goes on with the block.
--
-- What the platform gives is a parameter: in `Net` there are `now` (milliseconds), `random` (the
-- sequence that the generator gives) and `write_ok` (which frames `write` takes), `TapSys` and
-- `TapOpen` are what the system calls of the tap return and come to, `Env` has the calls at the
-- start, and `SigWait` and `Read` are the results of `sigwait` and `read`, one for each call.
-- `wire` records the frames sent. Lengths and indexes that go below zero panic, as with overflow
-- checks. Other sums and differences (the window, the sum of the checksum, the segment size of an
-- MTU) wrap at their width, as without these checks; the theorems on the window and on the checksum
-- have bounds under which nothing wraps. Not every read out of range is a panic of the model. The
-- host is little-endian, which `from_ne16` and `to_ne16` depend on.
--
-- Fuel: `fold_carries` runs three rounds, which are enough for a 32-bit sum. `pcb_release` calls
-- itself for the entries of the backlog; each call empties one backlog, so one more than the
-- entries of all backlogs are enough. `find_port` runs through the 16384 dynamic ports. The walk
-- over the options of a segment in `print` has the length of the header.
--
-- Not modelled: the log (so the models of the handlers leave their calls of `print` out, which
-- only write; what such a call writes, or that it panics, is in the modules Print), the threads
-- themselves (a thread is its loop, over what the calls that it waits in return), and the programs
-- in test.
pub mod Base
pub mod Util
pub mod Text
pub mod Addr
pub mod Link
pub mod Arp
pub mod Ip
pub mod Ether
pub mod Platform
pub mod Task
pub mod Table
pub mod Tcp
pub mod Icmp
pub mod Udp
pub mod Stack
pub mod Print
pub mod Xtask
pub mod Tests
