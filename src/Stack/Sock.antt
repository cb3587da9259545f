-- ===== src/Stack/Sock.antt =====
-- src/sock.rs: sockets are names for blocks of TCP and UDP. Of the calls that wait there is one
-- turn of the loop, as in the protocols below.
pub mod Calls
pub mod Apart
pub mod Kept
pub mod Steps
use microps_rs.Base.{ℕ, Bool, false, not, List, Option, none, some, ◌==◌, if◌then◌else◌, set}
use microps_rs.Addr.{IpEndp}
use microps_rs.Table.{slot, sock_alloc}
use microps_rs.Stack.{Host, udp_view, set_udp, tcp_view, set_tcp}
use microps_rs.Udp.Pcb.{Udp, pcb_alloc as udp_open, pcb_release as udp_close}
use microps_rs.Udp.{Received, not_bound, bind as udp_bind, sendto as udp_sendto, recvfrom_poll}
use microps_rs.Tcp.{Tcp}
use microps_rs.Tcp.Api.{open_socket, bind as tcp_bind, start_listen, close as tcp_close}
use microps_rs.Tcp.Api.Connect.{connect_start}
use microps_rs.Tcp.Api.Transfer.{Poll, ready, failed, send_poll, receive_poll, accept_poll}

abbrev pub af_inet : ℕ
af_inet = 2

abbrev pub sock_stream : ℕ
sock_stream = 1

abbrev pub sock_dgram : ℕ
sock_dgram = 2

pub record Sock : Type 0 where
  pub family : ℕ
  pub ty : ℕ
  pub desc : ℕ

-- The statics of the crate with `SOCKS`.
pub record System : Type 0 where
  pub socks : List (Option Sock)
  pub host : Host

-- A call of one protocol, in the whole system.
abbrev pub on_tcp {ℓ} : {A : Type ℓ} → (Tcp → A × Tcp) → System → A × System
on_tcp f s = let (a, t) = f (tcp_view s.host) in (a, record s { host = set_tcp t s.host })

abbrev pub on_udp {ℓ} : {A : Type ℓ} → (Udp → A × Udp) → System → A × System
on_udp f s = let (a, u) = f (udp_view s.host) in (a, record s { host = set_udp u s.host })

-- A new socket for a block of the protocol, if there was one.
abbrev pub new_sock : ℕ → ℕ → Option ℕ → System → Option ℕ × System
new_sock family ty none s = (none, s)
new_sock family ty (some desc) s =
    let entry : Sock = record { family = family; ty = ty; desc = desc } in
    let (d, socks) = sock_alloc entry s.socks in (some d, record s { socks = socks })

unfoldable pub open_sock : ℕ → ℕ → System → Option ℕ × System
open_sock family ty s =
    let (t, st) = on_tcp open_socket s in
    let (u, su) = on_udp udp_open s in
    if not (family == af_inet)
    then (none, s)
    else if ty == sock_stream
    then new_sock family ty t st
    else if ty == sock_dgram
    then new_sock family ty u su
    else (none, s)

-- The socket is freed also where the protocol then refuses to close its block.
unfoldable pub close : ℕ → System → Bool × System
close desc s = elim (slot s.socks desc) [
  | none ↦ (false, s)
  | some k ↦
      let s' : System = record s { socks = set s.socks desc none } in
      if k.ty == sock_stream
      then on_tcp (tcp_close k.desc) s'
      else if k.ty == sock_dgram
      then on_udp (udp_close k.desc) s'
      else (false, s')
]

unfoldable pub bind : ℕ → IpEndp → System → Bool × System
bind desc endp s = elim (slot s.socks desc) [
  | none ↦ (false, s)
  | some k ↦
      if not (k.family == af_inet)
      then (false, s)
      else if k.ty == sock_stream
      then on_tcp (tcp_bind k.desc endp) s
      else if k.ty == sock_dgram
      then on_udp (udp_bind k.desc endp) s
      else (false, s)
]

-- The calls that want a socket of one type find it, or fail.
unfoldable pub sock_of : ℕ → ℕ → System → Option Sock
sock_of ty desc s = elim (slot s.socks desc) [
  | none ↦ none
  | some k ↦ if k.ty == ty then some k else none
]

unfoldable pub listen : ℕ → ℕ → System → Bool × System
listen desc backlog s = elim (sock_of sock_stream desc s) [
  | none ↦ (false, s)
  | some k ↦ on_tcp (start_listen k.desc backlog) s
]

-- The new connection gets a socket of the same family and type.
unfoldable pub accepted : Sock → Poll (ℕ × IpEndp) → System → Poll (ℕ × IpEndp) × System
accepted k (ready (d, remote)) s =
    let (new_desc, socks) = sock_alloc (record k { desc = d }) s.socks in
    (ready (new_desc, remote), record s { socks = socks })
accepted k other s = (other, s)

unfoldable pub accept : ℕ → System → Poll (ℕ × IpEndp) × System
accept desc s = elim (sock_of sock_stream desc s) [
  | none ↦ (failed, s)
  | some k ↦ let (r, s') = on_tcp (accept_poll k.desc) s in accepted k r s'
]

unfoldable pub connect : ℕ → IpEndp → System → Bool × System
connect desc remote s = elim (sock_of sock_stream desc s) [
  | none ↦ (false, s)
  | some k ↦ on_tcp (connect_start k.desc remote) s
]

unfoldable pub send : ℕ → List ℕ → ℕ → System → (Poll ℕ × ℕ) × System
send desc payload sent s = elim (sock_of sock_stream desc s) [
  | none ↦ ((failed, sent), s)
  | some k ↦ on_tcp (λ t. let r = send_poll k.desc payload sent t in ((r.poll, r.sent), r.after)) s
]

unfoldable pub recv : ℕ → ℕ → System → Poll (List ℕ) × System
recv desc len s = elim (sock_of sock_stream desc s) [
  | none ↦ (failed, s)
  | some k ↦ on_tcp (receive_poll k.desc len) s
]

unfoldable pub sendto : ℕ → List ℕ → IpEndp → System → Option ℕ × System
sendto desc payload remote s = elim (sock_of sock_dgram desc s) [
  | none ↦ (none, s)
  | some k ↦ on_udp (udp_sendto k.desc payload remote) s
]

unfoldable pub recvfrom : ℕ → ℕ → System → Received × System
recvfrom desc len s = elim (sock_of sock_dgram desc s) [
  | none ↦ (not_bound, s)
  | some k ↦ on_udp (recvfrom_poll k.desc len) s
]
