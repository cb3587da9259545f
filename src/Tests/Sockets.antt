-- ===== src/Tests/Sockets.antt =====
-- A row of calls on two sockets, of TCP and of UDP.
use microps_rs.Base.{zero, suc, ◌≡◌, ◌≢◌, refl, subst, inl, inr, List, [], ◌∷◌, some, arith, All}
use mathlib.Core.Option.{some-injective}
use microps_rs.Table.{slot}
use microps_rs.Task.{fresh_task}
use microps_rs.Udp.Pcb.{empty}
use microps_rs.Stack.{Host}
use microps_rs.Stack.Sock.{Sock, System, af_inet, sock_stream, sock_dgram}
use microps_rs.Stack.Sock.Calls.{
  Call, opens, closes, binds, sends, sends_to, receives_from, run, closing,
}
use microps_rs.Stack.Sock.Apart.{AllTyped, IsTyped}
use microps_rs.Stack.Sock.Kept.{Apart, run-Apart}
use microps_rs.Tests.Data.{net, conn, local, remote}

abbrev host : Host
host = record {
  net = net;
  tasks = fresh_task ∷ fresh_task ∷ [];
  ip_protocols = [];
  udp_pcbs = some (empty 1) ∷ [];
  tcp_pcbs = some conn ∷ [];
}

abbrev stream : Sock
stream = record { family = af_inet; ty = sock_stream; desc = 0 }

abbrev dgram : Sock
dgram = record { family = af_inet; ty = sock_dgram; desc = 0 }

abbrev system : System
system = record { socks = some stream ∷ some dgram ∷ []; host = host }

-- A call on a socket of the other type fails.
abbrev calls : List Call
calls =
    sends 1 (1 ∷ []) 0
    ∷ binds 1 local
    ∷ sends_to 1 (7 ∷ 8 ∷ []) remote
    ∷ sends 0 (7 ∷ 8 ∷ []) 0
    ∷ closes 0
    ∷ opens af_inet sock_dgram
    ∷ receives_from 1 10
    ∷ []

none_close : All (λ c. closing c ≢ some 1) calls
none_close = (
  (λ e. absurd (cc)),
  (
    (λ e. absurd (cc)),
    (
      (λ e. absurd (cc)),
      (
        (λ e. absurd (cc)),
        (
          (λ e. omega (arith, some-injective 0 1 e)),
          ((λ e. absurd (cc)), ((λ e. absurd (cc)), tt)),
        ),
      ),
    ),
  ),
)

system-AllTyped : AllTyped system.socks
system-AllTyped zero k e = subst IsTyped (some-injective stream k e) (refl, inl refl)
system-AllTyped (suc zero) k e = subst IsTyped (some-injective dgram k e) (refl, inr refl)
system-AllTyped (suc (suc j)) k e = absurd (cc)

run-Apart_example :
    (slot (run calls system).socks 1 ≡ some dgram)
    × AllTyped (run calls system).socks
    × Apart calls system
run-Apart_example = run-Apart calls system 1 dgram none_close system-AllTyped refl
