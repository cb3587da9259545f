-- ===== src/Tests/TcpCalls.antt =====
-- The calls of an application, on the connection of the test data.
use microps_rs.Base.{◌≡◌, refl, [], ◌∷◌, some, false, arith}
use microps_rs.Tcp.{Tcp, TcpPcb, empty}
use microps_rs.Tcp.Api.Connect.{connect_start}
use microps_rs.Tcp.Api.Bound.{IsBound, connect_start-bound}
use microps_rs.Tests.Data.{local, remote, tcp}

-- A socket that was bound to the port of the host.
abbrev bound : TcpPcb
bound = record (empty 2) { local = local }

abbrev bound_tcp : Tcp
bound_tcp = record tcp { pcbs = some bound ∷ [] }

bound-IsBound : IsBound bound
bound-IsBound = record { port = λ e. omega arith; remote_addr = refl; remote_port = refl }

connect_start-bound_example : connect_start 0 remote bound_tcp ≡ (false, bound_tcp)
connect_start-bound_example = connect_start-bound 0 bound remote bound_tcp refl bound-IsBound
