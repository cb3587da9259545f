-- ===== src/Stack/Sock/Calls.antt =====
-- The calls of src/sock.rs as data, for what is said of all of them.
use microps_rs.Base.{ℕ, List, [], ◌∷◌, Option, none, some}
use microps_rs.Addr.{IpEndp}
use microps_rs.Table.{slot}
use microps_rs.Stack.Sock.{
  System, open_sock, close, bind, listen, accept, connect, send, recv, sendto, recvfrom,
}

pub data Call : Type 0 where
  opens : ℕ → ℕ → Call
  closes : ℕ → Call
  binds : ℕ → IpEndp → Call
  listens : ℕ → ℕ → Call
  accepts : ℕ → Call
  connects : ℕ → IpEndp → Call
  sends : ℕ → List ℕ → ℕ → Call
  receives : ℕ → ℕ → Call
  sends_to : ℕ → List ℕ → IpEndp → Call
  receives_from : ℕ → ℕ → Call

-- The state behind a call.
abbrev pub perform : Call → System → System
perform (opens family ty) s = (open_sock family ty s).1
perform (closes desc) s = (close desc s).1
perform (binds desc endp) s = (bind desc endp s).1
perform (listens desc backlog) s = (listen desc backlog s).1
perform (accepts desc) s = (accept desc s).1
perform (connects desc remote) s = (connect desc remote s).1
perform (sends desc payload sent) s = (send desc payload sent s).1
perform (receives desc len) s = (recv desc len s).1
perform (sends_to desc payload remote) s = (sendto desc payload remote s).1
perform (receives_from desc len) s = (recvfrom desc len s).1

abbrev pub run : List Call → System → System
run [] s = s
run (c ∷ cs) s = run cs (perform c s)

-- The socket that a call closes.
abbrev pub closing : Call → Option ℕ
closing (closes desc) = some desc
closing _ = none

-- The type of a socket in use.
abbrev pub type_at : ℕ → System → Option ℕ
type_at desc s = elim (slot s.socks desc) [ none ↦ none | some k ↦ some k.ty ]

-- The type of the socket that a call names, or makes.
abbrev pub type_of : Call → System → Option ℕ
type_of (opens family ty) s = some ty
type_of (closes desc) s = type_at desc s
type_of (binds desc endp) s = type_at desc s
type_of (listens desc backlog) s = type_at desc s
type_of (accepts desc) s = type_at desc s
type_of (connects desc remote) s = type_at desc s
type_of (sends desc payload sent) s = type_at desc s
type_of (receives desc len) s = type_at desc s
type_of (sends_to desc payload remote) s = type_at desc s
type_of (receives_from desc len) s = type_at desc s
