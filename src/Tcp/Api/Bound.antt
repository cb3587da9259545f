-- ===== src/Tcp/Api/Bound.antt =====
-- `connect` of src/tcp.rs on a socket that was bound.
use microps_rs.Base.{
  ℕ, ◌≡◌, ◌≢◌, refl, sym, Bool, true, false, not, ◌&&◌, ◌||◌, inl, inr, List, Option, none, some,
  ◌==◌, ==_refl, ==_iff, is_none, Bool-cases, Option-cases,
}
use mathlib.Core.Option.{some-injective}
use microps_rs.Addr.{IpAddr, IpEndp, addr_eq, addr_eq_refl, any}
use microps_rs.Link.{IpRoute}
use microps_rs.Table.{slot}
use microps_rs.Tcp.{Tcp, TcpPcb}
use microps_rs.Tcp.Pcb.{endp_match, is_listen, pcb_select}
use microps_rs.Tcp.Pcb.Select.{IsChosen, pcb_select-IsChosen}
use microps_rs.Tcp.Api.Connect.{local_addr, local_port, choose_local, connect_start}

-- Where a block matches, something is selected.
selected :
    (local remote : IpEndp) (ps : List (Option TcpPcb)) (d : ℕ) (p : TcpPcb)
    → slot ps d ≡ some p
    → endp_match local remote p ≡ true
    → is_none (pcb_select local remote ps) ≡ false
selected local remote ps d p found m =
    found_in (pcb_select local remote ps) (pcb_select-IsChosen local remote ps)
  where
    found_in : (o : Option ℕ) → IsChosen local remote ps o → is_none o ≡ false
    found_in (some i) h = refl
    found_in none h = elim (Bool-cases (is_listen p.state)) [
      | inl l ↦ absurd (h.1 d p found (m, l))
      | inr c ↦ absurd (h.0 d p found (m, c))
    ]

-- A block that is bound, and not connected.
pub record IsBound (p : TcpPcb) : Type 0 where
  pub port : p.local.port ≢ 0
  pub remote_addr : p.remote.addr ≡ any
  pub remote_port : p.remote.port ≡ 0

matches_self :
    (p : TcpPcb) (remote : IpEndp) (addr : IpAddr)
    → IsBound p
    → (addr_eq p.local.addr addr || addr_eq p.local.addr any) ≡ true
    → endp_match (record { addr = addr; port = p.local.port }) remote p ≡ true
unfolding endp_match
matches_self p remote addr h e =
    rw (==_refl p.local.port, h.remote_addr, h.remote_port, addr_eq_refl any)
      (pick (addr_eq p.local.addr addr) (addr_eq p.local.addr any) (not (addr_eq addr any))
        (addr_eq any remote.addr && (0 == remote.port)) e)
  where
    pick :
        (a b c d : Bool)
        → (a || b) ≡ true
        → (true
            && ((a || (b || c))
                && (d || (true || (addr_eq remote.addr any && (remote.port == 0))))))
          ≡ true
    pick true b c true e = refl
    pick true b c false e = refl
    pick false true c true e = refl
    pick false true c false e = refl
    pick false false c d e = absurd (cc)

choose_local-bound :
    (p : TcpPcb) (remote : IpEndp) (routes : List IpRoute) (ps : List (Option TcpPcb)) (d : ℕ)
    → slot ps d ≡ some p
    → IsBound p
    → choose_local p.local remote routes ps ≡ none
unfolding choose_local local_addr local_port
choose_local-bound p remote routes ps d found h =
    elim (Option-cases (local_addr p.local.addr remote.addr routes)) [
      | inl e ↦ rw (e, choose_local) refl
      | inr (addr, e) ↦
          let taken =
            selected (record { addr = addr; port = p.local.port }) remote ps d p found
              (matches_self p remote addr h (covers addr e)) in
          let given : local_port p.local.port addr remote ps ≡ some p.local.port =
            rw assigned refl in
          rw (e, given, taken, choose_local) refl
    ]
  where
    assigned : (p.local.port == 0) ≡ false
    assigned = elim (Bool-cases (p.local.port == 0)) [
      | inl t ↦ absurd (h.port ((==_iff p.local.port 0).0 t))
      | inr f ↦ f
    ]

    covers :
        (addr : IpAddr)
        → local_addr p.local.addr remote.addr routes ≡ some addr
        → (addr_eq p.local.addr addr || addr_eq p.local.addr any) ≡ true
    covers addr e = elim (Bool-cases (addr_eq p.local.addr any)) [
      | inl t ↦ rw t (last (addr_eq p.local.addr addr))
      | inr f ↦
          rw (sym (some-injective p.local.addr addr (rw f at e)), addr_eq_refl p.local.addr) refl
    ]
      where
        last : (b : Bool) → (b || true) ≡ true
        last true = refl
        last false = refl

-- `connect` on a socket that was bound to a port always fails, and changes nothing: the test for
-- an address in use finds the socket's own block.
pub connect_start-bound :
    (desc : ℕ) (p : TcpPcb) (remote : IpEndp) (s : Tcp)
    → slot s.pcbs desc ≡ some p
    → IsBound p
    → connect_start desc remote s ≡ (false, s)
unfolding connect_start
connect_start-bound desc p remote s found h =
    rw (found, choose_local-bound p remote s.net.routes s.pcbs desc found h, connect_start) refl
