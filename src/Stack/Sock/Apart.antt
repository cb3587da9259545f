-- ===== src/Stack/Sock/Apart.antt =====
-- What the calls of src/sock.rs leave alone: the other sockets, and the blocks of the protocol that
-- the socket is not for.
use microps_rs.Base.{
  ℕ, ◌≡◌, refl, ap, subst, ◌∙◌, Bool, false, ◌⊎◌, inl, inr, List, Option, none, some, ◌==◌, ==_iff,
  if◌then◌else◌, Bool-cases, Option-cases, set, arith, if_cases,
}
use mathlib.Core.Option.{some-injective}
use microps_rs.Table.{slot, sock_alloc}
use microps_rs.Addr.{IpEndp}
use microps_rs.Udp.Pcb.{Udp}
use microps_rs.Tcp.{Tcp}
use microps_rs.Udp.Pcb.{pcb_release as udp_close}
use microps_rs.Udp.{bind as udp_bind}
use microps_rs.Tcp.Api.{bind as tcp_bind, close as tcp_close}
use microps_rs.Stack.Sock.{
  Sock, System, on_tcp, on_udp, new_sock, af_inet, sock_stream, sock_dgram, sock_of, close, bind,
}
use microps_rs.Stack.Sock.Calls.{type_at}

-- A socket that the crate makes.
abbrev pub IsTyped : Sock → Type 0
IsTyped k = (k.family ≡ af_inet) × ((k.ty ≡ sock_stream) ⊎ (k.ty ≡ sock_dgram))

abbrev pub AllTyped : List (Option Sock) → Type 0
AllTyped xs = (j : ℕ) (k : Sock) → slot xs j ≡ some k → IsTyped k

-- The table stays, or the one socket is closed, or one is made.
abbrev pub Entries : Option ℕ → List (Option Sock) → List (Option Sock) → Type 0
Entries closed xs ys =
    (ys ≡ xs)
    ⊎ ((d : ℕ) × (closed ≡ some d) × (ys ≡ set xs d none))
    ⊎ ((k : Sock) × (AllTyped xs → IsTyped k) × (ys ≡ (sock_alloc k xs).1))

-- The blocks of the one protocol stay, or those of the other, or all.
abbrev pub Blocks : Option ℕ → System → System → Type 0
Blocks ty s s' =
    ((s'.host.tcp_pcbs ≡ s.host.tcp_pcbs) × (s'.host.udp_pcbs ≡ s.host.udp_pcbs))
    ⊎ ((ty ≡ some sock_stream) × (s'.host.udp_pcbs ≡ s.host.udp_pcbs))
    ⊎ ((ty ≡ some sock_dgram) × (s'.host.tcp_pcbs ≡ s.host.tcp_pcbs))

abbrev pub Step : Option ℕ → Option ℕ → System → System → Type 0
Step closed ty s s' = Entries closed s.socks s'.socks × Blocks ty s s'

pub sock_of_lem :
    (ty desc : ℕ) (s : System) (k : Sock)
    → sock_of ty desc s ≡ some k
    → (slot s.socks desc ≡ some k) × (k.ty ≡ ty)
unfolding sock_of
sock_of_lem ty desc s k h = elim (Option-cases (slot s.socks desc)) [
  | inl e ↦ let wrong = rw (e, sock_of) at h in absurd (cc)
  | inr (q, e) ↦ elim (Bool-cases (q.ty == ty)) [
    | inl b ↦
        let same : q ≡ k = some-injective q k (rw (e, b, sock_of) at h) in
        subst (λ x. (slot s.socks desc ≡ some x) × (x.ty ≡ ty)) same (e, ground arith)
    | inr b ↦ let wrong = rw (e, b, sock_of) at h in absurd (cc)
  ]
]

pub type_at_lem :
    (desc : ℕ) (s : System) (k : Sock) → slot s.socks desc ≡ some k → type_at desc s ≡ some k.ty
type_at_lem desc s k h = rw (h, type_at) refl

pub stays : (closed ty : Option ℕ) (s : System) → Step closed ty s s
stays closed ty s = (inl refl, inl (refl, refl))

-- A call that is for one type of socket.
abbrev for_tcp : {A : Type 0} → Option Sock → A → (Sock → Tcp → A × Tcp) → System → A × System
for_tcp o x f s = elim o [ none ↦ (x, s) | some k ↦ on_tcp (f k) s ]

abbrev for_udp : {A : Type 0} → Option Sock → A → (Sock → Udp → A × Udp) → System → A × System
for_udp o x f s = elim o [ none ↦ (x, s) | some k ↦ on_udp (f k) s ]

pub tcp_call :
    {A : Type 0} (desc : ℕ) (s : System) (x : A) (f : Sock → Tcp → A × Tcp)
    → Step none (type_at desc s) s (for_tcp (sock_of sock_stream desc s) x f s).1
tcp_call desc s x f = elim (Option-cases (sock_of sock_stream desc s)) [
  | inl e ↦ rw (e, for_tcp) (stays none (type_at desc s) s)
  | inr (k, e) ↦
      let (found, ty) = sock_of_lem sock_stream desc s k e in
      let named = type_at_lem desc s k found ∙ ap some ty in
      rw (e, for_tcp) (inl refl, inr (inl (named, refl)))
]

pub udp_call :
    {A : Type 0} (desc : ℕ) (s : System) (x : A) (f : Sock → Udp → A × Udp)
    → Step none (type_at desc s) s (for_udp (sock_of sock_dgram desc s) x f s).1
udp_call desc s x f = elim (Option-cases (sock_of sock_dgram desc s)) [
  | inl e ↦ rw (e, for_udp) (stays none (type_at desc s) s)
  | inr (k, e) ↦
      let (found, ty) = sock_of_lem sock_dgram desc s k e in
      let named = type_at_lem desc s k found ∙ ap some ty in
      rw (e, for_udp) (inl refl, inr (inr (named, refl)))
]

-- A call that takes either type.
by_type :
    (n : ℕ) (t : System) (f : Tcp → Bool × Tcp) (g : Udp → Bool × Udp)
    → let t' =
        (if n == sock_stream
          then on_tcp f t
          else if n == sock_dgram
          then on_udp g t
          else (false, t)).1 in
      (t'.socks ≡ t.socks) × Blocks (some n) t t'
by_type n t f g =
    let P : Bool × System → Type 0 = λ r. (r.1.socks ≡ t.socks) × Blocks (some n) t r.1 in
    if_cases P (n == sock_stream)
      (λ e. (refl, inr (inl (ap some (omega (arith, (==_iff n sock_stream).0 e)), refl))))
      λ _.
        if_cases P (n == sock_dgram)
          (λ e. (refl, inr (inr (ap some (omega (arith, (==_iff n sock_dgram).0 e)), refl))))
          λ _. (refl, inl (refl, refl))

pub bind-Step :
    (desc : ℕ) (endp : IpEndp) (s : System) → Step none (type_at desc s) s (bind desc endp s).1
unfolding bind
bind-Step desc endp s = elim (Option-cases (slot s.socks desc)) [
  | inl e ↦ rw (e, bind) (inl refl, inl (refl, refl))
  | inr (k, e) ↦
      let (same, blocks) = by_type k.ty s (tcp_bind k.desc endp) (udp_bind k.desc endp) in
      elim (Bool-cases (k.family == af_inet)) [
        | inl known ↦ rw (e, bind, known, type_at) (inl same, blocks)
        | inr other ↦ rw (e, bind, other) (inl refl, inl (refl, refl))
      ]
]

pub close-Step : (desc : ℕ) (s : System) → Step (some desc) (type_at desc s) s (close desc s).1
unfolding close
close-Step desc s = elim (Option-cases (slot s.socks desc)) [
  | inl e ↦ rw (e, close) (inl refl, inl (refl, refl))
  | inr (k, e) ↦
      let t : System = record s { socks = set s.socks desc none } in
      let (same, blocks) = by_type k.ty t (tcp_close k.desc) (udp_close k.desc) in
      rw (e, close, type_at) (inr (inl (desc, refl, same)), blocks)
]

pub new_sock-Entries :
    (closed : Option ℕ) (family ty : ℕ) (o : Option ℕ) (t : System)
    → (family ≡ af_inet)
    → (ty ≡ sock_stream) ⊎ (ty ≡ sock_dgram)
    → Entries closed t.socks (new_sock family ty o t).1.socks
new_sock-Entries closed family ty none t inet known = inl refl
new_sock-Entries closed family ty (some d) t inet known =
    inr (inr (record { family = family; ty = ty; desc = d }, λ _. (inet, known), refl))

pub new_sock-host :
    (family ty : ℕ) (o : Option ℕ) (t : System) → (new_sock family ty o t).1.host ≡ t.host
new_sock-host family ty none t = refl
new_sock-host family ty (some d) t = refl
