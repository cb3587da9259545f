-- ===== src/Stack/Sock/Steps.antt =====
-- Each call of src/sock.rs as a step on the table of sockets and on the blocks.
use microps_rs.Base.{
  ℕ, ◌≡◌, refl, ap, ◌∙◌, false, not, inl, inr, Option, none, some, ◌==◌, ==_iff, Option-cases,
  arith, if_cases,
}
use microps_rs.Table.{slot, sock_alloc}
use microps_rs.Addr.{IpEndp}
use microps_rs.Udp.Pcb.{pcb_alloc as udp_open}
use microps_rs.Udp.{not_bound, sendto as udp_sendto, recvfrom_poll}
use microps_rs.Stack.{Host}
use microps_rs.Tcp.Api.{open_socket, start_listen}
use microps_rs.Tcp.Api.Connect.{connect_start}
use microps_rs.Tcp.Api.Transfer.{
  Poll, ready, failed, again, wait, accept_poll, send_poll, receive_poll,
}
use microps_rs.Stack.Sock.{
  Sock, System, on_tcp, on_udp, af_inet, sock_stream, sock_dgram, sock_of, accepted, open_sock,
  listen, accept, connect, send, recv, sendto, recvfrom,
}
use microps_rs.Stack.Sock.Calls.{
  Call, opens, closes, binds, listens, accepts, connects, sends, receives, sends_to, receives_from,
  perform, closing, type_at, type_of,
}
use microps_rs.Stack.Sock.Apart.{
  Step, stays, tcp_call, udp_call, bind-Step, close-Step, new_sock-Entries, new_sock-host,
  sock_of_lem, type_at_lem,
}

open-Step : (family ty : ℕ) (s : System) → Step none (some ty) s (open_sock family ty s).1
unfolding open_sock
open-Step family ty s =
    let P : Option ℕ × System → Type 0 = λ r. Step none (some ty) s r.1 in
    let (t, st) = on_tcp open_socket s in
    let (u, su) = on_udp udp_open s in
    if_cases P (not (family == af_inet)) (λ _. stays none (some ty) s)
      λ e.
        let inet : family ≡ af_inet = ground arith in
        if_cases P (ty == sock_stream)
          (λ e.
            let known : ty ≡ sock_stream = (==_iff ty sock_stream).0 e in
            (
              new_sock-Entries none family ty t st inet (inl known),
              inr (
                  inl
                    (ap some known, ap (λ (h : Host). h.udp_pcbs) (new_sock-host family ty t st))),
            ))
          λ _.
            if_cases P (ty == sock_dgram)
              (λ e.
                let known : ty ≡ sock_dgram = (==_iff ty sock_dgram).0 e in
                (
                  new_sock-Entries none family ty u su inet (inr known),
                  inr (
                      inr (
                        ap some known,
                        ap (λ (h : Host). h.tcp_pcbs) (new_sock-host family ty u su),
                      )),
                ))
              λ _. stays none (some ty) s

accepted-Step :
    (desc : ℕ) (k : Sock) (r : Poll (ℕ × IpEndp)) (s t : System)
    → slot s.socks desc ≡ some k
    → k.ty ≡ sock_stream
    → t.socks ≡ s.socks
    → t.host.udp_pcbs ≡ s.host.udp_pcbs
    → Step none (type_at desc s) s (accepted k r t).1
unfolding accepted
accepted-Step desc k (ready (d, remote)) s t found ty socks udp =
    let e : Sock = record k { desc = d } in
    let named = type_at_lem desc s k found ∙ ap some ty in
    (
      inr (inr (e, (λ all. all desc k found), ap (λ xs. (sock_alloc e xs).1) socks)),
      inr (inl (named, udp)),
    )
accepted-Step desc k failed s t found ty socks udp =
    (inl socks, inr (inl (type_at_lem desc s k found ∙ ap some ty, udp)))
accepted-Step desc k again s t found ty socks udp =
    (inl socks, inr (inl (type_at_lem desc s k found ∙ ap some ty, udp)))
accepted-Step desc k (wait task generation) s t found ty socks udp =
    (inl socks, inr (inl (type_at_lem desc s k found ∙ ap some ty, udp)))

accept-Step : (desc : ℕ) (s : System) → Step none (type_at desc s) s (accept desc s).1
unfolding accept
accept-Step desc s = elim (Option-cases (sock_of sock_stream desc s)) [
  | inl e ↦ rw (e, accept) (stays none (type_at desc s) s)
  | inr (k, e) ↦
      let (found, ty) = sock_of_lem sock_stream desc s k e in
      let (r, t) = on_tcp (accept_poll k.desc) s in
      rw (e, accept) (accepted-Step desc k r s t found ty refl refl)
]

pub perform-Step : (c : Call) (s : System) → Step (closing c) (type_of c s) s (perform c s)
unfolding listen connect send recv sendto recvfrom
perform-Step (opens family ty) s = open-Step family ty s
perform-Step (closes desc) s = close-Step desc s
perform-Step (binds desc endp) s = bind-Step desc endp s
perform-Step (listens desc backlog) s = tcp_call desc s false (λ k. start_listen k.desc backlog)
perform-Step (accepts desc) s = accept-Step desc s
perform-Step (connects desc remote) s = tcp_call desc s false (λ k. connect_start k.desc remote)
perform-Step (sends desc payload sent) s =
    tcp_call desc s (failed, sent)
      (λ k t. let r = send_poll k.desc payload sent t in ((r.poll, r.sent), r.after))
perform-Step (receives desc len) s = tcp_call desc s failed (λ k. receive_poll k.desc len)
perform-Step (sends_to desc payload remote) s =
    udp_call desc s none (λ k. udp_sendto k.desc payload remote)
perform-Step (receives_from desc len) s = udp_call desc s not_bound (λ k. recvfrom_poll k.desc len)
