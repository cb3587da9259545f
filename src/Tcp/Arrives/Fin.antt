-- ===== src/Tcp/Arrives/Fin.antt =====
-- A FIN that comes with text, in `segment_arrives` of src/tcp.rs.
use microps_rs.Base.{
  ℕ, ◌<◌, ◌≤◌, ◌≡◌, refl, ap, ◌∙◌, true, false, List, ◌++◌, some, arith, length, ltb, ◌==◌, ==_iff,
  is_empty, wrapping_add,
}
use microps_rs.Table.{slot}
use microps_rs.Table.Laws.{slot-lt, slot-set_self}
use microps_rs.Tcp.{established, close_wait, Tcp, TcpPcb, SegInfo, RcvVars}
use microps_rs.Tcp.Flags.{flag_isset, fin, ack}
use microps_rs.Tcp.Pcb.{emit, store, notify, transition}
use microps_rs.Tcp.Pcb.Queue.{emit-state, emit-rcv, emit-buf, emit-pcbs}
use microps_rs.Tcp.Arrives.Established.{
  go, after_ack, process_text, process_fin, take_text, take_fin, fin_transition,
  is_closed_or_listen, is_receiving,
}

-- The block behind the acknowledgement of the text, and the state with it.
abbrev pub texted : TcpPcb → SegInfo → List ℕ → Tcp → TcpPcb
texted p seg payload s = (emit ack (take_text p seg payload) s).0

abbrev pub with_text : TcpPcb → SegInfo → List ℕ → Tcp → Tcp
with_text p seg payload s = notify (texted p seg payload s) (emit ack (take_text p seg payload) s).1

pub text_step :
    (desc : ℕ) (p : TcpPcb) (seg : SegInfo) (payload : List ℕ) (s : Tcp)
    → p.state ≡ established
    → is_empty payload ≡ false
    → p.rcv.nxt ≡ seg.seq
    → length payload ≤ p.rcv.wnd
    → process_text desc p seg payload s ≡ go (texted p seg payload s) (with_text p seg payload s)
unfolding process_text
text_step desc p seg payload s est some_text order fits =
    let a : is_receiving p.state ≡ true = ap is_receiving est in
    let b : (p.rcv.nxt == seg.seq) ≡ true = (==_iff p.rcv.nxt seg.seq).1 order in
    let c : ltb p.rcv.wnd (length payload) ≡ false = ground arith in
    rw (a, some_text, b, c, process_text) refl

-- The FIN of an established connection.
fin_step :
    (desc : ℕ) (p : TcpPcb) (seg : SegInfo) (s : Tcp)
    → p.state ≡ established
    → desc < length s.pcbs
    → (q : TcpPcb) × (slot (process_fin desc p seg s).pcbs desc ≡ some q)
      × (q.state ≡ close_wait)
      × (q.buf ≡ p.buf)
      × (q.rcv.nxt ≡ wrapping_add seg.seq 1)
unfolding process_fin
fin_step desc p seg s est lt =
    let p1 = (emit ack (take_fin p seg) s).0 in
    let s1 = (emit ack (take_fin p seg) s).1 in
    let a : is_closed_or_listen p.state ≡ false = ap is_closed_or_listen est in
    let b : p1.state ≡ established = emit-state ack (take_fin p seg) s ∙ unfold take_fin in est in
    let c : fin_transition p1.state p1 seg s1 ≡ (transition close_wait p1, notify p1 s1) =
      ap (λ x. fin_transition x p1 seg s1) b ∙ unfold fin_transition in refl in
    let d : process_fin desc p seg s ≡ store desc (transition close_wait p1) (notify p1 s1) =
      rw (a, c, process_fin) refl in
    (
      transition close_wait p1,
      ap (λ (t : Tcp). slot t.pcbs desc) d
          ∙ slot-set_self s1.pcbs desc _ (rw (emit-pcbs ack (take_fin p seg) s) lt),
      refl,
      emit-buf ack (take_fin p seg) s ∙ unfold take_fin in refl,
      ap (λ (r : RcvVars). r.nxt) (emit-rcv ack (take_fin p seg) s) ∙ unfold take_fin in refl,
    )

-- A connection in ESTABLISHED that gets the text it expects, with room for it in the window and a
-- FIN behind it, takes the text, but then expects the sequence number behind the first byte of the
-- segment again, instead of the one behind the FIN.
pub after_ack-fin :
    (desc : ℕ) (p : TcpPcb) (seg : SegInfo) (flags : ℕ) (payload : List ℕ) (s : Tcp)
    → slot s.pcbs desc ≡ some p
    → p.state ≡ established
    → is_empty payload ≡ false
    → p.rcv.nxt ≡ seg.seq
    → length payload ≤ p.rcv.wnd
    → flag_isset flags fin ≡ true
    → (q : TcpPcb) × (slot (after_ack desc p seg flags payload s).pcbs desc ≡ some q)
      × (q.state ≡ close_wait)
      × (q.buf ≡ p.buf ++ payload)
      × (q.rcv.nxt ≡ wrapping_add seg.seq 1)
unfolding after_ack
after_ack-fin desc p seg flags payload s found est some_text order fits f =
    let q = texted p seg payload s in
    let t = with_text p seg payload s in
    let a : after_ack desc p seg flags payload s ≡ process_fin desc q seg t =
      rw (text_step desc p seg payload s est some_text order fits, f, after_ack) refl in
    let b : q.state ≡ established =
      emit-state ack (take_text p seg payload) s ∙ unfold take_text in est in
    let c : q.buf ≡ p.buf ++ payload =
      emit-buf ack (take_text p seg payload) s ∙ unfold take_text in refl in
    let (r, stored, state, buf, nxt) =
      fin_step desc q seg t b
        (rw (emit-pcbs ack (take_text p seg payload) s) (slot-lt s.pcbs desc p found)) in
    (r, ap (λ (u : Tcp). slot u.pcbs desc) a ∙ stored, state, buf ∙ c, nxt)
