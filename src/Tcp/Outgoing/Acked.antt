-- ===== src/Tcp/Outgoing/Acked.antt =====
-- An acknowledgement leaves in the queue what it does not cover.
use microps_rs.Base.{
  ℕ, ◌+◌, ◌≤◌, ◌<◌, ◌≡◌, refl, sym, ap, subst, ◌∙◌, false, List, [], ◌∷◌, ◌++◌, arith, ltb, length,
  length-append, if_cases, wrapping_add,
}
use mathlib.Core.List.{append_assoc}
use microps_rs.Tcp.{TcpPcb, TcpQueueEntry, SegInfo}
use microps_rs.Tcp.Flags.{flag_isset}
use microps_rs.Tcp.Pcb.{consume, drop_acked}
use microps_rs.Tcp.Pcb.Retrans.{advance_una-lem}
use microps_rs.Tcp.Arrives.Steady.Acked.{Advances}
use microps_rs.Tcp.Outgoing.{texts, IsChain, Sends}

plain : (flg : ℕ) → flg ≡ 0x18 → flag_isset flg 3 ≡ false
unfolding flag_isset
plain flg h = subst (λ f. flag_isset f 3 ≡ false) (sym h) refl

consume_lem :
    (e : TcpQueueEntry)
    → e.flg ≡ 0x18
    → length e.payload < 4294967296
    → consume e ≡ length e.payload
unfolding consume
consume_lem e h lt = rw (plain e.flg h) (omega arith)

-- What is left of a chain behind an acknowledgement within it.
abbrev Left : ℕ → ℕ → List TcpQueueEntry → List TcpQueueEntry → Type 0
Left una at old new =
    (gone : List ℕ) × (gone ++ texts new ≡ texts old)
    × IsChain (at + length gone) new
    × (at + length gone ≤ una)

at_zero : (at : ℕ) (es : List TcpQueueEntry) → IsChain at es → IsChain (at + 0) es
at_zero at es h = let same : at ≡ at + 0 = omega arith in subst (λ n. IsChain n es) same h

drop_acked-Left :
    (una at : ℕ) (es : List TcpQueueEntry)
    → IsChain at es
    → at ≤ una
    → at + length (texts es) < 4294967296
    → Left una at es (drop_acked una es)
unfolding drop_acked
drop_acked-Left una at [] chain le small = ([], refl, tt, omega arith)
drop_acked-Left una at (e ∷ es) (seq, flg, chain) le small =
    let total = length-append e.payload (texts es) in
    let taken = consume_lem e flg (omega (arith, total)) in
    if_cases (Left una at (e ∷ es)) (ltb una (wrapping_add e.seq (consume e)))
      (λ _. ([], refl, at_zero at (e ∷ es) (seq, flg, chain), omega arith))
      λ over.
        let ends : at + length e.payload ≤ una =
          let passed : wrapping_add e.seq (consume e) ≤ una = ground arith in
          omega (arith, passed, taken, seq, total) in
        let (gone, same, kept, le') =
          drop_acked-Left una (at + length e.payload) es chain ends (omega (arith, total)) in
        let far : at + length e.payload + length gone ≡ at + length (e.payload ++ gone) =
          omega (arith, length-append e.payload gone) in
        (
          e.payload ++ gone,
          append_assoc e.payload gone (texts (drop_acked una es)) ∙ ap (λ l. e.payload ++ l) same,
          subst (λ n. IsChain n (drop_acked una es)) far kept,
          omega (arith, far, le'),
        )

-- Behind an acknowledgement the queue still holds the rest of what was sent.
pub Sends-Advances :
    (base : ℕ) (out : List ℕ) (p : TcpPcb) (seg : SegInfo)
    → base + length out < 4294967296
    → Sends base out p.snd p.queue
    → Advances (Sends base out) p seg
Sends-Advances base out p seg small (done, whole, chain, nxt, acked, within) new sent =
    let (una, same, queue) = advance_una-lem p seg in
    let total : length done + length (texts p.queue) ≡ length out =
      sym (length-append done (texts p.queue)) ∙ ap length whole in
    let (gone, cut, kept, le) =
      drop_acked-Left seg.ack (base + length done) p.queue chain (omega arith) (omega arith) in
    let far : base + length done + length gone ≡ base + length (done ++ gone) =
      omega (arith, length-append done gone) in
    (
      done ++ gone,
      rw queue (
          append_assoc done gone (texts (drop_acked seg.ack p.queue))
          ∙ ap (λ l. done ++ l) cut
          ∙ whole),
      rw queue (subst (λ n. IsChain n (drop_acked seg.ack p.queue)) far kept),
      same ∙ nxt,
      omega (arith, far, le, una),
      omega (arith, una, same, sent),
    )
