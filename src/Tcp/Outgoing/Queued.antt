-- ===== src/Tcp/Outgoing/Queued.antt =====
-- The retransmission queue of src/tcp.rs as the text that it holds: a segment that is put behind it,
-- and entries that wait longer.
use microps_rs.Base.{
  ℕ, ◌+◌, ◌≡◌, refl, sym, ap, ◌∙◌, List, [], ◌∷◌, ◌++◌, map, arith, leb, length, length-append,
  if_cases,
}
use mathlib.Core.List.{append_assoc, append-nil}
use microps_rs.Tcp.{TcpPcb, TcpQueueEntry}
use microps_rs.Tcp.Flags.{flag_isset}
use microps_rs.Tcp.Pcb.{queued, is_kept, output_seq, retrans_queue_add, default_rto}
use microps_rs.Tcp.Timer.{backoff}
use microps_rs.Tcp.Outgoing.{texts, IsChain}

texts-append :
    (es : List TcpQueueEntry) (e : TcpQueueEntry) → texts (es ++ e ∷ []) ≡ texts es ++ e.payload
texts-append [] e = append-nil e.payload
texts-append (d ∷ es) e =
    ap (λ l. d.payload ++ l) (texts-append es e) ∙ sym (append_assoc d.payload (texts es) e.payload)

IsChain-append :
    (at : ℕ) (es : List TcpQueueEntry) (e : TcpQueueEntry)
    → IsChain at es
    → e.seq ≡ at + length (texts es)
    → e.flg ≡ 0x18
    → IsChain at (es ++ e ∷ [])
IsChain-append at [] e chain seq flg = (omega arith, flg, tt)
IsChain-append at (d ∷ es) e (dseq, dflg, chain) seq flg = (
  dseq,
  dflg,
  IsChain-append (at + length d.payload) es e chain
      (omega (arith, length-append d.payload (texts es), seq)) flg,
)

-- A segment with text is put behind the queue, and one without is not kept.
abbrev pub Queued : ℕ → List ℕ → TcpPcb → List TcpQueueEntry → Type 0
Queued seq text p queue =
    (texts queue ≡ texts p.queue ++ text)
    × ((at : ℕ) → IsChain at p.queue → seq ≡ at + length (texts p.queue) → IsChain at queue)

pub queued-Queued :
    (now : ℕ) (text : List ℕ) (p : TcpPcb) → Queued p.snd.nxt text p (queued now 0x18 text p).queue
unfolding queued is_kept retrans_queue_add output_seq flag_isset
queued-Queued now [] p = (sym (append-nil (texts p.queue)), λ at chain _. chain)
queued-Queued now (b ∷ bs) p =
    let e : TcpQueueEntry = record {
      first = now;
      last = now;
      rto = default_rto;
      seq = p.snd.nxt;
      flg = 0x18;
      payload = b ∷ bs;
    } in
    (texts-append p.queue e, λ at chain seq. IsChain-append at p.queue e chain seq refl)

pub texts-backoff : (now : ℕ) (es : List TcpQueueEntry) → texts (map (backoff now) es) ≡ texts es
unfolding backoff
texts-backoff now [] = refl
texts-backoff now (e ∷ es) =
    if_cases
      (λ (d : TcpQueueEntry). d.payload ++ texts (map (backoff now) es) ≡ e.payload ++ texts es)
      (leb (e.last + e.rto) now) (λ _. ap (λ l. e.payload ++ l) (texts-backoff now es))
      (λ _. ap (λ l. e.payload ++ l) (texts-backoff now es))

pub IsChain-backoff :
    (now at : ℕ) (es : List TcpQueueEntry) → IsChain at es → IsChain at (map (backoff now) es)
unfolding backoff
IsChain-backoff now at [] chain = tt
IsChain-backoff now at (e ∷ es) (seq, flg, chain) =
    let rest = IsChain-backoff now (at + length e.payload) es chain in
    if_cases (λ (d : TcpQueueEntry). IsChain at (d ∷ map (backoff now) es))
      (leb (e.last + e.rto) now) (λ _. (seq, flg, rest)) (λ _. (seq, flg, rest))
