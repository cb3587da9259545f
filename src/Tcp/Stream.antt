-- ===== src/Tcp/Stream.antt =====
-- What an application receives over an established connection of src/tcp.rs, against the stream
-- that the peer sends: segments may be lost, repeated and out of order.
use microps_rs.Base.{
  ℕ, zero, suc, ◌+◌, ◌%◌, ◌≤◌, ◌<◌, ◌≡◌, refl, sym, ap, subst, ◌∙◌, false, inl, inr, List, [], ◌∷◌,
  ◌++◌, none, some, arith, length, take, drop, min, u16, is_empty, wrapping_add, All, if_cases,
  length-drop, take-append-drop,
}
use mathlib.Core.List.{append_assoc}
use microps_rs.Addr.{IpEndp}
use microps_rs.Table.{slot}
use microps_rs.Table.Laws.{slot-lt, slot-set_self}
use microps_rs.Tcp.{TcpState, established, Tcp, TcpPcb, SegInfo}
use microps_rs.Tcp.Flags.{flag_isset, fin, syn, rst}
use microps_rs.Tcp.Arrives.{dispatch}
use microps_rs.Tcp.Arrives.Established.{on_synchronized}
use microps_rs.Tcp.Arrives.Window.{IsWindow}
use microps_rs.Tcp.Arrives.Steady.{Steady}
use microps_rs.Tcp.Arrives.Steady.Acked.{on_synchronized-Steady}
use microps_rs.Tcp.Api.Transfer.{
  Poll, ready, receive_poll, receive_by_state, receive_bytes, take_bytes,
}

-- A segment for the connection, with its flags and text, or a call of `receive`.
pub data Event : Type 0 where
  arrives : SegInfo → ℕ → List ℕ → Event
  receives : ℕ → Event

-- `segment_arrives` where the block has been selected.
abbrev pub deliver : ℕ → IpEndp → IpEndp → SegInfo → ℕ → List ℕ → Tcp → Tcp
deliver desc local remote seg flags payload s = elim (slot s.pcbs desc) [
  | none ↦ s
  | some p ↦ dispatch p.state desc p seg flags payload local remote s
]

-- What the application has in its hands.
abbrev pub handed : List ℕ → Poll (List ℕ) → List ℕ
handed received (ready bytes) = received ++ bytes
handed received _ = received

module _ (desc : ℕ) (local remote : IpEndp) where
  abbrev pub step : Event → List ℕ × Tcp → List ℕ × Tcp
  step (arrives seg flags payload) (received, s) =
      (received, deliver desc local remote seg flags payload s)
  step (receives len) (received, s) =
      let (answer, s') = receive_poll desc len s in (handed received answer, s')

  abbrev pub run : List Event → List ℕ × Tcp → List ℕ × Tcp
  run [] r = r
  run (e ∷ es) r = run es (step e r)

take-nil : (n : ℕ) → take {A = ℕ} n [] ≡ []
take-nil zero = refl
take-nil (suc n) = refl

take-take-drop : (n m : ℕ) (xs : List ℕ) → take n xs ++ take m (drop n xs) ≡ take (n + m) xs
take-take-drop zero m xs =
    let same : m ≡ 0 + m = omega arith in subst (λ j. take m xs ≡ take j xs) same refl
take-take-drop (suc n) m [] = rw (take-nil m, take-nil (suc n + m)) refl
take-take-drop (suc n) m (x ∷ xs) =
    let same : suc (n + m) ≡ suc n + m = omega arith in
    subst (λ j. x ∷ (take n xs ++ take m (drop n xs)) ≡ take j (x ∷ xs)) same
      (ap (λ ys. x ∷ ys) (take-take-drop n m xs))

module _ (stream : List ℕ) (base : ℕ) where
  -- A segment of the stream: its text stands in the stream where its sequence number says.
  abbrev pub IsSent : Event → Type 0
  IsSent (arrives seg flags payload) =
      (flag_isset flags rst ≡ false)
      × (flag_isset flags syn ≡ false)
      × (flag_isset flags fin ≡ false)
      × ((k : ℕ) × (k + length payload ≤ length stream)
          × (payload ≡ take (length payload) (drop k stream))
          × (seg.seq ≡ (base + k) % 4294967296))
  IsSent (receives len) = Unit

  -- What was handed out and what waits are the front of the stream, of length `n`.
  abbrev pub Delivers : ℕ → List ℕ × Tcp → Type 0
  Delivers desc (received, s) =
      (p : TcpPcb) × (slot s.pcbs desc ≡ some p)
      × (p.state ≡ established)
      × IsWindow p
      × ((n : ℕ) × (n ≤ length stream)
          × (received ++ p.buf ≡ take n stream)
          × (p.rcv.nxt ≡ (base + n) % 4294967296))

  -- Positions of a stream that is shorter than the sequence space are told apart.
  position :
      (n k : ℕ)
      → length stream < 4294967296
      → n ≤ length stream
      → k ≤ length stream
      → (base + n) % 4294967296 ≡ (base + k) % 4294967296
      → n ≡ k
  position n k small a b e = omega arith

  moved : (n m : ℕ) → wrapping_add ((base + n) % 4294967296) m ≡ (base + (n + m)) % 4294967296
  moved n m = omega arith

  -- A segment of the stream leaves a front of the stream.
  arrives-Delivers :
      (desc : ℕ) (local remote : IpEndp) (seg : SegInfo) (flags : ℕ) (payload received : List ℕ)
      (s : Tcp)
      → length stream < 4294967296
      → IsSent (arrives seg flags payload)
      → Delivers desc (received, s)
      → Delivers desc (received, deliver desc local remote seg flags payload s)
  unfolding dispatch
  arrives-Delivers desc local remote seg flags payload received s small
        (norst, nosyn, nofin, (k, inside, text, at)) (p, found, est, w, (n, le, front, next)) =
      rw (found, deliver)
        (subst (λ b. Delivers desc (received, dispatch b desc p seg flags payload local remote s))
          (sym est)
          (taken (
            on_synchronized-Steady (λ _ _. Unit) desc seg flags payload p s local remote found est w
              norst nosyn nofin tt (λ _ _. tt))))
    where
      taken :
          Steady
            (λ _ _. Unit)
            desc
            p
            seg
            payload
            (on_synchronized desc p seg flags payload local remote s)
          → Delivers desc (received, on_synchronized desc p seg flags payload local remote s)
      taken (q, stored, state, _, inl kept) =
          (q, stored, state, rw (kept.0, kept.1) w, (n, le, rw kept.0 front, rw kept.1 next))
      taken (q, stored, state, _, inr (order, buf, nxt, window)) =
          let m = length payload in
          let here : n ≡ k = position n k small le (omega arith) (sym next ∙ order ∙ at) in
          (
            q,
            stored,
            state,
            window,
            (
              n + m,
              omega arith,
              ap (λ b. received ++ b) buf
                  ∙ sym (append_assoc received p.buf payload)
                  ∙ ap (λ l. l ++ payload) front
                  ∙ ap (λ l. take n stream ++ l)
                      (subst (λ j. payload ≡ take m (drop j stream)) (sym here) text)
                  ∙ take-take-drop n m stream,
              nxt ∙ ap (λ v. wrapping_add v m) (sym order ∙ next) ∙ moved n m,
            ),
          )

  receives-Delivers :
      (desc len : ℕ) (received : List ℕ) (s : Tcp)
      → Delivers desc (received, s)
      → Delivers desc (handed received (receive_poll desc len s).0, (receive_poll desc len s).1)
  unfolding receive_poll receive_by_state receive_bytes take_bytes
  receives-Delivers desc len received s (p, found, est, w, (n, le, front, next)) =
      rw (found, receive_poll)
        (subst Goal (sym est) (if_cases After (is_empty p.buf) (λ _. waiting) (λ _. taken)))
    where
      After : Poll (List ℕ) × Tcp → Type 0
      After (answer, t) = Delivers desc (handed received answer, t)

      Goal : TcpState → Type 0
      Goal b = After (receive_by_state b desc len p s)

      waiting : Delivers desc (received, s)
      waiting = (p, found, est, w, (n, le, front, next))

      taken : After (receive_bytes desc len p s)
      taken =
          let j = min len (length p.buf) in
          (
            record p { buf = drop j p.buf; rcv = record (p.rcv) { wnd = u16 (p.rcv.wnd + u16 j) } },
            slot-set_self s.pcbs desc _ (slot-lt s.pcbs desc p found),
            est,
            omega (arith, length-drop j p.buf),
            (
              n,
              le,
              append_assoc received (take j p.buf) (drop j p.buf)
                  ∙ ap (λ b. received ++ b) (take-append-drop j p.buf)
                  ∙ front,
              next,
            ),
          )

  step-Delivers :
      (desc : ℕ) (local remote : IpEndp) (e : Event) (r : List ℕ × Tcp)
      → length stream < 4294967296
      → IsSent e
      → Delivers desc r
      → Delivers desc (step desc local remote e r)
  step-Delivers desc local remote (arrives seg flags payload) (received, s) small sent d =
      arrives-Delivers desc local remote seg flags payload received s small sent d
  step-Delivers desc local remote (receives len) (received, s) small sent d =
      receives-Delivers desc len received s d

  -- In ESTABLISHED, whatever segments of the peer's stream arrive (lost, repeated or out of order
  -- ones included, without RST, SYN and FIN) and however they are mixed with calls of receive: the
  -- bytes handed out and the bytes that wait are together the front of the stream up to the next
  -- byte expected, if they were so before and the stream is shorter than 2 ^ 32.
  pub run-Delivers :
      (desc : ℕ) (local remote : IpEndp) (es : List Event) (r : List ℕ × Tcp)
      → length stream < 4294967296
      → All IsSent es
      → Delivers desc r
      → Delivers desc (run desc local remote es r)
  run-Delivers desc local remote [] r small sent d = d
  run-Delivers desc local remote (e ∷ es) r small (h, hs) d =
      run-Delivers desc local remote es (step desc local remote e r) small hs
        (step-Delivers desc local remote e r small h d)
