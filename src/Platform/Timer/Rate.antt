-- ===== src/Platform/Timer/Rate.antt =====
-- How often a timer of src/platform/linux/timer.rs fires.
use microps_rs.Base.{
  ℕ, zero, suc, ◌+◌, ◌-◌, ◌*◌, ◌≤◌, ◌≡◌, refl, sym, ap, subst, Bool, false, List, [], ◌∷◌, ◌++◌,
  arith, All, if◌then◌else◌, max, Bool-cases, inl, inr,
}
use microps_rs.Platform.Timer.{TimerEntry, TimerFn, is_due, expire}

-- The calls of all handlers in a row of ticks.
abbrev pub ticks : List ℕ → List TimerEntry → List TimerFn
ticks [] es = []
ticks (now ∷ ns) es = (expire now es).0 ++ ticks ns (expire now es).1

-- A call costs an interval, one that does not count costs nothing.
call_bound :
    (v last now t c k : ℕ)
    → v ≤ now - last
    → now ≤ t
    → k ≤ 1
    → c * v + now ≤ max now t
    → (k + c) * v + last ≤ max last t
call_bound zero last now t c k d le one h = omega arith
call_bound (suc v) last now t c zero d le one h = omega arith
call_bound (suc v) last now t c (suc zero) d le one h = omega arith
call_bound (suc v) last now t c (suc (suc k)) d le one h = absurd (omega arith)

module _ (mine : TimerFn → Bool) where
  -- How many of the calls are those of the timer in question.
  abbrev pub calls : List TimerFn → ℕ
  calls [] = 0
  calls (f ∷ fs) = if mine f then 1 + calls fs else calls fs

  abbrev pub NotMine : TimerEntry → Type 0
  NotMine e = mine e.handler ≡ false

  calls-append : (fs gs : List TimerFn) → calls (fs ++ gs) ≡ calls fs + calls gs
  calls-append [] gs = omega arith
  calls-append (f ∷ fs) gs = let rest = calls-append fs gs in ground arith

  expire-others :
      (now : ℕ) (es : List TimerEntry)
      → All NotMine es
      → (calls (expire now es).0 ≡ 0) × All NotMine (expire now es).1
  unfolding expire
  expire-others now [] h = (refl, tt)
  expire-others now (e ∷ es) (h, hs) =
      let rest = expire-others now es hs in
      elim (Bool-cases (is_due now e)) [
        | inl d ↦ rw (d, h) (rest.0, (refl, rest.1))
        | inr d ↦ rw d (rest.0, (h, rest.1))
      ]

  expire-append-fst :
      (now : ℕ) (xs ys : List TimerEntry)
      → (expire now (xs ++ ys)).0 ≡ (expire now xs).0 ++ (expire now ys).0
  unfolding expire
  expire-append-fst now [] ys = refl
  expire-append-fst now (x ∷ xs) ys =
      let rest = expire-append-fst now xs ys in
      elim (Bool-cases (is_due now x)) [
        | inl d ↦ rw d (ap (λ l. x.handler ∷ l) rest)
        | inr d ↦ rw d rest
      ]

  expire-append-snd :
      (now : ℕ) (xs ys : List TimerEntry)
      → (expire now (xs ++ ys)).1 ≡ (expire now xs).1 ++ (expire now ys).1
  unfolding expire
  expire-append-snd now [] ys = refl
  expire-append-snd now (x ∷ xs) ys =
      let rest = expire-append-snd now xs ys in
      elim (Bool-cases (is_due now x)) [
        | inl d ↦ rw d (ap (λ l. (record x { last = now }) ∷ l) rest)
        | inr d ↦ rw d (ap (λ l. x ∷ l) rest)
      ]

  -- The timer in question, after a tick.
  after : ℕ → TimerEntry → TimerEntry
  after now e = if is_due now e then record e { last = now } else e

  fires : ℕ → TimerEntry → ℕ
  fires now e = if is_due now e then (if mine e.handler then 1 else 0) else 0

  calls-tick :
      (now : ℕ) (pre post : List TimerEntry) (e : TimerEntry)
      → All NotMine pre
      → All NotMine post
      → calls (expire now (pre ++ e ∷ post)).0 ≡ fires now e
  unfolding expire fires
  calls-tick now pre post e h k =
      let a = (expire-others now pre h).0 in
      let b = (expire-others now post k).0 in
      rw
        (
          expire-append-fst now pre (e ∷ post),
          calls-append (expire now pre).0 (expire now (e ∷ post)).0,
          a,
        )
        (elim (Bool-cases (is_due now e)) [
          | inl d ↦ rw d (ground arith)
          | inr d ↦ rw d (omega (arith, b))
        ])

  table-tick :
      (now : ℕ) (pre post : List TimerEntry) (e : TimerEntry)
      → (expire now (pre ++ e ∷ post)).1 ≡ (expire now pre).1 ++ after now e ∷ (expire now post).1
  unfolding expire after
  table-tick now pre post e =
      rw (expire-append-snd now pre (e ∷ post))
        (elim (Bool-cases (is_due now e)) [ inl d ↦ rw d refl | inr d ↦ rw d refl ])

  -- One tick uses up an interval for a call.
  tick_bound :
      (now t c : ℕ) (e : TimerEntry)
      → now ≤ t
      → c * e.interval + (after now e).last ≤ max (after now e).last t
      → (fires now e + c) * e.interval + e.last ≤ max e.last t
  unfolding fires after is_due
  tick_bound now t c e le h = elim (Bool-cases (is_due now e)) [
    | inl d ↦
        subst Goal (sym d)
          (λ g. call_bound e.interval e.last now t c _ (ground arith) le (ground arith) g) h
    | inr d ↦ subst Goal (sym d) (λ g. omega (arith, g)) h
  ]
    where
      Goal : Bool → Type 0
      Goal b =
          c * e.interval + (if b then record e { last = now } else e).last
            ≤ max (if b then record e { last = now } else e).last t
          → ((if b then (if mine e.handler then 1 else 0) else 0) + c) * e.interval + e.last
            ≤ max e.last t

  after-interval : (now : ℕ) (e : TimerEntry) → (after now e).interval ≡ e.interval
  unfolding after
  after-interval now e = elim (Bool-cases (is_due now e)) [ inl d ↦ rw d refl | inr d ↦ rw d refl ]

  -- Where no other timer has the handler in question, any row of ticks up to a time calls it at
  -- most once per interval: as many intervals as calls fit between its last time and that time.
  pub ticks-rate :
      (ns : List ℕ) (t : ℕ) (pre post : List TimerEntry) (e : TimerEntry)
      → All (λ now. now ≤ t) ns
      → All NotMine pre
      → All NotMine post
      → calls (ticks ns (pre ++ e ∷ post)) * e.interval + e.last ≤ max e.last t
  ticks-rate [] t pre post e le h k = omega arith
  ticks-rate (now ∷ ns) t pre post e (le, les) h k =
      let es = pre ++ e ∷ post in
      let pre' = (expire now pre).1 in
      let post' = (expire now post).1 in
      let rest =
        ticks-rate ns t pre' post' (after now e) les (expire-others now pre h).1
          (expire-others now post k).1 in
      rw
        (
          calls-append (expire now es).0 (ticks ns (expire now es).1),
          calls-tick now pre post e h k,
          table-tick now pre post e,
        )
        (tick_bound now t (calls (ticks ns (pre' ++ after now e ∷ post'))) e le (
          subst
            (λ v.
              calls (ticks ns (pre' ++ after now e ∷ post')) * v + (after now e).last
              ≤ max (after now e).last t)
            (after-interval now e) rest))
