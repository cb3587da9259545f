-- ===== src/Stack/Sock/Kept.antt =====
-- What holds of the sockets of src/sock.rs over any row of calls.
use microps_rs.Base.{
  ℕ, ◌≡◌, ◌≢◌, sym, ap, subst, ◌∙◌, inl, inr, List, [], ◌∷◌, Option, none, some, ◌==◌, ==_iff,
  Bool-cases, some≢none, set, arith, All,
}
use mathlib.Core.Option.{some-injective}
use microps_rs.Table.{slot, sock_alloc}
use microps_rs.Table.Laws.{sock_alloc-IsAlloc, slot-set_ne, slot-set-none}
use microps_rs.Stack.Sock.{Sock, System}
use microps_rs.Stack.Sock.Calls.{Call, perform, run, closing, type_of}
use microps_rs.Stack.Sock.Apart.{IsTyped, AllTyped, Entries, Blocks}
use microps_rs.Stack.Sock.Steps.{perform-Step}

Entries-kept :
    (closed : Option ℕ) (xs ys : List (Option Sock)) (j : ℕ) (k : Sock)
    → closed ≢ some j
    → slot xs j ≡ some k
    → Entries closed xs ys
    → slot ys j ≡ some k
Entries-kept closed xs ys j k ne found (inl same) = ap (λ zs. slot zs j) same ∙ found
Entries-kept closed xs ys j k ne found (inr (inl (d, e, same))) =
    ap (λ zs. slot zs j) same ∙ slot-set_ne xs d j none (λ eq. ne (e ∙ ap some eq)) ∙ found
Entries-kept closed xs ys j k ne found (inr (inr (q, typed, same))) =
    let made = sock_alloc-IsAlloc q xs in
    ap (λ zs. slot zs j) same
    ∙ made.others j (λ eq. some≢none (sym found ∙ ap (slot xs) (sym eq) ∙ made.was_free))
    ∙ found

-- A write at one place keeps what holds of all entries.
AllTyped-changed :
    (xs ys : List (Option Sock)) (d : ℕ)
    → AllTyped xs
    → ((k : Sock) → slot ys d ≡ some k → IsTyped k)
    → ((j : ℕ) → d ≢ j → slot ys j ≡ slot xs j)
    → AllTyped ys
AllTyped-changed xs ys d all here others j k found = elim (Bool-cases (d == j)) [
  | inl e ↦ here k (ap (slot ys) ((==_iff d j).0 e) ∙ found)
  | inr e ↦ let ne : d ≢ j = ground arith in all j k (sym (others j ne) ∙ found)
]

Entries-AllTyped :
    (closed : Option ℕ) (xs ys : List (Option Sock))
    → AllTyped xs
    → Entries closed xs ys
    → AllTyped ys
Entries-AllTyped closed xs ys all (inl same) = subst AllTyped (sym same) all
Entries-AllTyped closed xs ys all (inr (inl (d, e, same))) = subst AllTyped (sym same) (
    AllTyped-changed xs (set xs d none) d all
      (λ k h. absurd (some≢none (sym h ∙ slot-set-none xs d))) (λ j ne. slot-set_ne xs d j none ne))
Entries-AllTyped closed xs ys all (inr (inr (q, typed, same))) =
    let made = sock_alloc-IsAlloc q xs in
    subst AllTyped (sym same) (
      AllTyped-changed xs (sock_alloc q xs).1 (sock_alloc q xs).0 all
        (λ k h. subst IsTyped (some-injective q k (sym made.holds ∙ h)) (typed all)) made.others)

-- Each call changes the blocks of one protocol only, that of the socket it names.
abbrev pub Apart : List Call → System → Type 0
Apart [] s = Unit
Apart (c ∷ cs) s = Blocks (type_of c s) s (perform c s) × Apart cs (perform c s)

-- Over any row of calls, failed ones included, a socket that none of them closes keeps its family,
-- type and block; every socket in use has AF_INET and one of the two types, if that was so before;
-- and each call leaves the blocks of a protocol alone for which its socket is not.
pub run-Apart :
    (cs : List Call) (s : System) (j : ℕ) (k : Sock)
    → All (λ c. closing c ≢ some j) cs
    → AllTyped s.socks
    → slot s.socks j ≡ some k
    → (slot (run cs s).socks j ≡ some k) × AllTyped (run cs s).socks × Apart cs s
run-Apart [] s j k left all found = (found, all, tt)
run-Apart (c ∷ cs) s j k (left, lefts) all found =
    let (entries, blocks) = perform-Step c s in
    let s' = perform c s in
    let kept = Entries-kept (closing c) s.socks s'.socks j k left found entries in
    let typed = Entries-AllTyped (closing c) s.socks s'.socks all entries in
    let (still, last, apart) = run-Apart cs s' j k lefts typed kept in
    (still, last, (blocks, apart))
