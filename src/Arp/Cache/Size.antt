-- ===== src/Arp/Cache/Size.antt =====
-- The size of the cache of src/arp.rs, over every sequence of its operations.
use microps_rs.Base.{
  ℕ, suc, ◌≤◌, ◌≡◌, refl, Bool, inl, inr, List, [], ◌∷◌, none, arith, ltb, length, length-set,
  length-append, Option-cases, if_cases,
}
use microps_rs.Addr.{IpAddr, addr_eq}
use microps_rs.Link.{CacheEntry, CacheState}
use microps_rs.Arp.Cache.{cache_size, cache_update, cache_insert, oldest, expire, has_expired}

length-cache_insert :
    (now : ℕ) (pa : IpAddr) (ha : List ℕ) (state : CacheState) (cache : List CacheEntry)
    → length cache ≤ cache_size
    → length (cache_insert now pa ha state cache) ≤ cache_size
unfolding cache_insert
length-cache_insert now pa ha state cache h =
    let entry : CacheEntry = record { state = state; pa = pa; ha = ha; timestamp = now } in
    if_cases (λ (c : List CacheEntry). length c ≤ cache_size) (ltb (length cache) cache_size)
      (λ room. ground (arith, length-append cache (entry ∷ [])))
      λ _. elim (Option-cases (oldest cache 0 none)) [
        | inl e ↦ rw e h
        | inr (r, e) ↦ rw e (omega (arith, length-set cache r.0 entry, h))
      ]

length-cache_update :
    (now : ℕ) (pa : IpAddr) (ha : List ℕ) (cache : List CacheEntry)
    → length (cache_update now pa ha cache).1 ≡ length cache
unfolding cache_update
length-cache_update now pa ha [] = refl
length-cache_update now pa ha (e ∷ es) =
    if_cases (λ (r : Bool × List CacheEntry). length r.1 ≡ suc (length es)) (addr_eq e.pa pa)
      (λ _. refl) (λ _. omega (arith, length-cache_update now pa ha es))

length-expire : (now : ℕ) (cache : List CacheEntry) → length (expire now cache) ≤ length cache
unfolding expire
length-expire now [] = omega arith
length-expire now (e ∷ es) =
    if_cases (λ (c : List CacheEntry). length c ≤ suc (length es)) (has_expired now e)
      (λ _. omega (arith, length-expire now es)) (λ _. omega (arith, length-expire now es))

-- The caches that the operations make of an empty one.
pub data Reachable : List CacheEntry → Type 0 where
  start : Reachable []
  inserted :
      {c : List CacheEntry} (now : ℕ) (pa : IpAddr) (ha : List ℕ) (state : CacheState)
      → Reachable c
      → Reachable (cache_insert now pa ha state c)
  updated :
      {c : List CacheEntry} (now : ℕ) (pa : IpAddr) (ha : List ℕ)
      → Reachable c
      → Reachable (cache_update now pa ha c).1
  expired : {c : List CacheEntry} (now : ℕ) → Reachable c → Reachable (expire now c)

-- Insertions, updates and the timer never let the cache grow above 32 entries.
pub Reachable-bounded : (c : List CacheEntry) → Reachable c → length c ≤ cache_size
Reachable-bounded _ start = omega arith
Reachable-bounded _ (inserted {c} now pa ha state r) =
    length-cache_insert now pa ha state c (Reachable-bounded c r)
Reachable-bounded _ (updated {c} now pa ha r) =
    omega (arith, length-cache_update now pa ha c, Reachable-bounded c r)
Reachable-bounded _ (expired {c} now r) = omega (arith, length-expire now c, Reachable-bounded c r)
