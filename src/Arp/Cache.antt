-- ===== src/Arp/Cache.antt =====
-- The cache of src/arp.rs: a list of at most 32 entries, in the order of their insertion.
pub mod Laws
pub mod Learned
pub mod Size
use microps_rs.Base.{
  ℕ, ◌+◌, ◌-◌, Bool, true, false, not, ◌&&◌, List, [], ◌∷◌, ◌++◌, Option, none, some, ltb, leb,
  if◌then◌else◌, length, replicate, set,
}
use microps_rs.Addr.{IpAddr, addr_eq}
use microps_rs.Link.{CacheEntry, CacheState, incomplete, resolved, static}

abbrev pub cache_size : ℕ
cache_size = 32

-- `CACHE_TIMEOUT`, 30 seconds.
abbrev pub cache_timeout : ℕ
cache_timeout = 30000

abbrev pub ether_addr_any : List ℕ
ether_addr_any = replicate 6 0

abbrev pub is_static : CacheState → Bool
is_static static = true
is_static _ = false

unfoldable pub cache_select : IpAddr → List CacheEntry → Option (CacheState × List ℕ)
cache_select pa [] = none
cache_select pa (e ∷ es) = if addr_eq e.pa pa then some (e.state, e.ha) else cache_select pa es

-- The first entry for the address is overwritten; the answer says whether there was one.
unfoldable pub cache_update : ℕ → IpAddr → List ℕ → List CacheEntry → Bool × List CacheEntry
cache_update now pa ha [] = (false, [])
cache_update now pa ha (e ∷ es) =
    let rest = cache_update now pa ha es in
    if addr_eq e.pa pa
    then (true, record e { ha = ha; state = resolved; timestamp = now } ∷ es)
    else (rest.0, e ∷ rest.1)

-- The loop for the oldest entry that is not static; of equals the first. The pair is the index
-- and that entry's timestamp.
unfoldable pub oldest : List CacheEntry → ℕ → Option (ℕ × ℕ) → Option (ℕ × ℕ)
oldest [] i best = best
oldest (e ∷ es) i best = oldest es (i + 1) (
    if is_static e.state then best else elim best [
      | none ↦ some (i, e.timestamp)
      | some (j, t) ↦ if leb t e.timestamp then some (j, t) else some (i, e.timestamp)
    ])

unfoldable pub cache_insert : ℕ → IpAddr → List ℕ → CacheState → List CacheEntry → List CacheEntry
unfolding oldest
cache_insert now pa ha state cache =
    let entry : CacheEntry = record { state = state; pa = pa; ha = ha; timestamp = now } in
    if ltb (length cache) cache_size
    then cache ++ entry ∷ []
    else elim (oldest cache 0 none) [ none ↦ cache | some (i, t) ↦ set cache i entry ]

-- The test of `on_timer`: `now.saturating_sub(timestamp) >= CACHE_TIMEOUT`.
abbrev pub has_expired : ℕ → CacheEntry → Bool
has_expired now e = not (is_static e.state) && leb cache_timeout (now - e.timestamp)

-- `on_timer`: the index moves on where nothing is removed.
unfoldable pub expire : ℕ → List CacheEntry → List CacheEntry
expire now [] = []
expire now (e ∷ es) = let rest = expire now es in if has_expired now e then rest else e ∷ rest
