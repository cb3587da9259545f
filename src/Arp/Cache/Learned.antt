-- ===== src/Arp/Cache/Learned.antt =====
-- The cache of src/arp.rs behind a packet: the first half of `input`.
use microps_rs.Base.{
  ℕ, ◌<◌, ◌≡◌, refl, false, inl, inr, List, [], ◌∷◌, none, some, arith, length, Bool-cases, ◌⊎◌,
  ◌≢◌, if◌then◌else◌,
}
use microps_rs.Addr.{IpAddr, addr_eq, addr_eq_refl}
use microps_rs.Link.{CacheEntry, resolved}
use microps_rs.Arp.Cache.{cache_select, cache_update, cache_insert, cache_size}
use microps_rs.Arp.Cache.Laws.{cache_select-update, cache_select-insert}

cache_update-miss :
    (now : ℕ) (pa : IpAddr) (ha : List ℕ) (cache : List CacheEntry)
    → (cache_update now pa ha cache).0 ≡ false
    → cache_select pa cache ≡ none
unfolding cache_update cache_select
cache_update-miss now pa ha [] h = refl
cache_update-miss now pa ha (e ∷ es) h = elim (Bool-cases (addr_eq e.pa pa)) [
  | inl same ↦ let hit = rw same at h in absurd (cc)
  | inr other ↦ rw other (cache_update-miss now pa ha es (rw other at h))
]

length-cache_update :
    (now : ℕ) (pa : IpAddr) (ha : List ℕ) (cache : List CacheEntry)
    → length (cache_update now pa ha cache).1 ≡ length cache
unfolding cache_update
length-cache_update now pa ha [] = refl
length-cache_update now pa ha (e ∷ es) = elim (Bool-cases (addr_eq e.pa pa)) [
  | inl same ↦ rw same refl
  | inr other ↦ rw other (omega (arith, length-cache_update now pa ha es))
]

-- The cache behind a packet for this station.
abbrev pub learned : ℕ → IpAddr → List ℕ → List CacheEntry → List CacheEntry
learned now pa ha cache =
    let (merge, updated) = cache_update now pa ha cache in
    if merge then updated else cache_insert now pa ha resolved updated

-- There is room for the address, or an entry already.
abbrev pub HasPlace : IpAddr → List CacheEntry → Type 0
HasPlace pa cache = (length cache < cache_size) ⊎ (cache_select pa cache ≢ none)

pub cache_select-learned :
    (now : ℕ) (pa : IpAddr) (ha : List ℕ) (cache : List CacheEntry)
    → HasPlace pa cache
    → cache_select pa (learned now pa ha cache) ≡ some (resolved, ha)
cache_select-learned now pa ha cache place =
    let updated = (cache_update now pa ha cache).1 in
    let known = cache_select-update now pa ha cache pa in
    let same = addr_eq_refl pa in
    let size = length-cache_update now pa ha cache in
    elim (Bool-cases (cache_update now pa ha cache).0) [
      | inl hit ↦ rw hit (rw (same, hit) at known)
      | inr miss ↦
          let fresh = cache_update-miss now pa ha cache miss in
          elim place [
            | inr known_before ↦ absurd (known_before fresh)
            | inl room ↦ rw miss (
                rw same at (
                  cache_select-insert now pa ha resolved updated pa (omega (arith, size))
                    (rw (same, miss, fresh) at known)))
          ]
    ]
