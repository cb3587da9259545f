-- ===== src/Arp/Cache/Laws.antt =====
-- Lookups in the cache of src/arp.rs behind updates and insertions.
use microps_rs.Base.{
  ℕ, ◌<◌, ◌≡◌, refl, sym, ◌∙◌, Bool, true, false, ◌&&◌, inl, inr, List, [], ◌∷◌, ◌++◌, Option, none,
  some, arith, ltb, length, Bool-cases, if◌then◌else◌, some≢none,
}
use microps_rs.Addr.{IpAddr, addr_eq, addr_eq_iff}
use microps_rs.Link.{CacheEntry, CacheState, resolved}
use microps_rs.Arp.Cache.{cache_size, cache_select, cache_update, cache_insert}

-- What a lookup gives.
abbrev Answer : Type 0
Answer = Option (CacheState × List ℕ)

addr_eq-distinct : (a b c : IpAddr) → addr_eq a b ≡ false → addr_eq a c ≡ true → addr_eq b c ≡ false
addr_eq-distinct a b c other here = elim (Bool-cases (addr_eq b c)) [
  | inr f ↦ f
  | inl t ↦
      let p : a ≡ c = (addr_eq_iff a c).0 here in
      let q : b ≡ c = (addr_eq_iff b c).0 t in
      let r : addr_eq a b ≡ true = (addr_eq_iff a b).1 (p ∙ sym q) in absurd (cc)
]

-- An update changes what is known of one address only, and only if there was an entry: that one
-- is then resolved to the new hardware address.
pub cache_select-update :
    (now : ℕ) (pa : IpAddr) (ha : List ℕ) (cache : List CacheEntry) (key : IpAddr)
    → cache_select key (cache_update now pa ha cache).1 ≡ (
        if addr_eq pa key && (cache_update now pa ha cache).0
        then some (resolved, ha)
        else cache_select key cache)
unfolding cache_update cache_select
cache_select-update now pa ha [] key = ends (addr_eq pa key)
  where
    ends : (b : Bool) → ◌≡◌ {A = Answer} none (if b && false then some (resolved, ha) else none)
    ends true = refl
    ends false = refl
cache_select-update now pa ha (e ∷ es) key = elim (Bool-cases (addr_eq e.pa pa)) [
  | inl same ↦
      let p : e.pa ≡ pa = (addr_eq_iff e.pa pa).0 same in rw (same, sym p) (both (addr_eq e.pa key))
  | inr other ↦ elim (Bool-cases (addr_eq e.pa key)) [
    | inl here ↦ rw (other, here, addr_eq-distinct e.pa pa key other here) refl
    | inr there ↦ rw (other, there) (cache_select-update now pa ha es key)
  ]
]
  where
    both :
        (b : Bool)
        → ◌≡◌ {A = Answer} (if b then some (resolved, ha) else cache_select key es) (
            if b && true
            then some (resolved, ha)
            else if b
            then some (e.state, e.ha)
            else cache_select key es)
    both true = refl
    both false = refl

-- A new entry, where there is room, is found under its address if there was none for it. All
-- other lookups give what they gave before.
pub cache_select-insert :
    (now : ℕ) (pa : IpAddr) (ha : List ℕ) (state : CacheState) (cache : List CacheEntry)
    (key : IpAddr)
    → length cache < cache_size
    → cache_select pa cache ≡ none
    → cache_select key (cache_insert now pa ha state cache)
      ≡ (if addr_eq pa key then some (state, ha) else cache_select key cache)
unfolding cache_insert cache_select
cache_select-insert now pa ha state cache key room fresh =
    let entry : CacheEntry = record { state = state; pa = pa; ha = ha; timestamp = now } in
    let space : ltb (length cache) cache_size ≡ true = ground arith in
    rw (space, cache_insert) (behind cache entry fresh)
  where
    behind :
        (es : List CacheEntry) (e : CacheEntry)
        → cache_select e.pa es ≡ none
        → cache_select key (es ++ e ∷ [])
          ≡ (if addr_eq e.pa key then some (e.state, e.ha) else cache_select key es)
    behind [] e h = refl
    behind (x ∷ xs) e h = elim (Bool-cases (addr_eq x.pa e.pa)) [
      | inl t ↦ absurd (some≢none (rw t at h))
      | inr f ↦ elim (Bool-cases (addr_eq x.pa key)) [
        | inl here ↦ rw (here, addr_eq-distinct x.pa e.pa key f here) refl
        | inr there ↦ rw there (behind xs e (rw f at h))
      ]
    ]
