-- ===== src/Ip/Route/Best.antt =====
-- What `route_lookup` of src/ip.rs finds.
use microps_rs.Base.{
  ℕ, ◌≤◌, ◌<◌, ◌≡◌, refl, true, false, ◌⊎◌, inl, inr, List, [], ◌∷◌, Option, none, some, arith, ltb,
  All, Bool-cases,
}
use microps_rs.Addr.{IpAddr}
use microps_rs.Link.{IpRoute}
use microps_rs.Ip.Route.{prefix, matches, better, route_scan, route_lookup}

-- One of the routes.
abbrev pub In : IpRoute → List IpRoute → Type 0
In r [] = ⊥
In r (x ∷ xs) = (r ≡ x) ⊎ In r xs

-- Every route that matches has at most the prefix `n`.
abbrev pub Below : IpAddr → ℕ → List IpRoute → Type 0
Below dst n rs = All (λ r. matches dst r ≡ true → prefix r.netmask ≤ n) rs

-- No route matches.
abbrev pub NoMatch : IpAddr → List IpRoute → Type 0
NoMatch dst rs = All (λ r. matches dst r ≡ false) rs

-- What the lookup answers.
abbrev pub IsBest : IpAddr → List IpRoute → Option IpRoute → Type 0
IsBest dst rs none = NoMatch dst rs
IsBest dst rs (some r) = In r rs × (matches dst r ≡ true) × Below dst (prefix r.netmask) rs

-- The scan that has a best route already.
From : IpAddr → IpRoute → List IpRoute → Option IpRoute → Type 0
From dst b rs none = ⊥
From dst b rs (some r) =
    ((r ≡ b) ⊎ (In r rs × (matches dst r ≡ true)))
    × (prefix b.netmask ≤ prefix r.netmask)
    × Below dst (prefix r.netmask) rs

route_scan-From :
    (dst : IpAddr) (rs : List IpRoute) (b : IpRoute) → From dst b rs (route_scan dst rs (some b))
unfolding route_scan better From
route_scan-From dst [] b = (inl refl, omega arith, tt)
route_scan-From dst (x ∷ rs) b = elim (Bool-cases (matches dst x)) [
  | inr miss ↦ rw miss (skip (route_scan dst rs (some b)) miss (route_scan-From dst rs b))
  | inl hit ↦ elim (Bool-cases (ltb (prefix b.netmask) (prefix x.netmask))) [
    | inl more ↦
        rw (hit, more)
          (take (route_scan dst rs (some x)) hit (ground arith) (route_scan-From dst rs x))
    | inr less ↦
        rw (hit, less) (keep (route_scan dst rs (some b)) (ground arith) (route_scan-From dst rs b))
  ]
]
  where
    skip : (o : Option IpRoute) → matches dst x ≡ false → From dst b rs o → From dst b (x ∷ rs) o
    skip none miss h = h
    skip (some r) miss h = (member h.0, h.1, (λ e. absurd (cc), h.2))
      where
        member :
            (r ≡ b) ⊎ (In r rs × (matches dst r ≡ true))
            → (r ≡ b) ⊎ (In r (x ∷ rs) × (matches dst r ≡ true))
        member (inl e) = inl e
        member (inr m) = inr (inr m.0, m.1)

    keep :
        (o : Option IpRoute)
        → prefix x.netmask ≤ prefix b.netmask
        → From dst b rs o
        → From dst b (x ∷ rs) o
    keep none le h = h
    keep (some r) le h = (member h.0, h.1, (λ e. omega (arith, h.1), h.2))
      where
        member :
            (r ≡ b) ⊎ (In r rs × (matches dst r ≡ true))
            → (r ≡ b) ⊎ (In r (x ∷ rs) × (matches dst r ≡ true))
        member (inl e) = inl e
        member (inr m) = inr (inr m.0, m.1)

    take :
        (o : Option IpRoute)
        → matches dst x ≡ true
        → prefix b.netmask < prefix x.netmask
        → From dst x rs o
        → From dst b (x ∷ rs) o
    take none hit lt h = h
    take (some r) hit lt h = (member h.0, omega (arith, h.1), (λ e. h.1, h.2))
      where
        member :
            (r ≡ x) ⊎ (In r rs × (matches dst r ≡ true))
            → (r ≡ b) ⊎ (In r (x ∷ rs) × (matches dst r ≡ true))
        member (inl e) = inr (inl e, rw e hit)
        member (inr m) = inr (inr m.0, m.1)

-- The route that is found is one of the table, matches the destination, and no matching route has
-- a longer prefix; none is found only if none matches.
pub route_lookup-IsBest : (dst : IpAddr) (rs : List IpRoute) → IsBest dst rs (route_lookup dst rs)
unfolding route_lookup route_scan better From
route_lookup-IsBest dst [] = tt
route_lookup-IsBest dst (x ∷ rs) = elim (Bool-cases (matches dst x)) [
  | inr miss ↦ rw miss (skip (route_scan dst rs none) miss (route_lookup-IsBest dst rs))
  | inl hit ↦ rw hit (start (route_scan dst rs (some x)) hit (route_scan-From dst rs x))
]
  where
    skip : (o : Option IpRoute) → matches dst x ≡ false → IsBest dst rs o → IsBest dst (x ∷ rs) o
    skip none miss h = (miss, h)
    skip (some r) miss h = (inr h.0, h.1, (λ e. absurd (cc), h.2))

    start : (o : Option IpRoute) → matches dst x ≡ true → From dst x rs o → IsBest dst (x ∷ rs) o
    start none hit h = absurd h
    start (some r) hit h = elim h.0 [
      | inl e ↦ (inl e, rw e hit, (λ m. h.1, h.2))
      | inr m ↦ (inr m.0, m.1, (λ m. h.1, h.2))
    ]
