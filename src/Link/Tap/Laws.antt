-- ===== src/Link/Tap/Laws.antt =====
-- `open` of a tap (src/platform/linux/driver/ether_tap.rs): what it leaves of its descriptors, and
-- how it stands to the outcomes that Link.Devices takes.
use microps_rs.Base.{
  ℕ, ◌≡◌, refl, sym, ap, subst, Bool, true, false, not, ◌&&◌, List, ◌∷◌, Option, none, some, take,
  ==_refl, if◌then◌else◌, is_none, inl, inr, Option-cases,
}
use microps_rs.Link.{Device, ether_tap}
use microps_rs.Link.Devices.{TapOpen, refused, refused_late, opened, ops_open}
use microps_rs.Link.Tap.{
  TapSys, TapIo, remove_fd, close_fd, add_fd, query_mac, choose_mac, set_async, store_addr,
  open_with, open_via, open_tap, close_tap,
}

-- What the system calls come to, in the terms of `ops_open`.
abbrev pub mac_of : Option (List ℕ) → TapSys → Option (List ℕ)
mac_of (some mac) sys = some mac
mac_of none sys = elim sys.socket_fd [
  | none ↦ none
  | some soc ↦ elim sys.hwaddr [ none ↦ none | some sa ↦ some (take 6 sa) ]
]

abbrev pub outcome : Option (List ℕ) → TapSys → TapOpen
outcome configured sys = elim sys.open_fd [
  | none ↦ refused
  | some fd ↦
      if sys.set_iff
      then elim (mac_of configured sys) [
        | none ↦ refused
        | some mac ↦
            if sys.set_own && (not (is_none sys.get_fl) && (sys.set_fl && sys.set_sig))
            then opened mac
            else refused_late mac
      ]
      else refused
]

-- The device that a tap stands behind.
abbrev pub device_of : Device → TapIo → Device
device_of d s = record d { addr = s.addr; ops = ether_tap (not (is_none s.fd)) }

-- An `open` that succeeds holds one descriptor more, which `close` gives back; one that is refused
-- holds those from before.
abbrev pub Balanced : TapSys → TapIo → Bool → TapIo → Type 0
Balanced sys s true s' =
    (s'.fd ≡ sys.open_fd) × (is_none s'.fd ≡ false) × ((close_tap s').opened ≡ s.opened)
Balanced sys s false s' = (s'.fd ≡ s.fd) × (s'.opened ≡ s.opened)

abbrev pub IsOpening : Option (List ℕ) → TapSys → Device → TapIo → Bool × TapIo → Type 0
IsOpening configured sys d s (done, s') =
    Balanced sys s done s'
    × ((done, device_of d s')
        ≡ ops_open (device_of d s).ops (outcome configured sys) (device_of d s))

remove_fd-head : (fd : ℕ) (fds : List ℕ) → remove_fd fd (fd ∷ fds) ≡ fds
unfolding remove_fd
remove_fd-head fd fds = rw (==_refl fd) refl

close_fd-add_fd : (fd : ℕ) (s : TapIo) → close_fd fd (add_fd fd s) ≡ s
unfolding close_fd
close_fd-add_fd fd s = ap (λ fds. record s { opened = fds }) (remove_fd-head fd s.opened)

choose_mac_lem :
    (configured : Option (List ℕ)) (sys : TapSys) (s : TapIo)
    → choose_mac configured sys s ≡ (mac_of configured sys, s)
unfolding choose_mac query_mac
choose_mac_lem (some mac) sys s = refl
choose_mac_lem none sys s =
    elim sys.socket_fd
      as (λ o.
        choose_mac none (record sys { socket_fd = o }) s
        ≡ (mac_of none (record sys { socket_fd = o }), s)) [
          | none ↦ refl
          | some soc ↦
              ap (λ s'. (mac_of none (record sys { socket_fd = some soc }), s'))
                (close_fd-add_fd soc s)
        ]

abbrev sys_of :
    Option ℕ → Bool → Option ℕ → Option (List ℕ) → Bool → Option ℕ → Bool → Bool → TapSys
sys_of open_fd set_iff socket_fd hwaddr own fl setfl sig = record {
  open_fd = open_fd;
  set_iff = set_iff;
  socket_fd = socket_fd;
  hwaddr = hwaddr;
  set_own = own;
  get_fl = fl;
  set_fl = setfl;
  set_sig = sig;
}

module _ (configured : Option (List ℕ)) (soc : Option ℕ) (hw : Option (List ℕ)) where
  -- The calls behind the address.
  async_lem :
      (own : Bool) (fl : Option ℕ) (setfl sig : Bool) (mac : List ℕ) (fd : ℕ) (d : Device)
      (s : TapIo)
      → mac_of configured (sys_of (some fd) true soc hw own fl setfl sig) ≡ some mac
      → IsOpening configured (sys_of (some fd) true soc hw own fl setfl sig) d s (
          set_async
            (sys_of (some fd) true soc hw own fl setfl sig)
            fd
            (store_addr mac (add_fd fd s)))
  unfolding set_async store_addr ops_open close_fd close_tap
  async_lem false fl setfl sig mac fd d s e =
      rw (remove_fd-head fd s.opened, e) ((refl, refl), refl)
  async_lem true none setfl sig mac fd d s e =
      rw (remove_fd-head fd s.opened, e) ((refl, refl), refl)
  async_lem true (some v) false sig mac fd d s e =
      rw (remove_fd-head fd s.opened, e) ((refl, refl), refl)
  async_lem true (some v) true false mac fd d s e =
      rw (remove_fd-head fd s.opened, e) ((refl, refl), refl)
  async_lem true (some v) true true mac fd d s e =
      rw e ((refl, refl, remove_fd-head fd s.opened), refl)

  open_lem :
      (open_fd : Option ℕ) (set_iff own : Bool) (fl : Option ℕ) (setfl sig : Bool) (d : Device)
      (s : TapIo)
      → IsOpening configured
          (sys_of open_fd set_iff soc hw own fl setfl sig)
          d
          s
          (open_tap configured (sys_of open_fd set_iff soc hw own fl setfl sig) s)
  unfolding open_tap open_via open_with ops_open close_fd close_tap
  open_lem none set_iff own fl setfl sig d s = ((refl, refl), refl)
  open_lem (some fd) false own fl setfl sig d s =
      rw (open_tap, open_via, remove_fd-head fd s.opened) ((refl, refl), refl)
  open_lem (some fd) true own fl setfl sig d s =
      let sys = sys_of (some fd) true soc hw own fl setfl sig in
      subst (λ r. IsOpening configured sys d s (open_with sys fd r))
        (sym (choose_mac_lem configured sys (add_fd fd s)))
        (elim (Option-cases (mac_of configured sys)) [
          | inl e ↦ rw (e, remove_fd-head fd s.opened) ((refl, refl), refl)
          | inr (mac, e) ↦
              subst (λ m. IsOpening configured sys d s (open_with sys fd (m, add_fd fd s))) (sym e)
                (async_lem own fl setfl sig mac fd d s e)
        ])

-- `open` of a tap has the effect on its device that `ops_open` has with what the system calls come
-- to, and it is balanced: a successful one holds one descriptor more, which `close` gives back,
-- and a refused one holds those from before.
pub open_tap-IsOpening :
    (configured : Option (List ℕ)) (sys : TapSys) (d : Device) (s : TapIo)
    → IsOpening configured sys d s (open_tap configured sys s)
open_tap-IsOpening configured sys d s =
    open_lem configured sys.socket_fd sys.hwaddr sys.open_fd sys.set_iff sys.set_own sys.get_fl
      sys.set_fl sys.set_sig d s
