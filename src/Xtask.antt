-- ===== src/Xtask.antt =====
-- src/xtask/src/main.rs: the tasks of the project, over the commands that they run. Messages on
-- standard error are left out.
pub mod Cidr
pub mod Nat
pub mod Main
use microps_rs.Base.{
  ℕ, suc, ◌+◌, Bool, true, false, ◌&&◌, List, [], ◌∷◌, ◌++◌, Option, none, some, ◌==◌, get_elem?,
  if◌then◌else◌,
}
use microps_rs.Text.{codes, from_str_radix, print_dec, split_whitespace, trim}

-- What the commands see and change. `status` runs a program with its arguments: `none` where it
-- does not start, or whether it succeeds. `output` gives what it prints, where that is text.
pub record Shell : Type 1 where
  pub State : Type 0
  pub status : List ℕ → List (List ℕ) → State → Option Bool × State
  pub output : List ℕ → List (List ℕ) → State → Option (List ℕ) × State

pub data ExitCode : Type 0 where
  success failure : ExitCode

abbrev pub text_eq : List ℕ → List ℕ → Bool
text_eq [] [] = true
text_eq (x ∷ xs) (y ∷ ys) = (x == y) && text_eq xs ys
text_eq _ _ = false

unfoldable pub parse_state : List ℕ → Option Bool
parse_state s =
    if text_eq s (codes "on")
    then some true
    else if text_eq s (codes "off")
    then some false
    else none

abbrev pub is_success : Option Bool → Bool
is_success (some b) = b
is_success none = false

-- `iter().position(|&p| p == word)`, and the part behind it.
unfoldable pub behind : List ℕ → List (List ℕ) → Option (List ℕ)
behind word [] = none
behind word (p ∷ ps) = let rest = behind word ps in if text_eq p word then get_elem? ps 0 else rest

module _ (sh : Shell) where
  -- `run`.
  abbrev pub run : List ℕ → List (List ℕ) → sh.State → Bool × sh.State
  run program args s = let (r, s') = sh.status program args s in (is_success r, s')

  unfoldable pub iface_exists : List ℕ → sh.State → Bool × sh.State
  iface_exists dev s =
      let (r, s') = sh.status (codes "ip") (codes "addr" ∷ codes "show" ∷ dev ∷ []) s in
      (is_success r, s')

  -- The loop over the commands, which ends with the first that fails.
  unfoldable pub run_all : List (List (List ℕ)) → sh.State → ExitCode × sh.State
  run_all [] s = (success, s)
  run_all (cmd ∷ cmds) s =
      let (ok, s') = run (codes "sudo") cmd s in
      let rest = run_all cmds s' in if ok then rest else (failure, s')

  -- The commands of `tap_create`, for the user that the environment names.
  unfoldable pub create_cmds : List ℕ → List ℕ → List ℕ → List (List (List ℕ))
  create_cmds user dev addr =
      (codes "ip"
        ∷ codes "tuntap"
        ∷ codes "add"
        ∷ codes "mode"
        ∷ codes "tap"
        ∷ codes "user"
        ∷ user
        ∷ codes "name"
        ∷ dev
        ∷ [])
      ∷ (codes "sysctl"
          ∷ codes "-w"
          ∷ (codes "net.ipv6.conf." ++ (dev ++ codes ".disable_ipv6=1"))
          ∷ [])
      ∷ (codes "ip" ∷ codes "addr" ∷ codes "add" ∷ addr ∷ codes "dev" ∷ dev ∷ [])
      ∷ (codes "ip" ∷ codes "link" ∷ codes "set" ∷ dev ∷ codes "up" ∷ [])
      ∷ []

  unfoldable pub tap_create : List ℕ → List ℕ → List ℕ → sh.State → ExitCode × sh.State
  unfolding iface_exists run_all create_cmds
  tap_create user dev addr s =
      let (there, s') = iface_exists dev s in
      if there then (success, s') else run_all (create_cmds user dev addr) s'

  unfoldable pub tap_delete : List ℕ → sh.State → ExitCode × sh.State
  unfolding iface_exists
  tap_delete dev s =
      let (there, s') = iface_exists dev s in
      let cmd =
        codes "ip"
        ∷ codes "tuntap"
        ∷ codes "del"
        ∷ codes "mode"
        ∷ codes "tap"
        ∷ codes "name"
        ∷ dev
        ∷ [] in
      let (ok, s'') = run (codes "sudo") cmd s' in
      if there then (if ok then success else failure, s'') else (success, s')

  unfoldable pub read_ip_forward : sh.State → Option ℕ × sh.State
  read_ip_forward s =
      let (out, s') =
        sh.output (codes "sysctl") (codes "-n" ∷ codes "net.ipv4.ip_forward" ∷ []) s in
      (elim out [ none ↦ none | some text ↦ from_str_radix 10 4294967296 (trim text) ], s')

  abbrev is_value : ℕ → Option ℕ → Bool
  is_value target none = false
  is_value target (some n) = n == target

  unfoldable pub forward : Bool → sh.State → ExitCode × sh.State
  unfolding read_ip_forward
  forward on s =
      let target : ℕ = if on then 1 else 0 in
      let (now, s') = read_ip_forward s in
      let arg = codes "net.ipv4.ip_forward=" ++ print_dec target in
      let (ok, s'') = run (codes "sudo") (codes "sysctl" ∷ codes "-w" ∷ arg ∷ []) s' in
      if is_value target now then (success, s') else (if ok then success else failure, s'')

  -- The word behind `dev` in the default route.
  unfoldable pub detect_outbound_iface : sh.State → Option (List ℕ) × sh.State
  unfolding behind
  detect_outbound_iface s =
      let (out, s') =
        sh.output (codes "ip") (codes "route" ∷ codes "show" ∷ codes "default" ∷ []) s in
      (elim out [ none ↦ none | some text ↦ behind (codes "dev") (split_whitespace text) ], s')

  unfoldable pub resolve_outbound : Option (List ℕ) → sh.State → Option (List ℕ) × sh.State
  unfolding detect_outbound_iface
  resolve_outbound (some out) s = (some out, s)
  resolve_outbound none s = detect_outbound_iface s
