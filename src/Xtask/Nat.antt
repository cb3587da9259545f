-- ===== src/Xtask/Nat.antt =====
-- `nat` of src/xtask/src/main.rs: the rules of iptables for the network of the tap.
use microps_rs.Base.{ℕ, Bool, not, ◌&&◌, ◌||◌, List, [], ◌∷◌, ◌++◌, none, some, if◌then◌else◌}
use microps_rs.Text.{codes}
use microps_rs.Xtask.{Shell, ExitCode, success, failure, is_success, run}
use microps_rs.Xtask.Cidr.{cidr_network}

pub record Rule : Type 0 where
  pub table : List ℕ
  pub chain : List ℕ
  pub spec : List (List ℕ)

unfoldable pub iptables_args : Rule → List ℕ → List (List ℕ)
iptables_args r action = (codes "iptables" ∷ codes "-t" ∷ r.table ∷ action ∷ r.chain ∷ []) ++ r.spec

unfoldable pub nat_rules : List ℕ → List ℕ → List ℕ → List Rule
nat_rules tap out net =
    record {
      table = codes "filter";
      chain = codes "FORWARD";
      spec = codes "-o" ∷ tap ∷ codes "-j" ∷ codes "ACCEPT" ∷ [];
    }
    ∷ record {
      table = codes "filter";
      chain = codes "FORWARD";
      spec = codes "-i" ∷ tap ∷ codes "-j" ∷ codes "ACCEPT" ∷ [];
    }
    ∷ record {
      table = codes "nat";
      chain = codes "POSTROUTING";
      spec = codes "-s" ∷ net ∷ codes "-o" ∷ out ∷ codes "-j" ∷ codes "MASQUERADE" ∷ [];
    }
    ∷ []

-- `DEFAULT_TAPADDR`.
abbrev pub default_tapaddr : List ℕ
default_tapaddr = codes "192.0.2.1/24"

module _ (sh : Shell) where
  unfoldable pub iptables_exists : Rule → sh.State → Bool × sh.State
  iptables_exists r s =
      let (ok, s') = sh.status (codes "sudo") (iptables_args r (codes "-C")) s in
      (is_success ok, s')

  -- The loop over the rules: a rule is added or deleted only if it has to be.
  unfoldable pub each_rule : Bool → List Rule → sh.State → ExitCode × sh.State
  unfolding iptables_exists
  each_rule on [] s = (success, s)
  each_rule on (r ∷ rs) s =
      let (exists, s') = iptables_exists r s in
      let action = if on then codes "-A" else codes "-D" in
      let (ok, s'') = run sh (codes "sudo") (iptables_args r action) s' in
      let skipped = each_rule on rs s' in
      let changed = each_rule on rs s'' in
      if (on && not exists) || (not on && exists)
      then (if ok then changed else (failure, s''))
      else skipped

  unfoldable pub nat : List ℕ → List ℕ → Bool → sh.State → ExitCode × sh.State
  unfolding each_rule
  nat tap out on s = elim (cidr_network default_tapaddr) [
    | none ↦ (failure, s)
    | some net ↦ each_rule on (nat_rules tap out net) s
  ]
