-- ===== src/Xtask/Main.antt =====
-- `main` of src/xtask/src/main.rs, from the flags that the crate xflags has read.
use microps_rs.Base.{Bool, List, ℕ, Option, none, some}
use microps_rs.Text.{codes}
use microps_rs.Xtask.{
  Shell, ExitCode, failure, parse_state, tap_create, tap_delete, forward, resolve_outbound,
}
use microps_rs.Xtask.Nat.{default_tapaddr, nat}

-- `DEFAULT_TAPDEV`.
abbrev default_tapdev : List ℕ
default_tapdev = codes "tap0"

-- The flags: `xtask tap create`, `tap delete`, `forward` and `nat`.
pub data TapCmd : Type 0 where
  create : Option (List ℕ) → Option (List ℕ) → TapCmd
  delete : Option (List ℕ) → TapCmd

pub data XtaskCmd : Type 0 where
  on_tap : TapCmd → XtaskCmd
  on_forward : List ℕ → XtaskCmd
  on_nat : List ℕ → Option (List ℕ) → Option (List ℕ) → XtaskCmd

abbrev or_default : List ℕ → Option (List ℕ) → List ℕ
or_default d none = d
or_default d (some x) = x

module _ (sh : Shell) where
  unfoldable pub run_nat : Bool → Option (List ℕ) → Option (List ℕ) → sh.State → ExitCode × sh.State
  run_nat on tap out s =
      let (found, s') = resolve_outbound sh out s in
      elim found [ none ↦ (failure, s') | some o ↦ nat sh (or_default default_tapdev tap) o on s' ]

  -- `user` is the user of the environment, or nothing.
  unfoldable pub main : List ℕ → XtaskCmd → sh.State → ExitCode × sh.State
  unfolding run_nat
  main user (on_tap (create dev addr)) s =
      tap_create sh user (or_default default_tapdev dev) (or_default default_tapaddr addr) s
  main user (on_tap (delete dev)) s = tap_delete sh (or_default default_tapdev dev) s
  main user (on_forward state) s = elim (parse_state state) [
    | none ↦ (failure, s)
    | some on ↦ forward sh on s
  ]
  main user (on_nat state tap out) s = elim (parse_state state) [
    | none ↦ (failure, s)
    | some on ↦ run_nat on tap out s
  ]
