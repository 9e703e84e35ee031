-- ===== src/Pkg/Repo.antt =====
-- What the planner asks of the package repository (include/pkg_repo.h) and of the packages that are
-- installed on the target (include/pkg_state.h).
use guppy.Prelude.{Option}
use guppy.Ascii.{Bytes}

pub record PkgRepoEntry : Type 0 where
  pub package_name : Bytes
  pub version : Bytes
  pub depends : Bytes
  pub pre_depends : Bytes
  pub repo_root : Bytes
  pub filename : Bytes

-- `pkg_state_lookup` gives the version under the root that the planner works on. An operator and a
-- version of NULL are `none`.
pub record PkgRepo : Type 0 where
  pub find_best : Bytes → (op version : Option Bytes) → Option PkgRepoEntry
  pub find_provider : Bytes → Option PkgRepoEntry
  pub state_lookup : Bytes → Option Bytes
