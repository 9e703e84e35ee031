-- ===== src/Pkg/Choose.antt =====
-- What satisfies a dependency (src/pkg_plan.c: choose_alt).
use Prim.Native.Nat.{Ordering}
use guppy.Prelude.{ℕ, Bool, false, Option, none, some, [], ◌∷◌, if◌then◌else◌}
use guppy.Ascii.{Bytes}
use guppy.Deb.Depend.{DebDepAlt, DebDepGroup}
use guppy.Deb.Version.Compare.{deb_version_compare, deb_version_satisfies, is_eq}
use guppy.Pkg.Repo.{PkgRepoEntry, PkgRepo}

-- The result and the output parameters of choose_alt; `is_inst` is 0, 1 or 2.
pub record Choice : Type 0 where
  pub entry : Option PkgRepoEntry
  pub is_inst : ℕ
  pub chosen_alt : Option DebDepAlt

-- `deb_version_satisfies`, which always gives a result.
abbrev pub is_true : Option Bool → Bool
is_true none = false
is_true (some b) = b

abbrev pub satisfies : (version : Bytes) → DebDepAlt → Bool
satisfies version a = is_true (deb_version_satisfies (some version) (some a.op) (some a.version))

abbrev pub is_equal : Option Ordering → Bool
is_equal none = false
is_equal (some o) = is_eq o

abbrev pub target_has : Option Bytes → DebDepAlt → Bool
target_has none a = false
target_has (some version) a = satisfies version a

abbrev pub present_as : Option Bytes → PkgRepoEntry → ℕ
present_as none e = 0
present_as (some version) e =
    if is_equal (deb_version_compare (some version) (some e.version)) then 1 else 0

abbrev pub on_target : Option PkgRepoEntry → DebDepAlt → Choice
on_target none a = record { entry = none; is_inst = 2; chosen_alt = some a }
on_target (some e) a = record { entry = some e; is_inst = 1; chosen_alt = some a }

module _ (repo : PkgRepo) where
  abbrev pub best : DebDepAlt → Option PkgRepoEntry
  best a = repo.find_best a.name (some a.op) (some a.version)

  abbrev pub or_provider : Option PkgRepoEntry → DebDepAlt → Choice → Choice
  or_provider none a rest = rest
  or_provider (some e) a rest = record {
    entry = some e;
    is_inst = present_as (repo.state_lookup e.package_name) e;
    chosen_alt = some a;
  }

  abbrev pub or_best : Option PkgRepoEntry → DebDepAlt → Choice → Choice
  or_best none a rest = or_provider (repo.find_provider a.name) a rest
  or_best (some e) a rest = record { entry = some e; is_inst = 0; chosen_alt = some a }

  unfoldable pub choose_alt : DebDepGroup → Choice
  choose_alt [] = record { entry = none; is_inst = 0; chosen_alt = none }
  choose_alt (a ∷ g) =
      let rest = choose_alt g in
      if target_has (repo.state_lookup a.name) a
      then on_target (best a) a
      else or_best (best a) a rest
