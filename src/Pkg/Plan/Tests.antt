-- ===== src/Pkg/Plan/Tests.antt =====
-- A repository with a dependency cycle and a virtual package (src/pkg_plan.c).
use guppy.Prelude.{◌+◌, ◌≡◌, refl, true, none, some, arith, [], ◌∷◌, if◌then◌else◌}
use guppy.Ascii.{Bytes, codes, same, is_digit, is_alpha, is_alnum, is_space}
use guppy.Deb.Depend.{
  deb_dep_parse, parse_groups, parse_alts, pieces, nest_step, parse_alt, parse_named, span,
  trimcopy, trim_end, parse_arch, parse_bracket, with_restrictions, parse_version, close_version,
}
use guppy.Deb.Version.Compare.{deb_version_satisfies}
use guppy.Pkg.Repo.{PkgRepoEntry, PkgRepo}
use guppy.Pkg.Choose.{choose_alt}
use guppy.Pkg.Plan.{
  Plan, empty_plan, new_node, expand, expand_field, expand_group, expand_groups, leave, build_plan,
  position, node_for, add_edge,
}
use guppy.Pkg.Plan.Valid.{Complete, build_plan-Complete}
use guppy.Pkg.Plan.Rounds.{expand-rounds}

abbrev entry : (name depends : Bytes) → PkgRepoEntry
entry name depends = record {
  package_name = name;
  version = codes "1";
  depends = depends;
  pre_depends = [];
  repo_root = [];
  filename = [];
}

abbrev shell : PkgRepoEntry
shell = entry (codes "sh") (codes "c | d, awk")

abbrev libc : PkgRepoEntry
libc = entry (codes "c") (codes "sh")

abbrev gawk : PkgRepoEntry
gawk = entry (codes "gawk") (codes "c")

abbrev repo : PkgRepo
repo = record {
  find_best = λ name op version.
      if same name (codes "sh")
      then some shell
      else if same name (codes "c")
      then some libc
      else none;
  find_provider = λ name. if same name (codes "awk") then some gawk else none;
  state_lookup = λ name. none;
}

shell_valid : (build_plan repo (codes "sh")).0.valid ≡ true
unfolding build_plan expand expand_field expand_groups expand_group leave position node_for add_edge
    choose_alt deb_dep_parse parse_groups parse_alts pieces nest_step parse_alt parse_named span
    trimcopy trim_end parse_arch parse_bracket with_restrictions parse_version close_version same
    is_digit is_alpha is_alnum is_space deb_version_satisfies
shell_valid = refl

build_plan-Complete_example :
    Complete repo (repo.find_best (codes "sh") none none) (build_plan repo (codes "sh"))
build_plan-Complete_example = build_plan-Complete repo (codes "sh") shell_valid

abbrev started : Plan
started = record empty_plan { n = new_node shell ∷ [] }

expand-rounds_example : expand repo 513 0 started ≡ expand repo (100 + 513) 0 started
expand-rounds_example = expand-rounds repo 100 0 started (omega arith)
