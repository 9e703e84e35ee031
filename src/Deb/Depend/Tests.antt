-- ===== src/Deb/Depend/Tests.antt =====
-- Relationship fields on concrete texts (src/deb_dep.c).
use guppy.Prelude.{◌≡◌, refl, [], ◌∷◌}
use guppy.Ascii.{codes, is_digit, is_alpha, is_alnum, is_space}
use guppy.Deb.Depend.{
  parsed, deb_dep_parse, parse_groups, parse_alts, pieces, nest_step, parse_alt, parse_named, span,
  trimcopy, trim_end, parse_arch, parse_bracket, with_restrictions, parse_version, close_version,
}
use guppy.Deb.Depend.Bounds.{FieldFits, deb_dep_parse-Fits}

two_groups :
    deb_dep_parse (codes "c:any (>= 2.0 ) | d [amd64], awk")
    ≡ parsed (
        (record {
          name = codes "c";
          arch_qual = codes "any";
          op = codes ">=";
          version = codes "2.0";
          restrictions = [];
        }
          ∷ record {
            name = codes "d";
            arch_qual = [];
            op = [];
            version = [];
            restrictions = codes "[amd64]";
          }
          ∷ [])
        ∷ (record { name = codes "awk"; arch_qual = []; op = []; version = []; restrictions = [] }
            ∷ [])
        ∷ [])
unfolding deb_dep_parse parse_groups parse_alts pieces nest_step parse_alt parse_named span trimcopy
    trim_end parse_arch parse_bracket with_restrictions parse_version close_version is_digit
    is_alpha is_alnum is_space
two_groups = refl

-- The text behind the last separator is lost when a bracket stays open.
unclosed : deb_dep_parse (codes "a (>= 1") ≡ parsed []
unfolding deb_dep_parse parse_groups pieces nest_step
unclosed = refl

deb_dep_parse-Fits_example : FieldFits 128 (deb_dep_parse (codes "c (>= 2.0) | d, awk"))
deb_dep_parse-Fits_example = deb_dep_parse-Fits (codes "c (>= 2.0) | d, awk")
