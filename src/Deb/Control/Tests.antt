-- ===== src/Deb/Control/Tests.antt =====
-- A control file (src/deb_control.c).
use guppy.Prelude.{ℕ, ◌≡◌, refl, arith, ◌&&◌, List, [], ◌∷◌}
use guppy.Ascii.{Bytes, codes, same}
use guppy.Deb.Control.{
  deb_control_parse, is_set, parse_lines, parse_line, lines_of, drop_return, split_colon, field,
  field_in, copy_value, append_continuation, skip_tabs_or_spaces, strip_end,
}
use guppy.Deb.Control.RoundTrip.{AllValues, stored, print_control, deb_control_parse-print_control}
use guppy.Deb.Control.Bounds.{InArrays, deb_control_parse-InArrays}

continued_depends :
    (deb_control_parse (codes "Package: a \nDepends: b,\n c\r\nVersion: 1")).0 9 ≡ codes "b,\nc"
unfolding deb_control_parse parse_lines parse_line lines_of drop_return split_colon field field_in
    copy_value append_continuation skip_tabs_or_spaces strip_end same
continued_depends = refl

deb_control_parse-InArrays_example :
    InArrays (deb_control_parse (codes "Package: a\n b\nVersion: 1")).0
deb_control_parse-InArrays_example = deb_control_parse-InArrays (codes "Package: a\n b\nVersion: 1")

abbrev two_fields : List (ℕ × Bytes)
two_fields = (1, codes "2.0-1") ∷ (0, codes "sh") ∷ []

two_fields-AllValues : AllValues two_fields
unfolding skip_tabs_or_spaces strip_end
two_fields-AllValues = (
  record {
    known = omega arith;
    one_line = refl;
    no_front = refl;
    no_back = refl;
    short = omega arith;
  },
  (
    record {
      known = omega arith;
      one_line = refl;
      no_front = refl;
      no_back = refl;
      short = omega arith;
    },
    tt,
  ),
)

deb_control_parse-print_control_example : deb_control_parse (print_control two_fields) ≡ (
  stored two_fields (λ i. []),
  is_set (stored two_fields (λ i. []) 0) && is_set (stored two_fields (λ i. []) 1),
)
deb_control_parse-print_control_example =
    deb_control_parse-print_control two_fields two_fields-AllValues
