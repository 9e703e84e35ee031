-- ===== src/Deb/Control/Bounds.antt =====
-- The arrays of a parsed control file (src/deb_control.c).
use mathlib.Core.Path.{subst}
use guppy.Prelude.{
  ℕ, ◌+◌, ◌-◌, ◌<◌, ◌≡◌, inl, inr, sym, true, not, Option, none, some, arith, ◌==◌, ◌&&◌, ◌||◌,
  List, [], ◌∷◌, ◌++◌, length, length-append, length-take, take, Bool-cases, ==_iff, ltb,
}
use guppy.Ascii.{Bytes}
use guppy.Deb.Control.{
  field_table, cap_in, DebControl, skip_tabs_or_spaces, strip_end, is_tab_or_space, ends_line,
  copy_value, append_continuation, Parsing, put_member, split_colon, continued, assigned, with_name,
  field, parse_line, parse_lines, lines_of, drop_return, deb_control_parse,
}

-- Every text fits its array with the NUL.
abbrev pub InArrays : DebControl → Type 0
InArrays out = (i : ℕ) → 0 < cap_in field_table i → length (out i) < cap_in field_table i

length-copy_value : (size : ℕ) (p : Bytes) → 0 < size → length (copy_value size p) < size
unfolding copy_value
length-copy_value size p h =
    let e =
      length-take (size - 1)
        (strip_end (λ c. ends_line c || is_tab_or_space c) (skip_tabs_or_spaces p)) in
    omega (arith, e)

appended :
    (size : ℕ) (begun rest : Bytes)
    → length begun < size
    → length (begun ++ take (size - length begun - 1) rest) < size
appended size begun rest h =
    let e = length-take (size - length begun - 1) rest in
    let a = length-append begun (take (size - length begun - 1) rest) in omega (arith, e, a)

length-append_continuation :
    (dst : Bytes) (size : ℕ) (p : Bytes)
    → length dst < size
    → length (append_continuation dst size p) < size
unfolding append_continuation
length-append_continuation dst size p h =
    elim (Bool-cases (not (length dst == 0) && ltb (length dst + 1) size)) [
      | inl e ↦
          let a = length-append dst (b'\n' ∷ []) in
          let room = fits (length dst) size e in
          rw e (appended size (dst ++ b'\n' ∷ []) _ (omega (arith, a, room)))
      | inr e ↦ rw e (appended size dst _ h)
    ]
  where
    fits : (n size : ℕ) → (not (n == 0) && ltb (n + 1) size) ≡ true → n + 1 < size
    fits n size h = ground arith

put_member-InArrays :
    (i : ℕ) (v : Bytes) (out : DebControl)
    → (0 < cap_in field_table i → length v < cap_in field_table i)
    → InArrays out
    → InArrays (put_member i v out)
put_member-InArrays i v out h a j p = elim (Bool-cases (j == i)) [
  | inl e ↦
      let z : j ≡ i = (==_iff j i).0 e in
      let q = subst (λ k. 0 < cap_in field_table k → length v < cap_in field_table k) (sym z) h in
      rw e (q p)
  | inr e ↦ let q = a j p in rw e q
]

continued-InArrays :
    (o : Option ℕ) (line : Bytes) (s : Parsing) → InArrays s.out → InArrays (continued o line s).out
continued-InArrays none line s a = a
continued-InArrays (some i) line s a =
    put_member-InArrays i _ s.out
      (λ p. length-append_continuation (s.out i) (cap_in field_table i) line (a i p)) a

assigned-InArrays :
    (o : Option ℕ) (value : Bytes) (s : Parsing)
    → InArrays s.out
    → InArrays (assigned o value s).out
assigned-InArrays none value s a = a
assigned-InArrays (some i) value s a =
    put_member-InArrays i _ s.out (λ p. length-copy_value (cap_in field_table i) value p) a

with_name-InArrays :
    (o : Option (Bytes × Bytes)) (s : Parsing) → InArrays s.out → InArrays (with_name o s).out
with_name-InArrays none s a = a
with_name-InArrays (some (name, value)) s a = assigned-InArrays (field name) value s a

parse_line-InArrays :
    (line : Bytes) (s : Parsing) → InArrays s.out → InArrays (parse_line line s).out
unfolding parse_line
parse_line-InArrays [] s a = a
parse_line-InArrays (c ∷ cs) s a = elim (Bool-cases (is_tab_or_space c)) [
  | inl e ↦ let q = continued-InArrays s.current (c ∷ cs) s a in rw e q
  | inr e ↦ let q = with_name-InArrays (split_colon (c ∷ cs)) s a in rw e q
]

parse_lines-InArrays :
    (lines : List Bytes) (s : Parsing) → InArrays s.out → InArrays (parse_lines lines s).out
unfolding parse_lines
parse_lines-InArrays [] s a = a
parse_lines-InArrays (line ∷ lines) s a =
    parse_lines-InArrays lines (parse_line (drop_return line) s)
      (parse_line-InArrays (drop_return line) s a)

-- Whatever the file holds, repeated field_table and any number of continuation lines included, each member
-- of deb_control_t is a string that fits its array.
pub deb_control_parse-InArrays : (text : Bytes) → InArrays (deb_control_parse text).0
unfolding deb_control_parse
deb_control_parse-InArrays text =
    parse_lines-InArrays (lines_of text) (record { out = λ i. []; current = none }) λ i p. p
