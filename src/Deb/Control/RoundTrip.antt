-- ===== src/Deb/Control/RoundTrip.antt =====
-- Control files that are written field by field are parsed back (src/deb_control.c).
use mathlib.Core.Path.{subst}
use mathlib.Core.List.{append_assoc}
use guppy.Prelude.{
  ℕ, zero, suc, ◌-◌, ◌≤◌, ◌<◌, ◌≡◌, refl, sym, ap, ◌∙◌, true, false, none, some, arith, ◌&&◌, ◌||◌,
  List, [], ◌∷◌, ◌++◌, length, take,
}
use guppy.Ascii.{Bytes}
use guppy.Deb.Control.Lines.{
  name_in, free_of, lines_of-append, drop_return-free, split_colon-append, free_of-append, IsName,
  names,
}
use guppy.Deb.Control.{
  field_table, cap_in, DebControl, skip_tabs_or_spaces, strip_end, is_tab_or_space, ends_line,
  copy_value, Parsing, put_member, split_colon, assigned, with_name, parse_line, parse_lines,
  lines_of, drop_return, deb_control_parse, is_set,
}

-- A line for each field and value.
unfoldable pub print_control : List (ℕ × Bytes) → Bytes
print_control [] = []
print_control ((i, v) ∷ es) =
    name_in field_table i ++ (b':' ∷ b' ' ∷ (v ++ (b'\n' ∷ print_control es)))

-- A value of one line, without blanks around it, that fits the array of the field.
pub record IsValue (i : ℕ) (v : Bytes) : Type 0 where
  pub known : i < 13
  pub one_line : free_of ends_line v ≡ true
  pub no_front : skip_tabs_or_spaces v ≡ v
  pub no_back : strip_end (λ c. ends_line c || is_tab_or_space c) v ≡ v
  pub short : length v < cap_in field_table i

abbrev pub AllValues : List (ℕ × Bytes) → Type 0
AllValues [] = Unit {0}
AllValues ((i, v) ∷ es) = IsValue i v × AllValues es

-- The members after the field_table have been stored in their order.
abbrev pub stored : List (ℕ × Bytes) → DebControl → DebControl
stored [] out = out
stored ((i, v) ∷ es) out = stored es (put_member i v out)

copy_value-value :
    (i : ℕ) (v : Bytes) → IsValue i v → copy_value (cap_in field_table i) (b' ' ∷ v) ≡ v
unfolding copy_value skip_tabs_or_spaces
copy_value-value i v w =
    let a = w.no_front in
    let b = w.no_back in
    let t = take_all v (cap_in field_table i - 1) (omega (arith, w.short)) in rw (a, b) t
  where
    take_all : (xs : Bytes) (n : ℕ) → length xs ≤ n → take n xs ≡ xs
    take_all [] zero h = refl
    take_all [] (suc n) h = refl
    take_all (x ∷ xs) zero h = absurd (omega arith)
    take_all (x ∷ xs) (suc n) h = ap (λ t. x ∷ t) (take_all xs n (omega arith))

parse_line-start :
    (c : ℕ) (cs name t : Bytes) (s : Parsing)
    → name ≡ c ∷ cs
    → is_tab_or_space c ≡ false
    → parse_line (name ++ t) s ≡ with_name (split_colon (name ++ t)) s
unfolding parse_line
parse_line-start c cs name t s e b =
    subst (λ n. parse_line (n ++ t) s ≡ with_name (split_colon (n ++ t)) s) (sym e) (rw b refl)

-- One line, without its end.
parse_line-field :
    (i : ℕ) (v name : Bytes) (s : Parsing)
    → IsName i name
    → IsValue i v
    → parse_line (name ++ (b':' ∷ b' ' ∷ v)) s
      ≡ record { out = put_member i v s.out; current = some i }
parse_line-field i v name s n w =
    let (c, cs, e, b) = n.starts in
    parse_line-start c cs name (b':' ∷ b' ' ∷ v) s e b
    ∙ ap (λ o. with_name o s) (split_colon-append name (b' ' ∷ v) n.no_colon)
    ∙ ap (λ o. assigned o (b' ' ∷ v) s) n.found
    ∙ ap (λ x. record { out = put_member i x s.out; current = some i }) (copy_value-value i v w)

parse_nothing : (s : Parsing) → (parse_lines (lines_of []) s).out ≡ s.out
unfolding parse_lines lines_of
parse_nothing s = refl

next_line :
    (line : Bytes) (lines : List Bytes) (s t : Parsing)
    → drop_return line ≡ line
    → parse_line line s ≡ t
    → (parse_lines (line ∷ lines) s).out ≡ (parse_lines lines t).out
unfolding parse_lines
next_line line lines s t e f =
    ap (λ l. (parse_lines lines (parse_line l s)).out) e ∙ ap (λ q. (parse_lines lines q).out) f

parse_lines-print_control :
    (es : List (ℕ × Bytes)) (s : Parsing)
    → AllValues es
    → (parse_lines (lines_of (print_control es)) s).out ≡ stored es s.out
unfolding print_control
parse_lines-print_control [] s a = parse_nothing s
parse_lines-print_control ((i, v) ∷ es) s a =
    let name = name_in field_table i in
    let n = names i a.0.known in
    let line = name ++ (b':' ∷ b' ' ∷ v) in
    let one : free_of ends_line line ≡ true =
      free_of-append ends_line name (b':' ∷ b' ' ∷ v) n.one_line a.0.one_line in
    let e1 = sym (append_assoc name (b':' ∷ b' ' ∷ v) (b'\n' ∷ print_control es)) in
    ap (λ t. (parse_lines (lines_of t) s).out) e1
    ∙ ap (λ ls. (parse_lines ls s).out) (lines_of-append line (print_control es) one)
    ∙ next_line line (lines_of (print_control es)) s _ (drop_return-free line one)
        (parse_line-field i v name s n a.0)
    ∙ parse_lines-print_control es (record { out = put_member i v s.out; current = some i }) a.1

-- What is written field by field is parsed back: for any values without blanks around them that fit,
-- in any order, and the last one where a field is repeated. The file is accepted if it has a package
-- and a version.
pub deb_control_parse-print_control :
    (es : List (ℕ × Bytes))
    → AllValues es
    → deb_control_parse (print_control es)
      ≡ (stored es (λ i. []), is_set (stored es (λ i. []) 0) && is_set (stored es (λ i. []) 1))
unfolding deb_control_parse
deb_control_parse-print_control es a =
    ap (λ (out : DebControl). (out, is_set (out 0) && is_set (out 1)))
      (parse_lines-print_control es (record { out = λ i. []; current = none }) a)
