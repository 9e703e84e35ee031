-- ===== src/Deb/Control.antt =====
-- Control files of Debian packages (src/deb_control.c, include/deb_control.h).
--
-- The text has no NUL. A member of deb_control_t is known by its place in the table of `field`.
pub mod Bounds
pub mod Lines
pub mod RoundTrip
pub mod Tests
use guppy.Prelude.{
  ℕ, zero, suc, ◌+◌, ◌-◌, ◌*◌, ◌/◌, ◌%◌, ◌^◌, ◌≤◌, ◌<◌, ◌≡◌, ◌≢◌, ◌⊎◌, ◌↔◌, inl, inr, refl, sym, ap,
  ◌∙◌, Bool, true, false, not, Option, none, some, arith, ◌==◌, ◌&&◌, ◌||◌, List, [], ◌∷◌, ◌++◌,
  map, length, length-append, length-take, take, drop, replicate, min, max, if◌then◌else◌,
  Bool-cases, ==_iff, ==_refl, ltb, leb, ne→==-false, lt→ltb, ltb→lt,
}
use guppy.Ascii.{Bytes, codes, same}

-- The names of the field_table and the sizes of their arrays.
abbrev pub field_table : List (Bytes × ℕ)
field_table =
    (codes "Package", 128)
    ∷ (codes "Version", 128)
    ∷ (codes "Architecture", 64)
    ∷ (codes "Essential", 32)
    ∷ (codes "Priority", 64)
    ∷ (codes "Section", 128)
    ∷ (codes "Maintainer", 256)
    ∷ (codes "Installed-Size", 64)
    ∷ (codes "Pre-Depends", 2048)
    ∷ (codes "Depends", 4096)
    ∷ (codes "Recommends", 2048)
    ∷ (codes "Suggests", 2048)
    ∷ (codes "Description", 4096)
    ∷ []

abbrev pub cap_in : List (Bytes × ℕ) → ℕ → ℕ
cap_in [] i = 0
cap_in ((name, cap) ∷ fs) zero = cap
cap_in ((name, cap) ∷ fs) (suc i) = cap_in fs i

abbrev pub DebControl : Type 0
DebControl = ℕ → Bytes

unfoldable pub field_in : List (Bytes × ℕ) → (i : ℕ) → (name : Bytes) → Option ℕ
field_in [] i name = none
field_in ((key, cap) ∷ fs) i name =
    let rest = field_in fs (i + 1) name in if same name key then some i else rest

unfoldable pub field : (name : Bytes) → Option ℕ
field name = field_in field_table 0 name

abbrev pub is_tab_or_space : ℕ → Bool
is_tab_or_space c = c == b' ' || c == b'\t'

abbrev pub ends_line : ℕ → Bool
ends_line c = c == b'\r' || c == b'\n'

unfoldable pub skip_tabs_or_spaces : Bytes → Bytes
skip_tabs_or_spaces [] = []
skip_tabs_or_spaces (c ∷ cs) =
    let rest = skip_tabs_or_spaces cs in if is_tab_or_space c then rest else c ∷ cs

abbrev pub unless_last : (test : ℕ → Bool) → ℕ → Bytes → Bytes
unless_last test c [] = if test c then [] else c ∷ []
unless_last test c (d ∷ ds) = c ∷ d ∷ ds

-- Without the characters of the test at its end.
unfoldable pub strip_end : (test : ℕ → Bool) → Bytes → Bytes
strip_end test [] = []
strip_end test (c ∷ cs) = unless_last test c (strip_end test cs)

unfoldable pub copy_value : (cap : ℕ) → Bytes → Bytes
copy_value cap p =
    take (cap - 1) (strip_end (λ c. ends_line c || is_tab_or_space c) (skip_tabs_or_spaces p))

unfoldable pub append_continuation : (dst : Bytes) → (cap : ℕ) → Bytes → Bytes
append_continuation dst cap p =
    let used = length dst in
    let begun = if not (used == 0) && ltb (used + 1) cap then dst ++ b'\n' ∷ [] else dst in
    begun ++ take (cap - length begun - 1) (strip_end ends_line (skip_tabs_or_spaces p))

-- What is parsed, and the member that a continuation is appended to.
pub record Parsing : Type 0 where
  pub out : DebControl
  pub current : Option ℕ

abbrev pub put_member : ℕ → Bytes → DebControl → DebControl
put_member i v out j = if j == i then v else out j

-- A name and the text behind the first colon.
unfoldable pub split_colon : Bytes → Option (Bytes × Bytes)
split_colon [] = none
split_colon (c ∷ cs) =
    let rest = split_colon cs in if c == b':' then some ([], cs) else longer c rest
  where
    longer : ℕ → Option (Bytes × Bytes) → Option (Bytes × Bytes)
    longer c none = none
    longer c (some (name, value)) = some (c ∷ name, value)

abbrev pub continued : Option ℕ → Bytes → Parsing → Parsing
continued none line s = s
continued (some i) line s = record s {
  out = put_member i (append_continuation (s.out i) (cap_in field_table i) line) s.out;
}

abbrev pub assigned : Option ℕ → Bytes → Parsing → Parsing
assigned none value s = record s { current = none }
assigned (some i) value s = record {
  out = put_member i (copy_value (cap_in field_table i) value) s.out;
  current = some i;
}

abbrev pub with_name : Option (Bytes × Bytes) → Parsing → Parsing
with_name none s = record s { current = none }
with_name (some (name, value)) s = assigned (field name) value s

-- A line without its end.
unfoldable pub parse_line : Bytes → Parsing → Parsing
parse_line [] s = record s { current = none }
parse_line (c ∷ cs) s =
    if is_tab_or_space c then continued s.current (c ∷ cs) s else with_name (split_colon (c ∷ cs)) s

abbrev pub grow : ℕ → List Bytes → List Bytes
grow c [] = (c ∷ []) ∷ []
grow c (line ∷ lines) = (c ∷ line) ∷ lines

unfoldable pub lines_of : Bytes → List Bytes
lines_of [] = []
lines_of (c ∷ cs) = let rest = lines_of cs in if c == b'\n' then [] ∷ rest else grow c rest

-- `if (text[end - 1] == '\r') end--`
unfoldable pub drop_return : Bytes → Bytes
drop_return [] = []
drop_return (c ∷ cs) = without_return c cs (drop_return cs)
  where
    without_return : ℕ → Bytes → Bytes → Bytes
    without_return c [] rest = if c == b'\r' then [] else c ∷ []
    without_return c (d ∷ ds) rest = c ∷ rest

unfoldable pub parse_lines : List Bytes → Parsing → Parsing
parse_lines [] s = s
parse_lines (line ∷ lines) s = parse_lines lines (parse_line (drop_return line) s)

abbrev pub is_set : Bytes → Bool
is_set [] = false
is_set (c ∷ cs) = true

-- `true` is 0, and `false` -2, for a file without a package or a version.
unfoldable pub deb_control_parse : Bytes → DebControl × Bool
deb_control_parse text =
    let s = parse_lines (lines_of text) (record { out = λ i. []; current = none }) in
    (s.out, is_set (s.out 0) && is_set (s.out 1))
