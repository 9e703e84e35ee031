-- ===== src/Deb/Depend.antt =====
-- Relationship fields of Debian packages (src/deb_dep.c, include/deb_dep.h).
--
-- The pointers into the text are the pieces of it that they delimit. The counts of open brackets do
-- not overflow: a field has fewer than 2 ^ 31 characters.
pub mod Bounds
pub mod Tests
use guppy.Prelude.{
  ℕ, zero, suc, ◌+◌, ◌-◌, ◌*◌, ◌/◌, ◌%◌, ◌^◌, ◌≤◌, ◌<◌, ◌≡◌, ◌≢◌, ◌⊎◌, ◌↔◌, inl, inr, refl, sym, ap,
  ◌∙◌, Bool, true, false, not, Option, none, some, arith, ◌==◌, ◌&&◌, ◌||◌, List, [], ◌∷◌, ◌++◌,
  map, length, length-append, length-take, take, drop, replicate, min, max, if◌then◌else◌,
  Bool-cases, ==_iff, ==_refl, ltb, leb, ne→==-false, lt→ltb, ltb→lt,
}
use guppy.Ascii.{Bytes, is_space, is_alnum}

abbrev pub deb_dep_max_groups : ℕ
deb_dep_max_groups = 128

abbrev pub deb_dep_max_alts : ℕ
deb_dep_max_alts = 8

pub record DebDepAlt : Type 0 where
  pub name : Bytes
  pub arch_qual : Bytes
  pub op : Bytes
  pub version : Bytes
  pub restrictions : Bytes

abbrev pub DebDepGroup : Type 0
DebDepGroup = List DebDepAlt

-- The scan `while (p < b && test(*p)) p++`: what it passes, and what is left.
unfoldable pub span : (test : ℕ → Bool) → Bytes → Bytes × Bytes
span test [] = ([], [])
span test (c ∷ cs) =
    let (passed, left) = span test cs in if test c then (c ∷ passed, left) else ([], c ∷ cs)

abbrev pub skip_spaces : Bytes → Bytes
skip_spaces s = (span is_space s).1

unfoldable pub trim_end : Bytes → Bytes
trim_end [] = []
trim_end (c ∷ cs) = keep_unless_blank c (trim_end cs)
  where
    keep_unless_blank : ℕ → Bytes → Bytes
    keep_unless_blank c [] = if is_space c then [] else c ∷ []
    keep_unless_blank c (d ∷ ds) = c ∷ d ∷ ds

unfoldable pub trimcopy : (cap : ℕ) → Bytes → Bytes
trimcopy cap s = take (cap - 1) (trim_end (skip_spaces s))

abbrev pub is_name_char : ℕ → Bool
is_name_char c = is_alnum c || c == b'+' || c == b'-' || c == b'.'

abbrev pub is_arch_char : ℕ → Bool
is_arch_char c = is_alnum c || c == b'-'

abbrev pub is_op_char : ℕ → Bool
is_op_char c = c == b'<' || c == b'>' || c == b'='

-- Behind the version: `o` is what is parsed so far.
unfoldable pub with_restrictions : DebDepAlt → Bytes → DebDepAlt
with_restrictions o s = record o { restrictions = trimcopy 256 (skip_spaces s) }

-- From the version on, in brackets; without a closing one it is an error.
unfoldable pub close_version : DebDepAlt → Bytes × Bytes → Option DebDepAlt
close_version o (version, []) = none
close_version o (version, c ∷ cs) =
    some (with_restrictions (record o { version = trimcopy 128 version }) cs)

unfoldable pub parse_version : DebDepAlt → Bytes → Option DebDepAlt
parse_version o s =
    let (op, rest) = span is_op_char (skip_spaces s) in
    close_version (record o { op = trimcopy 4 op }) (span (λ c. not (c == b')')) (skip_spaces rest))

unfoldable pub parse_bracket : DebDepAlt → Bytes → Option DebDepAlt
parse_bracket o [] = some o
parse_bracket o (c ∷ cs) =
    if c == b'(' then parse_version o cs else some (with_restrictions o (c ∷ cs))

unfoldable pub parse_arch : DebDepAlt → Bytes → Option DebDepAlt
parse_arch o [] = some o
parse_arch o (c ∷ cs) =
    let (arch, rest) = span is_arch_char cs in
    if c == b':'
    then parse_bracket (record o { arch_qual = trimcopy 32 arch }) (skip_spaces rest)
    else parse_bracket o (skip_spaces (c ∷ cs))

abbrev pub alt_named : Bytes → DebDepAlt
alt_named name = record {
  name = trimcopy 128 name;
  arch_qual = [];
  op = [];
  version = [];
  restrictions = [];
}

unfoldable pub parse_named : Bytes × Bytes → Option DebDepAlt
parse_named ([], rest) = none
parse_named (c ∷ cs, rest) = parse_arch (alt_named (c ∷ cs)) rest

unfoldable pub parse_alt : Bytes → Option DebDepAlt
parse_alt s = parse_named (span is_name_char (skip_spaces s))

-- The brackets that are open.
pub record Nest : Type 0 where
  pub par : ℕ
  pub br : ℕ
  pub profile : ℕ

abbrev pub flat : Nest
flat = record { par = 0; br = 0; profile = 0 }

unfoldable pub nest_step : Nest → ℕ → Nest
nest_step n c =
    if c == b'('
    then record n { par = n.par + 1 }
    else if c == b')' && not (n.par == 0)
    then record n { par = n.par - 1 }
    else if c == b'['
    then record n { br = n.br + 1 }
    else if c == b']' && not (n.br == 0)
    then record n { br = n.br - 1 }
    else if c == b'<' && n.par == 0
    then record n { profile = n.profile + 1 }
    else if c == b'>' && not (n.profile == 0) && n.par == 0
    then record n { profile = n.profile - 1 }
    else n

abbrev pub is_flat : Nest → Bool
is_flat n = n.par == 0 && n.br == 0 && n.profile == 0

-- `c` in front of the first piece.
abbrev pub grow : ℕ → List Bytes → List Bytes
grow c [] = []
grow c (piece ∷ pieces) = (c ∷ piece) ∷ pieces

-- The pieces between the separators that stand outside brackets, where the end of the text is one
-- too: inside brackets, the text behind the last separator is no piece.
unfoldable pub pieces : (sep : ℕ) → Nest → Bytes → List Bytes
pieces sep n [] = if is_flat n then [] ∷ [] else []
pieces sep n (c ∷ cs) =
    let n' = nest_step n c in
    let rest = pieces sep n' cs in if c == sep && is_flat n' then [] ∷ rest else grow c rest

-- `deb_dep_parse` returns 0 with the groups, or the negated code.
pub data Parsed {ℓ} (A : Type ℓ) : Type ℓ where
  parsed : A → Parsed A
  failed : (code : ℕ) → Parsed A

abbrev pub one_more {ℓ} : {A : Type ℓ} → A → Parsed (List A) → Parsed (List A)
one_more a (parsed rest) = parsed (a ∷ rest)
one_more a (failed code) = failed code

abbrev pub alt_then : Option DebDepAlt → Parsed DebDepGroup → Parsed DebDepGroup
alt_then none rest = failed 4
alt_then (some o) rest = one_more o rest

-- The alternatives of a group, `alt_count` being in front.
unfoldable pub parse_alts : (alt_count : ℕ) → List Bytes → Parsed DebDepGroup
parse_alts alt_count [] = parsed []
parse_alts alt_count (a ∷ rest_alts) =
    let rest = parse_alts (alt_count + 1) rest_alts in
    if leb deb_dep_max_alts alt_count then failed 3 else alt_then (parse_alt a) rest

abbrev pub group_then : Parsed DebDepGroup → Parsed (List DebDepGroup) → Parsed (List DebDepGroup)
group_then (parsed g) rest = one_more g rest
group_then (failed code) rest = failed code

unfoldable pub parse_groups : (group_count : ℕ) → List Bytes → Parsed (List DebDepGroup)
parse_groups group_count [] = parsed []
parse_groups group_count (g ∷ gs) =
    let rest = parse_groups (group_count + 1) gs in
    if leb deb_dep_max_groups group_count
    then failed 2
    else group_then (parse_alts 0 (pieces b'|' flat g)) rest

unfoldable pub deb_dep_parse : Bytes → Parsed (List DebDepGroup)
deb_dep_parse [] = parsed []
deb_dep_parse (c ∷ cs) = parse_groups 0 (pieces b',' flat (c ∷ cs))
