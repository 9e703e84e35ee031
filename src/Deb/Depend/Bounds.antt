-- ===== src/Deb/Depend/Bounds.antt =====
-- The limits of a parsed relationship field (src/deb_dep.c).
use guppy.Prelude.{
  ℕ, ◌+◌, ◌-◌, ◌≤◌, ◌<◌, ◌≡◌, inl, inr, Option, none, some, arith, ◌==◌, List, [], ◌∷◌, length,
  length-take, Bool-cases, leb,
}
use guppy.Ascii.{Bytes}
use guppy.Deb.Depend.{
  DebDepAlt, DebDepGroup, Parsed, parsed, failed, alt_named, trimcopy, trim_end, parse_alts,
  parse_groups, alt_then, group_then, parse_alt, parse_named, parse_arch, parse_bracket,
  parse_version, close_version, with_restrictions, pieces, flat, deb_dep_parse, span, skip_spaces,
  is_name_char,
}

-- What fits in the arrays of deb_dep_alt_t, each with its NUL.
pub record Fits (o : DebDepAlt) : Type 0 where
  pub name : length o.name < 128
  pub arch_qual : length o.arch_qual < 32
  pub op : length o.op < 4
  pub version : length o.version < 128
  pub restrictions : length o.restrictions < 256

length-trimcopy : (size : ℕ) (s : Bytes) → 0 < size → length (trimcopy size s) < size
unfolding trimcopy
length-trimcopy size s h =
    let e = length-take (size - 1) (trim_end (skip_spaces s)) in omega (arith, e)

abbrev pub AltFits : Option DebDepAlt → Type 0
AltFits none = Unit {0}
AltFits (some o) = Fits o

with_restrictions-Fits : (o : DebDepAlt) (s : Bytes) → Fits o → Fits (with_restrictions o s)
unfolding with_restrictions
with_restrictions-Fits o s f = record {
  name = f.name;
  arch_qual = f.arch_qual;
  op = f.op;
  version = f.version;
  restrictions = length-trimcopy 256 _ (omega arith);
}

close_version-Fits : (o : DebDepAlt) (r : Bytes × Bytes) → Fits o → AltFits (close_version o r)
unfolding close_version
close_version-Fits o (version, []) f = tt
close_version-Fits o (version, c ∷ cs) f = with_restrictions-Fits _ cs (record {
  name = f.name;
  arch_qual = f.arch_qual;
  op = f.op;
  version = length-trimcopy 128 version (omega arith);
  restrictions = f.restrictions;
})

parse_version-Fits : (o : DebDepAlt) (s : Bytes) → Fits o → AltFits (parse_version o s)
unfolding parse_version
parse_version-Fits o s f = close_version-Fits _ _ (record {
  name = f.name;
  arch_qual = f.arch_qual;
  op = length-trimcopy 4 _ (omega arith);
  version = f.version;
  restrictions = f.restrictions;
})

parse_bracket-Fits : (o : DebDepAlt) (s : Bytes) → Fits o → AltFits (parse_bracket o s)
unfolding parse_bracket
parse_bracket-Fits o [] f = f
parse_bracket-Fits o (c ∷ cs) f = elim (Bool-cases (c == b'(')) [
  | inl e ↦ rw e (parse_version-Fits o cs f)
  | inr e ↦ rw e (with_restrictions-Fits o (c ∷ cs) f)
]

parse_arch-Fits : (o : DebDepAlt) (s : Bytes) → Fits o → AltFits (parse_arch o s)
unfolding parse_arch
parse_arch-Fits o [] f = f
parse_arch-Fits o (c ∷ cs) f = elim (Bool-cases (c == b':')) [
  | inl e ↦ rw e (
      parse_bracket-Fits _ _ (record {
        name = f.name;
        arch_qual = length-trimcopy 32 _ (omega arith);
        op = f.op;
        version = f.version;
        restrictions = f.restrictions;
      }))
  | inr e ↦ rw e (parse_bracket-Fits o _ f)
]

parse_named-Fits : (r : Bytes × Bytes) → AltFits (parse_named r)
unfolding parse_named
parse_named-Fits ([], rest) = tt
parse_named-Fits (c ∷ cs, rest) = parse_arch-Fits (alt_named (c ∷ cs)) rest (record {
  name = length-trimcopy 128 (c ∷ cs) (omega arith);
  arch_qual = omega arith;
  op = omega arith;
  version = omega arith;
  restrictions = omega arith;
})

abbrev pub AllFit : DebDepGroup → Type 0
AllFit [] = Unit {0}
AllFit (o ∷ g) = Fits o × AllFit g

abbrev pub GroupFits : (room : ℕ) → Parsed DebDepGroup → Type 0
GroupFits room (parsed g) = AllFit g × (length g ≤ room)
GroupFits room (failed code) = (2 ≤ code) × (code ≤ 4)

alt_then-Fits :
    (room : ℕ) (o : Option DebDepAlt) (r : Parsed DebDepGroup)
    → 0 < room
    → AltFits o
    → GroupFits (room - 1) r
    → GroupFits room (alt_then o r)
alt_then-Fits room none r h f g = (omega arith, omega arith)
alt_then-Fits room (some o) (parsed g) h f (a, l) = ((f, a), omega arith)
alt_then-Fits room (some o) (failed code) h f g = g

parse_alts-Fits : (n : ℕ) (ps : List Bytes) → n ≤ 8 → GroupFits (8 - n) (parse_alts n ps)
unfolding parse_alts parse_alt
parse_alts-Fits n [] h = (tt, omega arith)
parse_alts-Fits n (p ∷ ps) h = elim (Bool-cases (leb 8 n)) [
  | inl e ↦ rw e (omega arith, omega arith)
  | inr e ↦
      let less : n < 8 = ground arith in
      let z : 8 - n - 1 ≡ 8 - (n + 1) = omega arith in
      rw e (
        alt_then-Fits (8 - n) (parse_alt p) (parse_alts (n + 1) ps) (omega arith)
          (parse_named-Fits (span is_name_char (skip_spaces p)))
          (rw z (parse_alts-Fits (n + 1) ps (omega arith))))
]

abbrev pub AllGroups : List DebDepGroup → Type 0
AllGroups [] = Unit {0}
AllGroups (g ∷ gs) = (AllFit g × (length g ≤ 8)) × AllGroups gs

abbrev pub FieldFits : (room : ℕ) → Parsed (List DebDepGroup) → Type 0
FieldFits room (parsed gs) = AllGroups gs × (length gs ≤ room)
FieldFits room (failed code) = (2 ≤ code) × (code ≤ 4)

group_then-Fits :
    (room : ℕ) (g : Parsed DebDepGroup) (r : Parsed (List DebDepGroup))
    → 0 < room
    → GroupFits 8 g
    → FieldFits (room - 1) r
    → FieldFits room (group_then g r)
group_then-Fits room (failed code) r h f k = f
group_then-Fits room (parsed g) (parsed gs) h f (a, l) = ((f, a), omega arith)
group_then-Fits room (parsed g) (failed code) h f k = k

parse_groups-Fits : (n : ℕ) (ps : List Bytes) → n ≤ 128 → FieldFits (128 - n) (parse_groups n ps)
unfolding parse_groups
parse_groups-Fits n [] h = (tt, omega arith)
parse_groups-Fits n (p ∷ ps) h = elim (Bool-cases (leb 128 n)) [
  | inl e ↦ rw e (omega arith, omega arith)
  | inr e ↦
      let less : n < 128 = ground arith in
      let z : 128 - n - 1 ≡ 128 - (n + 1) = omega arith in
      rw e (
        group_then-Fits (128 - n) (parse_alts 0 (pieces b'|' flat p)) (parse_groups (n + 1) ps)
          (omega arith) (parse_alts-Fits 0 (pieces b'|' flat p) (omega arith))
          (rw z (parse_groups-Fits (n + 1) ps (omega arith))))
]

-- Whatever the field holds, deb_dep_parse either fails with a code from -4 to -2, or gives at most
-- 128 groups of at most 8 alternatives, in which every text fits its array with the NUL.
pub deb_dep_parse-Fits : (s : Bytes) → FieldFits 128 (deb_dep_parse s)
unfolding deb_dep_parse
deb_dep_parse-Fits [] = (tt, omega arith)
deb_dep_parse-Fits (c ∷ cs) = parse_groups-Fits 0 (pieces b',' flat (c ∷ cs)) (omega arith)
