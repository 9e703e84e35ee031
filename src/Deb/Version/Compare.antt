-- ===== src/Deb/Version/Compare.antt =====
-- Comparison of full versions (deb_version.c): epoch, upstream version and revision.
use Prim.Native.Nat.{Ordering, lt, eq, gt, compare}
use guppy.Prelude.{
  ℕ, ◌+◌, ◌-◌, ◌*◌, Bool, true, false, not, Option, none, some, ◌==◌, ◌||◌, [], ◌∷◌, take, min,
  if◌then◌else◌,
}
use guppy.Ascii.{Bytes, is_digit, same, codes}
use guppy.Word.{u64_max}
use guppy.Deb.Version.{verrevcmp}

-- `strchr`: what stands before the first `c`, and behind it.
unfoldable pub split_first : ℕ → Bytes → Option (Bytes × Bytes)
split_first c [] = none
split_first c (x ∷ xs) =
    let rest = split_first c xs in
    if x == c then some ([], xs) else elim rest [ none ↦ none | some (p, q) ↦ some (x ∷ p, q) ]

-- `strrchr`: the same for the last `c`.
unfoldable pub split_last : ℕ → Bytes → Option (Bytes × Bytes)
split_last c [] = none
split_last c (x ∷ xs) =
    let rest = split_last c xs in
    elim rest [ none ↦ if x == c then some ([], xs) else none | some (p, q) ↦ some (x ∷ p, q) ]

unfoldable pub all_digits : Bytes → Bool
all_digits [] = true
all_digits (c ∷ cs) = let rest = all_digits cs in if is_digit c then rest else false

-- The value of decimal digits, behind those of `n`.
unfoldable pub decimal : ℕ → Bytes → ℕ
decimal n [] = n
decimal n (c ∷ cs) = decimal (n * 10 + (c - b'0')) cs

-- `strtoul` on decimal digits, with `unsigned long` of 64 bits.
unfoldable pub strtoul : Bytes → ℕ
strtoul s = min (decimal 0 s) u64_max

-- `*rest` and the result, with the string split at its first colon.
abbrev pub epoch_of : Bytes → Option (Bytes × Bytes) → ℕ × Bytes
epoch_of s none = (0, s)
epoch_of s (some (p, q)) = if all_digits p then (strtoul p, q) else (0, s)

unfoldable pub parse_epoch : Bytes → ℕ × Bytes
parse_epoch s = epoch_of s (split_first b':' s)

-- A NULL pointer is `none`.
abbrev pub or_empty : Option Bytes → Bytes
or_empty none = []
or_empty (some s) = s

-- `au`: the bytes before the last dash, at most `sizeof au - 1` of them.
unfoldable pub upstream : Bytes → Bytes
upstream r = elim (split_last b'-' r) [ none ↦ take 255 r | some (p, q) ↦ take 255 p ]

-- `adash ? adash + 1 : "0"`
unfoldable pub revision : Bytes → Bytes
revision r = elim (split_last b'-' r) [ none ↦ b'0' ∷ [] | some (p, q) ↦ q ]

-- `c = ...; if (c) return c;`
abbrev pub or_else : Option Ordering → Option Ordering → Option Ordering
or_else none rest = none
or_else (some lt) rest = some lt
or_else (some gt) rest = some gt
or_else (some eq) rest = rest

unfoldable pub deb_version_compare : Option Bytes → Option Bytes → Option Ordering
deb_version_compare a b =
    let ea = parse_epoch (or_empty a) in
    let eb = parse_epoch (or_empty b) in
    or_else (some (compare ea.0 eb.0)) (
      or_else (verrevcmp (upstream ea.1) (upstream eb.1))
        (verrevcmp (revision ea.1) (revision eb.1)))

abbrev pub is_lt : Ordering → Bool
is_lt lt = true
is_lt eq = false
is_lt gt = false

abbrev pub is_eq : Ordering → Bool
is_eq lt = false
is_eq eq = true
is_eq gt = false

abbrev pub is_gt : Ordering → Bool
is_gt lt = false
is_gt eq = false
is_gt gt = true

-- The tests of the result against the operator.
unfoldable pub op_holds : Bytes → Ordering → Bool
op_holds op c =
    if same op (codes "=")
    then is_eq c
    else if same op (codes ">=") || same op (codes ">>=")
    then not (is_lt c)
    else if same op (codes "<=") || same op (codes "<<=")
    then not (is_gt c)
    else if same op (codes ">>")
    then is_gt c
    else if same op (codes "<<")
    then is_lt c
    else false

-- `!s || !*s`
abbrev pub is_empty : Option Bytes → Bool
is_empty none = true
is_empty (some []) = true
is_empty (some (c ∷ cs)) = false

unfoldable pub deb_version_satisfies : Option Bytes → Option Bytes → Option Bytes → Option Bool
deb_version_satisfies have op want =
    let c = deb_version_compare have want in
    if is_empty op || is_empty want
    then some true
    else elim c [ none ↦ none | some o ↦ some (op_holds (or_empty op) o) ]
