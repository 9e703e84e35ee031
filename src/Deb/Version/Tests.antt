-- ===== src/Deb/Version/Tests.antt =====
-- Concrete versions (deb_version.c).
use Prim.Native.Nat.{Ordering, lt}
use mathlib.Core.Option as Option
use guppy.Prelude.{◌≡◌, refl, Bool, true, not, Option, some, arith, ◌==◌, ◌&&◌, [], ◌∷◌}
use guppy.Ascii.{Bytes, IsCString, codes, is_alnum, is_digit, same}
use guppy.Deb.Version.{
  scan, scan_step, order_char, skip_zeros, digits, after_digits, strncmp, compare_numbers,
  after_scan, verrevcmp_loop, verrevcmp,
}
use guppy.Deb.Version.Spec.{Chain, swap}
use guppy.Deb.Version.Compare.{
  deb_version_compare, deb_version_satisfies, split_first, split_last, all_digits, decimal, strtoul,
  parse_epoch, upstream, revision, op_holds,
}
use guppy.Deb.Version.Order.{
  version_order, deb_version_compare-version_order, deb_version_compare-swap,
  deb_version_compare-Chain,
}
use guppy.Deb.Version.Satisfies.{op, deb_version_satisfies-negation, deb_version_satisfies-Chain}

-- "1:2.0~a-1" is older than "1:2.0-1".
abbrev beta : Option Bytes
beta = some (codes "1:2.0~a-1")

abbrev release : Option Bytes
release = some (codes "1:2.0-1")

abbrev next : Option Bytes
next = some (codes "1:10.0-1")

beta_older : deb_version_compare beta release ≡ some lt
unfolding deb_version_compare verrevcmp verrevcmp_loop after_scan compare_numbers strncmp digits
    after_digits skip_zeros scan scan_step order_char is_alnum is_digit parse_epoch split_first
    split_last all_digits strtoul decimal upstream revision
beta_older = refl

-- Strings without NUL, decided.
abbrev no_nul : Bytes → Bool
no_nul [] = true
no_nul (c ∷ cs) = not (c == 0) && no_nul cs

IsCString-no_nul : (a : Bytes) → no_nul a ≡ true → IsCString a
IsCString-no_nul [] h = tt
IsCString-no_nul (c ∷ cs) h = (ground arith, IsCString-no_nul cs (ground arith))

beta_text : IsCString (codes "1:2.0~a-1")
beta_text = IsCString-no_nul (codes "1:2.0~a-1") refl

release_text : IsCString (codes "1:2.0-1")
release_text = IsCString-no_nul (codes "1:2.0-1") refl

next_text : IsCString (codes "1:10.0-1")
next_text = IsCString-no_nul (codes "1:10.0-1") refl

version_order_example : deb_version_compare beta release ≡ some (version_order 18 beta release)
version_order_example =
    deb_version_compare-version_order 18 beta release beta_text release_text (omega arith)

swap_example : deb_version_compare release beta ≡ Option.map swap (deb_version_compare beta release)
swap_example = deb_version_compare-swap beta release beta_text release_text

Chain_example :
    (p q r : Ordering) × (deb_version_compare beta release ≡ some p)
    × (deb_version_compare release next ≡ some q)
    × (deb_version_compare beta next ≡ some r)
    × Chain p q r
Chain_example = deb_version_compare-Chain beta release next beta_text release_text next_text

negation_example :
    (below above : Bool) × (deb_version_satisfies beta (op "<=") release ≡ some below)
    × (deb_version_satisfies beta (op ">=") release ≡ some above)
    × (deb_version_satisfies beta (op ">>") release ≡ some (not below))
    × (deb_version_satisfies beta (op "<<") release ≡ some (not above))
    × (deb_version_satisfies beta (op "=") release ≡ some (below && above))
negation_example = deb_version_satisfies-negation beta release beta_text release_text refl

next_above : deb_version_satisfies next (op ">=") release ≡ some true
unfolding deb_version_satisfies op_holds same deb_version_compare verrevcmp verrevcmp_loop
    after_scan compare_numbers strncmp digits after_digits skip_zeros scan scan_step order_char
    is_alnum is_digit parse_epoch split_first split_last all_digits strtoul decimal upstream
    revision
next_above = refl

release_above : deb_version_satisfies release (op ">=") beta ≡ some true
unfolding deb_version_satisfies op_holds same deb_version_compare verrevcmp verrevcmp_loop
    after_scan compare_numbers strncmp digits after_digits skip_zeros scan scan_step order_char
    is_alnum is_digit parse_epoch split_first split_last all_digits strtoul decimal upstream
    revision
release_above = refl

at_least_example : deb_version_satisfies next (op ">=") beta ≡ some true
at_least_example =
    deb_version_satisfies-Chain next release beta next_text release_text beta_text refl next_above
      release_above
