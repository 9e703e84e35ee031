-- ===== src/Deb/Version/Order.antt =====
-- The result of deb_version_compare (deb_version.c) as an order.
use Prim.Native.Nat.{Ordering, lt, eq, gt, compare}
use guppy.Prelude.{ℕ, ◌+◌, ◌≤◌, ◌≡◌, refl, Option, some, arith, length}
use guppy.Ascii.{Bytes, IsCString}
use guppy.Deb.Version.{then_cmp}
use guppy.Deb.Version.Spec.{
  token_order, token_order-swap, token_order-Chain, Chain, compare-Chain, then_cmp-Chain, swap,
  swap-then_cmp,
}
use guppy.Deb.Version.Loop.{verrevcmp-token_order}
use mathlib.Core.Option as Option
use guppy.Deb.Version.Parts.{Part-parse_epoch, Part-upstream, Part-revision}
use guppy.Deb.Version.Compare.{
  parse_epoch, or_empty, upstream, revision, or_else, deb_version_compare,
}

-- The order of versions: epochs, then upstream versions, then revisions.
unfoldable pub version_order : ℕ → Option Bytes → Option Bytes → Ordering
version_order n a b =
    let ea = parse_epoch (or_empty a) in
    let eb = parse_epoch (or_empty b) in
    then_cmp (compare ea.0 eb.0) (
      then_cmp (token_order n (upstream ea.1) (upstream eb.1))
        (token_order n (revision ea.1) (revision eb.1)))

or_else-some : (o p : Ordering) → or_else (some o) (some p) ≡ some (then_cmp o p)
or_else-some lt p = refl
or_else-some gt p = refl
or_else-some eq p = refl

-- The order of versions that a caller's strings have.
abbrev pub IsText : Option Bytes → Type 0
IsText a = IsCString (or_empty a)

abbrev pub size : Option Bytes → ℕ
size a = length (or_empty a)

-- On every two strings, NULL or not, deb_version_compare returns, and its result is the order of the
-- epochs, of the tokens of the upstream versions (cut to 255 bytes) and of the tokens of the
-- revisions, in this order of weight; `n` is any number of tokens that both strings may have.
pub deb_version_compare-version_order :
    (n : ℕ) (a b : Option Bytes)
    → IsText a
    → IsText b
    → size a + size b + 2 ≤ n
    → deb_version_compare a b ≡ some (version_order n a b)
unfolding deb_version_compare version_order
deb_version_compare-version_order n a b ca cb h =
    let pa = Part-parse_epoch (or_empty a) ca in
    let pb = Part-parse_epoch (or_empty b) cb in
    let ra = (parse_epoch (or_empty a)).1 in
    let rb = (parse_epoch (or_empty b)).1 in
    let ua = Part-upstream ra pa.0 in
    let ub = Part-upstream rb pb.0 in
    let va = Part-revision ra pa.0 in
    let vb = Part-revision rb pb.0 in
    rw
      (
        verrevcmp-token_order n (upstream ra) (upstream rb) ua.0 ub.0
            (omega (arith, ua.1, ub.1, pa.1, pb.1, h)),
        verrevcmp-token_order n (revision ra) (revision rb) va.0 vb.0
            (omega (arith, va.1, vb.1, pa.1, pb.1, h)),
        or_else-some (token_order n (upstream ra) (upstream rb))
            (token_order n (revision ra) (revision rb)),
      )
      (or_else-some (compare (parse_epoch (or_empty a)).0 (parse_epoch (or_empty b)).0) _)

compare-swap : (x y : ℕ) → compare y x ≡ swap (compare x y)
compare-swap x y = ground arith

pub version_order-swap :
    (n : ℕ) (a b : Option Bytes) → version_order n b a ≡ swap (version_order n a b)
unfolding version_order
version_order-swap n a b =
    let ea = parse_epoch (or_empty a) in
    let eb = parse_epoch (or_empty b) in
    rw (
      compare-swap ea.0 eb.0,
      token_order-swap n (upstream ea.1) (upstream eb.1),
      token_order-swap n (revision ea.1) (revision eb.1),
      swap-then_cmp (compare ea.0 eb.0),
      swap-then_cmp (token_order n (upstream ea.1) (upstream eb.1)),
    )

pub version_order-Chain :
    (n : ℕ) (a b c : Option Bytes)
    → Chain (version_order n a b) (version_order n b c) (version_order n a c)
unfolding version_order
version_order-Chain n a b c =
    let ea = parse_epoch (or_empty a) in
    let eb = parse_epoch (or_empty b) in
    let ec = parse_epoch (or_empty c) in
    then_cmp-Chain (compare ea.0 eb.0) (compare eb.0 ec.0) (compare ea.0 ec.0) _ _ _
      (compare-Chain ea.0 eb.0 ec.0)
      (then_cmp-Chain (token_order n (upstream ea.1) (upstream eb.1))
        (token_order n (upstream eb.1) (upstream ec.1))
        (token_order n (upstream ea.1) (upstream ec.1)) _ _ _
        (token_order-Chain n (upstream ea.1) (upstream eb.1) (upstream ec.1))
        (token_order-Chain n (revision ea.1) (revision eb.1) (revision ec.1)))

-- For two strings, exchanging them exchanges the results -1 and 1 and keeps 0.
pub deb_version_compare-swap :
    (a b : Option Bytes)
    → IsText a
    → IsText b
    → deb_version_compare b a ≡ Option.map swap (deb_version_compare a b)
deb_version_compare-swap a b ca cb =
    let n = size a + size b + 2 in
    rw (
      deb_version_compare-version_order n a b ca cb (omega arith),
      deb_version_compare-version_order n b a cb ca (omega arith),
      version_order-swap n a b,
    )

-- Comparison is transitive: of three strings, all three comparisons return, and if neither of the
-- first two results is 1, then the comparison of the first string with the third gives 0 if both
-- are 0, and -1 otherwise.
pub deb_version_compare-Chain :
    (a b c : Option Bytes)
    → IsText a
    → IsText b
    → IsText c
    → (p q r : Ordering) × (deb_version_compare a b ≡ some p)
      × (deb_version_compare b c ≡ some q)
      × (deb_version_compare a c ≡ some r)
      × Chain p q r
deb_version_compare-Chain a b c ca cb tc =
    let n = size a + size b + size c + 2 in
    (
      version_order n a b,
      version_order n b c,
      version_order n a c,
      deb_version_compare-version_order n a b ca cb (omega arith),
      deb_version_compare-version_order n b c cb tc (omega arith),
      deb_version_compare-version_order n a c ca tc (omega arith),
      version_order-Chain n a b c,
    )
