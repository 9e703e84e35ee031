-- ===== src/Deb/Version.antt =====
-- Comparison of Debian versions (src/deb_version.c).
--
-- The results -1, 0 and 1 are `lt`, `eq` and `gt`.
pub mod Spec
pub mod Sound
pub mod Loop
pub mod Compare
pub mod Parts
pub mod Order
pub mod Satisfies
mod Tests
use Prim.Native.Nat.{Ordering, lt, eq, gt, compare}
use guppy.Prelude.{
  ℕ, zero, suc, ◌+◌, ◌-◌, ◌*◌, ◌/◌, ◌%◌, ◌^◌, ◌≤◌, ◌<◌, ◌≡◌, ◌≢◌, ◌⊎◌, ◌↔◌, inl, inr, refl, sym, ap,
  ◌∙◌, Bool, true, false, not, Option, none, some, arith, ◌==◌, ◌&&◌, ◌||◌, List, [], ◌∷◌, ◌++◌,
  map, length, take, drop, replicate, min, max, if◌then◌else◌, Bool-cases, ==_iff, ltb, leb,
  ne→==-false, lt→ltb,
}
use guppy.Ascii.{Bytes, is_digit, is_alnum}

-- `order_char`, one higher, so that the -1 of `~` is 0.
unfoldable pub order_char : ℕ → ℕ
unfolding is_alnum
order_char c = if c == 0 then 1 else if c == b'~' then 0 else if is_alnum c then c + 1 else c + 257

-- The end of the loop over non-digits: a result, or the rests of both strings.
pub data Scan : Type 0 where
  decided : Ordering → Scan
  stop : Bytes → Bytes → Scan

-- `if (oa != ob) return oa < ob ? -1 : 1`, and the loop on the rests, `again`.
abbrev pub scan_result : Ordering → Scan → Scan
scan_result lt again = decided lt
scan_result gt again = decided gt
scan_result eq again = again

unfoldable pub scan_step : ℕ → ℕ → Scan → Scan
unfolding order_char
scan_step x y again = scan_result (compare (order_char x) (order_char y)) again

-- `while ((*a && !isdigit(*a)) || (*b && !isdigit(*b)))`; the end of a string reads as NUL.
unfoldable pub scan : Bytes → Bytes → Scan
scan [] [] = stop [] []
scan [] (y ∷ ys) =
    let again = scan_step 0 y (scan [] ys) in if is_digit y then stop [] (y ∷ ys) else again
scan (x ∷ xs) [] =
    let again = scan_step x 0 (scan xs []) in if is_digit x then stop (x ∷ xs) [] else again
scan (x ∷ xs) (y ∷ ys) =
    let again = scan_step x y (scan xs ys) in
    if not (is_digit x) || not (is_digit y) then again else stop (x ∷ xs) (y ∷ ys)

-- `while (*a == '0') a++`
unfoldable pub skip_zeros : Bytes → Bytes
skip_zeros [] = []
skip_zeros (c ∷ cs) = let rest = skip_zeros cs in if c == b'0' then rest else c ∷ cs

-- The digits up to `aa`, and what stands at `aa`.
unfoldable pub digits : Bytes → Bytes
digits [] = []
digits (c ∷ cs) = let rest = digits cs in if is_digit c then c ∷ rest else []

unfoldable pub after_digits : Bytes → Bytes
after_digits [] = []
after_digits (c ∷ cs) = let rest = after_digits cs in if is_digit c then rest else c ∷ cs

-- `strncmp(a, b, n)`
unfoldable pub strncmp : ℕ → Bytes → Bytes → Ordering
strncmp zero a b = eq
strncmp (suc n) [] [] = eq
strncmp (suc n) [] (y ∷ ys) = lt
strncmp (suc n) (x ∷ xs) [] = gt
strncmp (suc n) (x ∷ xs) (y ∷ ys) =
    let rest = strncmp n xs ys in elim (compare x y) [ lt ↦ lt | gt ↦ gt | eq ↦ rest ]

abbrev pub then_cmp : Ordering → Ordering → Ordering
then_cmp lt o = lt
then_cmp gt o = gt
then_cmp eq o = o

-- Two runs of digits, at the first digit that is no leading zero.
unfoldable pub compare_numbers : Bytes → Bytes → Ordering
compare_numbers a b =
    then_cmp (compare (length (digits a)) (length (digits b))) (strncmp (length (digits a)) a b)

-- The early returns behind the numbers, and the next round.
abbrev pub go_on : Ordering → Option Ordering → Option Ordering
go_on lt rest = some lt
go_on gt rest = some gt
go_on eq rest = rest

-- A round of the outer loop, once the loop over non-digits has ended; `again` is the next round.
unfoldable pub after_scan : (Bytes → Bytes → Option Ordering) → Scan → Option Ordering
after_scan again (decided o) = some o
after_scan again (stop a b) =
    go_on (compare_numbers (skip_zeros a) (skip_zeros b))
      (again (after_digits (skip_zeros a)) (after_digits (skip_zeros b)))

-- `while (*a || *b)`; `none` is a loop that ran out of rounds.
unfoldable pub verrevcmp_loop : ℕ → Bytes → Bytes → Option Ordering
verrevcmp_loop zero a b = none
verrevcmp_loop (suc k) [] [] = some eq
verrevcmp_loop (suc k) a b = after_scan (verrevcmp_loop k) (scan a b)

unfoldable pub verrevcmp : Bytes → Bytes → Option Ordering
verrevcmp a b = verrevcmp_loop (length a + length b + 1) a b
