-- ===== src/Deb/Version/Parts.antt =====
-- The parts that deb_version_compare (deb_version.c) cuts out of a version.
use guppy.Prelude.{
  ℕ, zero, suc, ◌≤◌, ◌≢◌, inl, inr, Option, none, some, arith, ◌==◌, [], ◌∷◌, length, take,
  if◌then◌else◌, Bool-cases,
}
use guppy.Ascii.{Bytes, IsCString}
use guppy.Deb.Version.Compare.{
  split_first, split_last, parse_epoch, upstream, revision, all_digits, epoch_of,
}

-- A part of a string.
abbrev pub Part : ℕ → Bytes → Type 0
Part n p = IsCString p × (length p ≤ n)

-- Both sides of a split are parts.
abbrev Split : ℕ → Option (Bytes × Bytes) → Type 0
Split n none = Unit {0}
Split n (some (p, q)) = Part n p × Part n q

Split-cons :
    (n c : ℕ) (o : Option (Bytes × Bytes))
    → c ≢ 0
    → Split n o
    → Split (suc n) (elim o [ none ↦ none | some (p, q) ↦ some (c ∷ p, q) ])
Split-cons n c none h s = tt
Split-cons n c (some (p, q)) h ((cp, lp), (cq, lq)) =
    (((h, cp), omega (arith, lp)), (cq, omega (arith, lq)))

split_first-Split : (c : ℕ) (s : Bytes) → IsCString s → Split (length s) (split_first c s)
unfolding split_first
split_first-Split c [] h = tt
split_first-Split c (x ∷ xs) h =
    let rest = Split-cons (length xs) x (split_first c xs) h.0 (split_first-Split c xs h.1) in
    elim (Bool-cases (x == c)) [
      | inl e ↦ rw e ((tt, omega arith), (h.1, omega arith))
      | inr e ↦ rw e rest
    ]

Split-last_step :
    (c x : ℕ) (xs : Bytes) (o : Option (Bytes × Bytes))
    → IsCString (x ∷ xs)
    → Split (length xs) o
    → Split
        (suc (length xs))
        (elim o [ none ↦ if x == c then some ([], xs) else none | some (p, q) ↦ some (x ∷ p, q) ])
Split-last_step c x xs none h r = elim (Bool-cases (x == c)) [
  | inl e ↦ rw e ((tt, omega arith), (h.1, omega arith))
  | inr e ↦ rw e tt
]
Split-last_step c x xs (some (p, q)) h r = Split-cons (length xs) x (some (p, q)) h.0 r

split_last-Split : (c : ℕ) (s : Bytes) → IsCString s → Split (length s) (split_last c s)
unfolding split_last
split_last-Split c [] h = tt
split_last-Split c (x ∷ xs) h =
    Split-last_step c x xs (split_last c xs) h (split_last-Split c xs h.1)

IsCString-take : (n : ℕ) (s : Bytes) → IsCString s → IsCString (take n s)
IsCString-take zero s h = tt
IsCString-take (suc n) [] h = tt
IsCString-take (suc n) (x ∷ xs) h = (h.0, IsCString-take n xs h.1)

length-take_le : (n : ℕ) (s : Bytes) → length (take n s) ≤ length s
length-take_le zero s = omega arith
length-take_le (suc n) [] = omega arith
length-take_le (suc n) (x ∷ xs) = omega (arith, length-take_le n xs)

Part-take : (n m : ℕ) (s : Bytes) → Part m s → Part m (take n s)
Part-take n m s (c, l) = (IsCString-take n s c, omega (arith, length-take_le n s, l))

pub Part-upstream : (s : Bytes) → IsCString s → Part (length s) (upstream s)
unfolding upstream
Part-upstream s h = go (split_last b'-' s) (split_last-Split b'-' s h)
  where
    go :
        (o : Option (Bytes × Bytes))
        → Split (length s) o
        → Part (length s) (elim o [ none ↦ take 255 s | some (p, q) ↦ take 255 p ])
    go none r = Part-take 255 (length s) s (h, omega arith)
    go (some (p, q)) (r, t) = Part-take 255 (length s) p r

pub Part-revision : (s : Bytes) → IsCString s → Part (suc (length s)) (revision s)
unfolding revision
Part-revision s h = go (split_last b'-' s) (split_last-Split b'-' s h)
  where
    go :
        (o : Option (Bytes × Bytes))
        → Split (length s) o
        → Part (suc (length s)) (elim o [ none ↦ b'0' ∷ [] | some (p, q) ↦ q ])
    go none r = ((ground arith, tt), omega arith)
    go (some (p, q)) (r, (cq, lq)) = (cq, omega (arith, lq))

pub Part-parse_epoch : (s : Bytes) → IsCString s → Part (length s) ((parse_epoch s).1)
unfolding parse_epoch
Part-parse_epoch s h = go (split_first b':' s) (split_first-Split b':' s h)
  where
    go : (o : Option (Bytes × Bytes)) → Split (length s) o → Part (length s) ((epoch_of s o).1)
    go none r = (h, omega arith)
    go (some (p, q)) (r, t) = elim (Bool-cases (all_digits p)) [
      | inl e ↦ rw e t
      | inr e ↦ rw e (h, omega arith)
    ]
