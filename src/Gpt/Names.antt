-- ===== src/Gpt/Names.antt =====
-- The names of partitions (src/gpt.c: gpt_utf16le_to_utf8, utf8_to_utf16le).
use guppy.Prelude.{
  ℕ, zero, suc, ◌+◌, ◌-◌, ◌/◌, ◌%◌, ◌^◌, ◌≤◌, ◌<◌, ◌≡◌, inl, inr, refl, ap, Bool, true, false,
  arith, ◌==◌, ◌&&◌, ◌||◌, List, [], ◌∷◌, ◌++◌, length, length-append, replicate, if◌then◌else◌,
  Bool-cases, ltb, leb, ne→==-false,
}
use guppy.Ascii.{Bytes}

-- `(c & 0xC0) == 0x80`
abbrev pub is_continuation : ℕ → Bool
is_continuation c = leb 0x80 c && ltb c 0xc0

-- The units that the loop of utf8_to_utf16le stores, with room for `max_chars` of them. `skipping`
-- is the inner loop, in which continuation bytes are passed over.
unfoldable pub utf8_to_utf16le : Bytes → (max_chars : ℕ) → (skipping : Bool) → List ℕ
utf8_to_utf16le [] max_chars skipping = []
utf8_to_utf16le (c ∷ cs) zero skipping = []
utf8_to_utf16le (c ∷ cs) (suc max_chars) skipping =
    let passed = skipping && is_continuation c in
    let rest = utf8_to_utf16le cs (if passed then suc max_chars else max_chars) (leb 0x80 c) in
    if passed then rest else (if ltb c 0x80 then c else b'?') ∷ rest

-- The bytes that one unit gives.
unfoldable pub utf8_unit : ℕ → List ℕ
utf8_unit c =
    if ltb c 0x80
    then c ∷ []
    else if ltb c 0x800
    then (0xc0 + c / 2 ^ 6) ∷ (0x80 + c % 2 ^ 6) ∷ []
    else (0xe0 + c / 2 ^ 12) ∷ (0x80 + c / 2 ^ 6 % 2 ^ 6) ∷ (0x80 + c % 2 ^ 6) ∷ []

-- The string that is in `out` after the loop, `oi` bytes being in front of it. `units` are the
-- `max_units` units, of which the first 0 ends the loop. Each unit is below 2 ^ 16, so `0xE0 | (c >> 12)` is a sum.
unfoldable pub gpt_utf16le_to_utf8 : (units : List ℕ) → (oi outsz : ℕ) → Bytes
gpt_utf16le_to_utf8 [] oi outsz = []
gpt_utf16le_to_utf8 (c ∷ cs) oi outsz =
    let bytes = utf8_unit c in
    let rest = gpt_utf16le_to_utf8 cs (oi + length bytes) outsz in
    if c == 0 || leb outsz (oi + length bytes) then [] else bytes ++ rest

-- Characters below 128, and no NUL.
abbrev pub IsAscii : Bytes → Type 0
IsAscii [] = Unit {0}
IsAscii (c ∷ cs) = (0 < c) × (c < 0x80) × IsAscii cs

pub length-utf8_to_utf16le :
    (s : Bytes) (max_chars : ℕ) (skipping : Bool)
    → length (utf8_to_utf16le s max_chars skipping) ≤ max_chars
unfolding utf8_to_utf16le
length-utf8_to_utf16le [] max_chars skipping = omega arith
length-utf8_to_utf16le (c ∷ cs) zero skipping = omega arith
length-utf8_to_utf16le (c ∷ cs) (suc max_chars) skipping =
    elim (Bool-cases (skipping && is_continuation c)) [
      | inl e ↦ rw e (length-utf8_to_utf16le cs (suc max_chars) (leb 0x80 c))
      | inr e ↦ let h = length-utf8_to_utf16le cs max_chars (leb 0x80 c) in rw e (omega (arith, h))
    ]

-- However long the name is, gpt_utf16le_to_utf8 leaves room for the terminating NUL.
pub length-gpt_utf16le_to_utf8 :
    (units : List ℕ) (oi outsz : ℕ)
    → oi < outsz
    → oi + length (gpt_utf16le_to_utf8 units oi outsz) < outsz
unfolding gpt_utf16le_to_utf8
length-gpt_utf16le_to_utf8 [] oi outsz h = omega arith
length-gpt_utf16le_to_utf8 (c ∷ cs) oi outsz h =
    let b = utf8_unit c in
    let e = length-append b (gpt_utf16le_to_utf8 cs (oi + length b) outsz) in
    elim (Bool-cases (c == 0 || leb outsz (oi + length b))) [
      | inl z ↦ rw z (omega arith)
      | inr z ↦
          let fits : oi + length b < outsz = ground (arith, z) in
          let rest = length-gpt_utf16le_to_utf8 cs (oi + length b) outsz fits in
          rw z (omega (arith, e, rest))
    ]

utf8_to_utf16le-ascii :
    (s : Bytes) (max_chars : ℕ)
    → IsAscii s
    → length s ≤ max_chars
    → utf8_to_utf16le s max_chars false ≡ s
unfolding utf8_to_utf16le
utf8_to_utf16le-ascii [] max_chars a h = refl
utf8_to_utf16le-ascii (c ∷ cs) zero a h = absurd (omega arith)
utf8_to_utf16le-ascii (c ∷ cs) (suc max_chars) a h =
    let low : ltb c 0x80 ≡ true = ground (arith, a.1) in
    let low' : leb 0x80 c ≡ false = ground (arith, a.1) in
    rw (low, low') (ap (λ t. c ∷ t) (utf8_to_utf16le-ascii cs max_chars a.2 (omega arith)))

gpt_utf16le_to_utf8-ascii :
    (s : Bytes) (n oi outsz : ℕ)
    → IsAscii s
    → oi + length s < outsz
    → gpt_utf16le_to_utf8 (s ++ replicate n 0) oi outsz ≡ s
unfolding gpt_utf16le_to_utf8 utf8_unit
gpt_utf16le_to_utf8-ascii [] zero oi outsz a h = refl
gpt_utf16le_to_utf8-ascii [] (suc n) oi outsz a h = refl
gpt_utf16le_to_utf8-ascii (c ∷ cs) n oi outsz a h =
    let low : ltb c 0x80 ≡ true = ground (arith, a.1) in
    let some_char : (c == 0) ≡ false = ne→==-false c 0 (λ z. omega (arith, a.0)) in
    let fits : leb outsz (oi + 1) ≡ false = ground arith in
    rw (low, some_char, fits)
      (ap (λ t. c ∷ t) (gpt_utf16le_to_utf8-ascii cs n (oi + 1) outsz a.2 (omega arith)))

-- An ASCII name of at most 36 characters is read back as it was given, from the 36 units of the
-- entry, into a buffer that can hold it.
pub gpt_utf16le_to_utf8-utf8_to_utf16le :
    (s : Bytes) (outsz : ℕ)
    → IsAscii s
    → length s ≤ 36
    → length s < outsz
    → gpt_utf16le_to_utf8 (utf8_to_utf16le s 36 false ++ replicate (36 - length s) 0) 0 outsz ≡ s
gpt_utf16le_to_utf8-utf8_to_utf16le s outsz a h h' =
    rw (utf8_to_utf16le-ascii s 36 a h)
      (gpt_utf16le_to_utf8-ascii s (36 - length s) 0 outsz a (omega arith))
