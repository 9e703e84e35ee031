-- ===== src/Ascii.antt =====
-- The character classes of <ctype.h> in the "C" locale, and C strings as lists of bytes.
use Prim.Native.Char.{code}
use Prim.Native.String.{String}
use guppy.Prelude.{
  ℕ, zero, suc, ◌<◌, ◌≡◌, ◌≢◌, inl, inr, refl, Bool, true, false, arith, ◌==◌, ◌&&◌, ◌||◌, List, [],
  ◌∷◌, if◌then◌else◌, Bool-cases, leb,
}

-- The bytes before the terminating NUL.
abbrev pub Bytes : Type 0
Bytes = List ℕ

-- The bytes of an ASCII literal.
abbrev pub codes : String → Bytes
codes String.[] = []
codes (String.◌∷◌ c s) = code c ∷ codes s

-- The memory of a C string, as far as it is read.
abbrev pub bytes_at : Bytes → ℕ → ℕ
bytes_at [] i = 0
bytes_at (c ∷ cs) zero = c
bytes_at (c ∷ cs) (suc i) = bytes_at cs i

unfoldable pub is_digit : ℕ → Bool
is_digit c = leb b'0' c && leb c b'9'

unfoldable pub is_alpha : ℕ → Bool
is_alpha c = leb b'a' c && leb c b'z' || leb b'A' c && leb c b'Z'

unfoldable pub is_alnum : ℕ → Bool
unfolding is_digit is_alpha
is_alnum c = is_digit c || is_alpha c

-- Space, and the five controls from tab to carriage return.
unfoldable pub is_space : ℕ → Bool
is_space c = c == b' ' || leb 9 c && leb c 13

-- A C string holds no NUL.
abbrev pub IsCString : Bytes → Type 0
IsCString [] = Unit {0}
IsCString (c ∷ cs) = (c ≢ 0) × IsCString cs

-- `strcmp(a, b) == 0`
unfoldable pub same : Bytes → Bytes → Bool
same [] [] = true
same [] (y ∷ ys) = false
same (x ∷ xs) [] = false
same (x ∷ xs) (y ∷ ys) = let rest = same xs ys in if x == y then rest else false

-- Bytes are below 256.
abbrev pub IsBytes : Bytes → Type 0
IsBytes [] = Unit {0}
IsBytes (c ∷ cs) = (c < 256) × IsBytes cs

pub same_refl : (s : Bytes) → same s s ≡ true
unfolding same
same_refl [] = refl
same_refl (c ∷ cs) = ground (arith, same_refl cs)

pub same-eq : (s t : Bytes) → same s t ≡ true → s ≡ t
unfolding same
same-eq [] [] h = refl
same-eq [] (y ∷ ys) h = ground arith
same-eq (x ∷ xs) [] h = ground arith
same-eq (x ∷ xs) (y ∷ ys) h = elim (Bool-cases (x == y)) [
  | inl e ↦
      let e' : x ≡ y = ground arith in
      let rest : xs ≡ ys = same-eq xs ys (ground arith) in rw (e', rest)
  | inr e ↦ ground arith
]
