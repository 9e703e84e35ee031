-- ===== src/Tar/Name.antt =====
-- Paths in the header: `name_fields` (src/tar_write.c), and what src/tar.c reads back.
use guppy.Prelude.{
  ℕ, zero, suc, ◌+◌, ◌-◌, ◌≤◌, ◌<◌, ◌≡◌, ◌≢◌, ◌⊎◌, inl, inr, refl, sym, ◌∙◌, Bool, true, false,
  Option, none, some, arith, ◌==◌, ◌&&◌, ◌||◌, [], ◌∷◌, ◌++◌, length, take, if◌then◌else◌, leb,
  ne→==-false,
}
pub use guppy.Ascii.{bytes_at}
use guppy.Ascii.{Bytes, IsCString, codes, same}
use guppy.Buffer.{Buf, at, blit}

-- `strchr(s, c) != NULL`
unfoldable pub has_byte : ℕ → Bytes → Bool
has_byte c [] = false
has_byte c (x ∷ xs) = x == c || has_byte c xs

unfoldable pub has_prefix : Bytes → Bytes → Bool
has_prefix [] s = true
has_prefix (c ∷ cs) [] = false
has_prefix (c ∷ cs) (x ∷ xs) = x == c && has_prefix cs xs

-- `strstr(s, part) != NULL`
unfoldable pub has_part : Bytes → Bytes → Bool
unfolding has_prefix
has_part part [] = has_prefix part []
has_part part (x ∷ xs) = has_prefix part (x ∷ xs) || has_part part xs

-- The two tests of `name_fields` that return -1 before the path is measured.
unfoldable pub is_rejected : Bytes → Bool
unfolding has_byte has_part same
is_rejected path =
    same path []
    || bytes_at path 0 == b'/'
    || has_byte b'\\' path
    || has_part (codes "../") path
    || same path (codes "..")
    || has_part (codes "/./") path
    || same path (codes ".")

-- The loop over `cursor`, at the offset `pos`, with `rest` ahead.
unfoldable pub find_slash : (rest : Bytes) → (pos length : ℕ) → (slash : Option ℕ) → Option ℕ
find_slash [] pos len slash = slash
find_slash (c ∷ cs) pos len slash =
    find_slash cs (pos + 1) len
      (if c == b'/' && (leb pos 155 && leb (len - pos - 1) 100) then some pos else slash)

-- The two fields of a path that is split at the offset `slash`.
unfoldable pub split_fields : Buf → Bytes → Option ℕ → Option Buf
split_fields header path none = none
split_fields header path (some slash) =
    if slash == 0 || bytes_at path (slash + 1) == 0
    then none
    else some (
        blit (blit header 0 (length path - slash - 1) (at (bytes_at path) (slash + 1))) 345 slash
          (bytes_at path))

-- A NULL path is `none`.
unfoldable pub name_fields : Buf → Option Bytes → Option Buf
unfolding is_rejected find_slash split_fields
name_fields header none = none
name_fields header (some path) =
    if is_rejected path
    then none
    else if leb (length path) 100
    then some (blit header 0 (length path) (bytes_at path))
    else split_fields header path (find_slash path 0 (length path) none)

-- `memcpy(s, p, n)` with a NUL behind it, as a string.
unfoldable pub cstring : ℕ → Buf → Bytes
cstring zero p = []
cstring (suc n) p = let rest = cstring n (at p 1) in if p 0 == 0 then [] else p 0 ∷ rest

-- `e.path` of a header; `snprintf` cuts it to `sizeof e.path - 1` bytes.
unfoldable pub entry_path : Buf → Bytes
entry_path h =
    if h 345 == 0 then cstring 100 h else take 511 (cstring 155 (at h 345) ++ b'/' ∷ cstring 100 h)

-- `p` holds `s` in a field of `n` bytes.
abbrev pub Holds : Buf → ℕ → Bytes → Type 0
Holds p n s = (i : ℕ) → i < n → p i ≡ bytes_at s i

cstring-Holds :
    (n : ℕ) (p : Buf) (s : Bytes) → Holds p n s → IsCString s → length s ≤ n → cstring n p ≡ s
unfolding cstring
cstring-Holds zero p [] h c l = refl
cstring-Holds zero p (x ∷ xs) h c l = absurd (omega arith)
cstring-Holds (suc n) p [] h c l = rw (h 0 (omega arith))
cstring-Holds (suc n) p (x ∷ xs) h c l =
    let rest =
      cstring-Holds n (at p 1) xs
        (λ i hi. let e : 1 + i ≡ suc i = omega arith in rw e (h (suc i) (omega arith))) c.1
        (omega arith) in
    rw (h 0 (omega arith), ne→==-false x 0 c.0, rest)

-- The fields of the path.
pub data Named (h : Buf) : Bytes → Type 0 where
  short : {path : Bytes} → length path ≤ 100 → Holds h 100 path → h 345 ≡ 0 → Named h path
  long :
      {path : Bytes} (pre post : Bytes)
      → path ≡ pre ++ b'/' ∷ post
      → 0 < length pre
      → length pre ≤ 155
      → length post ≤ 100
      → Holds h 100 post
      → Holds (at h 345) 155 pre
      → Named h path

take_all : (n : ℕ) (s : Bytes) → length s ≤ n → take n s ≡ s
take_all zero [] h = refl
take_all zero (x ∷ xs) h = absurd (omega arith)
take_all (suc n) [] h = refl
take_all (suc n) (x ∷ xs) h = rw (take_all n xs (omega arith))

-- The fields of the path depend on their bytes only.
pub Named-agree :
    (p q : Buf) (path : Bytes)
    → ((j : ℕ) → (j < 100) ⊎ (345 ≤ j) → j < 500 → q j ≡ p j)
    → Named p path
    → Named q path
Named-agree p q path e (short l n z) =
    short l (λ i hi. e i (inl hi) (omega arith) ∙ n i hi)
      (e 345 (inr (omega arith)) (omega arith) ∙ z)
Named-agree p q path e (long pre post j p0 l m n k) =
    long pre post j p0 l m (λ i hi. e i (inl hi) (omega arith) ∙ n i hi)
      (λ i hi. e (345 + i) (inr (omega arith)) (omega arith) ∙ k i hi)

IsCString-append : (s t : Bytes) (c : ℕ) → IsCString (s ++ c ∷ t) → IsCString s × IsCString t
IsCString-append [] t c h = (tt, h.1)
IsCString-append (x ∷ xs) t c h = let r = IsCString-append xs t c h.1 in ((h.0, r.0), r.1)

pub bytes_at-ne : (s : Bytes) → IsCString s → 0 < length s → bytes_at s 0 ≢ 0
bytes_at-ne [] c h = absurd (omega arith)
bytes_at-ne (x ∷ xs) c h = c.0

pub length_join : (s t : Bytes) (c : ℕ) → length (s ++ c ∷ t) ≡ length s + suc (length t)
length_join [] t c = omega arith
length_join (x ∷ xs) t c = omega (arith, length_join xs t c)

pub entry_path-Named :
    (h : Buf) (path : Bytes) → IsCString path → Named h path → entry_path h ≡ path
unfolding entry_path
entry_path-Named h path c (short l n z) = rw z (cstring-Holds 100 h path n c l)
entry_path-Named h path c (long pre post e p0 l m n k) =
    let parts = IsCString-append pre post b'/' (rw (sym e) c) in
    let first : h 345 ≡ bytes_at pre 0 = k 0 (omega arith) in
    let ne = ne→==-false (bytes_at pre 0) 0 (bytes_at-ne pre parts.0 p0) in
    rw
      (
        first,
        ne,
        cstring-Holds 155 (at h 345) pre k parts.0 l,
        cstring-Holds 100 h post n parts.1 m,
        take_all 511 (pre ++ b'/' ∷ post) (rw length_join (omega arith)),
      )
      (sym e)
