-- ===== src/Gpt/Sector4096.antt =====
-- Tables for sectors of 4096 bytes, which gpt_init_fresh (src/gpt.c) writes and gpt_read_header does
-- not look for.
use guppy.Prelude.{
  ℕ, zero, suc, ◌+◌, ◌-◌, ◌*◌, ◌/◌, ◌%◌, ◌^◌, ◌≤◌, ◌<◌, ◌≡◌, ◌⊎◌, inl, inr, refl, sym, Bool, true,
  false, not, Option, none, some, arith, ◌==◌, ◌&&◌, ◌||◌, if◌then◌else◌, Bool-cases, ==_iff, ltb,
  leb,
}
use guppy.Word.{mul64}
use guppy.Buffer.{Buf, at}
use guppy.Buffer.Words.{le32-cong}
use guppy.Host.{HostFile, host_get_size, host_read}
use guppy.Image.{read_at_path}
use guppy.Gpt.{efi_part, same_bytes, header_size, checked_header, gpt_read_header}
use guppy.Gpt.Ends.{EndsKept, EndsKept-refl, Fits4096, write_fresh-EndsKept}
use guppy.Gpt.Init.{fresh, align_up, or_128, gpt_init_fresh, rand_guid}

same_bytes-cong :
    (n : ℕ) (p q r : Buf) → ((i : ℕ) → i < n → p i ≡ q i) → same_bytes n p r ≡ same_bytes n q r
unfolding same_bytes
same_bytes-cong zero p q r h = refl
same_bytes-cong (suc n) p q r h =
    let a = h n (omega arith) in
    let b = same_bytes-cong n p q r (λ i hi. h i (omega arith)) in rw (a, b) refl

-- The same result of gpt_read_header: none, or the same bytes.
abbrev pub SameHeader : Option Buf → Option Buf → Type 0
SameHeader none none = Unit {0}
SameHeader none (some q) = ⊥
SameHeader (some p) none = ⊥
SameHeader (some p) (some q) = (i : ℕ) → i < 92 → p i ≡ q i

checked-SameHeader :
    (p q : Buf)
    → ((i : ℕ) → i < 92 → p i ≡ q i)
    → SameHeader (checked_header (some p)) (checked_header (some q))
checked-SameHeader p q h =
    let a = same_bytes-cong 8 p q efi_part (λ i hi. h i (omega arith)) in
    let b : header_size p ≡ header_size q = le32-cong _ _ λ i hi. h (12 + i) (omega arith) in
    both (same_bytes 8 p efi_part) (same_bytes 8 q efi_part) (header_size p) (header_size q) a b
  where
    both :
        (s t : Bool) (m n : ℕ)
        → s ≡ t
        → m ≡ n
        → SameHeader
            (if not s then none else if ltb m 92 then none else some p)
            (if not t then none else if ltb n 92 then none else some q)
    both s t m n e e' = rw (e, e') (by_test t (ltb n 92))
      where
        by_test :
            (t u : Bool)
            → SameHeader
                (if not t then none else if u then none else some p)
                (if not t then none else if u then none else some q)
        by_test false u = tt
        by_test true true = tt
        by_test true false = h

read-SameHeader :
    (f g : HostFile) (off : ℕ)
    → EndsKept f g
    → (off + 92 ≤ 4096) ⊎ (f.size ≤ off + 1024)
    → SameHeader (checked_header (read_at_path f off 92)) (checked_header (read_at_path g off 92))
unfolding read_at_path host_read
read-SameHeader f g off k o =
    elim (Bool-cases (ltb off (2 ^ 63) && (92 == 0 || leb (off + 92) f.size))) [
      | inl e ↦
          rw (k.same_size, e)
            (checked-SameHeader (at f.byte off) (at g.byte off)
              λ i hi. sym (k.kept (off + i) (place i hi o) (inside e i hi)))
      | inr e ↦ rw (k.same_size, e) tt
    ]
  where
    place :
        (i : ℕ)
        → i < 92
        → (off + 92 ≤ 4096) ⊎ (f.size ≤ off + 1024)
        → (off + i < 4096) ⊎ (f.size ≤ off + i + 1024)
    place i hi (inl q) = inl (omega arith)
    place i hi (inr q) = inr (omega arith)

    inside :
        (ltb off (2 ^ 63) && (92 == 0 || leb (off + 92) f.size)) ≡ true
        → (i : ℕ) → i < 92
        → off + i < f.size
    inside e i hi = ground arith

-- gpt_read_header on a file of `n` bytes.
abbrev header_at : HostFile → (small : Bool) → (off : ℕ) → Option Buf
header_at f small off = if small then none else checked_header (read_at_path f off 92)

abbrev header_place : (use_primary n : ℕ) → ℕ
header_place use_primary n = mul64 (if use_primary == 0 then n / 512 - 1 else 1) 512

gpt_read_header_lem :
    (f : HostFile) (use_primary n : ℕ)
    → f.size ≡ n
    → gpt_read_header f use_primary ≡ header_at f (ltb n 1024) (header_place use_primary n)
unfolding gpt_read_header host_get_size
gpt_read_header_lem f use_primary n e = rw e refl

header_place_lem :
    (use_primary n : ℕ)
    → n < 2 ^ 62
    → 1024 ≤ n
    → (header_place use_primary n + 92 ≤ 4096) ⊎ (n ≤ header_place use_primary n + 1024)
header_place_lem use_primary n hs h = elim (Bool-cases (use_primary == 0)) [
  | inl e ↦ rw e (inr (omega arith))
  | inr e ↦ rw e (inl (omega arith))
]

gpt_read_header-EndsKept :
    (f g : HostFile) (use_primary : ℕ)
    → f.size < 2 ^ 62
    → EndsKept f g
    → SameHeader (gpt_read_header f use_primary) (gpt_read_header g use_primary)
gpt_read_header-EndsKept f g use_primary hs k =
    let a = gpt_read_header_lem f use_primary f.size refl in
    let b = gpt_read_header_lem g use_primary f.size k.same_size in
    rw (a, b) (by_size (ltb f.size 1024) refl)
  where
    by_size :
        (small : Bool)
        → ltb f.size 1024 ≡ small
        → SameHeader
            (header_at f small (header_place use_primary f.size))
            (header_at g small (header_place use_primary f.size))
    by_size true e = tt
    by_size false e =
        read-SameHeader f g (header_place use_primary f.size) k
          (header_place_lem use_primary f.size hs (ground arith))

fresh-Fits4096 :
    (bytes num : ℕ)
    → bytes % 4096 ≡ 0
    → bytes < 2 ^ 62
    → num < 2 ^ 32
    → num * 128 + 12288 ≤ bytes
    → Fits4096 (fresh bytes 4096 num 128) bytes
unfolding fresh align_up
fresh-Fits4096 bytes num hm hb hn hr = record {
  whole = omega arith;
  backup = omega arith;
  usable_behind = omega arith;
}

-- With sectors of 4096 bytes, on a disk with room for an array, gpt_init_fresh does not change what
-- gpt_read_header returns, be it for the primary or the backup header, and whether gpt_init_fresh
-- succeeds or fails: if there was no header before, there is none after, and if there was one, it is
-- the old one.
pub gpt_init_fresh-unread :
    (rand : ℕ → ℕ) (entries : ℕ) (f : HostFile) (use_primary : ℕ)
    → f.size < 2 ^ 62
    → entries < 2 ^ 32
    → or_128 entries * 128 + 12288 ≤ f.size
    → SameHeader
        (gpt_read_header f use_primary)
        (gpt_read_header (gpt_init_fresh rand 4096 entries 128 f).0 use_primary)
unfolding gpt_init_fresh host_get_size
gpt_init_fresh-unread rand entries f use_primary hs he hr =
    gpt_read_header-EndsKept f _ use_primary hs (
      guards_kept f (ltb f.size (4096 * 128)) (f.size % 4096 == 0) _ λ e.
        write_fresh-EndsKept (fresh f.size 4096 (or_128 entries) 128) (or_128 entries)
          (rand_guid rand) f
          (fresh-Fits4096 f.size (or_128 entries) ((==_iff (f.size % 4096) 0).0 e) hs
            (or_128_less entries he) hr)
          hs)
  where
    guards_kept :
        (f : HostFile) (a b : Bool) (x : HostFile × ℕ)
        → (b ≡ true → EndsKept f x.0)
        → EndsKept f (if a then (f, 5) else if not b then (f, 6) else x).0
    guards_kept f true b x k = EndsKept-refl f
    guards_kept f false false x k = EndsKept-refl f
    guards_kept f false true x k = k refl

    or_128_less : (n : ℕ) → n < 2 ^ 32 → or_128 n < 2 ^ 32
    or_128_less n h = ground arith
