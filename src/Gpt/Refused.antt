-- ===== src/Gpt/Refused.antt =====
-- The errors of gpt_init_fresh (src/gpt.c).
use guppy.Prelude.{
  ℕ, zero, suc, ◌+◌, ◌≤◌, ◌≡◌, ◌⊎◌, inl, inr, refl, Bool, true, false, arith, ◌==◌, if◌then◌else◌,
  Bool-cases, leb,
}
use guppy.Word.{add64, mul64}
use guppy.Buffer.{Buf, zeros}
use guppy.Host.{HostFile, host_get_size}
use guppy.Image.{write_at_path}
use guppy.Gpt.Init.{
  Fresh, fresh, write_headers, write_fresh, or_128, gpt_init_fresh, rand_guid, clear_loop, written,
  primary_header, backup_header, protective_mbr,
}

-- The file is as it was, or the call has written.
abbrev pub Untouched : HostFile → HostFile × ℕ → Type 0
Untouched f (g, code) = (g ≡ f) ⊎ (code ≡ 0) ⊎ (9 ≤ code)

-- A call that is past its checks.
record Writing (r : HostFile × ℕ) : Type 0 where
  code_is : (r.1 ≡ 0) ⊎ (9 ≤ r.1)

written-Writing :
    (r : HostFile × Bool) (code : ℕ) (next : HostFile → HostFile × ℕ)
    → 9 ≤ code
    → ((g : HostFile) → Writing (next g))
    → Writing (written r code next)
written-Writing (f, false) code next h n = record { code_is = inr h }
written-Writing (f, true) code next h n = n f

clear_loop-Writing :
    (left i b sector : ℕ) (next : HostFile → HostFile × ℕ) (f : HostFile)
    → ((g : HostFile) → Writing (next g))
    → Writing (clear_loop left i b sector next f)
unfolding clear_loop
clear_loop-Writing zero i b sector next f n = n f
clear_loop-Writing (suc left) i b sector next f n =
    written-Writing (write_at_path f (mul64 (add64 2 i) sector) zeros sector) 9 _ (omega arith)
      λ f1.
        written-Writing (write_at_path f1 (mul64 (add64 b i) sector) zeros sector) 10
          (clear_loop left (i + 1) b sector next) (omega arith)
          λ f2. clear_loop-Writing left (i + 1) b sector next f2 n

if_Writing : (b : Bool) (x y : HostFile × ℕ) → Writing x → Writing y → Writing (if b then x else y)
if_Writing true x y hx hy = hx
if_Writing false x y hx hy = hy

write_headers-Writing :
    (l : Fresh) (sector : ℕ) (primary : Buf) (f : HostFile)
    → Writing (write_headers l sector primary f)
unfolding write_headers
write_headers-Writing l sector primary f =
    written-Writing (write_at_path f (mul64 1 sector) primary 92) 11 _ (omega arith) λ f1.
      written-Writing (write_at_path f1 (mul64 l.last_lba sector) (backup_header l primary) 92) 12
        (λ f2.
          if sector == 512
          then written (write_at_path f2 0 (protective_mbr l.total_lba) 512) 13 (λ f3. (f3, 0))
          else (f2, 0))
        (omega arith)
        λ f2.
          if_Writing (sector == 512) _ (f2, 0)
            (written-Writing (write_at_path f2 0 (protective_mbr l.total_lba) 512) 13
              (λ f3. (f3, 0)) (omega arith) λ f3. record { code_is = inl refl })
            (record { code_is = inl refl })

Writing-Untouched : (f : HostFile) (r : HostFile × ℕ) → Writing r → Untouched f r
Writing-Untouched f (g, code) w = inr w.code_is

write_fresh-Untouched :
    (l : Fresh) (sector entries entry_size : ℕ) (guid : Buf) (f : HostFile)
    → Untouched f (write_fresh l sector entries entry_size guid f)
unfolding write_fresh
write_fresh-Untouched l sector entries entry_size guid f =
    elim (Bool-cases (leb l.backup_ents_lba l.first_usable)) [
      | inl e ↦ rw e (inl refl)
      | inr e ↦ rw e (
          Writing-Untouched f _ (
            clear_loop-Writing l.ents_lba 0 l.backup_ents_lba sector _ f
              (write_headers-Writing l sector (primary_header l entries entry_size guid))))
    ]

-- A chain of four checks.
guards :
    (f : HostFile) (a b c d : Bool) (x : HostFile × ℕ)
    → Untouched f x
    → Untouched f
        (if a then (f, 2) else if b then (f, 3) else if c then (f, 5) else if d then (f, 6) else x)
guards f true b c d x h = inl refl
guards f false true c d x h = inl refl
guards f false false true d x h = inl refl
guards f false false false true x h = inl refl
guards f false false false false x h = h

-- Whatever it is called with, gpt_init_fresh that fails with a code above -9 has left the file as
-- it was: every check comes before the first write.
pub gpt_init_fresh-Untouched :
    (rand : ℕ → ℕ) (sector entries entry_size : ℕ) (f : HostFile)
    → Untouched f (gpt_init_fresh rand sector entries entry_size f)
unfolding gpt_init_fresh host_get_size
gpt_init_fresh-Untouched rand sector entries entry_size f = guards f _ _ _ _ _ (
    write_fresh-Untouched (fresh f.size sector (or_128 entries) entry_size) sector (or_128 entries)
      entry_size (rand_guid rand) f)
