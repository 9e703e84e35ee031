-- ===== src/Gpt/Single.antt =====
-- gpt_find_single_partition (src/gpt.c) as a search in a list.
use guppy.Prelude.{
  ℕ, zero, suc, ◌+◌, ◌≡◌, inl, inr, refl, ap, ◌∙◌, false, arith, ◌==◌, List, [], ◌∷◌, if◌then◌else◌,
  Bool-cases, ne→==-false,
}
use guppy.Buffer.{Buf, at}
use guppy.Host.{HostFile}
use guppy.Gpt.{gpt_find_single_partition, find_single, is_used}
use guppy.Gpt.Table.{Table, gpt_read_header-Table, gpt_read_entries-Read}

-- The numbers, from 1, of the entries with a range.
abbrev pub used_numbers : (left i : ℕ) → (entries : Buf) → List ℕ
used_numbers zero i entries = []
used_numbers (suc left) i entries =
    let rest = used_numbers left (i + 1) entries in
    if is_used entries i then (i + 1) ∷ rest else rest

abbrev pub only : List ℕ → ℕ
only [] = 0
only (n ∷ []) = n
only (n ∷ m ∷ ns) = 0

-- `found` in front of the numbers, if there is one.
abbrev with_found : ℕ → List ℕ → List ℕ
with_found found ns = if found == 0 then ns else found ∷ ns

with_found-suc : (i : ℕ) (ns : List ℕ) → with_found (i + 1) ns ≡ (i + 1) ∷ ns
with_found-suc i ns =
    let c : (i + 1 == 0) ≡ false = ne→==-false (i + 1) 0 (λ z. omega arith) in rw c refl

find_single-only :
    (left i found : ℕ) (entries : Buf)
    → find_single left entries i found ≡ only (with_found found (used_numbers left i entries))
unfolding find_single
find_single-only zero i found entries = elim (Bool-cases (found == 0)) [
  | inl e ↦ let z : found ≡ 0 = ground arith in rw (e, z) refl
  | inr e ↦ rw e refl
]
find_single-only (suc left) i found entries = elim (Bool-cases (is_used entries i)) [
  | inr u ↦ rw u (find_single-only left (i + 1) found entries)
  | inl u ↦ elim (Bool-cases (found == 0)) [
    | inl e ↦
        let c = with_found-suc i (used_numbers left (i + 1) entries) in
        let h = find_single-only left (i + 1) (i + 1) entries in rw (u, e) (h ∙ ap only c)
    | inr e ↦ rw (u, e) refl
  ]
]

-- gpt_find_single_partition gives the number of the only entry with a range, and 0 where there is
-- none or more than one.
pub gpt_find_single_partition-only :
    (f : HostFile) (num last array : ℕ)
    → Table f num last array
    → gpt_find_single_partition f ≡ only (used_numbers num 0 (at f.byte 1024))
unfolding gpt_find_single_partition
gpt_find_single_partition-only f num last array t =
    let (eh, _, r, _) = gpt_read_header-Table f num last array t in
    let ee =
      gpt_read_entries-Read f (at f.byte 512) 1 last 2 num r t.some_entries
        (omega (arith, t.whole, t.first_array, t.second_array)) t.low in
    let n = r.num_is in rw (eh, ee, n) (find_single-only num 0 0 (at f.byte 1024))
