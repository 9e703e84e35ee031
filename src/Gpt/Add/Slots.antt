-- ===== src/Gpt/Add/Slots.antt =====
-- The entry that a new partition takes (src/gpt.c: gpt_add_partition_lba).
use guppy.Prelude.{
  ℕ, zero, suc, ◌+◌, ◌*◌, ◌≤◌, ◌<◌, ◌≡◌, inl, inr, ap, ◌∙◌, Bool, true, false, arith, Bool-cases,
}
use native.Mathlib.Decide.{dec_lt}
use guppy.Buffer.{Buf, at, zeros}
use guppy.Gpt.{same_bytes}
use guppy.Gpt.Add.{free_slot}

abbrev pub untyped : (ents : Buf) (size j : ℕ) → Bool
untyped ents size j = same_bytes 16 (at ents (j * size)) zeros

-- `s` is the first entry from `i` on that has no type, or `i + left`.
pub record IsFirstFree (left i : ℕ) (ents : Buf) (size s : ℕ) : Type 0 where
  pub from : i ≤ s
  pub upto : s ≤ i + left
  pub used_before : (j : ℕ) → i ≤ j → j < s → untyped ents size j ≡ false
  pub is_free : s < i + left → untyped ents size s ≡ true

pub free_slot-IsFirstFree :
    (left i : ℕ) (ents : Buf) (size : ℕ) → IsFirstFree left i ents size (free_slot left i ents size)
unfolding free_slot
free_slot-IsFirstFree zero i ents size = record {
  from = omega arith;
  upto = omega arith;
  used_before = λ j lo hi. absurd (omega arith);
  is_free = λ h. absurd (omega arith);
}
free_slot-IsFirstFree (suc left) i ents size = elim (Bool-cases (untyped ents size i)) [
  | inl e ↦ rw e (record {
    from = omega arith;
    upto = omega arith;
    used_before = λ j lo hi. absurd (omega arith);
    is_free = λ h. e;
  })
  | inr e ↦ rw e (later (free_slot-IsFirstFree left (i + 1) ents size) e)
]
  where
    later :
        {left i s : ℕ} {ents : Buf} {size : ℕ}
        → IsFirstFree left (i + 1) ents size s
        → untyped ents size i ≡ false
        → IsFirstFree (suc left) i ents size s
    later {left} {i} {s} {ents} {size} h e = record {
      from = omega (arith, h.from);
      upto = omega (arith, h.upto);
      used_before = λ j lo hi. elim (dec_lt i j) [
        | yes p ↦ h.used_before j (omega arith) hi
        | no p ↦ let z : j ≡ i = omega arith in ap (untyped ents size) z ∙ e
      ];
      is_free = λ l. h.is_free (omega arith);
    }
