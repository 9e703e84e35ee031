-- ===== src/Gpt/Headers.antt =====
-- The headers that gpt_init_fresh (src/gpt.c) writes.
use guppy.Prelude.{ℕ, ◌+◌, ◌≤◌, ◌<◌, ◌≡◌, refl, ap, ◌∙◌, arith}
use guppy.Buffer.{Buf, put32, put64, bytes32}
use guppy.Buffer.Words.{Word32, by_four, by_eight}
use guppy.Gpt.Init.{Fresh, primary_header, backup_header}
use guppy.Gpt.Table.{HeaderAt}

pub primary_header-HeaderAt :
    (l : Fresh) (entries : ℕ) (guid : Buf)
    → HeaderAt (primary_header l entries 128 guid) 0 1 l.last_lba 2 entries
unfolding primary_header put64 put32 bytes32
primary_header-HeaderAt l entries guid = record {
  signature = by_eight _ _ (by_four _ _ refl refl refl refl) (by_four _ _ refl refl refl refl);
  size = by_four _ _ refl refl refl refl;
  current_word = (by_four _ _ refl refl refl refl, by_four _ _ refl refl refl refl);
  backup_word = (by_four _ _ refl refl refl refl, by_four _ _ refl refl refl refl);
  array_word = (by_four _ _ refl refl refl refl, by_four _ _ refl refl refl refl);
  num_word = by_four _ _ refl refl refl refl;
  entry_size = by_four _ _ refl refl refl refl;
}

pub backup_header-HeaderAt :
    (l : Fresh) (entries : ℕ) (guid : Buf)
    → HeaderAt
        (backup_header l (primary_header l entries 128 guid))
        0
        l.last_lba
        1
        l.backup_ents_lba
        entries
unfolding backup_header primary_header put64 put32 bytes32
backup_header-HeaderAt l entries guid = record {
  signature = by_eight _ _ (by_four _ _ refl refl refl refl) (by_four _ _ refl refl refl refl);
  size = by_four _ _ refl refl refl refl;
  current_word = (by_four _ _ refl refl refl refl, by_four _ _ refl refl refl refl);
  backup_word = (by_four _ _ refl refl refl refl, by_four _ _ refl refl refl refl);
  array_word = (by_four _ _ refl refl refl refl, by_four _ _ refl refl refl refl);
  num_word = by_four _ _ refl refl refl refl;
  entry_size = by_four _ _ refl refl refl refl;
}

-- What stands at an offset of a file.
pub HeaderAt-at :
    (p q : Buf) (k current backup array num : ℕ)
    → ((i : ℕ) → i < 92 → q (k + i) ≡ p i)
    → HeaderAt p 0 current backup array num
    → HeaderAt q k current backup array num
HeaderAt-at p q k current backup array num e h = record {
  signature =
      λ i hi. let z : i ≡ 0 + i = omega arith in e i (omega arith) ∙ ap p z ∙ h.signature i hi;
  size = word 12 92 (omega arith) h.size;
  current_word =
      (word 24 _ (omega arith) h.current_word.0, word2 24 _ (omega arith) h.current_word.1);
  backup_word = (word 32 _ (omega arith) h.backup_word.0, word2 32 _ (omega arith) h.backup_word.1);
  array_word = (word 72 _ (omega arith) h.array_word.0, word2 72 _ (omega arith) h.array_word.1);
  num_word = word 80 num (omega arith) h.num_word;
  entry_size = word 84 128 (omega arith) h.entry_size;
}
  where
    word : (m v : ℕ) → m ≤ 88 → Word32 p m v → Word32 q (k + m) v
    word m v hm w i hi = ap q (omega arith) ∙ e (m + i) (omega arith) ∙ w i hi

    word2 : (m v : ℕ) → m ≤ 84 → Word32 p (m + 4) v → Word32 q (k + m + 4) v
    word2 m v hm w i hi = ap q (omega arith) ∙ e (m + 4 + i) (omega arith) ∙ w i hi
