-- ===== src/Vblk.antt =====
-- The table of virtual block devices (src/vblk.c: g_vblk, g_vblk_count).
--
-- The table is the list of the first g_vblk_count slots; a slot without a name is free.
pub mod Table
pub mod Children
pub mod Open
pub mod Io
pub mod Slice
pub mod Stores
pub mod Reads
mod Tests
use guppy.Prelude.{
  ℕ, zero, suc, ◌+◌, ◌-◌, ◌*◌, ◌/◌, ◌%◌, ◌^◌, ◌≤◌, ◌<◌, ◌≡◌, ◌≢◌, ◌⊎◌, ◌↔◌, inl, inr, refl, sym, ap,
  ◌∙◌, Bool, true, false, not, Option, none, some, arith, ◌==◌, ◌&&◌, ◌||◌, List, [], ◌∷◌, ◌++◌,
  map, length, length-append, take, drop, replicate, min, max, if◌then◌else◌, Bool-cases, ==_iff,
  ltb, leb, ne→==-false, lt→ltb,
}
use guppy.Ascii.{Bytes, is_digit, same}

pub record Vblk : Type 0 where
  pub name : Bytes
  pub dev : Bytes
  pub part_index : ℕ
  pub fstype : Bytes
  pub lba_start : ℕ
  pub lba_size : ℕ
  pub block_bytes : ℕ
  pub ro : Bool

-- `memset(&g_vblk[i], 0, sizeof g_vblk[i])`
abbrev pub cleared : Vblk
cleared = record {
  name = [];
  dev = [];
  part_index = 0;
  fstype = [];
  lba_start = 0;
  lba_size = 0;
  block_bytes = 0;
  ro = false;
}

abbrev pub is_blank : Bytes → Bool
is_blank [] = true
is_blank (c ∷ cs) = false

-- A slot in use with this name.
unfoldable pub has_name : Vblk → Bytes → Bool
has_name e name = not (is_blank e.name) && same e.name name

-- `find_by_name` without the index, and `vblk_by_name`.
unfoldable pub vblk_by_name : List Vblk → Bytes → Option Vblk
vblk_by_name [] name = none
vblk_by_name (e ∷ es) name =
    let rest = vblk_by_name es name in if has_name e name then some e else rest

-- A slot before the one that a loop finds.
abbrev pub behind : Vblk → Option (List Vblk × ℕ) → Option (List Vblk × ℕ)
behind e none = none
behind e (some (es, i)) = some (e ∷ es, suc i)

-- `find_by_name`, and `g_vblk[idx] = *entry`.
unfoldable pub put_named : List Vblk → Vblk → Option (List Vblk × ℕ)
put_named [] entry = none
put_named (e ∷ es) entry =
    let rest = behind e (put_named es entry) in
    if has_name e entry.name then some (entry ∷ es, 0) else rest

-- The loop over free slots.
unfoldable pub put_free : List Vblk → Vblk → Option (List Vblk × ℕ)
put_free [] entry = none
put_free (e ∷ es) entry =
    let rest = behind e (put_free es entry) in
    if is_blank e.name then some (entry ∷ es, 0) else rest

abbrev pub vblk_max : ℕ
vblk_max = 256

unfoldable pub put_last : List Vblk → Vblk → List Vblk × Option ℕ
put_last t entry = if leb vblk_max (length t) then (t, none) else (t ++ entry ∷ [], some (length t))

-- A slot that has been taken, or else the next attempt.
abbrev pub placed : Option (List Vblk × ℕ) → List Vblk × Option ℕ → List Vblk × Option ℕ
placed none next = next
placed (some (t, i)) next = (t, some i)

-- The index is `none` for -1. A NULL entry is `none`.
unfoldable pub vblk_register : Option Vblk → List Vblk → List Vblk × Option ℕ
vblk_register none t = (t, none)
vblk_register (some entry) t =
    if is_blank entry.name
    then (t, none)
    else placed (put_named t entry) (placed (put_free t entry) (put_last t entry))

-- The loop over `suffix`.
unfoldable pub only_digits : Bytes → Bool
only_digits [] = true
only_digits (c ∷ cs) = is_digit c && only_digits cs

-- `name + plen`, where `strncmp(name, parent_name, plen) == 0`.
unfoldable pub suffix_of : (parent name : Bytes) → Option Bytes
suffix_of [] name = some name
suffix_of (c ∷ cs) [] = none
suffix_of (c ∷ cs) (x ∷ xs) = let rest = suffix_of cs xs in if x == c then rest else none

abbrev pub is_number : Option Bytes → Bool
is_number none = false
is_number (some suffix) = not (is_blank suffix) && only_digits suffix

unfoldable pub is_child : (parent name : Bytes) → Bool
is_child parent name = not (is_blank name) && is_number (suffix_of parent name)

-- The loop of vblk_remove_children, and the count of removed slots.
unfoldable pub remove_loop : Bytes → List Vblk → List Vblk × ℕ
remove_loop parent [] = ([], 0)
remove_loop parent (e ∷ es) =
    let rest = remove_loop parent es in
    if is_child parent e.name then (cleared ∷ rest.0, suc rest.1) else (e ∷ rest.0, rest.1)

-- A NULL name is `none`.
unfoldable pub vblk_remove_children : Option Bytes → List Vblk → List Vblk × ℕ
vblk_remove_children none t = (t, 0)
vblk_remove_children (some parent) t = if is_blank parent then (t, 0) else remove_loop parent t

unfoldable pub vblk_clear : List Vblk → List Vblk
vblk_clear t = []
