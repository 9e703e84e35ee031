-- ===== src/Vblk/Children.antt =====
-- Removal of the partitions of a device (src/vblk.c: vblk_remove_children).
use guppy.Prelude.{
  ℕ, suc, ◌+◌, ◌≡◌, inl, inr, refl, sym, true, false, none, some, arith, List, [], ◌∷◌,
  if◌then◌else◌, Bool-cases,
}
use guppy.Ascii.{Bytes, same-eq}
use guppy.Vblk.{
  Vblk, cleared, is_blank, has_name, vblk_by_name, is_child, remove_loop, vblk_remove_children,
}
use guppy.Vblk.Table.{free_here}

found_name : (e : Vblk) (name : Bytes) → has_name e name ≡ true → e.name ≡ name
unfolding has_name
found_name e name h = same-eq e.name name (ground arith)

-- The slots in use.
unfoldable pub used : List Vblk → ℕ
used [] = 0
used (e ∷ es) = let rest = used es in if is_blank e.name then rest else suc rest

remove_loop-lookup :
    (parent name : Bytes) (t : List Vblk)
    → vblk_by_name (remove_loop parent t).0 name
      ≡ (if is_child parent name then none else vblk_by_name t name)
unfolding remove_loop vblk_by_name
remove_loop-lookup parent name [] = elim (Bool-cases (is_child parent name)) [
  | inl c ↦ rw c
  | inr c ↦ rw c
]
remove_loop-lookup parent name (e ∷ t) =
    let rest = remove_loop-lookup parent name t in
    elim (Bool-cases (is_child parent e.name)) [
      | inl c ↦ rw (c, free_here cleared name refl, rest) (removed c)
      | inr c ↦ rw (c, rest) (kept c)
    ]
  where
    removed :
        is_child parent e.name ≡ true
        → (if is_child parent name then none else vblk_by_name t name) ≡ (
            if is_child parent name
            then none
            else if has_name e name
            then some e
            else vblk_by_name t name)
    removed c = elim (Bool-cases (has_name e name)) [
      | inl h ↦ let eq = found_name e name h in rw (sym eq, c)
      | inr h ↦ rw h
    ]

    kept :
        is_child parent e.name ≡ false
        → (if has_name e name
            then some e
            else if is_child parent name
            then none
            else vblk_by_name t name)
          ≡ (if is_child parent name
              then none
              else if has_name e name
              then some e
              else vblk_by_name t name)
    kept c = elim (Bool-cases (has_name e name)) [
      | inl h ↦ let eq = found_name e name h in rw (h, sym eq, c)
      | inr h ↦ rw h
    ]

child_named : (parent name : Bytes) → is_child parent name ≡ true → is_blank name ≡ false
unfolding is_child
child_named parent name h = ground arith

remove_loop-used :
    (parent : Bytes) (t : List Vblk)
    → used (remove_loop parent t).0 + (remove_loop parent t).1 ≡ used t
unfolding remove_loop used
remove_loop-used parent [] = omega arith
remove_loop-used parent (e ∷ t) =
    let rest = remove_loop-used parent t in
    elim (Bool-cases (is_child parent e.name)) [
      | inl c ↦ rw (c, child_named parent e.name c) (omega (arith, rest))
      | inr c ↦ elim (Bool-cases (is_blank e.name)) [
        | inl f ↦ rw (c, f) rest
        | inr f ↦ rw (c, f) (omega (arith, rest))
      ]
    ]

-- After the children of a named device are removed, exactly the names that consist of its name and a
-- number find nothing any more, every other name finds what it found before, and the result is the
-- number of slots that have become free.
pub vblk_remove_children-lookup :
    (parent : Bytes) (t : List Vblk)
    → is_blank parent ≡ false
    → ((name : Bytes)
        → vblk_by_name (vblk_remove_children (some parent) t).0 name
          ≡ (if is_child parent name then none else vblk_by_name t name))
      × (used (vblk_remove_children (some parent) t).0 + (vblk_remove_children (some parent) t).1
          ≡ used t)
unfolding vblk_remove_children
vblk_remove_children-lookup parent t h =
    rw h (λ name. remove_loop-lookup parent name t, remove_loop-used parent t)
