-- ===== src/Deb/Control/Lines.antt =====
-- Lines of a control file, and the names of its fields (src/deb_control.c).
use guppy.Prelude.{
  ℕ, zero, suc, ◌<◌, ◌≡◌, refl, ap, Bool, true, false, not, some, arith, ◌==◌, ◌&&◌, List, [], ◌∷◌,
  ◌++◌,
}
use guppy.Ascii.{Bytes, same}
use guppy.Deb.Control.{
  field_table, field, field_in, is_tab_or_space, ends_line, split_colon, lines_of, drop_return,
}

abbrev pub name_in : List (Bytes × ℕ) → ℕ → Bytes
name_in [] i = []
name_in ((name, cap) ∷ fs) zero = name
name_in ((name, cap) ∷ fs) (suc i) = name_in fs i

-- No character of the test.
abbrev pub free_of : (test : ℕ → Bool) → Bytes → Bool
free_of test [] = true
free_of test (c ∷ cs) = let rest = free_of test cs in not (test c) && rest

abbrev pub is_colon : ℕ → Bool
is_colon c = c == b':'

pub lines_of-append :
    (l r : Bytes) → free_of ends_line l ≡ true → lines_of (l ++ (b'\n' ∷ r)) ≡ l ∷ lines_of r
unfolding lines_of
lines_of-append [] r h = refl
lines_of-append (c ∷ l) r h =
    let a : (c == b'\n') ≡ false = ground arith in
    let b : free_of ends_line l ≡ true = ground arith in
    let e = lines_of-append l r b in rw (a, e) refl

pub drop_return-free : (l : Bytes) → free_of ends_line l ≡ true → drop_return l ≡ l
unfolding drop_return
drop_return-free [] h = refl
drop_return-free (c ∷ []) h = let a : (c == b'\r') ≡ false = ground arith in rw a refl
drop_return-free (c ∷ d ∷ l) h = ap (λ t. c ∷ t) (drop_return-free (d ∷ l) (ground arith))

pub split_colon-append :
    (n r : Bytes) → free_of is_colon n ≡ true → split_colon (n ++ (b':' ∷ r)) ≡ some (n, r)
unfolding split_colon
split_colon-append [] r h = refl
split_colon-append (c ∷ n) r h =
    let a : (c == b':') ≡ false = ground arith in
    let b : free_of is_colon n ≡ true = ground arith in
    let e = split_colon-append n r b in rw (a, e) refl

pub free_of-append :
    (test : ℕ → Bool) (l r : Bytes)
    → free_of test l ≡ true
    → free_of test r ≡ true
    → free_of test (l ++ r) ≡ true
free_of-append test [] r h h' = h'
free_of-append test (c ∷ l) r h h' =
    let a : test c ≡ false = first (test c) _ h in
    let e = free_of-append test l r (second (test c) _ h) h' in rw (a, e) refl
  where
    first : (a b : Bool) → (not a && b) ≡ true → a ≡ false
    first a b h = ground arith

    second : (a b : Bool) → (not a && b) ≡ true → b ≡ true
    second a b h = ground arith

-- What the names of the table are like.
pub record IsName (i : ℕ) (name : Bytes) : Type 0 where
  pub no_colon : free_of is_colon name ≡ true
  pub one_line : free_of ends_line name ≡ true
  pub found : field name ≡ some i
  pub starts : (c : ℕ) × (cs : Bytes) × (name ≡ c ∷ cs) × (is_tab_or_space c ≡ false)

pub names : (i : ℕ) → i < 13 → IsName i (name_in field_table i)
unfolding field field_in same
names zero h = record {
  no_colon = refl;
  one_line = refl;
  found = refl;
  starts = (_, _, refl, refl);
}
names (suc zero) h = record {
  no_colon = refl;
  one_line = refl;
  found = refl;
  starts = (_, _, refl, refl);
}
names (suc (suc zero)) h = record {
  no_colon = refl;
  one_line = refl;
  found = refl;
  starts = (_, _, refl, refl);
}
names (suc (suc (suc zero))) h = record {
  no_colon = refl;
  one_line = refl;
  found = refl;
  starts = (_, _, refl, refl);
}
names (suc (suc (suc (suc zero)))) h = record {
  no_colon = refl;
  one_line = refl;
  found = refl;
  starts = (_, _, refl, refl);
}
names (suc (suc (suc (suc (suc zero))))) h = record {
  no_colon = refl;
  one_line = refl;
  found = refl;
  starts = (_, _, refl, refl);
}
names (suc (suc (suc (suc (suc (suc zero)))))) h = record {
  no_colon = refl;
  one_line = refl;
  found = refl;
  starts = (_, _, refl, refl);
}
names (suc (suc (suc (suc (suc (suc (suc zero))))))) h = record {
  no_colon = refl;
  one_line = refl;
  found = refl;
  starts = (_, _, refl, refl);
}
names (suc (suc (suc (suc (suc (suc (suc (suc zero)))))))) h = record {
  no_colon = refl;
  one_line = refl;
  found = refl;
  starts = (_, _, refl, refl);
}
names (suc (suc (suc (suc (suc (suc (suc (suc (suc zero))))))))) h = record {
  no_colon = refl;
  one_line = refl;
  found = refl;
  starts = (_, _, refl, refl);
}
names (suc (suc (suc (suc (suc (suc (suc (suc (suc (suc zero)))))))))) h = record {
  no_colon = refl;
  one_line = refl;
  found = refl;
  starts = (_, _, refl, refl);
}
names (suc (suc (suc (suc (suc (suc (suc (suc (suc (suc (suc zero))))))))))) h = record {
  no_colon = refl;
  one_line = refl;
  found = refl;
  starts = (_, _, refl, refl);
}
names (suc (suc (suc (suc (suc (suc (suc (suc (suc (suc (suc (suc zero)))))))))))) h = record {
  no_colon = refl;
  one_line = refl;
  found = refl;
  starts = (_, _, refl, refl);
}
names (suc (suc (suc (suc (suc (suc (suc (suc (suc (suc (suc (suc (suc n))))))))))))) h =
    absurd (omega arith)
