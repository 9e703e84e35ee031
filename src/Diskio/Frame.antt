-- ===== src/Diskio/Frame.antt =====
-- What a write by name (src/diskio.c: diskio_pwrite) leaves of the host.
use guppy.Prelude.{
  ℕ, ◌≡◌, ◌≢◌, inl, inr, refl, sym, ap, ◌∙◌, Bool, false, Option, none, some, List, [], ◌∷◌,
  Bool-cases,
}
use guppy.Ascii.{Bytes, same, same-eq}
use guppy.Buffer.{Buf}
use guppy.Host.{HostFile, host_write}
use guppy.Vdisk.{Vdisk, Status}
use guppy.Diskio.{
  World, MapEntry, disk_of, map_find, put_disk, set_file, put_back, as_path, if_some, put_file,
  diskio_resolve, file_pwrite, diskio_pwrite,
}

-- The host's file under a key.
abbrev pub file_of : World → Bytes → Option Bytes
file_of w key = if_some (map_find w.g_map key) (λ e. some e.file) (as_path key)

-- The other files are as they were, and the key is still that of the same file.
pub record OthersKept (key : Bytes) (w w' : World) : Type 0 where
  pub same_file : file_of w' key ≡ file_of w key
  pub others : (path : Bytes) → file_of w key ≢ some path → w'.files path ≡ w.files path

pub OthersKept-refl : (key : Bytes) (w : World) → OthersKept key w w
OthersKept-refl key w = record { same_file = refl; others = λ path n. refl }

pub OthersKept-trans :
    (key : Bytes) (a b c : World) → OthersKept key a b → OthersKept key b c → OthersKept key a c
OthersKept-trans key a b c p q = record {
  same_file = q.same_file ∙ p.same_file;
  others = λ path n. q.others path (λ e. n (sym p.same_file ∙ e)) ∙ p.others path n;
}

-- The entry under the key keeps all but its disk.
pub map_find-put_disk :
    (m : List MapEntry) (key : Bytes) (d : Vdisk)
    → map_find (put_disk m key d) key
      ≡ if_some (map_find m key) (λ e. some (record e { disk = d })) none
unfolding map_find put_disk
map_find-put_disk [] key d = refl
map_find-put_disk (e ∷ es) key d =
    let rest = map_find-put_disk es key d in
    elim (Bool-cases (same e.key key)) [ inl y ↦ rw (y, y) refl | inr n ↦ rw (n, n) rest ]

set_file-other :
    (files : Bytes → Option HostFile) (path other : Bytes) (f : HostFile)
    → path ≢ other
    → set_file files path f other ≡ files other
set_file-other files path other f n = elim (Bool-cases (same other path)) [
  | inl e ↦ absurd (n (sym (same-eq other path e)))
  | inr e ↦ rw e refl
]

put_back-OthersKept :
    (w : World) (key : Bytes) (e : MapEntry) (r : Vdisk × Status)
    → map_find w.g_map key ≡ some e
    → OthersKept key w (put_back w key e.file r).0
put_back-OthersKept w key e (d, status) h = record {
  same_file = rw (map_find-put_disk w.g_map key d, h) refl;
  others = λ path n. set_file-other w.files e.file path d.fp (λ q. n (rw h (ap some q)));
}

put_file-OthersKept :
    (w : World) (key path : Bytes) (r : HostFile × Bool)
    → file_of w key ≡ some path
    → OthersKept key w (put_file w path r).0
put_file-OthersKept w key path (f, ok) h = record {
  same_file = refl;
  others = λ p n. set_file-other w.files path p f (λ q. n (h ∙ ap some q));
}

-- A branch that is taken, or the world as it was.
if_some-OthersKept :
    {A : Type 0} (key : Bytes) (w : World) (o : Option A) (f : A → World × Bool)
    → ((a : A) → o ≡ some a → OthersKept key w (f a).0)
    → OthersKept key w (if_some o f (w, false)).0
if_some-OthersKept key w none f h = OthersKept-refl key w
if_some-OthersKept key w (some a) f h = h a refl

-- A write leaves every other file of the host as it was, whatever the driver does.
pub diskio_pwrite-OthersKept :
    (w : World) (key : Bytes) (off : ℕ) (src : Buf) (len : ℕ)
    → OthersKept key w (diskio_pwrite w key off src len).0
unfolding diskio_pwrite diskio_resolve file_pwrite
diskio_pwrite-OthersKept w key off src len = by_entry (map_find w.g_map key) refl
  where
    by_entry :
        (o : Option MapEntry)
        → map_find w.g_map key ≡ o
        → OthersKept key w
            (if_some o
              (λ e. put_back w key e.file (e.driver.write off src len (disk_of w e)))
              (if_some
                (if_some o (λ e. some e.path) (as_path key))
                (λ path.
                  if_some
                    (w.files path)
                    (λ f. put_file w path (host_write f off src len))
                    (w, false))
                (w, false))).0
    by_entry (some e) h = put_back-OthersKept w key e (e.driver.write off src len (disk_of w e)) h
    by_entry none h =
        if_some-OthersKept key w (as_path key)
          (λ path.
            if_some (w.files path) (λ f. put_file w path (host_write f off src len)) (w, false))
          λ path hp.
            if_some-OthersKept key w (w.files path)
              (λ f. put_file w path (host_write f off src len))
              λ f hf. put_file-OthersKept w key path (host_write f off src len) (rw h hp)
