-- ===== src/Schedule/Memory.antt =====
-- A file system in memory, on which the tests of the store run. Its areas are devices of their own, so
-- that a rename from one to the other fails and the store copies.
use gmmff.Prelude.{
  ◌≡◌, ◌≢◌, refl, ◌⊎◌, inl, inr, ◌↔◌, Bool, true, false, ◌&&◌, List, [], ◌∷◌, ◌++◌, arith,
  Bool-cases, if◌then◌else◌,
}
use gmmff.Prelude.Bytes.{Bytes, bytes_eq, bytes_eq_iff}
use gmmff.Schedule.Disk.{
  Area, pending, complete, Leaf, data_enc, meta_json, File, file, Read, got, not_exist, unreadable,
  moved, cross_device, stuck, Disk,
}
use gmmff.Schedule.Uploads.{Works}

abbrev area_eq : Area → Area → Bool
area_eq pending pending = true
area_eq complete complete = true
area_eq _ _ = false

abbrev leaf_eq : Leaf → Leaf → Bool
leaf_eq data_enc data_enc = true
leaf_eq meta_json meta_json = true
leaf_eq _ _ = false

area_eq_iff : (a b : Area) → (area_eq a b ≡ true) ↔ (a ≡ b)
area_eq_iff a b = ground arith

leaf_eq_iff : (a b : Leaf) → (leaf_eq a b ≡ true) ↔ (a ≡ b)
leaf_eq_iff a b = ground arith

abbrev file_eq : File → File → Bool
file_eq f g = area_eq f.area g.area && bytes_eq f.id g.id && leaf_eq f.leaf g.leaf

same_parts :
    {a b : Area} {i j : Bytes} {l k : Leaf} → a ≡ b → i ≡ j → l ≡ k → file a i l ≡ file b j k
same_parts p q r = rw (p, q, r) refl

and_true : (a b c : Bool) → (a && b && c) ≡ true → (a ≡ true) × (b ≡ true) × (c ≡ true)
and_true a b c h = ground arith

file_eq_same : (f g : File) → file_eq f g ≡ true → f ≡ g
file_eq_same f g h =
    let (a, i, l) =
      and_true (area_eq f.area g.area) (bytes_eq f.id g.id) (leaf_eq f.leaf g.leaf) h in
    same_parts ((area_eq_iff f.area g.area).0 a) ((bytes_eq_iff f.id g.id).0 i)
      ((leaf_eq_iff f.leaf g.leaf).0 l)

file_eq_self : (f : File) → file_eq f f ≡ true
file_eq_self f =
    rw
      (
        (area_eq_iff f.area f.area).1 refl,
        (bytes_eq_iff f.id f.id).1 refl,
        (leaf_eq_iff f.leaf f.leaf).1 refl,
      )
      refl

file_eq_other : (f g : File) → g ≢ f → file_eq g f ≡ false
file_eq_other f g ne = ground (arith, file_eq_same g f)

pub record Memory : Type 0 where
  pub files : File → Read Bytes
  pub names : Area → List Bytes

abbrev pub put : File → Read Bytes → Memory → Memory
put f r d = record d { files = λ g. if file_eq g f then r else d.files g }

pub put_self : (f : File) (r : Read Bytes) (d : Memory) → (put f r d).files f ≡ r
put_self f r d = rw (file_eq_self f) refl

pub put_other : (f g : File) (r : Read Bytes) (d : Memory) → g ≢ f → (put f r d).files g ≡ d.files g
put_other f g r d ne = rw (file_eq_other f g ne) refl

abbrev with_name : Area → Bytes → Memory → Memory
with_name a i d = record d { names = λ b. if area_eq a b then i ∷ d.names b else d.names b }

abbrev append_to : File → Bytes → Memory → Read Bytes → Memory × Bool
append_to f b d (got c) = (put f (got (c ++ b)) d, true)
append_to f b d not_exist = (d, false)
append_to f b d unreadable = (d, false)

pub append_to_done :
    (f : File) (b c : Bytes) (d : Memory)
    → d.files f ≡ got c
    → (append_to f b d (d.files f)).0.files f ≡ got (c ++ b)
append_to_done f b c d h = rw h (put_self f (got (c ++ b)) d)

pub append_to_keeps :
    (f g : File) (b : Bytes) (d : Memory) (r : Read Bytes)
    → g ≢ f
    → (append_to f b d r).0.files g ≡ d.files g
append_to_keeps f g b d (got c) ne = put_other f g (got (c ++ b)) d ne
append_to_keeps f g b d not_exist ne = refl
append_to_keeps f g b d unreadable ne = refl

abbrev within : Area → Bytes → File → Bool
within a i f = area_eq f.area a && bytes_eq f.id i

abbrev cleared : Area → Bytes → Memory → Memory
cleared a i d = record d { files = λ f. if within a i f then not_exist else d.files f }

within_not : (a : Area) (i : Bytes) (f : File) → (f.area ≢ a) ⊎ (f.id ≢ i) → within a i f ≡ false
within_not a i f h = ground (arith, area_eq_iff f.area a, bytes_eq_iff f.id i)

pub cleared_keeps :
    (a : Area) (i : Bytes) (f : File) (d : Memory)
    → (f.area ≢ a) ⊎ (f.id ≢ i)
    → (cleared a i d).files f ≡ d.files f
cleared_keeps a i f d h = rw (within_not a i f h) refl

pub cleared_part :
    (a : Area) (i : Bytes) (f : File) (d : Memory)
    → ((cleared a i d).files f ≡ not_exist) ⊎ ((cleared a i d).files f ≡ d.files f)
cleared_part a i f d = elim (Bool-cases (within a i f)) [
  | inl e ↦ inl (rw e refl)
  | inr e ↦ inr (rw e refl)
]

pub true_not_false : true ≢ false
true_not_false h = cc

pub cross_not_moved : cross_device ≢ moved
cross_not_moved h = cc

abbrev pub memory : Disk
memory = record {
  State = Memory;
  read = λ f d. d.files f;
  dirs = λ a d. d.names a;
  make_dir = λ a i d. (with_name a i d, true);
  write = λ f b d. (put f (got b) d, true);
  append = λ f b d. append_to f b d (d.files f);
  rename = λ f g d. (d, cross_device);
  remove = λ f d. (put f not_exist d, true);
  remove_all = cleared;
  make_dir_keeps = λ a i d f. refl;
  write_done = λ f b d h. put_self f (got b) d;
  write_part = λ f b d h. absurd (true_not_false h);
  write_keeps = λ f g b d ne. put_other f g (got b) d ne;
  append_done = λ f b c d h r. append_to_done f b c d r;
  append_keeps = λ f g b d ne. append_to_keeps f g b d (d.files f) ne;
  rename_done = λ f g d h. absurd (cross_not_moved h);
  rename_not = λ f g h d ne. refl;
  rename_keeps = λ f g h d nf ng. refl;
  remove_keeps = λ f g d ne. put_other f g not_exist d ne;
  remove_all_keeps = λ a i f d h. cleared_keeps a i f d h;
  remove_all_part = λ a i f d. cleared_part a i f d;
}

append_to_ok :
    (f : File) (b c : Bytes) (d : Memory)
    → d.files f ≡ got c
    → (append_to f b d (d.files f)).1 ≡ true
append_to_ok f b c d h = rw h refl

cross_not_stuck : cross_device ≢ stuck
cross_not_stuck h = cc

pub memory-Works : Works memory
memory-Works = record {
  make_dir_ok = λ a i d. refl;
  write_ok = λ f b d. refl;
  append_ok = append_to_ok;
  rename_ok = λ f g b d h. cross_not_stuck;
  remove_ok = λ f b d h. refl;
}

-- Nothing has been uploaded.
abbrev pub no_files : Memory
no_files = record { files = λ f. not_exist; names = λ a. [] }
