-- ===== src/Schedule/Disk.antt =====
-- What internal/schedule/store.go uses of the package os, with the documented behaviour of each call.
-- A file is named by its parts: filepath.Join puts pending/ or complete/, the identifier of an upload
-- and one of two file names together, and the store checks identifiers before it does so.
use gmmff.Prelude.{◌≡◌, ◌≢◌, ◌⊎◌, ℕ, Bool, true, false, List, ◌++◌, take}
use gmmff.Prelude.Bytes.{Bytes}

pub data Area : Type 0 where
  pending complete : Area

-- data.enc and meta.json
pub data Leaf : Type 0 where
  data_enc meta_json : Leaf

pub record File : Type 0 where
  pub area : Area
  pub id : Bytes
  pub leaf : Leaf

abbrev pub file : Area → Bytes → Leaf → File
file a i l = record { area = a; id = i; leaf = l }

-- What reading or decoding gives; `not_exist` is fs.ErrNotExist.
pub data Read (A : Type 0) : Type 0 where
  got : A → Read A
  not_exist unreadable : Read A

-- os.Rename between two file systems gives `cross_device`.
pub data Moved : Type 0 where
  moved cross_device stuck : Moved

-- A call returns the new state and whether it succeeded. A write that fails may have cut the file
-- short, or written a part.
pub record Disk : Type 1 where
  pub State : Type 0
  pub read : File → State → Read Bytes
  pub dirs : Area → State → List Bytes
  pub make_dir : Area → Bytes → State → State × Bool
  pub write : File → Bytes → State → State × Bool
  pub append : File → Bytes → State → State × Bool
  pub rename : File → File → State → State × Moved
  pub remove : File → State → State × Bool
  pub remove_all : Area → Bytes → State → State
  pub make_dir_keeps :
      (a : Area) (i : Bytes) (d : State) (f : File) → read f (make_dir a i d).0 ≡ read f d
  pub write_done :
      (f : File) (b : Bytes) (d : State) → (write f b d).1 ≡ true → read f (write f b d).0 ≡ got b
  pub write_part :
      (f : File) (b : Bytes) (d : State)
      → (write f b d).1 ≡ false
      → (read f (write f b d).0 ≡ read f d) ⊎ ((n : ℕ) × (read f (write f b d).0 ≡ got (take n b)))
  pub write_keeps : (f g : File) (b : Bytes) (d : State) → g ≢ f → read g (write f b d).0 ≡ read g d
  pub append_done :
      (f : File) (b c : Bytes) (d : State)
      → (append f b d).1 ≡ true
      → read f d ≡ got c
      → read f (append f b d).0 ≡ got (c ++ b)
  pub append_keeps :
      (f g : File) (b : Bytes) (d : State) → g ≢ f → read g (append f b d).0 ≡ read g d
  pub rename_done :
      (f g : File) (d : State) → (rename f g d).1 ≡ moved → read g (rename f g d).0 ≡ read f d
  pub rename_not :
      (f g h : File) (d : State) → (rename f g d).1 ≢ moved → read h (rename f g d).0 ≡ read h d
  pub rename_keeps : (f g h : File) (d : State) → h ≢ f → h ≢ g → read h (rename f g d).0 ≡ read h d
  pub remove_keeps : (f g : File) (d : State) → g ≢ f → read g (remove f d).0 ≡ read g d
  pub remove_all_keeps :
      (a : Area) (i : Bytes) (f : File) (d : State)
      → (f.area ≢ a) ⊎ (f.id ≢ i)
      → read f (remove_all a i d) ≡ read f d
  pub remove_all_part :
      (a : Area) (i : Bytes) (f : File) (d : State)
      → (read f (remove_all a i d) ≡ not_exist) ⊎ (read f (remove_all a i d) ≡ read f d)
