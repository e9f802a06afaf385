-- ===== src/Transfer/Folder.antt =====
-- What the receiver on disk of internal/transfer/transfer.go uses of the directory outDir, with the
-- documented behaviour of each call of the package os, and the sidecar file that it keeps there.
-- A file is given by its name in the directory.
use gmmff.Prelude.{ℕ, ◌≡◌, ◌≢◌, Bool, true, false, [], ◌++◌, Option, none, some, length, take}
use gmmff.Prelude.Int.{ℤ}
use gmmff.Prelude.Bytes.{Bytes}
use gmmff.Transfer.Receive.{Wire}

pub record PartialMeta : Type 0 where
  pub sha256 : Bytes
  pub chunk_size : ℤ
  pub bytes_done : ℤ
  pub chunks_done : ℤ

-- `holds` is what is in the directory, whether or not the program may read it. A call that reads
-- returns `none` on an error; one that changes files returns the new state and whether it succeeded.
pub record Folder : Type 1 where
  pub State : Type 0
  pub holds : Bytes → State → Option Bytes
  -- os.ReadFile, the size that os.Stat gives, and the first bytes that os.Open and io.CopyN read
  pub read : Bytes → State → Option Bytes
  pub stat : Bytes → State → Option ℕ
  pub copy_n : ℕ → Bytes → State → Option Bytes
  -- Whether os.Lstat gives ErrNotExist, and whether the file can be opened for appending
  pub is_absent : Bytes → State → Bool
  pub can_append : Bytes → State → Bool
  -- os.Create, os.WriteFile, Write on an open file, os.Rename and os.Remove
  pub create : Bytes → State → State × Bool
  pub write : Bytes → Bytes → State → State × Bool
  pub append : Bytes → Bytes → State → State × Bool
  pub rename : Bytes → Bytes → State → State × Bool
  pub remove : Bytes → State → State × Bool
  pub read_holds : (n : Bytes) (s : State) (b : Bytes) → read n s ≡ some b → holds n s ≡ some b
  pub stat_holds :
      (n : Bytes) (s : State) (k : ℕ)
      → stat n s ≡ some k
      → (b : Bytes) × (holds n s ≡ some b) × (length b ≡ k)
  pub copy_n_holds :
      (k : ℕ) (n : Bytes) (s : State) (b c : Bytes)
      → copy_n k n s ≡ some c
      → holds n s ≡ some b
      → c ≡ take k b
  pub absent_holds : (n : Bytes) (s : State) → is_absent n s ≡ true → holds n s ≡ none
  pub create_done :
      (n : Bytes) (s : State) → (create n s).1 ≡ true → holds n (create n s).0 ≡ some []
  pub create_keeps : (n m : Bytes) (s : State) → m ≢ n → holds m (create n s).0 ≡ holds m s
  pub write_done :
      (n b : Bytes) (s : State) → (write n b s).1 ≡ true → holds n (write n b s).0 ≡ some b
  pub write_keeps : (n m b : Bytes) (s : State) → m ≢ n → holds m (write n b s).0 ≡ holds m s
  pub append_done :
      (n b c : Bytes) (s : State)
      → (append n b s).1 ≡ true
      → holds n s ≡ some c
      → holds n (append n b s).0 ≡ some (c ++ b)
  pub append_keeps : (n m b : Bytes) (s : State) → m ≢ n → holds m (append n b s).0 ≡ holds m s
  pub rename_done :
      (n m : Bytes) (s : State) → (rename n m s).1 ≡ true → holds m (rename n m s).0 ≡ holds n s
  pub rename_not :
      (n m j : Bytes) (s : State) → (rename n m s).1 ≡ false → holds j (rename n m s).0 ≡ holds j s
  pub rename_keeps :
      (n m j : Bytes) (s : State) → j ≢ n → j ≢ m → holds j (rename n m s).0 ≡ holds j s
  pub remove_keeps : (n m : Bytes) (s : State) → m ≢ n → holds m (remove n s).0 ≡ holds m s

-- All that the receiver on disk calls: the directory, the codecs of its frames and of the sidecar
-- file, and the digits that fmt.Sprintf writes for %d.
pub record Local : Type 1 where
  pub wire : Wire
  pub folder : Folder
  pub encode_meta : PartialMeta → Bytes
  pub decode_meta : Bytes → Option PartialMeta
  pub decimal : ℕ → Bytes
  pub decode_meta-encode_meta : (m : PartialMeta) → decode_meta (encode_meta m) ≡ some m
  pub decimal_injective : (i j : ℕ) → decimal i ≡ decimal j → i ≡ j
