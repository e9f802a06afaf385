-- ===== src/Transfer/Partial/Directory.antt =====
-- A directory as a list of files, for the receiver on disk of internal/transfer/transfer.go, with a
-- format of the sidecar files.
use gmmff.Prelude.{
  ℕ, ◌≡◌, ◌≢◌, refl, sym, ap, ◌∙◌, inl, inr, Bool, true, false, [], ◌∷◌, ◌++◌, Option, none, some,
  length, take, replicate, length-replicate, Bool-cases, ◌==◌, if◌then◌else◌,
}
use gmmff.Prelude.Int.{ℤ, pos, negsuc}
use gmmff.Prelude.Bytes.{Bytes, bytes_eq, bytes_eq_iff}
use gmmff.Prelude.Assoc.{
  Assoc, lookup, insert, delete, lookup-insert, lookup-delete, lookup-insert_self,
}
use gmmff.Transfer.Tests.{plain_wire}
use gmmff.Transfer.Folder.{PartialMeta, Folder, Local}
use gmmff.Transfer.Partial.Working.{NeverFails}

abbrev pub Files : Type 0
Files = Assoc Bytes

abbrev size_of : Option Bytes → Option ℕ
size_of none = none
size_of (some b) = some (length b)

abbrev pub first : ℕ → Option Bytes → Option Bytes
first k none = none
first k (some b) = some (take k b)

abbrev pub is_none : Option Bytes → Bool
is_none none = true
is_none (some b) = false

abbrev is_some : Option Bytes → Bool
is_some none = false
is_some (some b) = true

abbrev append_to : Bytes → Bytes → Files → Option Bytes → Files × Bool
append_to n b s none = (s, false)
append_to n b s (some c) = (insert n (c ++ b) s, true)

abbrev rename_to : Bytes → Bytes → Files → Option Bytes → Files × Bool
rename_to n m s none = (s, false)
rename_to n m s (some c) = (insert m c (delete n s), true)

differ : (n m : Bytes) → m ≢ n → bytes_eq n m ≡ false
differ n m h = elim (Bool-cases (bytes_eq n m)) [
  | inl e ↦ absurd (h (sym ((bytes_eq_iff n m).0 e)))
  | inr e ↦ e
]

pub insert_keeps : (n m b : Bytes) (s : Files) → m ≢ n → lookup m (insert n b s) ≡ lookup m s
insert_keeps n m b s h = rw (lookup-insert, differ n m h) refl

pub delete_keeps : (n m : Bytes) (s : Files) → m ≢ n → lookup m (delete n s) ≡ lookup m s
delete_keeps n m s h = rw (lookup-delete, differ n m h) refl

pub size_of-some :
    (o : Option Bytes) (k : ℕ) → size_of o ≡ some k → (b : Bytes) × (o ≡ some b) × (length b ≡ k)
size_of-some none k e = cc
size_of-some (some b) k e = (b, refl, cc)

pub first-some :
    (k : ℕ) (o : Option Bytes) (b c : Bytes) → first k o ≡ some c → o ≡ some b → c ≡ take k b
first-some k none b c e h = cc
first-some k (some x) b c e h =
    let same : x ≡ b = cc in let taken' : take k x ≡ c = cc in sym taken' ∙ ap (take k) same

pub is_none-none : (o : Option Bytes) → is_none o ≡ true → o ≡ none
is_none-none none e = refl
is_none-none (some b) e = cc

pub append_done :
    (n b c : Bytes) (s : Files) (o : Option Bytes)
    → (append_to n b s o).1 ≡ true
    → o ≡ some c
    → lookup n (append_to n b s o).0 ≡ some (c ++ b)
append_done n b c s none e h = cc
append_done n b c s (some x) e h =
    let same : x ≡ c = cc in lookup-insert_self n (x ++ b) s ∙ ap (λ y. some (y ++ b)) same

pub append_keeps :
    (n m b : Bytes) (s : Files) (o : Option Bytes)
    → m ≢ n
    → lookup m (append_to n b s o).0 ≡ lookup m s
append_keeps n m b s none h = refl
append_keeps n m b s (some c) h = insert_keeps n m (c ++ b) s h

pub rename_done :
    (n m : Bytes) (s : Files) (o : Option Bytes)
    → (rename_to n m s o).1 ≡ true
    → lookup m (rename_to n m s o).0 ≡ o
rename_done n m s none e = cc
rename_done n m s (some c) e = lookup-insert_self m c (delete n s)

pub rename_not :
    (n m j : Bytes) (s : Files) (o : Option Bytes)
    → (rename_to n m s o).1 ≡ false
    → lookup j (rename_to n m s o).0 ≡ lookup j s
rename_not n m j s none e = refl
rename_not n m j s (some c) e = cc

pub rename_keeps :
    (n m j : Bytes) (s : Files) (o : Option Bytes)
    → j ≢ n
    → j ≢ m
    → lookup j (rename_to n m s o).0 ≡ lookup j s
rename_keeps n m j s none h k = refl
rename_keeps n m j s (some c) h k = insert_keeps m j c (delete n s) k ∙ delete_keeps n j s h

abbrev files : Folder
files = record {
  State = Files;
  holds = lookup;
  read = lookup;
  stat = λ n s. size_of (lookup n s);
  copy_n = λ k n s. first k (lookup n s);
  is_absent = λ n s. is_none (lookup n s);
  can_append = λ n s. is_some (lookup n s);
  create = λ n s. (insert n [] s, true);
  write = λ n b s. (insert n b s, true);
  append = λ n b s. append_to n b s (lookup n s);
  rename = λ n m s. rename_to n m s (lookup n s);
  remove = λ n s. (delete n s, true);
  read_holds = λ n s b e. e;
  stat_holds = λ n s k e. size_of-some (lookup n s) k e;
  copy_n_holds = λ k n s b c e h. first-some k (lookup n s) b c e h;
  absent_holds = λ n s e. is_none-none (lookup n s) e;
  create_done = λ n s e. lookup-insert_self n [] s;
  create_keeps = λ n m s h. insert_keeps n m [] s h;
  write_done = λ n b s e. lookup-insert_self n b s;
  write_keeps = λ n m b s h. insert_keeps n m b s h;
  append_done = λ n b c s e h. append_done n b c s (lookup n s) e h;
  append_keeps = λ n m b s h. append_keeps n m b s (lookup n s) h;
  rename_done = λ n m s e. rename_done n m s (lookup n s) e;
  rename_not = λ n m j s e. rename_not n m j s (lookup n s) e;
  rename_keeps = λ n m j s h k. rename_keeps n m j s (lookup n s) h k;
  remove_keeps = λ n m s h. delete_keeps n m s h;
}

pub files-NeverFails : NeverFails files
files-NeverFails = record {
  reads = λ n s b h. h;
  measures = λ n s b h. ap size_of h;
  copies = λ k n s b h. ap (first k) h;
  opens = λ n s b h. ap is_some h;
  misses = λ n s h. ap is_none h;
  creates = λ n s. refl;
  writes = λ n b s. refl;
  appends = λ n b c s h. ap (λ o. (append_to n b s o).1) h;
  renames = λ n m c s h. ap (λ o. (rename_to n m s o).1) h;
}

abbrev pub encode_int : ℤ → Bytes → Bytes
encode_int (pos n) b = 0 ∷ n ∷ b
encode_int (negsuc n) b = 1 ∷ n ∷ b

abbrev int_of : ℕ → ℕ → ℤ
int_of s n = if s == 0 then pos n else negsuc n

abbrev decode_fields : Bytes → Option PartialMeta
decode_fields (a ∷ x ∷ b ∷ y ∷ c ∷ z ∷ sum) = some (record {
  sha256 = sum;
  chunk_size = int_of a x;
  bytes_done = int_of b y;
  chunks_done = int_of c z;
})
decode_fields rest = none

pub decoded :
    (h : Bytes) (x y z : ℤ)
    → decode_fields (encode_int x (encode_int y (encode_int z h)))
      ≡ some (record { sha256 = h; chunk_size = x; bytes_done = y; chunks_done = z })
decoded h (pos x) (pos y) (pos z) = refl
decoded h (pos x) (pos y) (negsuc z) = refl
decoded h (pos x) (negsuc y) (pos z) = refl
decoded h (pos x) (negsuc y) (negsuc z) = refl
decoded h (negsuc x) (pos y) (pos z) = refl
decoded h (negsuc x) (pos y) (negsuc z) = refl
decoded h (negsuc x) (negsuc y) (pos z) = refl
decoded h (negsuc x) (negsuc y) (negsuc z) = refl

-- Numbers in unary.
abbrev pub here : Local
here = record {
  wire = plain_wire;
  folder = files;
  encode_meta =
      λ m. encode_int m.chunk_size (encode_int m.bytes_done (encode_int m.chunks_done m.sha256));
  decode_meta = decode_fields;
  decimal = λ i. replicate i 0x31;
  decode_meta-encode_meta = λ m. decoded m.sha256 m.chunk_size m.bytes_done m.chunks_done;
  decimal_injective =
      λ i j e. sym (length-replicate i 0x31) ∙ ap length e ∙ length-replicate j 0x31;
}
