-- ===== src/Schedule/Fields.antt =====
-- An encoding of the sidecars by their fields, with which the tests of the store run. It has the
-- length in front, so that a part of it is not an encoding.
use gmmff.Prelude.{
  ◌≡◌, refl, ap, ◌∙◌, ◌⊎◌, inl, inr, ℕ, zero, suc, ◌≤◌, List, [], ◌∷◌, Option, none, some, take,
  ◌==◌, ==_iff, length, length-take, arith, Bool-cases, if◌then◌else◌,
}
use gmmff.Prelude.Int.{ℤ, pos, negsuc}
use gmmff.Prelude.Bytes.{Bytes}
use gmmff.Schedule.Meta.{UploadMeta, FileMeta, Codec}

-- Every field ends in a zero.
abbrev field : Bytes → Bytes → Bytes
field [] rest = 0 ∷ rest
field (n ∷ s) rest = suc n ∷ field s rest

abbrev to_first : ℕ → List Bytes → List Bytes
to_first n [] = (n ∷ []) ∷ []
to_first n (s ∷ ss) = (n ∷ s) ∷ ss

abbrev fields_of : Bytes → List Bytes
fields_of [] = []
fields_of (zero ∷ s) = [] ∷ fields_of s
fields_of (suc n ∷ s) = to_first n (fields_of s)

fields_of-field : (s rest : Bytes) → fields_of (field s rest) ≡ s ∷ fields_of rest
fields_of-field [] rest = refl
fields_of-field (n ∷ s) rest = rw (fields_of-field s rest) refl

abbrev packed : List Bytes → Bytes
packed [] = []
packed (s ∷ ss) = field s (packed ss)

pub fields_of-packed : (ss : List Bytes) → fields_of (packed ss) ≡ ss
fields_of-packed [] = refl
fields_of-packed (s ∷ ss) = fields_of-field s (packed ss) ∙ ap (λ l. s ∷ l) (fields_of-packed ss)

abbrev int_field : ℤ → Bytes
int_field (pos n) = 0 ∷ n ∷ []
int_field (negsuc n) = 1 ∷ n ∷ []

abbrev to_int : Bytes → ℤ
to_int (zero ∷ n ∷ _) = pos n
to_int (suc _ ∷ n ∷ _) = negsuc n
to_int _ = pos 0

to_int-int_field : (z : ℤ) → to_int (int_field z) ≡ z
to_int-int_field (pos n) = refl
to_int-int_field (negsuc n) = refl

abbrev to_nat : Bytes → ℕ
to_nat [] = 0
to_nat (n ∷ _) = n

-- With the length in front.
abbrev sealed : Bytes → Bytes
sealed s = length s ∷ s

abbrev opened_seal : {A : Type 0} → (Bytes → Option A) → Bytes → Option A
opened_seal f [] = none
opened_seal f (n ∷ s) = if length s == n then f s else none

pub opened_seal-sealed :
    {A : Type 0} (f : Bytes → Option A) (s : Bytes) → opened_seal f (sealed s) ≡ f s
opened_seal-sealed f s = rw ((==_iff (length s) (length s)).1 refl) refl

take_all : (n : ℕ) (s : Bytes) → length s ≤ n → take n s ≡ s
take_all zero [] h = refl
take_all zero (x ∷ s) h = elim h [ ]
take_all (suc n) [] h = refl
take_all (suc n) (x ∷ s) h = ap (λ l. x ∷ l) (take_all n s (omega arith))

pub opened_seal-take :
    {A : Type 0} (f : Bytes → Option A) (s : Bytes) (n : ℕ)
    → (take n (sealed s) ≡ sealed s) ⊎ (opened_seal f (take n (sealed s)) ≡ none)
opened_seal-take f s zero = inr refl
opened_seal-take f s (suc n) = elim (Bool-cases (length (take n s) == length s)) [
  | inl e ↦ inl (
      ap (λ l. length s ∷ l)
        (take_all n s
          (omega (arith, (==_iff (length (take n s)) (length s)).0 e, length-take n s))))
  | inr e ↦ inr (rw e refl)
]

abbrev upload_fields : UploadMeta → List Bytes
upload_fields m =
    m.upload_id
    ∷ int_field m.chunks_total
    ∷ int_field m.chunk_size
    ∷ int_field m.chunks_written
    ∷ int_field m.total_size
    ∷ (m.expires_at ∷ [])
    ∷ int_field m.max_downloads
    ∷ (m.created_at ∷ [])
    ∷ []

abbrev upload_of : List Bytes → Option UploadMeta
upload_of (a ∷ b ∷ c ∷ d ∷ e ∷ f ∷ g ∷ h ∷ _) = some record {
  upload_id = a;
  chunks_total = to_int b;
  chunk_size = to_int c;
  chunks_written = to_int d;
  total_size = to_int e;
  expires_at = to_nat f;
  max_downloads = to_int g;
  created_at = to_nat h;
}
upload_of _ = none

pub upload_of-upload_fields : (m : UploadMeta) → upload_of (upload_fields m) ≡ some m
upload_of-upload_fields m =
    rw
      (
        to_int-int_field m.chunks_total,
        to_int-int_field m.chunk_size,
        to_int-int_field m.chunks_written,
        to_int-int_field m.total_size,
        to_int-int_field m.max_downloads,
      )
      refl

abbrev file_fields : FileMeta → List Bytes
file_fields m =
    m.file_id
    ∷ m.file_name_enc
    ∷ m.file_name_nonce
    ∷ int_field m.total_size
    ∷ (m.encrypted_size ∷ [])
    ∷ m.sha256_cipher
    ∷ int_field m.chunks_total
    ∷ int_field m.chunk_size
    ∷ (m.expires_at ∷ [])
    ∷ int_field m.max_downloads
    ∷ int_field m.downloads_left
    ∷ m.delete_key
    ∷ (m.created_at ∷ [])
    ∷ []

abbrev file_of : List Bytes → Option FileMeta
file_of (a ∷ b ∷ c ∷ d ∷ e ∷ f ∷ g ∷ h ∷ i ∷ j ∷ k ∷ l ∷ m ∷ _) = some record {
  file_id = a;
  file_name_enc = b;
  file_name_nonce = c;
  total_size = to_int d;
  encrypted_size = to_nat e;
  sha256_cipher = f;
  chunks_total = to_int g;
  chunk_size = to_int h;
  expires_at = to_nat i;
  max_downloads = to_int j;
  downloads_left = to_int k;
  delete_key = l;
  created_at = to_nat m;
}
file_of _ = none

pub file_of-file_fields : (m : FileMeta) → file_of (file_fields m) ≡ some m
file_of-file_fields m =
    rw
      (
        to_int-int_field m.total_size,
        to_int-int_field m.chunks_total,
        to_int-int_field m.chunk_size,
        to_int-int_field m.max_downloads,
        to_int-int_field m.downloads_left,
      )
      refl

abbrev pub field_codec : Codec
field_codec = record {
  encode_upload = λ m. sealed (packed (upload_fields m));
  decode_upload = opened_seal (λ s. upload_of (fields_of s));
  encode_file = λ m. sealed (packed (file_fields m));
  decode_file = opened_seal (λ s. file_of (fields_of s));
  decode_upload-encode = λ m.
      opened_seal-sealed (λ s. upload_of (fields_of s)) (packed (upload_fields m))
      ∙ ap upload_of (fields_of-packed (upload_fields m))
      ∙ upload_of-upload_fields m;
  decode_file-encode = λ m.
      opened_seal-sealed (λ s. file_of (fields_of s)) (packed (file_fields m))
      ∙ ap file_of (fields_of-packed (file_fields m))
      ∙ file_of-file_fields m;
  decode_file-take =
      λ m n. opened_seal-take (λ s. file_of (fields_of s)) (packed (file_fields m)) n;
}
