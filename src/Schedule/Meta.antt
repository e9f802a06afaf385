-- ===== src/Schedule/Meta.antt =====
-- The sidecar files of internal/schedule/store.go, and its check of identifiers. Times are numbers of
-- nanoseconds.
use gmmff.Prelude.{
  ◌≡◌, ◌⊎◌, ℕ, ◌*◌, Bool, true, ◌&&◌, ◌||◌, [], ◌∷◌, Option, none, some, take, leb, ◌==◌, length,
}
use gmmff.Prelude.Int.{ℤ}
use gmmff.Prelude.Bytes.{Bytes}

pub record UploadMeta : Type 0 where
  pub upload_id : Bytes
  pub chunks_total : ℤ
  pub chunk_size : ℤ
  pub chunks_written : ℤ
  pub total_size : ℤ
  pub expires_at : ℕ
  pub max_downloads : ℤ
  pub created_at : ℕ

pub record FileMeta : Type 0 where
  pub file_id : Bytes
  pub file_name_enc : Bytes
  pub file_name_nonce : Bytes
  pub total_size : ℤ
  pub encrypted_size : ℕ
  pub sha256_cipher : Bytes
  pub chunks_total : ℤ
  pub chunk_size : ℤ
  pub expires_at : ℕ
  pub max_downloads : ℤ
  pub downloads_left : ℤ
  pub delete_key : Bytes
  pub created_at : ℕ

abbrev pub default_chunk_size : ℕ
default_chunk_size = 256 * 1024

abbrev pub nonce_size : ℕ
nonce_size = 12

abbrev pub tag_size : ℕ
tag_size = 16

-- 24 hours
abbrev pub stale_after : ℕ
stale_after = 24 * 60 * 60 * 1000000000

abbrev pub id_len : ℕ
id_len = 32

-- The loop of validID.
unfoldable pub all_hex : Bytes → Bool
all_hex [] = true
all_hex (c ∷ s) = ((leb b'0' c && leb c b'9') || (leb b'a' c && leb c b'f')) && all_hex s

unfoldable pub valid_id : Bytes → Bool
unfolding all_hex
valid_id id = length id == id_len && all_hex id

-- json.Marshal and json.Unmarshal. An encoding that is cut short is no JSON object.
pub record Codec : Type 0 where
  pub encode_upload : UploadMeta → Bytes
  pub decode_upload : Bytes → Option UploadMeta
  pub encode_file : FileMeta → Bytes
  pub decode_file : Bytes → Option FileMeta
  pub decode_upload-encode : (m : UploadMeta) → decode_upload (encode_upload m) ≡ some m
  pub decode_file-encode : (m : FileMeta) → decode_file (encode_file m) ≡ some m
  pub decode_file-take :
      (m : FileMeta) (n : ℕ)
      → (take n (encode_file m) ≡ encode_file m) ⊎ (decode_file (take n (encode_file m)) ≡ none)
