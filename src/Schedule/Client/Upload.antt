-- ===== src/Schedule/Client/Upload.antt =====
-- Client.Upload of internal/schedule/client.go.
use gmmff.Prelude.{ℕ, zero, suc, ◌*◌, Bool, [], ◌++◌, Option, none, some, length, if◌then◌else◌}
use gmmff.Prelude.Int.{ℤ, pos, pos_part, ltb_ℤ}
use gmmff.Prelude.Bytes.{Bytes}
use gmmff.Schedule.Handler.{
  Reply, answer, refused, InitRequest, InitResponse, CompleteRequest, CompleteResponse,
  expected_chunks,
}
use gmmff.Schedule.Client.{Crypto, chunk_wire, select_chunk_size}
use gmmff.Schedule.Client.Reading.{whole, short, at_end, failed, read_full}

-- The requests of an upload, as the server answers them; `none` where there is no answer, or none that
-- can be decoded.
pub record Remote : Type 1 where
  pub State : Type 0
  pub init : InitRequest → State → State × Option (Reply InitResponse)
  pub chunk : (upload_id : Bytes) → ℕ → Bytes → State → State × Option (Reply ℤ)
  pub complete : CompleteRequest → State → State × Option (Reply CompleteResponse)

pub data UploadError : Type 0 where
  no_random no_answer read_failed out_of_fuel : UploadError
  rejected : (status : ℕ) → UploadError

pub data Outcome (A : Type 0) : Type 0 where
  done : A → Outcome A
  failure : UploadError → Outcome A

pub record UploadOptions : Type 0 where
  -- The lifetime in whole seconds
  pub ttl : ℤ
  pub max_downloads : ℤ
  pub chunk_size : ℤ

-- The three random values: the key, the nonce of the name, and the prefix of the nonces.
pub record Randoms : Type 0 where
  pub key : Option Bytes
  pub name_nonce : Option Bytes
  pub nonce_prefix : Option Bytes

pub record UploadResult : Type 0 where
  pub file_id : Bytes
  pub key_hex : Bytes
  pub delete_key : Bytes
  pub expires_at : ℕ

-- The chunk size before the server is asked.
abbrev pub chosen_size : UploadOptions → ℤ → ℕ
chosen_size opts size =
    if ltb_ℤ (pos 0) opts.chunk_size then pos_part opts.chunk_size else select_chunk_size size

-- The first request.
unfoldable pub init_request : ℤ → UploadOptions → ℕ → InitRequest
unfolding expected_chunks
init_request size opts chunk_size = record {
  chunks_total = expected_chunks size chunk_size;
  total_size = size;
  ttl_seconds = if ltb_ℤ (pos 0) opts.ttl then opts.ttl else pos (24 * 60 * 60);
  max_downloads = opts.max_downloads;
  chunk_size = pos chunk_size;
}

module _ (c : Crypto) (srv : Remote) where
  -- What becomes of the answer to a chunk: the bytes hashed so far, or an error.
  abbrev pub chunk_sent : Bytes → srv.State × Option (Reply ℤ) → srv.State × Outcome Bytes
  chunk_sent hashed (s, none) = (s, failure no_answer)
  chunk_sent hashed (s, some (answer i)) = (s, done hashed)
  chunk_sent hashed (s, some (refused status)) = (s, failure (rejected status))

  abbrev pub after_chunk :
      srv.State × Outcome Bytes
      → (Bytes → srv.State → srv.State × Outcome Bytes)
      → srv.State × Outcome Bytes
  after_chunk (s, done hashed) next = next hashed s
  after_chunk (s, failure e) next = (s, failure e)

  module _ (key prefix id : Bytes) (size : ℕ) (broken : Bool) where
    unfoldable pub send_chunk : ℕ → Bytes → Bytes → srv.State → srv.State × Outcome Bytes
    send_chunk i plain hashed s =
        let wire = chunk_wire c key prefix i plain in
        chunk_sent (hashed ++ wire) (srv.chunk id i wire s)

    -- The loop over the file from chunk `i` on; the fuel bounds the number of rounds.
    unfoldable pub send_chunks : ℕ → ℕ → Bytes → Bytes → srv.State → srv.State × Outcome Bytes
    send_chunks zero i rest hashed s = (s, failure out_of_fuel)
    send_chunks (suc fuel) i rest hashed s = elim (read_full size broken rest) [
      | whole plain rest' ↦
          after_chunk (send_chunk i plain hashed s) (λ h t. send_chunks fuel (suc i) rest' h t)
      | short plain ↦ send_chunk i plain hashed s
      | at_end ↦ (s, done hashed)
      | failed ↦ (s, failure read_failed)
    ]

  abbrev pub upload_completed :
      Bytes → srv.State × Option (Reply CompleteResponse) → srv.State × Outcome UploadResult
  upload_completed key (s, none) = (s, failure no_answer)
  upload_completed key (s, some (answer r)) = (
    s,
    done (record {
      file_id = r.file_id;
      key_hex = c.to_hex key;
      delete_key = r.delete_key;
      expires_at = r.expires_at;
    }),
  )
  upload_completed key (s, some (refused status)) = (s, failure (rejected status))

  -- The part from finalize on.
  abbrev pub finalized :
      (key name name_nonce id : Bytes)
      → srv.State × Outcome Bytes
      → srv.State × Outcome UploadResult
  finalized key name name_nonce id (s, failure e) = (s, failure e)
  finalized key name name_nonce id (s, done hashed) = upload_completed key (
      srv.complete
        (record {
          upload_id = id;
          file_name_enc = c.to_hex (c.seal key name_nonce name);
          file_name_nonce = c.to_hex name_nonce;
          sha256_cipher = c.to_hex (c.sha256 hashed);
        })
        s)

  -- The size that the server returned counts.
  abbrev pub agreed_size : ℕ → ℤ → ℕ
  agreed_size size asked = if ltb_ℤ (pos 0) asked then pos_part asked else size

  -- The part from the answer to the first request on.
  abbrev pub init_answered :
      (key name name_nonce : Bytes)
      → Option Bytes
      → ℕ
      → Bool
      → Bytes
      → srv.State × Option (Reply InitResponse)
      → srv.State × Outcome UploadResult
  init_answered key name name_nonce prefix size broken data' (s, none) = (s, failure no_answer)
  init_answered key name name_nonce prefix size broken data' (s, some (refused status)) =
      (s, failure (rejected status))
  init_answered key name name_nonce none size broken data' (s, some (answer r)) =
      (s, failure no_random)
  init_answered key name name_nonce (some prefix) size broken data' (s, some (answer r)) =
      finalized key name name_nonce r.upload_id (
        send_chunks key prefix r.upload_id (agreed_size size r.chunk_size) broken
          (suc (length data')) 0 data' [] s)

  abbrev pub upload_with :
      (key : Bytes)
      → Option Bytes
      → Option Bytes
      → Bytes
      → ℤ
      → UploadOptions
      → Bool
      → Bytes
      → srv.State
      → srv.State × Outcome UploadResult
  upload_with key none prefix name size opts broken data' s = (s, failure no_random)
  upload_with key (some name_nonce) prefix name size opts broken data' s =
      let chunk_size = chosen_size opts size in
      init_answered key name name_nonce prefix chunk_size broken data'
        (srv.init (init_request size opts chunk_size) s)

  -- Upload of a reader with these bytes, which may end in an error, under the announced size.
  unfoldable pub upload :
      Randoms
      → Bytes
      → ℤ
      → UploadOptions
      → Bool
      → Bytes
      → srv.State
      → srv.State × Outcome UploadResult
  upload rand name size opts broken data' s = elim rand.key [
    | none ↦ (s, failure no_random)
    | some key ↦ upload_with key rand.name_nonce rand.nonce_prefix name size opts broken data' s
  ]
