-- ===== src/Schedule/Client/Served.antt =====
-- The client of internal/schedule/client.go on the server of internal/schedule/handler.go.
use gmmff.Prelude.{
  ℕ, zero, suc, ◌+◌, ◌-◌, ◌*◌, ◌/◌, ◌<◌, ◌≤◌, ◌^◌, ◌≡◌, refl, ap, true, false, [], ◌∷◌, ◌++◌,
  Option, some, ltb, length, take, arith, if◌then◌else◌,
}
use gmmff.Prelude.Int.{eq_ℤ, ℤ, pos, pos_part, ltb_ℤ, ◌+ℤ◌, ◌-ℤ◌}
use gmmff.Prelude.Bytes.{Bytes, bytes_eq}
use gmmff.Schedule.Disk.{Disk}
use gmmff.Schedule.Meta.{UploadMeta, Codec, valid_id}
use gmmff.Schedule.Store.{completed_meta}
use gmmff.Schedule.Uploads.{
  Works, Progress, init_upload_done, append_chunk_done, Progress-read_pending_meta,
}
use gmmff.Schedule.Finish.{Stored, finalize_upload_done}
use gmmff.Schedule.Config.{Addresses, Config, max_ttl, to_int64}
use gmmff.Schedule.Handler.{
  Reply, answer, authorize_upload, clamp_ttl, clamp_downloads, clamp_chunk_size, expected_chunks,
  max_chunk_size, handle_upload_init,
}
use gmmff.Schedule.Requests.{handle_upload_chunk, handle_upload_complete, max_read}
use gmmff.Schedule.Client.Upload.{Remote, UploadOptions, init_request}

abbrev pub replied : {S A : Type 0} → S × Reply A → S × Option (Reply A)
replied (s, r) = (s, some r)

-- The random values of the server, the password that the client has, and the time.
pub record Session : Type 0 where
  pub password : Bytes
  pub upload_id : Bytes
  pub file_id : Bytes
  pub delete_key : Bytes
  pub now : ℕ

take_enough : (n : ℕ) (b : Bytes) → length b ≤ n → take n b ≡ b
take_enough zero [] h = refl
take_enough zero (x ∷ b) h = absurd (omega arith)
take_enough (suc n) [] h = refl
take_enough (suc n) (x ∷ b) h = ap (λ l. x ∷ l) (take_enough n b (omega arith))

pub not_nil : (b : Bytes) → 0 < length b → bytes_eq b [] ≡ false
unfolding bytes_eq
not_nil [] h = absurd (omega arith)
not_nil (x ∷ b) h = refl

valid_not_nil : (id : Bytes) → valid_id id ≡ true → bytes_eq id [] ≡ false
unfolding bytes_eq valid_id
valid_not_nil [] h = cc
valid_not_nil (x ∷ b) h = refl

suc_of : (i : ℕ) → suc i ≡ i + 1
suc_of i = omega arith

room_for : (size n : ℕ) → n ≤ 28 + size → ltb_ℤ (pos 12 +ℤ pos size +ℤ pos 16) (pos n) ≡ false
unfolding ◌+ℤ◌
room_for size n h = ground arith

sum_of : (len size : ℕ) → 0 < size → pos len +ℤ pos size -ℤ pos 1 ≡ pos (len + size - 1)
unfolding ◌+ℤ◌ ◌-ℤ◌
sum_of len size h = ground arith

to_int64-small : (n : ℕ) → n < 2 ^ 63 → to_int64 (pos n) ≡ pos n
unfolding to_int64
to_int64-small n h = ground arith

module _ (net : Addresses) (c : Codec) (disk : Disk) (cfg : Config net) (ip : Option net.Ip)
    (digits : ℕ → Bytes) (ses : Session) where
  -- The requests reach the handlers as they were sent, with the password in its header and the index of
  -- a chunk written in digits.
  abbrev pub served : Remote
  served = record {
    State = disk.State;
    init = λ req d. replied (
        handle_upload_init net c disk cfg ip ses.password [] (some req) (some ses.upload_id) ses.now
          d);
    chunk = λ id i wire d.
        replied (handle_upload_chunk c disk id (digits i) (some (pos i)) (some wire) d);
    complete = λ req d.
        replied
          (handle_upload_complete c disk (some req) (some ses.file_id) (some ses.delete_key) d);
  }

  -- What the server keeps of an upload of so many bytes, in chunks of this size.
  abbrev pub kept_meta : UploadOptions → ℕ → ℕ → UploadMeta
  kept_meta opts len size = record {
    upload_id = ses.upload_id;
    chunks_total = expected_chunks (pos len) size;
    chunk_size = pos size;
    chunks_written = pos 0;
    total_size = pos len;
    expires_at = pos_part (
        pos ses.now
        +ℤ clamp_ttl (max_ttl cfg.ttl_options)
            (if ltb_ℤ (pos 0) opts.ttl then opts.ttl else pos (24 * 60 * 60)));
    max_downloads = clamp_downloads cfg.max_downloads opts.max_downloads;
    created_at = ses.now;
  }

  clamp_chunk_size-small :
      (size : ℕ) → 0 < size → size ≤ max_chunk_size → clamp_chunk_size (pos size) ≡ size
  unfolding clamp_chunk_size
  clamp_chunk_size-small size h k = ground arith

  pub expected_chunks-pos :
      (len size : ℕ)
      → 0 < size
      → len + size < 2 ^ 63
      → expected_chunks (pos len) size ≡ pos ((len + size - 1) / size)
  unfolding expected_chunks
  expected_chunks-pos len size h k =
      rw (sum_of len size h, to_int64-small (len + size - 1) (omega arith)) refl

  eq_ℤ_same : (x : ℤ) → eq_ℤ x x ≡ true
  eq_ℤ_same x = ground arith

  lasting : (t : ℤ) → ltb_ℤ (pos 0) (if ltb_ℤ (pos 0) t then t else pos (24 * 60 * 60)) ≡ true
  lasting t = ground arith

  module _ (works : Works disk) where
    pub init_served :
        (opts : UploadOptions) (len size : ℕ) (d : disk.State)
        → authorize_upload net cfg ip ses.password [] ≡ true
        → 0 < len
        → ltb_ℤ cfg.max_size (pos len) ≡ false
        → 0 < size
        → size ≤ max_chunk_size
        → (e : disk.State) × (handle_upload_init net c disk cfg ip ses.password []
              (some (init_request (pos len) opts size))
              (some ses.upload_id)
              ses.now
              d
            ≡ (
              e,
              answer (record {
                upload_id = ses.upload_id;
                expires_at = (kept_meta opts len size).expires_at;
                chunk_size = pos size;
              }),
            ))
          × Progress c disk (kept_meta opts len size) 0 [] e
    unfolding handle_upload_init init_request
    init_served opts len size d auth some' small h k =
        let m = kept_meta opts len size in
        let (e, done', p) = init_upload_done c disk works m d in
        let l : ltb_ℤ (pos 0) (pos len) ≡ true = ground arith in
        let ttl = if ltb_ℤ (pos 0) opts.ttl then opts.ttl else pos (24 * 60 * 60) in
        let t : ltb_ℤ (pos 0) ttl ≡ true = lasting opts.ttl in
        (
          e,
          rw
              (
                auth,
                l,
                small,
                t,
                clamp_chunk_size-small size h k,
                eq_ℤ_same (expected_chunks (pos len) size),
                done',
              )
              refl,
          p,
        )

    pub chunk_served :
        (opts : UploadOptions) (len size i : ℕ) (wire h : Bytes) (d : disk.State)
        → valid_id ses.upload_id ≡ true
        → 0 < length (digits i)
        → 0 < size
        → length wire ≤ 28 + size
        → Progress c disk (kept_meta opts len size) i h d
        → (e : disk.State) × (handle_upload_chunk c disk ses.upload_id
              (digits i)
              (some (pos i))
              (some wire)
              d
            ≡ (e, answer (pos i)))
          × Progress c disk (kept_meta opts len size) (suc i) (h ++ wire) e
    unfolding handle_upload_chunk max_read
    chunk_served opts len size i wire h d v dig some' fits p =
        let m = kept_meta opts len size in
        let most = 28 + size in
        let room : ltb_ℤ (pos 12 +ℤ pos size +ℤ pos 16) (pos (length wire)) ≡ false =
          room_for size (length wire) fits in
        let (e, done', q) = append_chunk_done c disk works m i h wire d v p room in
        let s : ltb_ℤ (pos 0) (pos size) ≡ true = ground arith in
        let z : 12 + size + 16 ≡ 28 + size = omega arith in
        let short' : ltb (28 + size) (length wire) ≡ false = ground arith in
        (
          e,
          rw
              (
                valid_not_nil ses.upload_id v,
                not_nil (digits i) dig,
                Progress-read_pending_meta c disk m i h d v p,
                s,
                z,
                take_enough (suc (28 + size)) wire (omega arith),
                short',
                done',
              )
              refl,
          rw (suc_of i) q,
        )

    pub complete_served :
        (opts : UploadOptions) (len size n : ℕ) (b name nonce sha : Bytes) (d : disk.State)
        → valid_id ses.upload_id ≡ true
        → 0 < length name
        → 0 < length sha
        → expected_chunks (pos len) size ≡ pos n
        → Progress c disk (kept_meta opts len size) n b d
        → let fm =
            completed_meta c disk
              (kept_meta opts len size)
              ses.file_id
              ses.delete_key
              name
              nonce
              sha
              (length b) in
          (e : disk.State) × (handle_upload_complete c disk
              (some (record {
                upload_id = ses.upload_id;
                file_name_enc = name;
                file_name_nonce = nonce;
                sha256_cipher = sha;
              }))
              (some ses.file_id)
              (some ses.delete_key)
              d
            ≡ (
              e,
              answer (record {
                file_id = ses.file_id;
                delete_key = ses.delete_key;
                expires_at = (kept_meta opts len size).expires_at;
              }),
            ))
          × Stored c disk works fm b e
    unfolding handle_upload_complete
    complete_served opts len size n b name nonce sha d v hn hs t p =
        let m = kept_meta opts len size in
        let (e, done', s) =
          finalize_upload_done c disk works m n b ses.file_id ses.delete_key name nonce sha d v t
            p in
        (e, rw (valid_not_nil ses.upload_id v, not_nil name hn, not_nil sha hs, done') refl, s)
