-- ===== src/Schedule/Requests.antt =====
-- The requests of internal/schedule/handler.go that follow the first one of an upload, and those of a
-- download.
use gmmff.Prelude.{ℕ, suc, ◌+◌, not, ◌||◌, [], Option, none, some, take, ltb, if◌then◌else◌, length}
use gmmff.Prelude.Int.{eq_ℤ, ℤ, pos, pos_part, ltb_ℤ}
use gmmff.Prelude.Bytes.{Bytes, bytes_eq}
use gmmff.Schedule.Disk.{Disk}
use gmmff.Schedule.Meta.{UploadMeta, FileMeta, Codec, default_chunk_size, nonce_size, tag_size}
use gmmff.Schedule.Store.{
  Fault, missing, Result, ok, err, Opened, append_chunk, finalize_upload, open_download,
  delete_upload, read_pending_meta, read_file_meta,
}
use gmmff.Schedule.Config.{Addresses, Config, ip_allowed_to_download}
use gmmff.Schedule.Handler.{Reply, answer, refused, CompleteRequest, CompleteResponse, PublicMeta}

-- io.ReadAll of a body through io.LimitReader, `none` where reading fails.
abbrev pub limited : ℕ → Option Bytes → Option Bytes
limited n none = none
limited n (some body) = some (take n body)

-- The length that an upload allows for a chunk.
unfoldable pub max_read : UploadMeta → ℕ
max_read m =
    let size = if ltb_ℤ (pos 0) m.chunk_size then pos_part m.chunk_size else default_chunk_size in
    nonce_size + size + tag_size

module _ (c : Codec) (disk : Disk) where
  open disk use {State}

  abbrev pub chunk_answer : ℤ → State × Result (Unit {0}) → State × Reply ℤ
  chunk_answer i (d, ok u) = (d, answer i)
  chunk_answer i (d, err e) = (d, refused 400)

  abbrev pub chunk_read : Bytes → ℤ → (most : ℕ) → Option Bytes → State → State × Reply ℤ
  chunk_read id i most none d = (d, refused 400)
  chunk_read id i most (some b) d =
      if ltb most (length b)
      then (d, refused 413)
      else chunk_answer i (append_chunk c disk id i b d)

  abbrev pub chunk_of : Bytes → ℤ → Option Bytes → State → Result UploadMeta → State × Reply ℤ
  chunk_of id i body d (err e) = (d, refused 400)
  chunk_of id i body d (ok m) = chunk_read id i (max_read m) (limited (suc (max_read m)) body) d

  -- handleUploadChunk, with what strconv.Atoi makes of the index.
  unfoldable pub handle_upload_chunk :
      (id chunk_index : Bytes) → Option ℤ → Option Bytes → State → State × Reply ℤ
  unfolding read_pending_meta max_read append_chunk
  handle_upload_chunk id index none body d = (d, refused 400)
  handle_upload_chunk id index (some i) body d =
      if bytes_eq id [] || bytes_eq index []
      then (d, refused 400)
      else chunk_of id i body d (read_pending_meta c disk id d)

  abbrev pub complete_answer : State × Result FileMeta → State × Reply CompleteResponse
  complete_answer (d, ok m) = (
    d,
    answer (record { file_id = m.file_id; delete_key = m.delete_key; expires_at = m.expires_at }),
  )
  complete_answer (d, err e) = (d, refused 400)

  -- handleUploadComplete
  unfoldable pub handle_upload_complete :
      Option CompleteRequest
      → (file_id delete_key : Option Bytes) → State
      → State × Reply CompleteResponse
  unfolding finalize_upload
  handle_upload_complete none fid key d = (d, refused 400)
  handle_upload_complete (some req) fid key d =
      if bytes_eq req.upload_id [] || bytes_eq req.file_name_enc [] || bytes_eq req.sha256_cipher []
      then (d, refused 400)
      else complete_answer (
          finalize_upload c disk req.upload_id req.file_name_enc req.file_name_nonce
            req.sha256_cipher fid key d)

  abbrev pub status_of : Fault → ℕ → ℕ
  status_of missing other = 404
  status_of e other = other

  -- The headers and the body of a download come from these two.
  abbrev pub download_answer : State × Result (Opened c disk) → State × Reply (Opened c disk)
  download_answer (d, ok o) = (d, answer o)
  download_answer (d, err e) = (d, refused (status_of e 410))

  abbrev pub delete_answer : State × Result (Unit {0}) → State × Reply (Unit {0})
  delete_answer (d, ok u) = (d, answer u)
  delete_answer (d, err e) = (d, refused (status_of e 403))

  -- handleDelete
  unfoldable pub handle_delete : (id key : Bytes) → State → State × Reply (Unit {0})
  unfolding delete_upload
  handle_delete id key d = delete_answer (delete_upload c disk id key d)

  abbrev pub public_meta : FileMeta → PublicMeta
  public_meta m = record {
    file_id = m.file_id;
    file_name_enc = m.file_name_enc;
    file_name_nonce = m.file_name_nonce;
    total_size = m.total_size;
    chunks_total = m.chunks_total;
    chunk_size = m.chunk_size;
    expires_at = m.expires_at;
    downloads_left = m.downloads_left;
  }

  abbrev pub meta_answer : (now : ℕ) → Result FileMeta → Reply PublicMeta
  meta_answer now (err e) = refused 404
  meta_answer now (ok m) =
      if ltb m.expires_at now
      then refused 410
      else if eq_ℤ m.downloads_left (pos 0)
      then refused 410
      else answer (public_meta m)

  module _ (net : Addresses) where
    open net use {Ip}

    -- handleDownload
    unfoldable pub handle_download :
        Config net → Option Ip → Bytes → (now : ℕ) → State → State × Reply (Opened c disk)
    unfolding ip_allowed_to_download open_download
    handle_download cfg ip id now d =
        if not (ip_allowed_to_download net cfg ip)
        then (d, refused 403)
        else download_answer (open_download c disk id now d)

    -- handleMeta
    unfoldable pub handle_meta :
        Config net → Option Ip → Bytes → (now : ℕ) → State → Reply PublicMeta
    unfolding ip_allowed_to_download read_file_meta
    handle_meta cfg ip id now d =
        if not (ip_allowed_to_download net cfg ip)
        then refused 403
        else meta_answer now (read_file_meta c disk id d)
