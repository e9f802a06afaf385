-- ===== src/Schedule/Store.antt =====
-- The operations of `*Store` in internal/schedule/store.go. The present and what randomHex gives are
-- arguments. OpenDownload and the other operations each run without interference.
use gmmff.Prelude.{
  ℕ, ◌+◌, Bool, true, false, not, ◌||◌, List, [], ◌∷◌, Option, none, some, ltb, length,
  if◌then◌else◌,
}
use gmmff.Prelude.Int.{eq_ℤ, ℤ, pos, negsuc, ltb_ℤ, ◌+ℤ◌, ◌-ℤ◌}
use gmmff.Prelude.Bytes.{Bytes, bytes_eq}
use gmmff.Schedule.Disk.{
  pending, complete, data_enc, meta_json, File, file, Read, got, not_exist, unreadable, Moved,
  moved, cross_device, stuck, Disk,
}
use gmmff.Schedule.Meta.{UploadMeta, FileMeta, nonce_size, tag_size, stale_after, valid_id, Codec}

-- Of the errors only this much is read: `missing` wraps fs.ErrNotExist, and `storage` is any other
-- error of the file system or of a decoder.
pub data Fault : Type 0 where
  missing storage wrong_chunk chunk_too_large incomplete expired limit_reached wrong_key : Fault

pub data Result (A : Type 0) : Type 0 where
  ok : A → Result A
  err : Fault → Result A

abbrev pub decoded : {A : Type 0} → (Bytes → Option A) → Read Bytes → Result A
decoded f (got b) = elim (f b) [ none ↦ err storage | some a ↦ ok a ]
decoded f not_exist = err missing
decoded f unreadable = err storage

module _ (c : Codec) (disk : Disk) where
  open disk use {State, read, dirs, make_dir, write, append, rename, remove, remove_all}

  unfoldable pub read_pending_meta : Bytes → State → Result UploadMeta
  read_pending_meta id d =
      if not (valid_id id)
      then err missing
      else decoded c.decode_upload (read (file pending id meta_json) d)

  unfoldable pub read_file_meta : Bytes → State → Result FileMeta
  read_file_meta id d =
      if not (valid_id id)
      then err missing
      else decoded c.decode_file (read (file complete id meta_json) d)

  abbrev pub write_pending_meta : UploadMeta → State → State × Bool
  write_pending_meta m d = write (file pending m.upload_id meta_json) (c.encode_upload m) d

  abbrev pub write_file_meta : FileMeta → State → State × Bool
  write_file_meta m d = write (file complete m.file_id meta_json) (c.encode_file m) d

  -- What a call that may fail leaves, with the result of the rest.
  abbrev pub checked : {A : Type 0} → A → State × Bool → State × Result A
  checked a (d, true) = (d, ok a)
  checked a (d, false) = (d, err storage)

  -- `then` what follows a call that may fail.
  abbrev pub after : {A : Type 0} → State × Bool → (State → State × Result A) → State × Result A
  after (d, true) k = k d
  after (d, false) k = (d, err storage)

  unfoldable pub init_upload :
      Option Bytes
      → (chunks_total total_size : ℤ) (expires : ℕ) (max_downloads chunk_size : ℤ) (now : ℕ) → State
      → State × Result UploadMeta
  init_upload none total size expires downloads chunk now d = (d, err storage)
  init_upload (some id) total size expires downloads chunk now d =
      let m : UploadMeta = record {
        upload_id = id;
        chunks_total = total;
        chunk_size = chunk;
        chunks_written = pos 0;
        total_size = size;
        expires_at = expires;
        max_downloads = downloads;
        created_at = now;
      } in
      after (make_dir pending id d) λ d1.
        after (write_pending_meta m d1) λ d2. checked m (write (file pending id data_enc) [] d2)

  abbrev pub append_read : Bytes → ℤ → Bytes → State → Result UploadMeta → State × Result (Unit {0})
  append_read id index b d (err e) = (d, err e)
  append_read id index b d (ok m) =
      if not (eq_ℤ index m.chunks_written)
      then (d, err wrong_chunk)
      else if ltb_ℤ (pos nonce_size +ℤ m.chunk_size +ℤ pos tag_size) (pos (length b))
      then (d, err chunk_too_large)
      else after (append (file pending id data_enc) b d) λ d1.
        checked tt (write_pending_meta (record m { chunks_written = m.chunks_written +ℤ pos 1 }) d1)

  unfoldable pub append_chunk : Bytes → ℤ → Bytes → State → State × Result (Unit {0})
  unfolding read_pending_meta
  append_chunk id index b d = append_read id index b d (read_pending_meta id d)

  -- Once the source is open.
  abbrev pub written_to : File → State → Read Bytes → State × Bool
  written_to dst d (got b) = write dst b d
  written_to dst d not_exist = (d, false)
  written_to dst d unreadable = (d, false)

  -- copyFileContents
  unfoldable pub copy_file_contents : File → File → State → State × Bool
  copy_file_contents src dst d = written_to dst d (read src d)

  abbrev pub copied : File → State × Bool → State × Bool
  copied src (d, true) = remove src d
  copied src (d, false) = (d, false)

  abbrev pub renamed : File → File → State × Moved → State × Bool
  renamed src dst (d, moved) = (d, true)
  renamed src dst (d, cross_device) = copied src (copy_file_contents src dst d)
  renamed src dst (d, stuck) = (d, false)

  unfoldable pub move_file : File → File → State → State × Bool
  unfolding copy_file_contents
  move_file src dst d = renamed src dst (rename src dst d)

  -- The sidecar of a completed upload.
  abbrev pub completed_meta : UploadMeta → (id key name_enc name_nonce sha : Bytes) → ℕ → FileMeta
  completed_meta m id key name_enc name_nonce sha size = record {
    file_id = id;
    file_name_enc = name_enc;
    file_name_nonce = name_nonce;
    total_size = m.total_size;
    encrypted_size = size;
    sha256_cipher = sha;
    chunks_total = m.chunks_total;
    chunk_size = m.chunk_size;
    expires_at = m.expires_at;
    max_downloads = m.max_downloads;
    downloads_left = if eq_ℤ m.max_downloads (pos 0) then negsuc 0 else m.max_downloads;
    delete_key = key;
    created_at = m.created_at;
  }

  -- From MkdirAll on.
  unfoldable pub complete_upload : Bytes → FileMeta → State → State × Result FileMeta
  unfolding move_file
  complete_upload id fm d = after (make_dir complete fm.file_id d) λ d1.
      after (move_file (file pending id data_enc) (file complete fm.file_id data_enc) d1)
        λ d2. after (write_file_meta fm d2) λ d3. (remove_all pending id d3, ok fm)

  abbrev pub finalize_sized :
      Bytes
      → UploadMeta
      → (name_enc name_nonce sha : Bytes) → Option Bytes
      → Option Bytes
      → Read Bytes
      → State
      → State × Result FileMeta
  finalize_sized id m ne nn sha none k r d = (d, err storage)
  finalize_sized id m ne nn sha (some fid) none r d = (d, err storage)
  finalize_sized id m ne nn sha (some fid) (some key) (got b) d =
      complete_upload id (completed_meta m fid key ne nn sha (length b)) d
  finalize_sized id m ne nn sha (some fid) (some key) not_exist d = (d, err missing)
  finalize_sized id m ne nn sha (some fid) (some key) unreadable d = (d, err storage)

  abbrev pub finalize_read :
      Bytes
      → (name_enc name_nonce sha : Bytes) → Option Bytes
      → Option Bytes
      → State
      → Result UploadMeta
      → State × Result FileMeta
  finalize_read id ne nn sha fid key d (err e) = (d, err e)
  finalize_read id ne nn sha fid key d (ok m) =
      if not (eq_ℤ m.chunks_written m.chunks_total)
      then (d, err incomplete)
      else finalize_sized id m ne nn sha fid key (read (file pending id data_enc) d) d

  unfoldable pub finalize_upload :
      Bytes
      → (name_enc name_nonce sha : Bytes) → (file_id delete_key : Option Bytes) → State
      → State × Result FileMeta
  unfolding complete_upload read_pending_meta
  finalize_upload id ne nn sha fid key d =
      finalize_read id ne nn sha fid key d (read_pending_meta id d)

  -- What os.Open gives is the content at that time.
  pub record Opened : Type 0 where
    pub meta : FileMeta
    pub content : Bytes

  abbrev pub opened : FileMeta → State → Read Bytes → State × Result Opened
  opened m d not_exist = (d, err missing)
  opened m d unreadable = (d, err storage)
  opened m d (got b) =
      if ltb_ℤ (pos 0) m.downloads_left
      then (let m' = record m { downloads_left = m.downloads_left -ℤ pos 1 } in
          checked (record { meta = m'; content = b }) (write_file_meta m' d))
      else (d, ok (record { meta = m; content = b }))

  abbrev pub download_read : Bytes → ℕ → State → Result FileMeta → State × Result Opened
  download_read id now d (err e) = (d, err e)
  download_read id now d (ok m) =
      if ltb m.expires_at now
      then (d, err expired)
      else if eq_ℤ m.downloads_left (pos 0)
      then (d, err limit_reached)
      else opened m d (read (file complete id data_enc) d)

  unfoldable pub open_download : Bytes → ℕ → State → State × Result Opened
  unfolding read_file_meta
  open_download id now d = download_read id now d (read_file_meta id d)

  abbrev pub delete_read : Bytes → Bytes → State → Result FileMeta → State × Result (Unit {0})
  delete_read id key d (err e) = (d, err e)
  delete_read id key d (ok m) =
      if bytes_eq m.delete_key [] || not (bytes_eq m.delete_key key)
      then (d, err wrong_key)
      else (remove_all complete id d, ok tt)

  -- Delete
  unfoldable pub delete_upload : Bytes → Bytes → State → State × Result (Unit {0})
  unfolding read_file_meta
  delete_upload id key d = delete_read id key d (read_file_meta id d)

  unfoldable pub is_over : ℕ → Result FileMeta → Bool
  is_over now (err e) = false
  is_over now (ok m) = ltb m.expires_at now || eq_ℤ m.downloads_left (pos 0)

  unfoldable pub is_stale : ℕ → Result UploadMeta → Bool
  is_stale now (err e) = false
  is_stale now (ok m) = ltb (m.created_at + stale_after) now

  -- The two loops of CleanExpired, with the number of removals so far.
  unfoldable pub clean_complete : ℕ → List Bytes → State → ℕ → State × ℕ
  unfolding is_over read_file_meta
  clean_complete now [] d n = (d, n)
  clean_complete now (id ∷ ids) d n =
      let over = is_over now (read_file_meta id d) in
      clean_complete now ids (if over then remove_all complete id d else d)
        (if over then n + 1 else n)

  unfoldable pub clean_pending : ℕ → List Bytes → State → ℕ → State × ℕ
  unfolding is_stale read_pending_meta
  clean_pending now [] d n = (d, n)
  clean_pending now (id ∷ ids) d n =
      let stale = is_stale now (read_pending_meta id d) in
      clean_pending now ids (if stale then remove_all pending id d else d)
        (if stale then n + 1 else n)

  unfoldable pub clean_expired : ℕ → State → State × ℕ
  unfolding clean_complete clean_pending
  clean_expired now d =
      let (d1, n) = clean_complete now (dirs complete d) d 0 in
      clean_pending now (dirs pending d1) d1 n

  unfoldable pub open_complete : Bytes → State → Read Bytes
  open_complete id d = if not (valid_id id) then not_exist else read (file complete id data_enc) d
