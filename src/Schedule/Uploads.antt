-- ===== src/Schedule/Uploads.antt =====
-- An upload to internal/schedule/store.go from the first request to the last, on a file system that
-- does what it is asked to do.
use mathlib.Core.List.{append_assoc, append-nil}
use gmmff.Prelude.{
  suc, ◌≡◌, ◌≢◌, refl, sym, ◌∙◌, ℕ, ◌+◌, true, false, List, [], ◌∷◌, ◌++◌, Option, some, arith,
  length,
}
use gmmff.Prelude.Int.{eq_ℤ, ℤ, pos, ltb_ℤ, ◌+ℤ◌}
use gmmff.Prelude.Bytes.{Bytes}
use gmmff.Schedule.Disk.{Area, pending, data_enc, meta_json, File, file, got, stuck, Disk}
use gmmff.Schedule.Meta.{UploadMeta, FileMeta, nonce_size, tag_size, valid_id, Codec}
use gmmff.Schedule.Store.{
  Result, ok, err, decoded, read_pending_meta, write_pending_meta, checked, after, init_upload,
  append_read, append_chunk, finalize_upload,
}
use gmmff.Schedule.Files.{meta_not_enc, enc_not_meta, checked_done, after_done}
use gmmff.Transfer.Delivery.{joined}

pub decoded-some :
    {A : Type 0} (f : Bytes → Option A) (b : Bytes) (a : A)
    → f b ≡ some a
    → decoded f (got b) ≡ ok a
decoded-some f b a e = ground (arith, e)

pos_suc : (k : ℕ) → pos k +ℤ pos 1 ≡ pos (k + 1)
unfolding ◌+ℤ◌
pos_suc k = ground arith

pub eq_ℤ_self : (k : ℕ) → eq_ℤ (pos k) (pos k) ≡ true
eq_ℤ_self k = ground arith

-- A file system on which no call fails.
pub record Works (disk : Disk) : Type 0 where
  pub make_dir_ok : (a : Area) (i : Bytes) (d : disk.State) → (disk.make_dir a i d).1 ≡ true
  pub write_ok : (f : File) (b : Bytes) (d : disk.State) → (disk.write f b d).1 ≡ true
  pub append_ok :
      (f : File) (b c : Bytes) (d : disk.State)
      → disk.read f d ≡ got c
      → (disk.append f b d).1 ≡ true
  pub rename_ok :
      (f g : File) (b : Bytes) (d : disk.State)
      → disk.read f d ≡ got b
      → (disk.rename f g d).1 ≢ stuck
  pub remove_ok :
      (f : File) (b : Bytes) (d : disk.State) → disk.read f d ≡ got b → (disk.remove f d).1 ≡ true

module _ (c : Codec) (disk : Disk) where
  open disk use {
    State, read, make_dir, write, append, rename, remove, remove_all, write_done, write_keeps,
    append_done, append_keeps,
  }

  -- The sidecar of an upload of which `k` chunks have arrived.
  abbrev pub counting : UploadMeta → ℕ → UploadMeta
  counting m k = record m { chunks_written = pos k }

  -- What is on the disk of an upload of which `k` chunks have arrived, which make up `s`.
  pub record Progress (m : UploadMeta) (k : ℕ) (s : Bytes) (d : State) : Type 0 where
    pub counted : read (file pending m.upload_id meta_json) d ≡ got (c.encode_upload (counting m k))
    pub stored : read (file pending m.upload_id data_enc) d ≡ got s

  pub Progress-read_pending_meta :
      (m : UploadMeta) (k : ℕ) (s : Bytes) (d : State)
      → valid_id m.upload_id ≡ true
      → Progress m k s d
      → read_pending_meta c disk m.upload_id d ≡ ok (counting m k)
  unfolding read_pending_meta
  Progress-read_pending_meta m k s d v p =
      rw (v, p.counted)
        (decoded-some c.decode_upload _ (counting m k) (c.decode_upload-encode (counting m k)))

  append_read_accepted :
      (m : UploadMeta) (i : ℤ) (b : Bytes) (d : State)
      → eq_ℤ i m.chunks_written ≡ true
      → ltb_ℤ (pos nonce_size +ℤ m.chunk_size +ℤ pos tag_size) (pos (length b)) ≡ false
      → append_read c disk m.upload_id i b d (ok m)
        ≡ after c disk (append (file pending m.upload_id data_enc) b d) λ d1.
          checked c disk tt
            (write_pending_meta c disk (record m { chunks_written = m.chunks_written +ℤ pos 1 }) d1)
  append_read_accepted m i b d t u = rw (t, u) refl

  module _ (works : Works disk) where
    append_read_done :
        (m : UploadMeta) (k : ℕ) (s b : Bytes) (d : State)
        → Progress m k s d
        → ltb_ℤ (pos nonce_size +ℤ m.chunk_size +ℤ pos tag_size) (pos (length b)) ≡ false
        → (e : State) × (append_read c disk m.upload_id (pos k) b d (ok (counting m k))
            ≡ (e, ok tt))
          × Progress m (k + 1) (s ++ b) e
    append_read_done m k s b d p fits =
        let enc = file pending m.upload_id data_enc in
        let side = file pending m.upload_id meta_json in
        let a = works.append_ok enc b s d p.stored in
        let d1 = (append enc b d).0 in
        let m' = counting m (k + 1) in
        let w = works.write_ok side (c.encode_upload m') d1 in
        (
          (write side (c.encode_upload m') d1).0,
          append_read_accepted (counting m k) (pos k) b d (eq_ℤ_self k) fits
              ∙ after_done c disk (append enc b d) _ a
              ∙ rw (pos_suc k) (checked_done c disk tt (write side (c.encode_upload m') d1) w),
          record {
            counted = write_done side (c.encode_upload m') d1 w;
            stored =
                write_keeps side enc (c.encode_upload m') d1
                  (enc_not_meta pending pending m.upload_id m.upload_id)
                ∙ append_done enc b s d a p.stored;
          },
        )

    pub append_chunk_done :
        (m : UploadMeta) (k : ℕ) (s b : Bytes) (d : State)
        → valid_id m.upload_id ≡ true
        → Progress m k s d
        → ltb_ℤ (pos nonce_size +ℤ m.chunk_size +ℤ pos tag_size) (pos (length b)) ≡ false
        → (e : State) × (append_chunk c disk m.upload_id (pos k) b d ≡ (e, ok tt))
          × Progress m (k + 1) (s ++ b) e
    unfolding append_chunk
    append_chunk_done m k s b d v p fits =
        rw (Progress-read_pending_meta m k s d v p) (append_read_done m k s b d p fits)

  -- Go on with what a request gave, unless it failed.
  abbrev pub then_ok :
      {A B : Type 0} → State × Result A → (A → State → State × Result B) → State × Result B
  then_ok (d, ok a) k = k a d
  then_ok (d, err e) k = (d, err e)

  -- The chunks from number `k` on, each in a request of its own.
  unfoldable pub append_all : Bytes → ℕ → List Bytes → State → State × Result (Unit {0})
  append_all id k [] d = (d, ok tt)
  append_all id k (b ∷ bs) d =
      then_ok (append_chunk c disk id (pos k) b d) λ u e. append_all id (k + 1) bs e

  -- A whole upload: the first request, the chunks and the last request.
  unfoldable pub upload :
      UploadMeta
      → List Bytes
      → (fid key name_enc name_nonce sha : Bytes) → State
      → State × Result FileMeta
  upload m bs fid key ne nn sha d =
      then_ok
        (init_upload c disk (some m.upload_id) m.chunks_total m.total_size m.expires_at
          m.max_downloads m.chunk_size m.created_at d)
        λ m' d1.
          then_ok (append_all m'.upload_id 0 bs d1)
            λ u d2. finalize_upload c disk m'.upload_id ne nn sha (some fid) (some key) d2

  -- Every chunk is at most as long as AppendChunk allows.
  abbrev pub Fits : ℤ → List Bytes → Type 0
  Fits size [] = Unit {0}
  Fits size (b ∷ bs) =
      (ltb_ℤ (pos nonce_size +ℤ size +ℤ pos tag_size) (pos (length b)) ≡ false) × Fits size bs

  module _ (works : Works disk) where
    pub append_all_done :
        (m : UploadMeta) (bs : List Bytes) (k : ℕ) (s : Bytes) (d : State)
        → valid_id m.upload_id ≡ true
        → Progress m k s d
        → Fits m.chunk_size bs
        → (e : State) × (append_all m.upload_id k bs d ≡ (e, ok tt))
          × Progress m (k + length bs) (s ++ joined bs) e
    unfolding append_all joined
    append_all_done m [] k s d v p f =
        let z : k + 0 ≡ k = omega arith in (d, refl, rw (z, append-nil s) p)
    append_all_done m (b ∷ bs) k s d v p (f, fs) =
        let (e, h, q) = append_chunk_done works m k s b d v p f in
        let (e2, h2, q2) = append_all_done m bs (k + 1) (s ++ b) e v q fs in
        let z : k + suc (length bs) ≡ k + 1 + length bs = omega arith in
        (e2, rw h h2, rw (z, sym (append_assoc s b (joined bs))) q2)

    pub init_upload_done :
        (m : UploadMeta) (d : State)
        → (e : State) × (init_upload c disk
              (some m.upload_id)
              m.chunks_total
              m.total_size
              m.expires_at
              m.max_downloads
              m.chunk_size
              m.created_at
              d
            ≡ (e, ok (counting m 0)))
          × Progress m 0 [] e
    unfolding init_upload
    init_upload_done m d =
        let enc = file pending m.upload_id data_enc in
        let side = file pending m.upload_id meta_json in
        let m0 = counting m 0 in
        let d1 = (make_dir pending m.upload_id d).0 in
        let d2 = (write side (c.encode_upload m0) d1).0 in
        let w = works.write_ok side (c.encode_upload m0) d1 in
        let w2 = works.write_ok enc [] d2 in
        (
          (write enc [] d2).0,
          after_done c disk (make_dir pending m.upload_id d) _
                (works.make_dir_ok pending m.upload_id d)
              ∙ after_done c disk (write side (c.encode_upload m0) d1) _ w
              ∙ checked_done c disk m0 (write enc [] d2) w2,
          record {
            counted =
                write_keeps enc side [] d2 (meta_not_enc pending pending m.upload_id m.upload_id)
                ∙ write_done side (c.encode_upload m0) d1 w;
            stored = write_done enc [] d2 w2;
          },
        )
