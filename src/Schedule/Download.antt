-- ===== src/Schedule/Download.antt =====
-- What a download from internal/schedule/store.go gives, after a whole upload.
use gmmff.Prelude.{
  ◌≡◌, refl, inl, inr, ℕ, ◌+◌, ◌≤◌, true, false, List, [], arith, Bool-cases, if◌then◌else◌, ltb,
  length,
}
use gmmff.Prelude.Int.{eq_ℤ, ℤ, pos, negsuc, ltb_ℤ, ◌-ℤ◌}
use gmmff.Prelude.Bytes.{Bytes}
use gmmff.Schedule.Disk.{complete, meta_json, file, got, Disk}
use gmmff.Schedule.Meta.{UploadMeta, FileMeta, valid_id, Codec}
use gmmff.Schedule.Store.{ok, read_file_meta, Opened, opened, completed_meta, open_download}
use gmmff.Schedule.Files.{checked_done}
use gmmff.Schedule.Uploads.{Works, upload, Fits, decoded-some, append_all_done, init_upload_done}
use gmmff.Transfer.Delivery.{joined}
use gmmff.Schedule.Finish.{Stored, finalize_upload_done}

-- The sidecar after a download.
abbrev pub one_less : FileMeta → FileMeta
one_less m =
    if ltb_ℤ (pos 0) m.downloads_left
    then record m { downloads_left = m.downloads_left -ℤ pos 1 }
    else m

module _ (c : Codec) (disk : Disk) (works : Works disk) where
  open disk use {
    State, read, make_dir, write, append, rename, remove, remove_all, make_dir_keeps, write_done,
    write_keeps, rename_done, rename_not, rename_keeps, remove_keeps, remove_all_keeps,
  }

  Stored-read_file_meta :
      (fm : FileMeta) (b : Bytes) (d : State)
      → valid_id fm.file_id ≡ true
      → Stored c disk works fm b d
      → read_file_meta c disk fm.file_id d ≡ ok fm
  unfolding read_file_meta
  Stored-read_file_meta fm b d v s =
      rw (v, s.described) (decoded-some c.decode_file _ fm (c.decode_file-encode fm))

  pub opened_done :
      (fm : FileMeta) (b : Bytes) (d : State)
      → (opened c disk fm d (got b)).1 ≡ ok (record { meta = one_less fm; content = b })
  opened_done fm b d =
      let fm' = record fm { downloads_left = fm.downloads_left -ℤ pos 1 } in
      let side = file complete fm.file_id meta_json in
      let o : Opened c disk = record { meta = fm'; content = b } in
      let w = works.write_ok side (c.encode_file fm') d in
      elim (Bool-cases (ltb_ℤ (pos 0) fm.downloads_left)) [
        | inl t ↦ rw (t, checked_done c disk o (write side (c.encode_file fm') d) w) refl
        | inr t ↦ rw t refl
      ]

  pub open_download_done :
      (fm : FileMeta) (b : Bytes) (now : ℕ) (d : State)
      → valid_id fm.file_id ≡ true
      → ltb fm.expires_at now ≡ false
      → eq_ℤ fm.downloads_left (pos 0) ≡ false
      → Stored c disk works fm b d
      → (open_download c disk fm.file_id now d).1 ≡ ok (record { meta = one_less fm; content = b })
  unfolding open_download
  open_download_done fm b now d v e l s =
      rw (Stored-read_file_meta fm b d v s, e, l, s.content) (opened_done fm b d)

  pub left_at_first :
      (most : ℤ) → eq_ℤ (if eq_ℤ most (pos 0) then negsuc 0 else most) (pos 0) ≡ false
  left_at_first most = elim (Bool-cases (eq_ℤ most (pos 0))) [ inl e ↦ rw e refl | inr e ↦ rw e e ]

  upload_done :
      (m : UploadMeta) (bs : List Bytes) (fid key ne nn sha : Bytes) (d : State)
      → valid_id m.upload_id ≡ true
      → m.chunks_total ≡ pos (length bs)
      → Fits c disk m.chunk_size bs
      → (e : State) × (upload c disk m bs fid key ne nn sha d
          ≡ (e, ok (completed_meta c disk m fid key ne nn sha (length (joined bs)))))
        × Stored c disk works
            (completed_meta c disk m fid key ne nn sha (length (joined bs)))
            (joined bs)
            e
  unfolding upload
  upload_done m bs fid key ne nn sha d v t f =
      let z : 0 + length bs ≡ length bs = omega arith in
      let (d1, h1, p1) = init_upload_done c disk works m d in
      let (d2, h2, p2) = append_all_done c disk works m bs 0 [] d1 v p1 f in
      let (d3, h3, s) =
        finalize_upload_done c disk works m (length bs) (joined bs) fid key ne nn sha d2 v t
          (rw z at p2) in
      (d3, rw (h1, h2) h3, s)

  -- Let no call of the file system fail, let the two identifiers be well-formed, let the number of
  -- chunks be the number that was announced, and let no chunk be longer than the announced size with
  -- its nonce and its tag. Then the whole upload succeeds, the sidecar of the file has the number of
  -- bytes that were sent as its encrypted size, and until it expires the next download gives exactly
  -- the chunks, joined in order, and takes one from a download limit that there is.
  pub open_download-upload :
      (m : UploadMeta) (bs : List Bytes) (fid key ne nn sha : Bytes) (now : ℕ) (d : State)
      → valid_id m.upload_id ≡ true
      → valid_id fid ≡ true
      → m.chunks_total ≡ pos (length bs)
      → Fits c disk m.chunk_size bs
      → now ≤ m.expires_at
      → ((upload c disk m bs fid key ne nn sha d).1
          ≡ ok (completed_meta c disk m fid key ne nn sha (length (joined bs))))
        × ((open_download c disk fid now (upload c disk m bs fid key ne nn sha d).0).1
            ≡ ok record {
              meta = one_less (completed_meta c disk m fid key ne nn sha (length (joined bs)));
              content = joined bs;
            })
  open_download-upload m bs fid key ne nn sha now d v vf t f le =
      let fm = completed_meta c disk m fid key ne nn sha (length (joined bs)) in
      let (e, h, s) = upload_done m bs fid key ne nn sha d v t f in
      let live : ltb m.expires_at now ≡ false = ground arith in
      rw h (refl, open_download_done fm (joined bs) now e vf live (left_at_first m.max_downloads) s)
