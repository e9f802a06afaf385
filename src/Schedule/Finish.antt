-- ===== src/Schedule/Finish.antt =====
-- The end of an upload to internal/schedule/store.go: how the ciphertext moves to its place, and what a
-- download of it gives.
use gmmff.Prelude.{◌≡◌, ◌≢◌, refl, sym, ◌∙◌, ◌⊎◌, inl, inr, ℕ, Bool, true, false, some, length}
use gmmff.Prelude.Int.{eq_ℤ, pos}
use gmmff.Prelude.Bytes.{Bytes}
use gmmff.Schedule.Disk.{
  pending, complete, Leaf, data_enc, meta_json, File, file, got, Moved, moved, cross_device, stuck,
  Disk,
}
use gmmff.Schedule.Meta.{UploadMeta, FileMeta, valid_id, Codec}
use gmmff.Schedule.Store.{
  ok, copied, renamed, copy_file_contents, move_file, completed_meta, complete_upload,
  finalize_upload,
}
use gmmff.Schedule.Files.{enc_not_meta, complete_not_pending, complete_pending, after_done}
use gmmff.Schedule.Uploads.{Works, Progress, eq_ℤ_self, Progress-read_pending_meta}

cross_not_moved : cross_device ≢ moved
cross_not_moved h = cc

module _ (c : Codec) (disk : Disk) where
  open disk use {State, read, write, rename, remove}

  copied_done : (src : File) (q : State × Bool) → q.1 ≡ true → copied c disk src q ≡ remove src q.0
  copied_done src (d, true) h = refl
  copied_done src (d, false) h = cc

  renamed_moved :
      (src dst : File) (q : State × Moved) → q.1 ≡ moved → renamed c disk src dst q ≡ (q.0, true)
  renamed_moved src dst (d, moved) h = refl
  renamed_moved src dst (d, cross_device) h = cc
  renamed_moved src dst (d, stuck) h = cc

  renamed_cross_device :
      (src dst : File) (q : State × Moved)
      → q.1 ≡ cross_device
      → renamed c disk src dst q ≡ copied c disk src (copy_file_contents c disk src dst q.0)
  renamed_cross_device src dst (d, moved) h = cc
  renamed_cross_device src dst (d, cross_device) h = refl
  renamed_cross_device src dst (d, stuck) h = cc

Moved-cases : (m : Moved) → (m ≡ moved) ⊎ ((m ≡ cross_device) ⊎ (m ≡ stuck))
Moved-cases moved = inl refl
Moved-cases cross_device = inr (inl refl)
Moved-cases stuck = inr (inr refl)

module _ (c : Codec) (disk : Disk) (works : Works disk) where
  open disk use {
    State, read, make_dir, write, append, rename, remove, remove_all, make_dir_keeps, write_done,
    write_keeps, rename_done, rename_not, rename_keeps, remove_keeps, remove_all_keeps,
  }

  -- The content `b` is at `dst`, and besides the two files nothing has changed.
  abbrev MovedTo : (src dst : File) → Bytes → State → State × Bool → Type 0
  MovedTo src dst b d q =
      (q.1 ≡ true)
      × (read dst q.0 ≡ got b)
      × ((g : File) → g ≢ src → g ≢ dst → read g q.0 ≡ read g d)

  module _ (src dst : File) (apart : dst ≢ src) (b : Bytes) (d : State)
      (here : read src d ≡ got b) where
    copied-MovedTo :
        (e : State)
        → ((g : File) → read g e ≡ read g d)
        → MovedTo src dst b d (copied c disk src (copy_file_contents c disk src dst e))
    unfolding copy_file_contents
    copied-MovedTo e same =
        let w = works.write_ok dst b e in
        let f = (write dst b e).0 in
        let kept : read src f ≡ got b =
          write_keeps dst src b e (λ h. apart (sym h)) ∙ same src ∙ here in
        rw (same src ∙ here, copied_done c disk src (write dst b e) w)
          (
            works.remove_ok src b f kept,
            remove_keeps src dst f apart ∙ write_done dst b e w,
            λ g ns nd. remove_keeps src g f ns ∙ write_keeps dst g b e nd ∙ same g,
          )

    move_file-MovedTo : MovedTo src dst b d (move_file c disk src dst d)
    unfolding move_file
    move_file-MovedTo = elim (Moved-cases (rename src dst d).1) [
      | inl m ↦
          rw (renamed_moved c disk src dst (rename src dst d) m)
            (refl, rename_done src dst d m ∙ here, λ g ns nd. rename_keeps src dst g d ns nd)
      | inr (inl m) ↦ rw (renamed_cross_device c disk src dst (rename src dst d) m) (
          copied-MovedTo (rename src dst d).0
            λ g. rename_not src dst g d (λ h. cross_not_moved (sym m ∙ h)))
      | inr (inr m) ↦ absurd (works.rename_ok src dst b d here m)
    ]

  -- A completed upload: its sidecar and its ciphertext are in their place.
  pub record Stored (fm : FileMeta) (b : Bytes) (d : State) : Type 0 where
    pub described : read (file complete fm.file_id meta_json) d ≡ got (c.encode_file fm)
    pub content : read (file complete fm.file_id data_enc) d ≡ got b

  complete_upload_done :
      (id : Bytes) (fm : FileMeta) (b : Bytes) (d : State)
      → read (file pending id data_enc) d ≡ got b
      → (e : State) × (complete_upload c disk id fm d ≡ (e, ok fm)) × Stored fm b e
  unfolding complete_upload
  complete_upload_done id fm b d h =
      let src = file pending id data_enc in
      let dst = file complete fm.file_id data_enc in
      let side = file complete fm.file_id meta_json in
      let d1 = (make_dir complete fm.file_id d).0 in
      let (t, at, _) =
        move_file-MovedTo src dst (complete_not_pending fm.file_id id data_enc data_enc) b d1
          (make_dir_keeps complete fm.file_id d src ∙ h) in
      let d2 = (move_file c disk src dst d1).0 in
      let w = works.write_ok side (c.encode_file fm) d2 in
      let d3 = (write side (c.encode_file fm) d2).0 in
      let kept : (l : Leaf)
          → read (file complete fm.file_id l) (remove_all pending id d3)
            ≡ read (file complete fm.file_id l) d3 =
        λ l. remove_all_keeps pending id (file complete fm.file_id l) d3 (inl complete_pending) in
      (
        remove_all pending id d3,
        after_done c disk (make_dir complete fm.file_id d) _
              (works.make_dir_ok complete fm.file_id d)
            ∙ after_done c disk (move_file c disk src dst d1) _ t
            ∙ after_done c disk (write side (c.encode_file fm) d2) _ w,
        record {
          described = kept meta_json ∙ write_done side (c.encode_file fm) d2 w;
          content =
              kept data_enc
              ∙ write_keeps side dst (c.encode_file fm) d2
                  (enc_not_meta complete complete fm.file_id fm.file_id)
              ∙ at;
        },
      )

  pub finalize_upload_done :
      (m : UploadMeta) (n : ℕ) (b : Bytes) (fid key ne nn sha : Bytes) (d : State)
      → valid_id m.upload_id ≡ true
      → m.chunks_total ≡ pos n
      → Progress c disk m n b d
      → (e : State) × (finalize_upload c disk m.upload_id ne nn sha (some fid) (some key) d
          ≡ (e, ok (completed_meta c disk m fid key ne nn sha (length b))))
        × Stored (completed_meta c disk m fid key ne nn sha (length b)) b e
  unfolding finalize_upload
  finalize_upload_done m n b fid key ne nn sha d v t p =
      let all : eq_ℤ (pos n) m.chunks_total ≡ true = rw t (eq_ℤ_self n) in
      rw (Progress-read_pending_meta c disk m n b d v p, all, p.stored)
        (complete_upload_done m.upload_id (completed_meta c disk m fid key ne nn sha (length b)) b d
          p.stored)
