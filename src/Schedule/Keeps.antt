-- ===== src/Schedule/Keeps.antt =====
-- No request to the store of internal/schedule/store.go but a download changes what is left of a budget.
use gmmff.Prelude.{
  ◌≡◌, ◌≢◌, sym, ◌∙◌, inl, inr, ℕ, Bool, true, false, not, ◌||◌, List, [], ◌∷◌, Option, none, some,
  Bool-cases, if◌then◌else◌, length,
}
use gmmff.Prelude.Int.{eq_ℤ, ℤ, pos, ltb_ℤ, ◌+ℤ◌}
use gmmff.Prelude.Bytes.{Bytes, bytes_eq}
use gmmff.Schedule.Disk.{
  Area, pending, complete, Leaf, data_enc, meta_json, File, file, Read, got, not_exist, unreadable,
  Moved, moved, cross_device, stuck, Disk,
}
use gmmff.Schedule.Meta.{UploadMeta, FileMeta, nonce_size, tag_size, Codec}
use gmmff.Schedule.Store.{
  Result, ok, err, read_pending_meta, write_pending_meta, write_file_meta, checked, after,
  init_upload, append_read, append_chunk, written_to, copied, renamed, copy_file_contents,
  move_file, completed_meta, complete_upload, finalize_sized, finalize_read, delete_read,
  clean_complete, clean_pending,
}
use gmmff.Schedule.Files.{
  complete_not_pending, meta_not_enc, read_file_meta-remove_all, read_file_meta_keeps,
}
use gmmff.Schedule.Budget.{Budget, Fewer-Budget, write_other}
use gmmff.Schedule.History.{finishes, Fresh}

module _ (c : Codec) (disk : Disk) where
  open disk use {
    State, read, dirs, make_dir, write, append, rename, remove, remove_all, make_dir_keeps,
    write_keeps, append_keeps, rename_not, rename_keeps, remove_keeps,
  }

  module _ (P : State → Type 0) where
    after-keeps :
        {A : Type 0} (q : State × Bool) (k : State → State × Result A)
        → P q.0
        → ((e : State) → P e → P (k e).0)
        → P (after c disk q k).0
    after-keeps (d, true) k p h = h d p
    after-keeps (d, false) k p h = p

    checked-keeps : {A : Type 0} (a : A) (q : State × Bool) → P q.0 → P (checked c disk a q).0
    checked-keeps a (d, true) p = p
    checked-keeps a (d, false) p = p

  module _ (fid : Bytes) (n : ℕ) where
    abbrev B : State → Type 0
    B = Budget c disk fid n

    keeps :
        (d e : State)
        → ((j : Bytes) → read (file complete j meta_json) e ≡ read (file complete j meta_json) d)
        → B d
        → B e
    keeps d e h v =
        Fewer-Budget c disk fid n d v e λ j x r. sym (read_file_meta_keeps c disk j d e (h j)) ∙ r

    keeps_pending :
        (i : Bytes) (l : Leaf) (b : Bytes) (d : State) → B d → B (write (file pending i l) b d).0
    keeps_pending i l b d = keeps d _ λ j.
        write_keeps (file pending i l) (file complete j meta_json) b d
          (complete_not_pending j i meta_json l)

    keeps_append :
        (i : Bytes) (l : Leaf) (b : Bytes) (d : State) → B d → B (append (file pending i l) b d).0
    keeps_append i l b d = keeps d _ λ j.
        append_keeps (file pending i l) (file complete j meta_json) b d
          (complete_not_pending j i meta_json l)

    keeps_remove_all : (a : Area) (i : Bytes) (d : State) → B d → B (remove_all a i d)
    keeps_remove_all a i d v =
        Fewer-Budget c disk fid n d v _ λ j x r. read_file_meta-remove_all c disk a i j x d r

    pub init_upload-Budget :
        (id : Option Bytes) (total size : ℤ) (expires : ℕ) (dl chunk : ℤ) (now : ℕ) (d : State)
        → B d
        → B (init_upload c disk id total size expires dl chunk now d).0
    unfolding init_upload
    init_upload-Budget none total size expires dl chunk now d v = v
    init_upload-Budget (some id) total size expires dl chunk now d v =
        let m : UploadMeta = record {
          upload_id = id;
          chunks_total = total;
          chunk_size = chunk;
          chunks_written = pos 0;
          total_size = size;
          expires_at = expires;
          max_downloads = dl;
          created_at = now;
        } in
        let empty : State → State × Result UploadMeta =
          λ e. checked c disk m (write (file pending id data_enc) [] e) in
        after-keeps B (make_dir pending id d)
          (λ e. after c disk (write_pending_meta c disk m e) empty)
          (keeps d _ (λ j. make_dir_keeps pending id d (file complete j meta_json)) v)
          λ d1 v1.
            after-keeps B (write_pending_meta c disk m d1) empty
              (keeps_pending id meta_json (c.encode_upload m) d1 v1)
              λ d2 v2.
                checked-keeps B m (write (file pending id data_enc) [] d2)
                  (keeps_pending id data_enc [] d2 v2)

    append_read-Budget :
        (id : Bytes) (i : ℤ) (b : Bytes) (d : State)
        → B d
        → (r : Result UploadMeta) → B (append_read c disk id i b d r).0
    append_read-Budget id i b d v (err e) = v
    append_read-Budget id i b d v (ok m) = elim (Bool-cases (eq_ℤ i m.chunks_written)) [
      | inr e ↦ rw e v
      | inl e ↦
          elim (Bool-cases
            (ltb_ℤ (pos nonce_size +ℤ m.chunk_size +ℤ pos tag_size) (pos (length b)))) [
              | inl t ↦ rw (e, t) v
              | inr t ↦
                  rw (e, t)
                    (after-keeps B (append (file pending id data_enc) b d) _
                      (keeps_append id data_enc b d v)
                      λ d1 v1. checked-keeps B tt _ (keeps_pending m.upload_id meta_json _ d1 v1))
            ]
    ]

    pub append_chunk-Budget :
        (id : Bytes) (i : ℤ) (b : Bytes) (d : State) → B d → B (append_chunk c disk id i b d).0
    unfolding append_chunk
    append_chunk-Budget id i b d v = append_read-Budget id i b d v (read_pending_meta c disk id d)

    copied-Budget :
        (src : File) (q : State × Bool)
        → ((j : Bytes) → file complete j meta_json ≢ src)
        → B q.0
        → B (copied c disk src q).0
    copied-Budget src (d, true) ne v =
        keeps d _ (λ j. remove_keeps src (file complete j meta_json) d (ne j)) v
    copied-Budget src (d, false) ne v = v

    module _ (src dst : File) (ns : (j : Bytes) → file complete j meta_json ≢ src)
        (nd : (j : Bytes) → file complete j meta_json ≢ dst) where
      written_to-Budget : (d : State) (r : Read Bytes) → B d → B (written_to c disk dst d r).0
      written_to-Budget d (got b) v =
          keeps d _ (λ j. write_keeps dst (file complete j meta_json) b d (nd j)) v
      written_to-Budget d not_exist v = v
      written_to-Budget d unreadable v = v

      renamed-Budget : (q : State × Moved) → B q.0 → B (renamed c disk src dst q).0
      unfolding copy_file_contents
      renamed-Budget (d, moved) v = v
      renamed-Budget (d, cross_device) v =
          copied-Budget src _ ns (written_to-Budget d (read src d) v)
      renamed-Budget (d, stuck) v = v

      move_file-Budget : (d : State) → B d → B (move_file c disk src dst d).0
      unfolding move_file
      move_file-Budget d v =
          renamed-Budget (rename src dst d)
            (keeps d _ (λ j. rename_keeps src dst (file complete j meta_json) d (ns j) (nd j)) v)

    complete_upload-Budget :
        (id : Bytes) (fm : FileMeta) (d : State)
        → fm.file_id ≢ fid
        → B d
        → B (complete_upload c disk id fm d).0
    unfolding complete_upload
    complete_upload-Budget id fm d ne v =
        let src = file pending id data_enc in
        let dst = file complete fm.file_id data_enc in
        after-keeps B (make_dir complete fm.file_id d) _
          (keeps d _ (λ j. make_dir_keeps complete fm.file_id d (file complete j meta_json)) v)
          λ d1 v1.
            after-keeps B (move_file c disk src dst d1) _
              (move_file-Budget src dst (λ j. complete_not_pending j id meta_json data_enc)
                (λ j. meta_not_enc complete complete j fm.file_id) d1 v1)
              λ d2 v2.
                after-keeps B (write_file_meta c disk fm d2) _
                  (write_other c disk fid n d2 v2 fm ne) λ d3 v3. keeps_remove_all pending id d3 v3

    finalize_sized-Budget :
        (id : Bytes) (m : UploadMeta) (ne nn sha : Bytes) (f k : Option Bytes) (r : Read Bytes)
        (d : State)
        → Fresh fid (finishes id ne nn sha f k)
        → B d
        → B (finalize_sized c disk id m ne nn sha f k r d).0
    finalize_sized-Budget id m ne nn sha none k r d h v = v
    finalize_sized-Budget id m ne nn sha (some f) none r d h v = v
    finalize_sized-Budget id m ne nn sha (some f) (some key) (got b) d h v =
        complete_upload-Budget id (completed_meta c disk m f key ne nn sha (length b)) d h v
    finalize_sized-Budget id m ne nn sha (some f) (some key) not_exist d h v = v
    finalize_sized-Budget id m ne nn sha (some f) (some key) unreadable d h v = v

    pub finalize_read-Budget :
        (id ne nn sha : Bytes) (f k : Option Bytes) (d : State)
        → Fresh fid (finishes id ne nn sha f k)
        → B d
        → (r : Result UploadMeta) → B (finalize_read c disk id ne nn sha f k d r).0
    finalize_read-Budget id ne nn sha f k d h v (err e) = v
    finalize_read-Budget id ne nn sha f k d h v (ok m) =
        elim (Bool-cases (eq_ℤ m.chunks_written m.chunks_total)) [
          | inl e ↦
              rw e
                (finalize_sized-Budget id m ne nn sha f k (read (file pending id data_enc) d) d h v)
          | inr e ↦ rw e v
        ]

    pub delete_read-Budget :
        (id key : Bytes) (d : State)
        → B d
        → (r : Result FileMeta) → B (delete_read c disk id key d r).0
    delete_read-Budget id key d v (err e) = v
    delete_read-Budget id key d v (ok m) =
        elim (Bool-cases (bytes_eq m.delete_key [] || not (bytes_eq m.delete_key key))) [
          | inl e ↦ rw e v
          | inr e ↦ rw e (keeps_remove_all complete id d v)
        ]

    removed_if-Budget :
        (t : Bool) (a : Area) (id : Bytes) (d : State)
        → B d
        → B (if t then remove_all a id d else d)
    removed_if-Budget true a id d v = keeps_remove_all a id d v
    removed_if-Budget false a id d v = v

    pub clean_complete-Budget :
        (now : ℕ) (ids : List Bytes) (d : State) (k : ℕ)
        → B d
        → B (clean_complete c disk now ids d k).0
    unfolding clean_complete
    clean_complete-Budget now [] d k v = v
    clean_complete-Budget now (id ∷ ids) d k v =
        clean_complete-Budget now ids _ _ (removed_if-Budget _ complete id d v)

    pub clean_pending-Budget :
        (now : ℕ) (ids : List Bytes) (d : State) (k : ℕ)
        → B d
        → B (clean_pending c disk now ids d k).0
    unfolding clean_pending
    clean_pending-Budget now [] d k v = v
    clean_pending-Budget now (id ∷ ids) d k v =
        clean_pending-Budget now ids _ _ (removed_if-Budget _ pending id d v)
