-- ===== src/Schedule/Limit.antt =====
-- The download limit of internal/schedule/store.go over whole histories of requests.
use gmmff.Prelude.{◌≡◌, sym, ap, ◌∙◌, ℕ, ◌≤◌, List, [], ◌∷◌, arith}
use gmmff.Prelude.Int.{pos}
use gmmff.Prelude.Bytes.{Bytes}
use gmmff.Schedule.Disk.{pending, complete, Disk}
use gmmff.Schedule.Meta.{FileMeta, Codec}
use gmmff.Schedule.Store.{
  ok, read_pending_meta, read_file_meta, finalize_upload, delete_upload, clean_complete,
  clean_expired,
}
use gmmff.Schedule.Budget.{Budget, Spent, none_taken, open_download-Spent}
use gmmff.Schedule.History.{
  Request, inits, chunks, finishes, downloads, deletes, cleans, Fresh, AllFresh, perform, gives,
  times_given,
}
use gmmff.Schedule.Keeps.{
  init_upload-Budget, append_chunk-Budget, finalize_read-Budget, delete_read-Budget,
  clean_complete-Budget, clean_pending-Budget,
}

module _ (c : Codec) (disk : Disk) where
  open disk use {
    State, read, dirs, make_dir, write, append, rename, remove, remove_all, make_dir_keeps,
    write_keeps, append_keeps, rename_not, rename_keeps, remove_keeps,
  }

  ok-same : (x m : FileMeta) → (ok x ≡ ok m) → x ≡ m
  ok-same x m e = cc

  module _ (fid : Bytes) (n : ℕ) where
    perform-Spent :
        (r : Request) (d : State)
        → Fresh fid r
        → Budget c disk fid n d
        → Spent c disk fid n (gives c disk fid r d) (perform c disk r d)
    unfolding gives perform finalize_upload delete_upload clean_expired
    perform-Spent (inits id total size expires dl chunk now) d h v =
        none_taken c disk fid n _
          (init_upload-Budget c disk fid n id total size expires dl chunk now d v)
    perform-Spent (chunks id i b) d h v =
        none_taken c disk fid n _ (append_chunk-Budget c disk fid n id i b d v)
    perform-Spent (finishes id ne nn sha f k) d h v =
        none_taken c disk fid n _
          (finalize_read-Budget c disk fid n id ne nn sha f k d h v (read_pending_meta c disk id d))
    perform-Spent (downloads id now) d h v = open_download-Spent c disk fid id n d v now
    perform-Spent (deletes id key) d h v =
        none_taken c disk fid n _
          (delete_read-Budget c disk fid n id key d v (read_file_meta c disk id d))
    perform-Spent (cleans now) d h v =
        let q = clean_complete c disk now (dirs complete d) d 0 in
        none_taken c disk fid n _ (
          clean_pending-Budget c disk fid n now (dirs pending q.0) q.0 q.1
            (clean_complete-Budget c disk fid n now (dirs complete d) d 0 v))

  times_given-Budget :
      (fid : Bytes) (rs : List Request) (n : ℕ) (d : State)
      → AllFresh fid rs
      → Budget c disk fid n d
      → times_given c disk fid rs d ≤ n
  unfolding times_given
  times_given-Budget fid [] n d h v = omega arith
  times_given-Budget fid (r ∷ rs) n d (f, h) v =
      let (p, (w, le)) = perform-Spent fid n r d f v in
      let rest = times_given-Budget fid rs p (perform c disk r d) h w in omega arith

  -- Let every sidecar name its directory, let that of `fid` leave `n` downloads, and let no completed
  -- upload get the identifier `fid` again. Then in any sequence of requests, with files that may fail at
  -- every call, at most `n` downloads of `fid` succeed.
  pub times_given-le :
      (fid : Bytes) (rs : List Request) (n : ℕ) (d : State) (m : FileMeta)
      → ((j : Bytes) (x : FileMeta) → read_file_meta c disk j d ≡ ok x → x.file_id ≡ j)
      → read_file_meta c disk fid d ≡ ok m
      → m.downloads_left ≡ pos n
      → AllFresh fid rs
      → times_given c disk fid rs d ≤ n
  times_given-le fid rs n d m named h few fresh = times_given-Budget fid rs n d fresh record {
    named = named;
    left = λ x r.
        (n, ap (λ (y : FileMeta). y.downloads_left) (ok-same x m (sym r ∙ h)) ∙ few, omega arith);
  }
