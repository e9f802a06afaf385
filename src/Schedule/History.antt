-- ===== src/Schedule/History.antt =====
-- Histories of requests to the store of internal/schedule/store.go.
use gmmff.Prelude.{◌≢◌, ℕ, ◌+◌, List, [], ◌∷◌, Option, some}
use gmmff.Prelude.Int.{ℤ}
use gmmff.Prelude.Bytes.{Bytes}
use gmmff.Schedule.Disk.{Disk}
use gmmff.Schedule.Meta.{Codec}
use gmmff.Schedule.Store.{
  init_upload, append_chunk, finalize_upload, open_download, delete_upload, clean_expired,
}
use gmmff.Schedule.Budget.{counted}

-- The requests that reach the store, with the present and what randomHex gives.
pub data Request : Type 0 where
  inits :
      (id : Option Bytes) (chunks_total total_size : ℤ) (expires : ℕ) (max_downloads chunk_size : ℤ)
      (now : ℕ)
      → Request
  chunks : (id : Bytes) (index : ℤ) (b : Bytes) → Request
  finishes : (id name_enc name_nonce sha : Bytes) (file_id key : Option Bytes) → Request
  downloads : (id : Bytes) (now : ℕ) → Request
  deletes : (id key : Bytes) → Request
  cleans : (now : ℕ) → Request

-- No completed upload gets the identifier `fid` again.
abbrev pub Fresh : Bytes → Request → Type 0
Fresh fid (finishes id ne nn sha (some f) key) = f ≢ fid
Fresh fid _ = Unit {0}

abbrev pub AllFresh : Bytes → List Request → Type 0
AllFresh fid [] = Unit {0}
AllFresh fid (r ∷ rs) = Fresh fid r × AllFresh fid rs

module _ (c : Codec) (disk : Disk) where
  open disk use {
    State, read, dirs, make_dir, write, append, rename, remove, remove_all, make_dir_keeps,
    write_keeps, append_keeps, rename_not, rename_keeps, remove_keeps,
  }

  unfoldable pub perform : Request → State → State
  perform (inits id total size expires most chunk now) d =
      (init_upload c disk id total size expires most chunk now d).0
  perform (chunks id index b) d = (append_chunk c disk id index b d).0
  perform (finishes id ne nn sha fid key) d = (finalize_upload c disk id ne nn sha fid key d).0
  perform (downloads id now) d = (open_download c disk id now d).0
  perform (deletes id key) d = (delete_upload c disk id key d).0
  perform (cleans now) d = (clean_expired c disk now d).0

  -- Whether a request is a download of `fid` that succeeds, as a number.
  unfoldable pub gives : Bytes → Request → State → ℕ
  gives fid (downloads id now) d = counted c disk fid id (open_download c disk id now d).1
  gives fid _ d = 0

  unfoldable pub times_given : Bytes → List Request → State → ℕ
  times_given fid [] d = 0
  times_given fid (r ∷ rs) d = gives fid r d + times_given fid rs (perform r d)
