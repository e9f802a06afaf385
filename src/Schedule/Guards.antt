-- ===== src/Schedule/Guards.antt =====
-- What the operations of internal/schedule/store.go refuse, and what the cleanup leaves alone.
use gmmff.Prelude.{
  ◌≡◌, ◌≢◌, refl, ◌∙◌, ◌⊎◌, inl, inr, ℕ, ◌+◌, Bool, true, false, List, [], ◌∷◌, Option, Bool-cases,
  if◌then◌else◌,
}
use gmmff.Prelude.Int.{ℤ}
use gmmff.Prelude.Bytes.{Bytes, bytes_eq, bytes_eq_iff}
use gmmff.Schedule.Disk.{pending, complete, Leaf, meta_json, file, not_exist, Disk}
use gmmff.Schedule.Meta.{FileMeta, valid_id, Codec}
use gmmff.Schedule.Store.{
  Result, ok, err, missing, Fault, wrong_key, read_file_meta, append_chunk, finalize_upload,
  open_download, delete_read, delete_upload, is_over, clean_complete, clean_pending, clean_expired,
  open_complete,
}
use gmmff.Schedule.Ids.{IsId, valid_id-IsId}
use gmmff.Schedule.Files.{complete_pending, read_file_meta_keeps}

module _ (c : Codec) (disk : Disk) where
  open disk use {State, read, dirs, remove_all, remove_all_keeps}

  -- Each operation that takes an identifier from a request answers as if there were no such upload, and
  -- leaves the state as it is.
  pub record Untouched (id : Bytes) (d : State) : Type 0 where
    pub no_append : (i : ℤ) (b : Bytes) → append_chunk c disk id i b d ≡ (d, err missing)
    pub no_finalize :
        (ne nn sha : Bytes) (f k : Option Bytes)
        → finalize_upload c disk id ne nn sha f k d ≡ (d, err missing)
    pub no_download : (now : ℕ) → open_download c disk id now d ≡ (d, err missing)
    pub no_delete : (key : Bytes) → delete_upload c disk id key d ≡ (d, err missing)
    pub no_open : open_complete c disk id d ≡ not_exist

  invalid-Untouched : (id : Bytes) (d : State) → valid_id id ≡ false → Untouched id d
  unfolding append_chunk finalize_upload open_download delete_upload open_complete
  invalid-Untouched id d h = record {
    no_append = λ i b. rw h refl;
    no_finalize = λ ne nn sha f k. rw h refl;
    no_download = λ now. rw h refl;
    no_delete = λ key. rw h refl;
    no_open = rw h refl;
  }

  -- Exactly the identifiers of 32 digits of lower-case hexadecimal are accepted; with any other one no
  -- operation that takes it from a request reads or changes a file, and each answers as if there were
  -- no such upload.
  pub valid_id_guards :
      (id : Bytes) (d : State)
      → (IsId id × (valid_id id ≡ true)) ⊎ ((¬ IsId id) × (valid_id id ≡ false) × Untouched id d)
  valid_id_guards id d = elim (Bool-cases (valid_id id)) [
    | inl h ↦ inl ((valid_id-IsId id).0 h, h)
    | inr h ↦ inr (λ v. let t = (valid_id-IsId id).1 v in cc (h, t), h, invalid-Untouched id d h)
  ]

  -- What Delete does.
  abbrev pub Deleted : Bytes → Bytes → State → State × Result (Unit {0}) → Type 0
  Deleted id key d q =
      ((e : Fault) × (q ≡ (d, err e)))
      ⊎ ((m : FileMeta) × (read_file_meta c disk id d ≡ ok m)
          × (m.delete_key ≡ key)
          × (key ≢ [])
          × (q ≡ (remove_all complete id d, ok tt)))

  delete_read-Deleted :
      (id key : Bytes) (d : State) (r : Result FileMeta)
      → read_file_meta c disk id d ≡ r
      → Deleted id key d (delete_read c disk id key d r)
  delete_read-Deleted id key d (err e) h = inl (e, refl)
  delete_read-Deleted id key d (ok m) h = elim (Bool-cases (bytes_eq m.delete_key [])) [
    | inl a ↦ rw a (inl (wrong_key, refl))
    | inr a ↦ elim (Bool-cases (bytes_eq m.delete_key key)) [
      | inl b ↦
          let same = (bytes_eq_iff m.delete_key key).0 b in
          rw (a, b)
            (inr (m, h, same, (λ n. cc (a, (bytes_eq_iff m.delete_key []).1 (same ∙ n))), refl))
      | inr b ↦ rw (a, b) (inl (wrong_key, refl))
    ]
  ]

  -- Delete either fails and changes nothing, or the key is the one in the sidecar of the upload and is
  -- not empty, and exactly the directory of that upload is removed.
  pub delete_upload-Deleted :
      (id key : Bytes) (d : State) → Deleted id key d (delete_upload c disk id key d)
  unfolding delete_upload
  delete_upload-Deleted id key d = delete_read-Deleted id key d (read_file_meta c disk id d) refl

  -- The two files of `j` are as they were.
  abbrev Same : Bytes → State → State → Type 0
  Same j d e = (l : Leaf) → read (file complete j l) e ≡ read (file complete j l) d

  removed_pending-Same :
      (t : Bool) (i j : Bytes) (d : State) → Same j d (if t then remove_all pending i d else d)
  removed_pending-Same true i j d l =
      remove_all_keeps pending i (file complete j l) d (inl complete_pending)
  removed_pending-Same false i j d l = refl

  clean_pending-Same :
      (now : ℕ) (ids : List Bytes) (j : Bytes) (d : State) (n : ℕ)
      → Same j d (clean_pending c disk now ids d n).0
  unfolding clean_pending
  clean_pending-Same now [] j d n l = refl
  clean_pending-Same now (i ∷ ids) j d n l =
      clean_pending-Same now ids j _ _ l ∙ removed_pending-Same _ i j d l

  module _ (j : Bytes) (now : ℕ) (m : FileMeta) (live : is_over c disk now (ok m) ≡ false) where
    removed_over-Same :
        (i : Bytes) (d : State)
        → read_file_meta c disk j d ≡ ok m
        → (t : Bool) → is_over c disk now (read_file_meta c disk i d) ≡ t
        → Same j d (if t then remove_all complete i d else d)
    removed_over-Same i d h false o l = refl
    removed_over-Same i d h true o l =
        remove_all_keeps complete i (file complete j l) d (inr λ e. cc (e, h, o, live))

    clean_complete-Same :
        (ids : List Bytes) (d : State) (n : ℕ)
        → read_file_meta c disk j d ≡ ok m
        → Same j d (clean_complete c disk now ids d n).0
    unfolding clean_complete
    clean_complete-Same [] d n h l = refl
    clean_complete-Same (i ∷ ids) d n h l =
        let t = is_over c disk now (read_file_meta c disk i d) in
        let e = if t then remove_all complete i d else d in
        let s = removed_over-Same i d h t refl in
        clean_complete-Same ids e (if t then n + 1 else n)
          (read_file_meta_keeps c disk j d e (s meta_json) ∙ h) l
        ∙ s l

  -- The cleanup leaves both files of an upload as they are whose sidecar can be read, which has not
  -- expired and which has downloads left.
  pub clean_expired_keeps :
      (j : Bytes) (now : ℕ) (m : FileMeta) (d : State) (l : Leaf)
      → read_file_meta c disk j d ≡ ok m
      → is_over c disk now (ok m) ≡ false
      → read (file complete j l) (clean_expired c disk now d).0 ≡ read (file complete j l) d
  unfolding clean_expired
  clean_expired_keeps j now m d l h live =
      let q = clean_complete c disk now (dirs complete d) d 0 in
      clean_pending-Same now (dirs pending q.0) j q.0 q.1 l
      ∙ clean_complete-Same j now m live (dirs complete d) d 0 h l
