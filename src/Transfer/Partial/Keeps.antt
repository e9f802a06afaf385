-- ===== src/Transfer/Partial/Keeps.antt =====
-- What the receiver on disk of internal/transfer/transfer.go leaves alone, whatever a peer sends.
use gmmff.Prelude.{
  ℕ, ◌≡◌, ◌≢◌, refl, ◌∙◌, ◌⊎◌, inl, inr, Bool, true, false, List, [], ◌∷◌, ◌++◌, Option, none, some,
  ltb, length, drop, Bool-cases,
}
use gmmff.Prelude.Int.{ℤ, pos, pos_part, ◌+ℤ◌, ltb_ℤ}
use gmmff.Prelude.Bytes.{Bytes, bytes_eq}
use gmmff.Transfer.Frames.{get_uint64}
use gmmff.Transfer.Receive.{FileHeader}
use gmmff.Transfer.Folder.{Local}
use gmmff.Transfer.Partial.Names.{partial_suffix, meta_suffix, unique_path}
use gmmff.Transfer.Partial.Variants.{unique_path_absent}
use gmmff.Transfer.Partial.Cases.{feed-cases}
use gmmff.Transfer.Partial.{
  Handle, no_file, closed, opened, Saver, new_saver, After, check_partial, write_meta, meta_created,
  file_created, fresh_start, reopened, resumed, with_header, handle_header, write_handle, is_nil,
  chunk_written, handle_chunk, after_rename, free_found, handle_done, feed,
}

-- The names of partial files and of sidecar files.
abbrev pub IsSidecar : Bytes → Type 0
IsSidecar n = ((s : Bytes) × (n ≡ s ++ partial_suffix)) ⊎ ((s : Bytes) × (n ≡ s ++ meta_suffix))

abbrev HandleTidy : Handle → Type 0
HandleTidy no_file = Unit
HandleTidy closed = Unit
HandleTidy (opened n) = IsSidecar n

abbrev PathsTidy : Saver → Option FileHeader → Type 0
PathsTidy r none = Unit
PathsTidy r (some hdr) = IsSidecar r.partial_path × IsSidecar r.meta_path

abbrev Tidy : Saver → Type 0
Tidy r = HandleTidy r.f × PathsTidy r r.header

-- The receiver and the directory after some calls; the owner may go on whatever they return.
unfoldable pub feeds :
    (l : Local) → ℕ → List (Bool × Bytes) → Saver → l.folder.State → Saver × l.folder.State
feeds l fuel [] r s = (r, s)
feeds l fuel ((replied, frame) ∷ fs) r s =
    let a = feed l fuel replied frame r s in feeds l fuel fs a.saver a.disk

module _ (l : Local) (g b : Bytes) (other : ¬ IsSidecar g) where
  -- The file has its content, and the receiver writes to partial and sidecar files only.
  abbrev Kept : Saver → l.folder.State → Type 0
  Kept r s = Tidy r × (l.folder.holds g s ≡ some b)

  abbrev KeptAfter : After l.folder.State → Type 0
  KeptAfter a = Kept a.saver a.disk

  not_sidecar : {n : Bytes} → IsSidecar n → g ≢ n
  not_sidecar i e = other (rw e i)

  write_meta_keeps :
      (r : Saver) (hdr : FileHeader) (x y : ℤ) (s : l.folder.State)
      → IsSidecar r.meta_path
      → l.folder.holds g (write_meta l r hdr x y s).0 ≡ l.folder.holds g s
  unfolding write_meta
  write_meta_keeps r hdr x y s i = l.folder.write_keeps _ _ _ _ (not_sidecar i)

  meta_created-Kept :
      (r : Saver) (p : l.folder.State × Bool)
      → Tidy r
      → IsSidecar r.partial_path
      → l.folder.holds g p.0 ≡ some b
      → KeptAfter (meta_created l r p)
  meta_created-Kept r (s, false) t i e = (t, e)
  meta_created-Kept r (s, true) t i e = ((i, t.1), e)

  file_created-Kept :
      (r : Saver) (hdr : FileHeader) (p : l.folder.State × Bool)
      → Tidy r
      → IsSidecar r.partial_path
      → IsSidecar r.meta_path
      → l.folder.holds g p.0 ≡ some b
      → KeptAfter (file_created l r hdr p)
  file_created-Kept r hdr (s, false) t i j e = (t, e)
  file_created-Kept r hdr (s, true) t i j e =
      meta_created-Kept r (write_meta l r hdr (pos 0) (pos 0) s) t i
        (write_meta_keeps r hdr (pos 0) (pos 0) s j ∙ e)

  fresh_start-Kept :
      (r : Saver) (hdr : FileHeader) (s : l.folder.State)
      → Kept r s
      → IsSidecar r.partial_path
      → IsSidecar r.meta_path
      → KeptAfter (fresh_start l r hdr s)
  unfolding fresh_start
  fresh_start-Kept r hdr s k i j =
      file_created-Kept r hdr (l.folder.create r.partial_path s) k.0 i j
        (l.folder.create_keeps _ _ _ (not_sidecar i) ∙ k.1)

  reopened-Kept :
      (replied : Bool) (r : Saver) (hdr : FileHeader) (q : ℕ) (n : ℤ) (s : l.folder.State)
      (o : Option Bytes)
      → Kept r s
      → IsSidecar r.partial_path
      → IsSidecar r.meta_path
      → KeptAfter (reopened l replied r hdr q n s o)
  reopened-Kept replied r hdr q n s none k i j = fresh_start-Kept r hdr s k i j
  reopened-Kept true r hdr q n s (some c) k i j = ((i, k.0.1), k.1)
  reopened-Kept false r hdr q n s (some c) k i j = ((tt, k.0.1), k.1)

  resumed-Kept :
      (replied : Bool) (r : Saver) (hdr : FileHeader) (q : ℕ) (n : ℤ) (s : l.folder.State)
      → Kept r s
      → IsSidecar r.partial_path
      → IsSidecar r.meta_path
      → KeptAfter (resumed l replied r hdr q n s)
  unfolding resumed
  resumed-Kept replied r hdr q n s k i j =
      elim (Bool-cases (l.folder.can_append r.partial_path s)) [
        | inr e ↦ rw e (fresh_start-Kept r hdr s k i j)
        | inl e ↦ rw e (
            reopened-Kept replied r hdr q n s (l.folder.copy_n (pos_part n) r.partial_path s) k i j)
      ]

  handle_header-Kept :
      (replied : Bool) (r : Saver) (s : l.folder.State) (o : Option FileHeader)
      → Kept r s
      → KeptAfter (handle_header l replied r s o)
  unfolding handle_header
  handle_header-Kept replied r s none k = k
  handle_header-Kept replied r s (some hdr) k =
      let r' = with_header l hdr r in
      let found = check_partial l r' hdr s in
      let i : IsSidecar r'.partial_path = inl (r'.final_path, refl) in
      let j : IsSidecar r'.meta_path = inr (r'.final_path, refl) in
      let k' : Kept r' s = ((k.0.0, (i, j)), k.1) in
      elim (Bool-cases (ltb 0 found.0)) [
        | inl y ↦ rw y (resumed-Kept replied r' hdr found.0 found.1 s k' i j)
        | inr n ↦ rw n (fresh_start-Kept r' hdr s k' i j)
      ]

  write_handle_keeps :
      (f : Handle) (x : Bytes) (s : l.folder.State)
      → HandleTidy f
      → l.folder.holds g (write_handle l f x s).0 ≡ l.folder.holds g s
  write_handle_keeps no_file x s t = refl
  write_handle_keeps closed x s t = refl
  write_handle_keeps (opened n) x s t = l.folder.append_keeps _ _ _ _ (not_sidecar t)

  chunk_written-Kept :
      (replied : Bool) (q : ℕ) (x : Bytes) (r : Saver) (hdr : FileHeader)
      (p : l.folder.State × Bool)
      → Tidy r
      → IsSidecar r.meta_path
      → l.folder.holds g p.0 ≡ some b
      → KeptAfter (chunk_written l replied q x r hdr p)
  chunk_written-Kept replied q x r hdr (s, false) t j e = (t, e)
  chunk_written-Kept replied q x r hdr (s, true) t j e = (t, write_meta_keeps r hdr _ _ s j ∙ e)

  handle_chunk-Kept :
      (replied : Bool) (d : Bytes) (r : Saver) (s : l.folder.State) (o : Option FileHeader)
      → r.header ≡ o
      → Kept r s
      → KeptAfter (handle_chunk l replied d r s o)
  unfolding handle_chunk
  handle_chunk-Kept replied d r s none h k = k
  handle_chunk-Kept replied d r s (some hdr) h k = elim (Bool-cases (is_nil r.f)) [
    | inl y ↦ rw y k
    | inr n ↦ elim (Bool-cases (ltb (length d) 8)) [
      | inl y ↦ rw (n, y) k
      | inr m ↦ elim (Bool-cases (ltb_ℤ hdr.size (r.received +ℤ pos (length (drop 8 d))))) [
        | inl y ↦ rw (n, m, y) ((tt, k.0.1), k.1)
        | inr o ↦
            let t : PathsTidy r r.header = k.0.1 in
            let j : PathsTidy r (some hdr) = rw h at t in
            rw (n, m, o)
              (chunk_written-Kept replied (get_uint64 d) (drop 8 d) r hdr
                (write_handle l r.f (drop 8 d) s) k.0 j.1
                (write_handle_keeps r.f (drop 8 d) s k.0.0 ∙ k.1))
      ]
    ]
  ]

  after_rename-Kept :
      (r : Saver) (p : l.folder.State × Bool)
      → Tidy r
      → IsSidecar r.meta_path
      → l.folder.holds g p.0 ≡ some b
      → KeptAfter (after_rename l r p)
  after_rename-Kept r (s, false) t j e = (t, e)
  after_rename-Kept r (s, true) t j e = (t, l.folder.remove_keeps _ _ _ (not_sidecar j) ∙ e)

  free_found-Kept :
      (r : Saver) (s : l.folder.State) (o : Option Bytes)
      → Kept r s
      → IsSidecar r.partial_path
      → IsSidecar r.meta_path
      → ((p : Bytes) → o ≡ some p → l.folder.is_absent p s ≡ true)
      → KeptAfter (free_found l r s o)
  free_found-Kept r s none k i j free = k
  free_found-Kept r s (some p) k i j free =
      let e : l.folder.holds p s ≡ none = l.folder.absent_holds p s (free p refl) in
      let away : g ≢ p = λ q. cc (q, e, k.1) in
      after_rename-Kept (record r { final_path = p }) (l.folder.rename r.partial_path p s) k.0 j
        (l.folder.rename_keeps _ _ _ _ (not_sidecar i) away ∙ k.1)

  handle_done-Kept :
      (fuel : ℕ) (r : Saver) (s : l.folder.State) (o : Option FileHeader)
      → r.header ≡ o
      → Kept r s
      → KeptAfter (handle_done l fuel r s o)
  unfolding handle_done
  handle_done-Kept fuel r s none h k = k
  handle_done-Kept fuel r s (some hdr) h k = elim (Bool-cases (is_nil r.f)) [
    | inl y ↦ rw y k
    | inr n ↦ elim (Bool-cases (bytes_eq (l.wire.sha256_hex r.h) hdr.sha256)) [
      | inl y ↦
          let t : PathsTidy r r.header = k.0.1 in
          let j : PathsTidy r (some hdr) = rw h at t in
          rw (n, y)
            (free_found-Kept (record r { f = closed }) s (unique_path l fuel r.final_path s)
              ((tt, k.0.1), k.1) j.0 j.1 (λ p e. (unique_path_absent l fuel r.final_path p s e).0))
      | inr m ↦ rw (n, m) ((tt, k.0.1), k.1)
    ]
  ]

  feed-Kept :
      (fuel : ℕ) (replied : Bool) (frame : Bytes) (r : Saver) (s : l.folder.State)
      → Kept r s
      → KeptAfter (feed l fuel replied frame r s)
  feed-Kept fuel replied frame r s k =
      feed-cases l fuel replied r s (λ a. KeptAfter a) (λ o. handle_header-Kept replied r s o k)
        (λ d. handle_chunk-Kept replied d r s r.header refl k)
        (handle_done-Kept fuel r s r.header refl k) (λ e. k) k frame

  feeds-Kept :
      (fuel : ℕ) (fs : List (Bool × Bytes)) (r : Saver) (s : l.folder.State)
      → Kept r s
      → l.folder.holds g (feeds l fuel fs r s).1 ≡ some b
  unfolding feeds
  feeds-Kept fuel [] r s k = k.1
  feeds-Kept fuel ((replied, frame) ∷ fs) r s k =
      feeds-Kept fuel fs _ _ (feed-Kept fuel replied frame r s k)

-- Whatever frames a peer sends, whichever calls of the operating system fail, and whether or not the
-- replies reach the peer: a file that is in the directory before and is neither a partial file nor a
-- sidecar file by its name still has the same content afterwards.
pub feeds-new_saver_keeps :
    (l : Local) (fuel : ℕ) (fs : List (Bool × Bytes)) (s : l.folder.State) (g b : Bytes)
    → ¬ IsSidecar g
    → l.folder.holds g s ≡ some b
    → l.folder.holds g (feeds l fuel fs new_saver s).1 ≡ some b
feeds-new_saver_keeps l fuel fs s g b other e =
    feeds-Kept l g b other fuel fs new_saver s ((tt, tt), e)
