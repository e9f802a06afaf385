-- ===== src/Transfer/Partial/Cases.antt =====
-- The cases of Feed of the receiver on disk in internal/transfer/transfer.go.
use gmmff.Prelude.{
  ℕ, Bool, [], ◌∷◌, Option, ◌==◌, Bool-cases, inl, inr, ◌≢◌, true, false, none, some, ltb, length,
  drop,
}
use gmmff.Prelude.Int.{ℤ, pos, pos_part, ltb_ℤ, ◌+ℤ◌}
use gmmff.Prelude.Bytes.{Bytes, bytes_eq}
use gmmff.Transfer.Frames.{
  tag_file_header, tag_chunk, tag_transfer_done, tag_transfer_error, tag_cancelled, get_uint64,
}
use gmmff.Transfer.Receive.{FileHeader, FeedError, sender_error, err_cancelled}
use gmmff.Transfer.Folder.{Local}
use gmmff.Transfer.Partial.Names.{unique_path}
use gmmff.Transfer.Partial.{
  after_rename, free_found, closed, is_nil, with_header, check_partial, write_handle, resumed,
  reopened, fresh_start, file_created, meta_created, chunk_written, write_meta, saved, Saver, After,
  halt, more, broken, protocol, handle_header, handle_chunk, handle_done, feed,
}

-- What holds after each handler, after an error that changes nothing, and after a frame that is passed
-- over, holds after every frame.
pub feed-cases :
    (l : Local) (fuel : ℕ) (replied : Bool) (r : Saver) (s : l.folder.State)
    (P : After l.folder.State → Type 0)
    → ((o : Option FileHeader) → P (handle_header l replied r s o))
    → ((d : Bytes) → P (handle_chunk l replied d r s r.header))
    → P (handle_done l fuel r s r.header)
    → ((e : FeedError) → P (halt (broken (protocol e)) r s))
    → P (halt more r s)
    → (frame : Bytes) → P (feed l fuel replied frame r s)
unfolding feed
feed-cases l fuel replied r s P header chunk done' error rest [] = rest
feed-cases l fuel replied r s P header chunk done' error rest (tag ∷ body) =
    elim (Bool-cases (tag == tag_file_header)) [
      | inl a ↦ rw a (header (l.wire.decode_header body))
      | inr a ↦ elim (Bool-cases (tag == tag_chunk)) [
        | inl b ↦ rw (a, b) (chunk body)
        | inr b ↦ elim (Bool-cases (tag == tag_transfer_done)) [
          | inl c ↦ rw (a, b, c) done'
          | inr c ↦ elim (Bool-cases (tag == tag_transfer_error)) [
            | inl d ↦ rw (a, b, c, d) (error (sender_error (l.wire.decode_error body)))
            | inr d ↦ elim (Bool-cases (tag == tag_cancelled)) [
              | inl e ↦ rw (a, b, c, d, e) (error err_cancelled)
              | inr e ↦ rw (a, b, c, d, e) rest
            ]
          ]
        ]
      ]
    ]

-- Only handleDone returns (true, nil).
module _ (l : Local) where
  meta_created_not_saved :
      (r : Saver) (p : l.folder.State × Bool) → (meta_created l r p).progress ≢ saved
  meta_created_not_saved r (s, false) k = cc
  meta_created_not_saved r (s, true) k = cc

  file_created_not_saved :
      (r : Saver) (hdr : FileHeader) (p : l.folder.State × Bool)
      → (file_created l r hdr p).progress ≢ saved
  file_created_not_saved r hdr (s, false) k = cc
  file_created_not_saved r hdr (s, true) k =
      meta_created_not_saved r (write_meta l r hdr (pos 0) (pos 0) s) k

  fresh_start_not_saved :
      (r : Saver) (hdr : FileHeader) (s : l.folder.State) → (fresh_start l r hdr s).progress ≢ saved
  unfolding fresh_start
  fresh_start_not_saved r hdr s = file_created_not_saved r hdr (l.folder.create r.partial_path s)

  reopened_not_saved :
      (replied : Bool) (r : Saver) (hdr : FileHeader) (q : ℕ) (n : ℤ) (s : l.folder.State)
      (o : Option Bytes)
      → (reopened l replied r hdr q n s o).progress ≢ saved
  reopened_not_saved replied r hdr q n s none k = fresh_start_not_saved r hdr s k
  reopened_not_saved true r hdr q n s (some b) k = cc
  reopened_not_saved false r hdr q n s (some b) k = cc

  pub handle_header_not_saved :
      (replied : Bool) (r : Saver) (s : l.folder.State) (o : Option FileHeader)
      → (handle_header l replied r s o).progress ≢ saved
  unfolding handle_header resumed
  handle_header_not_saved replied r s none k = cc
  handle_header_not_saved replied r s (some hdr) k =
      let r' = with_header l hdr r in
      let found = check_partial l r' hdr s in
      elim (Bool-cases (ltb 0 found.0)) [
        | inr e ↦ fresh_start_not_saved r' hdr s (rw e at k)
        | inl e ↦ elim (Bool-cases (l.folder.can_append r'.partial_path s)) [
          | inr e' ↦ fresh_start_not_saved r' hdr s (rw (e, resumed, e') at k)
          | inl e' ↦
              reopened_not_saved replied r' hdr found.0 found.1 s
                (l.folder.copy_n (pos_part found.1) r'.partial_path s) (rw (e, resumed, e') at k)
        ]
      ]

  chunk_written_not_saved :
      (replied : Bool) (q : ℕ) (x : Bytes) (r : Saver) (hdr : FileHeader)
      (p : l.folder.State × Bool)
      → (chunk_written l replied q x r hdr p).progress ≢ saved
  chunk_written_not_saved replied q x r hdr (s, false) k = cc
  chunk_written_not_saved true q x r hdr (s, true) k = cc
  chunk_written_not_saved false q x r hdr (s, true) k = cc

  pub handle_chunk_not_saved :
      (replied : Bool) (d : Bytes) (r : Saver) (s : l.folder.State) (o : Option FileHeader)
      → (handle_chunk l replied d r s o).progress ≢ saved
  unfolding handle_chunk
  handle_chunk_not_saved replied d r s none k = cc
  handle_chunk_not_saved replied d r s (some hdr) k = elim (Bool-cases (is_nil r.f)) [
    | inl a ↦ cc
    | inr a ↦ elim (Bool-cases (ltb (length d) 8)) [
      | inl b ↦ let h = rw (a, b) at k in cc
      | inr b ↦ elim (Bool-cases (ltb_ℤ hdr.size (r.received +ℤ pos (length (drop 8 d))))) [
        | inl c ↦ let h = rw (a, b, c) at k in cc
        | inr c ↦
            chunk_written_not_saved replied (get_uint64 d) (drop 8 d) r hdr
              (write_handle l r.f (drop 8 d) s) (rw (a, b, c) at k)
      ]
    ]
  ]

  after_rename_not_more :
      (r : Saver) (p : l.folder.State × Bool) → (after_rename l r p).progress ≢ more
  after_rename_not_more r (s, false) k = cc
  after_rename_not_more r (s, true) k = cc

  free_found_not_more :
      (r : Saver) (s : l.folder.State) (o : Option Bytes) → (free_found l r s o).progress ≢ more
  free_found_not_more r s none k = cc
  free_found_not_more r s (some p) k =
      after_rename_not_more (record r { final_path = p }) (l.folder.rename r.partial_path p s) k

  -- handleDone never returns (false, nil).
  pub handle_done_not_more :
      (fuel : ℕ) (r : Saver) (s : l.folder.State) (o : Option FileHeader)
      → (handle_done l fuel r s o).progress ≢ more
  unfolding handle_done
  handle_done_not_more fuel r s none k = cc
  handle_done_not_more fuel r s (some hdr) k = elim (Bool-cases (is_nil r.f)) [
    | inl a ↦ cc
    | inr a ↦ elim (Bool-cases (bytes_eq (l.wire.sha256_hex r.h) hdr.sha256)) [
      | inl b ↦
          free_found_not_more (record r { f = closed }) s (unique_path l fuel r.final_path s)
            (rw (a, b) at k)
      | inr b ↦ cc
    ]
  ]
