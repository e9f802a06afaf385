-- ===== src/Transfer/Partial/Saved.antt =====
-- What a transfer that the receiver on disk of internal/transfer/transfer.go completes has left in the
-- directory, whichever calls of the operating system failed on the way.
use gmmff.Prelude.{
  ℕ, ◌≡◌, ◌≢◌, refl, ap, ◌∙◌, ◌⊎◌, inl, inr, Bool, true, false, ◌++◌, Option, none, some, ltb,
  length, length-append, drop, arith, Bool-cases,
}
use gmmff.Prelude.Int.{pos, ◌+ℤ◌, ltb_ℤ}
use gmmff.Prelude.Bytes.{Bytes, bytes_eq, bytes_eq_iff}
use gmmff.Transfer.Names.{sanitise_name}
use gmmff.Transfer.Frames.{get_uint64}
use gmmff.Transfer.Receive.{FileHeader, chunk_before_header, done_before_header}
use gmmff.Transfer.Folder.{Local}
use gmmff.Transfer.Partial.Names.{unique_path}
use gmmff.Transfer.Partial.Variants.{unique_path_absent}
use gmmff.Transfer.Partial.Cases.{
  feed-cases, handle_header_not_saved, handle_chunk_not_saved, handle_done_not_more,
}
use gmmff.Transfer.Partial.{
  halt, broken, protocol, SaveError, closed, Saver, new_saver, After, more, saved, handle_header,
  chunk_written, handle_chunk, after_rename, free_found, handle_done, feed,
}
use gmmff.Transfer.Partial.Going.{
  saving, partial_name, meta_name, Going, write_meta_partial, handle_header-Going,
}

pub pos_length-append : (b x : Bytes) → pos (length b) +ℤ pos (length x) ≡ pos (length (b ++ x))
unfolding ◌+ℤ◌
pos_length-append b x = ground (arith, length-append b x)

module _ (l : Local) (hdr : FileHeader) where
  chunk_written-Going :
      (replied : Bool) (seq q : ℕ) (b x : Bytes) (p : l.folder.State × Bool)
      → (p.1 ≡ true → l.folder.holds (partial_name l hdr) p.0 ≡ some (b ++ x))
      → (chunk_written l replied seq x (saving l hdr b q) hdr p).progress ≡ more
      → Going l
          (chunk_written l replied seq x (saving l hdr b q) hdr p).saver
          (chunk_written l replied seq x (saving l hdr b q) hdr p).disk
  unfolding Going
  chunk_written-Going replied seq q b x (s, false) e k = cc
  chunk_written-Going replied seq q b x (s, true) e k = (
    hdr,
    b ++ x,
    q,
    ap (λ n. record (saving l hdr (b ++ x) q) { received = n }) (pos_length-append b x),
    write_meta_partial l hdr (saving l hdr b q) _ _ s refl ∙ e refl,
  )

  handle_chunk-Going :
      (replied : Bool) (d : Bytes) (q : ℕ) (b : Bytes) (s : l.folder.State)
      → l.folder.holds (partial_name l hdr) s ≡ some b
      → (handle_chunk l replied d (saving l hdr b q) s (some hdr)).progress ≡ more
      → Going l
          (handle_chunk l replied d (saving l hdr b q) s (some hdr)).saver
          (handle_chunk l replied d (saving l hdr b q) s (some hdr)).disk
  unfolding handle_chunk
  handle_chunk-Going replied d q b s e k = elim (Bool-cases (ltb (length d) 8)) [
    | inl short ↦ let h = rw short at k in cc
    | inr long ↦ elim (Bool-cases (ltb_ℤ hdr.size (pos (length b) +ℤ pos (length (drop 8 d))))) [
      | inl big ↦ let h = rw (long, big) at k in cc
      | inr fits ↦
          rw (long, fits)
            (chunk_written-Going replied (get_uint64 d) q b (drop 8 d)
              (l.folder.append (partial_name l hdr) (drop 8 d) s)
              (λ t. l.folder.append_done (partial_name l hdr) (drop 8 d) b s t e)
              (rw (long, fits) at k))
    ]
  ]

-- What a call that returns (true, nil) has done: the file that was announced stands under a name that
-- was free.
unfoldable pub IsSaved : (l : Local) → l.folder.State → After l.folder.State → Type 0
IsSaved l before a =
    (hdr : FileHeader) × (b : Bytes) × (a.saver.header ≡ some hdr)
    × (l.wire.sha256_hex b ≡ hdr.sha256)
    × (l.folder.holds a.saver.final_path a.disk ≡ some b)
    × (l.folder.holds a.saver.final_path before ≡ none)

module _ (l : Local) (hdr : FileHeader) (b : Bytes) (s : l.folder.State) where
  after_rename-IsSaved :
      (r : Saver) (p : l.folder.State × Bool)
      → r.header ≡ some hdr
      → l.wire.sha256_hex b ≡ hdr.sha256
      → r.final_path ≢ r.meta_path
      → l.folder.holds r.final_path s ≡ none
      → (p.1 ≡ true → l.folder.holds r.final_path p.0 ≡ some b)
      → (after_rename l r p).progress ≡ saved
      → IsSaved l s (after_rename l r p)
  unfolding IsSaved
  after_rename-IsSaved r (t, false) h same apart free e k = cc
  after_rename-IsSaved r (t, true) h same apart free e k =
      (hdr, b, h, same, l.folder.remove_keeps _ _ _ apart ∙ e refl, free)

  free_found-IsSaved :
      (q : ℕ) (o : Option Bytes)
      → l.wire.sha256_hex b ≡ hdr.sha256
      → l.folder.holds (partial_name l hdr) s ≡ some b
      → ((p : Bytes) → o ≡ some p → (l.folder.is_absent p s ≡ true) × (p ≢ meta_name l hdr))
      → (free_found l (record (saving l hdr b q) { f = closed }) s o).progress ≡ saved
      → IsSaved l s (free_found l (record (saving l hdr b q) { f = closed }) s o)
  free_found-IsSaved q none same e found k = cc
  free_found-IsSaved q (some p) same e found k =
      after_rename-IsSaved (record (saving l hdr b q) { f = closed; final_path = p })
        (l.folder.rename (partial_name l hdr) p s) refl same (found p refl).1
        (l.folder.absent_holds p s (found p refl).0)
        (λ t. l.folder.rename_done (partial_name l hdr) p s t ∙ e) k

  handle_done-IsSaved :
      (fuel q : ℕ)
      → l.folder.holds (partial_name l hdr) s ≡ some b
      → (handle_done l fuel (saving l hdr b q) s (some hdr)).progress ≡ saved
      → IsSaved l s (handle_done l fuel (saving l hdr b q) s (some hdr))
  unfolding handle_done
  handle_done-IsSaved fuel q e k = elim (Bool-cases (bytes_eq (l.wire.sha256_hex b) hdr.sha256)) [
    | inr other ↦ let h = rw other at k in cc
    | inl same ↦ rw same (
        free_found-IsSaved q (unique_path l fuel (sanitise_name l.wire.strings hdr.name) s)
          ((bytes_eq_iff (l.wire.sha256_hex b) hdr.sha256).0 same) e
          (λ p. unique_path_absent l fuel (sanitise_name l.wire.strings hdr.name) p s)
          (rw same at k))
  ]

-- The receivers that a caller reaches that goes on after (false, nil) only.
pub data Reached (l : Local) (s₀ : l.folder.State) : Saver → l.folder.State → Type 0 where
  at_start : Reached l s₀ new_saver s₀
  fed :
      (fuel : ℕ) (replied : Bool) (frame : Bytes) (r : Saver) (s : l.folder.State)
      → Reached l s₀ r s
      → (feed l fuel replied frame r s).progress ≡ more
      → Reached l s₀ (feed l fuel replied frame r s).saver (feed l fuel replied frame r s).disk

-- Before the first header, or in the middle of a transfer.
unfoldable Ready : (l : Local) → Saver → l.folder.State → Type 0
Ready l r s = (r ≡ new_saver) ⊎ Going l r s

-- What one call does to a receiver that is ready.
unfoldable Fine : (l : Local) → l.folder.State → After l.folder.State → Type 0
Fine l before a =
    (a.progress ≡ more → Ready l a.saver a.disk) × (a.progress ≡ saved → IsSaved l before a)

module _ (l : Local) where
  broken-Fine :
      (t : l.folder.State) (e : SaveError) (r : Saver) (s : l.folder.State)
      → Fine l t (halt (broken e) r s)
  unfolding Fine
  broken-Fine t e r s = (λ k. cc, λ k. cc)

  waiting-Fine : (r : Saver) (s : l.folder.State) → Ready l r s → Fine l s (halt more r s)
  unfolding Fine
  waiting-Fine r s k = (λ e. k, λ e. cc)

  handle_header-Fine :
      (replied : Bool) (r : Saver) (s : l.folder.State) (o : Option FileHeader)
      → Fine l s (handle_header l replied r s o)
  unfolding Fine Ready handle_header
  handle_header-Fine replied r s none = (λ k. cc, λ k. cc)
  handle_header-Fine replied r s (some hdr) = (
    λ k. inr (handle_header-Going l hdr replied r s k),
    λ k. absurd (handle_header_not_saved l replied r s (some hdr) k),
  )

  feed_new-Fine :
      (fuel : ℕ) (replied : Bool) (s : l.folder.State) (frame : Bytes)
      → Fine l s (feed l fuel replied frame new_saver s)
  unfolding Ready handle_chunk handle_done
  feed_new-Fine fuel replied s =
      feed-cases l fuel replied new_saver s (Fine l s) (handle_header-Fine replied new_saver s)
        (λ d. broken-Fine s (protocol chunk_before_header) new_saver s)
        (broken-Fine s (protocol done_before_header) new_saver s)
        (λ e. broken-Fine s (protocol e) new_saver s) (waiting-Fine new_saver s (inl refl))

  -- In the middle of a transfer.
  module _ (hdr : FileHeader) (b : Bytes) (q : ℕ) (s : l.folder.State)
      (held : l.folder.holds (partial_name l hdr) s ≡ some b) where
    handle_chunk-Fine :
        (replied : Bool) (d : Bytes)
        → Fine l s (handle_chunk l replied d (saving l hdr b q) s (some hdr))
    unfolding Fine Ready
    handle_chunk-Fine replied d = (
      λ k. inr (handle_chunk-Going l hdr replied d q b s held k),
      λ k. absurd (handle_chunk_not_saved l replied d (saving l hdr b q) s (some hdr) k),
    )

    handle_done-Fine : (fuel : ℕ) → Fine l s (handle_done l fuel (saving l hdr b q) s (some hdr))
    unfolding Fine
    handle_done-Fine fuel = (
      λ k. absurd (handle_done_not_more l fuel (saving l hdr b q) s (some hdr) k),
      handle_done-IsSaved l hdr b s fuel q held,
    )

    feed-saving-Fine :
        (fuel : ℕ) (replied : Bool) (frame : Bytes)
        → Fine l s (feed l fuel replied frame (saving l hdr b q) s)
    unfolding Ready Going
    feed-saving-Fine fuel replied =
        feed-cases l fuel replied (saving l hdr b q) s (Fine l s)
          (handle_header-Fine replied (saving l hdr b q) s) (handle_chunk-Fine replied)
          (handle_done-Fine fuel) (λ e. broken-Fine s (protocol e) (saving l hdr b q) s)
          (waiting-Fine (saving l hdr b q) s (inr (hdr, b, q, refl, held)))

  feed-Fine :
      (fuel : ℕ) (replied : Bool) (frame : Bytes) (r : Saver) (s : l.folder.State)
      → Ready l r s
      → Fine l s (feed l fuel replied frame r s)
  unfolding Ready Going
  feed-Fine fuel replied frame r s (inl e) = rw e (feed_new-Fine fuel replied s frame)
  feed-Fine fuel replied frame r s (inr (hdr, b, q, e, held)) =
      rw e (feed-saving-Fine hdr b q s held fuel replied frame)

  Reached-Ready :
      {s₀ : l.folder.State} {r : Saver} {s : l.folder.State} → Reached l s₀ r s → Ready l r s
  unfolding Ready Fine
  Reached-Ready at_start = inl refl
  Reached-Ready (fed fuel replied frame r s before k) =
      (feed-Fine fuel replied frame r s (Reached-Ready before)).0 k

-- Whatever frames a peer sends and whichever calls of the operating system fail: if every call of Feed
-- so far returned (false, nil) and this one returns (true, nil), then the final path holds bytes whose
-- SHA-256 is the announced one, and before the call no file had that name.
pub Reached-IsSaved :
    (l : Local) (s₀ : l.folder.State) (r : Saver) (s : l.folder.State) (fuel : ℕ) (replied : Bool)
    (frame : Bytes)
    → Reached l s₀ r s
    → (feed l fuel replied frame r s).progress ≡ saved
    → IsSaved l s (feed l fuel replied frame r s)
unfolding Fine
Reached-IsSaved l s₀ r s fuel replied frame before k =
    (feed-Fine l fuel replied frame r s (Reached-Ready l before)).1 k
