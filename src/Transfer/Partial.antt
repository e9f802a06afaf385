-- ===== src/Transfer/Partial.antt =====
-- The receiver on disk, ReceiveState of internal/transfer/transfer.go: it writes to a partial file,
-- keeps count in a sidecar file, and resumes a transfer that was interrupted. Sizes and counts of bytes
-- are far below 2^63, so the sums of int64 are those of integers.
pub mod Names
pub mod Cases
pub mod Keeps
pub mod Variants
pub mod Going
pub mod Saved
pub mod Working
pub mod Saving
pub mod Resume
pub mod InMemory
pub mod Directory
mod Tests
use gmmff.Prelude.{
  ℕ, suc, ◌+◌, Bool, true, false, not, ◌||◌, List, [], ◌∷◌, ◌++◌, Option, none, some, ltb, ◌==◌,
  length, drop, if◌then◌else◌,
}
use gmmff.Prelude.Int.{ℤ, pos, pos_part, ◌+ℤ◌, ltb_ℤ, eq_ℤ}
use gmmff.Prelude.Bytes.{Bytes, bytes_eq}
use gmmff.Transfer.Names.{sanitise_name}
use gmmff.Transfer.Frames.{
  tag_file_header, tag_chunk, tag_transfer_done, tag_transfer_error, tag_cancelled, get_uint64,
}
use gmmff.Transfer.Receive.{
  FileHeader, FeedError, bad_header, chunk_before_header, chunk_too_short, too_many_bytes,
  done_before_header, integrity_failed, sender_error, err_cancelled,
}
use gmmff.Transfer.Folder.{PartialMeta, Folder, Local}
use gmmff.Transfer.Partial.Names.{partial_suffix, meta_suffix, int64_of, uint64_of, unique_path}

-- The field `f`: nil, a file that is open for writing, or one that was closed.
pub data Handle : Type 0 where
  no_file closed : Handle
  opened : Bytes → Handle

-- ReceiveState. The running hash `h` is the bytes that were written to it.
pub record Saver : Type 0 where
  pub header : Option FileHeader
  pub partial_path : Bytes
  pub meta_path : Bytes
  pub final_path : Bytes
  pub f : Handle
  pub h : Bytes
  pub received : ℤ
  pub resume_seq : ℕ

-- NewReceiveState
abbrev pub new_saver : Saver
new_saver = record {
  header = none;
  partial_path = [];
  meta_path = [];
  final_path = [];
  f = no_file;
  h = [];
  received = pos 0;
  resume_seq = 0;
}

-- The errors of the protocol, and those of the directory and the channel.
pub data SaveError : Type 0 where
  protocol : FeedError → SaveError
  create_failed meta_failed resume_failed write_failed rename_failed : SaveError

-- What Feed returns: (false, nil), (true, nil) or (false, err); `searching` is a uniquePath that has
-- not found a free name within the fuel.
pub data Progress : Type 0 where
  more saved searching : Progress
  broken : SaveError → Progress

-- What sendAck and sendResume were called with.
pub data Reply : Type 0 where
  ack resume : ℕ → Reply

pub record After (S : Type 0) : Type 0 where
  pub saver : Saver
  pub disk : S
  pub progress : Progress
  pub replies : List Reply

abbrev pub halt : {S : Type 0} → Progress → Saver → S → After S
halt p r s = record { saver = r; disk = s; progress = p; replies = [] }

-- rs.f == nil
abbrev pub is_nil : Handle → Bool
is_nil no_file = true
is_nil closed = false
is_nil (opened n) = false

-- The checks of checkPartial once the sidecar file is decoded and the partial file is measured.
abbrev pub check_size : PartialMeta → Option ℕ → ℕ × ℤ
check_size m none = (0, pos 0)
check_size m (some size) =
    if not (eq_ℤ (pos size) m.bytes_done) || eq_ℤ m.chunks_done (pos 0)
    then (0, pos 0)
    else (uint64_of m.chunks_done, m.bytes_done)

module _ (l : Local) where
  abbrev pub check_meta : Saver → FileHeader → l.folder.State → Option PartialMeta → ℕ × ℤ
  check_meta r hdr s none = (0, pos 0)
  check_meta r hdr s (some m) =
      if not (bytes_eq m.sha256 hdr.sha256) || not (eq_ℤ m.chunk_size hdr.chunk_size)
      then (0, pos 0)
      else check_size m (l.folder.stat r.partial_path s)

  -- checkPartial
  unfoldable pub check_partial : Saver → FileHeader → l.folder.State → ℕ × ℤ
  check_partial r hdr s = elim (l.folder.read r.meta_path s) [
    | none ↦ (0, pos 0)
    | some raw ↦ check_meta r hdr s (l.decode_meta raw)
  ]

  -- writeMeta
  unfoldable pub write_meta : Saver → FileHeader → ℤ → ℤ → l.folder.State → l.folder.State × Bool
  write_meta r hdr bytes chunks s =
      l.folder.write r.meta_path
        (l.encode_meta (record {
          sha256 = hdr.sha256;
          chunk_size = hdr.chunk_size;
          bytes_done = bytes;
          chunks_done = chunks;
        }))
        s

  -- The part of handleHeader from freshStart on.
  abbrev pub meta_created : Saver → l.folder.State × Bool → After l.folder.State
  meta_created r (s, false) = halt (broken meta_failed) r s
  meta_created r (s, true) =
      halt more (record r { f = opened r.partial_path; h = []; received = pos 0; resume_seq = 0 }) s

  abbrev pub file_created : Saver → FileHeader → l.folder.State × Bool → After l.folder.State
  file_created r hdr (s, false) = halt (broken create_failed) r s
  file_created r hdr (s, true) = meta_created r (write_meta r hdr (pos 0) (pos 0) s)

  unfoldable pub fresh_start : Saver → FileHeader → l.folder.State → After l.folder.State
  fresh_start r hdr s = file_created r hdr (l.folder.create r.partial_path s)

  -- The part of handleHeader that resumes, from replayHash on and from the start; `replied` is whether
  -- sendResume succeeds.
  abbrev pub reopened :
      Bool → Saver → FileHeader → ℕ → ℤ → l.folder.State → Option Bytes → After l.folder.State
  reopened replied r hdr seq bytes s none = fresh_start r hdr s
  reopened replied r hdr seq bytes s (some b) = record {
    saver = record r {
      f = if replied then opened r.partial_path else closed;
      h = b;
      received = bytes;
      resume_seq = seq;
    };
    disk = s;
    progress = if replied then more else broken resume_failed;
    replies = resume seq ∷ [];
  }

  unfoldable pub resumed : Bool → Saver → FileHeader → ℕ → ℤ → l.folder.State → After l.folder.State
  resumed replied r hdr seq bytes s =
      if l.folder.can_append r.partial_path s
      then reopened replied r hdr seq bytes s (l.folder.copy_n (pos_part bytes) r.partial_path s)
      else fresh_start r hdr s

  -- handleHeader, once the header is decoded.
  abbrev pub with_header : FileHeader → Saver → Saver
  with_header hdr r =
      let safe_name = sanitise_name l.wire.strings hdr.name in
      record r {
        header = some hdr;
        partial_path = safe_name ++ partial_suffix;
        meta_path = safe_name ++ meta_suffix;
        final_path = safe_name;
      }

  unfoldable pub handle_header :
      Bool → Saver → l.folder.State → Option FileHeader → After l.folder.State
  handle_header replied r s none = halt (broken (protocol bad_header)) r s
  handle_header replied r s (some hdr) =
      let r' = with_header hdr r in
      let found = check_partial r' hdr s in
      if ltb 0 found.0 then resumed replied r' hdr found.0 found.1 s else fresh_start r' hdr s

  -- rs.f.Write
  abbrev pub write_handle : Handle → Bytes → l.folder.State → l.folder.State × Bool
  write_handle no_file b s = (s, false)
  write_handle closed b s = (s, false)
  write_handle (opened n) b s = l.folder.append n b s

  -- The part of handleChunk after the write; the error of writeMeta is dropped.
  abbrev pub chunk_written :
      Bool → ℕ → Bytes → Saver → FileHeader → l.folder.State × Bool → After l.folder.State
  chunk_written replied seq payload r hdr (s, false) = halt (broken write_failed) r s
  chunk_written replied seq payload r hdr (s, true) =
      let received' = r.received +ℤ pos (length payload) in
      record {
        saver = record r { h = r.h ++ payload; received = received' };
        disk = (write_meta r hdr received' (int64_of (suc seq)) s).0;
        progress = if replied then more else broken (protocol err_cancelled);
        replies = ack seq ∷ [];
      }

  -- handleChunk; `replied` is whether sendAck succeeds.
  unfoldable pub handle_chunk :
      Bool → Bytes → Saver → l.folder.State → Option FileHeader → After l.folder.State
  handle_chunk replied data' r s none = halt (broken (protocol chunk_before_header)) r s
  handle_chunk replied data' r s (some hdr) =
      let payload = drop 8 data' in
      if is_nil r.f
      then halt (broken (protocol chunk_before_header)) r s
      else if ltb (length data') 8
      then halt (broken (protocol chunk_too_short)) r s
      else if ltb_ℤ hdr.size (r.received +ℤ pos (length payload))
      then halt (broken (protocol too_many_bytes)) (record r { f = no_file }) s
      else chunk_written replied (get_uint64 data') payload r hdr (write_handle r.f payload s)

  -- The end of handleDone: the result of os.Rename, and the removal of the sidecar file.
  abbrev pub after_rename : Saver → l.folder.State × Bool → After l.folder.State
  after_rename r (s, false) = halt (broken rename_failed) r s
  after_rename r (s, true) = halt saved r (l.folder.remove r.meta_path s).0

  abbrev pub free_found : Saver → l.folder.State → Option Bytes → After l.folder.State
  free_found r s none = halt searching r s
  free_found r s (some path) =
      after_rename (record r { final_path = path }) (l.folder.rename r.partial_path path s)

  unfoldable pub handle_done : ℕ → Saver → l.folder.State → Option FileHeader → After l.folder.State
  handle_done fuel r s none = halt (broken (protocol done_before_header)) r s
  handle_done fuel r s (some hdr) =
      let r' = record r { f = closed } in
      if is_nil r.f
      then halt (broken (protocol done_before_header)) r s
      else if bytes_eq (l.wire.sha256_hex r.h) hdr.sha256
      then free_found r' s (unique_path l fuel r.final_path s)
      else halt (broken (protocol integrity_failed)) r' s

  -- Feed
  unfoldable pub feed : ℕ → Bool → Bytes → Saver → l.folder.State → After l.folder.State
  feed fuel replied [] r s = halt more r s
  feed fuel replied (tag ∷ rest) r s =
      if tag == tag_file_header
      then handle_header replied r s (l.wire.decode_header rest)
      else if tag == tag_chunk
      then handle_chunk replied rest r s r.header
      else if tag == tag_transfer_done
      then handle_done fuel r s r.header
      else if tag == tag_transfer_error
      then halt (broken (protocol (sender_error (l.wire.decode_error rest)))) r s
      else if tag == tag_cancelled
      then halt (broken (protocol err_cancelled)) r s
      else halt more r s
