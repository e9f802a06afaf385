-- ===== src/Transfer/Receive.antt =====
-- The in-memory receiver ReceiveStateMem of internal/transfer/transfer.go and the frames that
-- the sender puts on the channel when nothing is resumed.
use gmmff.Prelude.{
  ℕ, suc, ◌+◌, Bool, true, false, List, [], ◌∷◌, ◌++◌, Option, none, some, ltb, ◌==◌, length, drop,
  if◌then◌else◌,
}
use gmmff.Prelude.Int.{ℤ, pos, ltb_ℤ}
use gmmff.Prelude.Bytes.{Bytes, bytes_eq}
use gmmff.Transfer.Names.{Strings, sanitise_name}
use gmmff.Transfer.Frames.{
  tag_file_header, tag_chunk, tag_transfer_done, tag_transfer_error, tag_cancelled, get_uint64,
  chunk_frame,
}

pub record FileHeader : Type 0 where
  pub name : Bytes
  pub size : ℤ
  pub chunk_size : ℤ
  pub sha256 : Bytes
  pub chunks : ℤ
  pub message : Bytes

-- What the source calls: the JSON decoders of a header and of a sender's error, and the SHA-256 of
-- some bytes, written in hex.
pub record Wire : Type 0 where
  pub strings : Strings
  pub decode_header : Bytes → Option FileHeader
  pub decode_error : Bytes → Bytes × Bytes
  pub sha256_hex : Bytes → Bytes

-- The running hash `h` is the bytes that were written to it.
pub record Receiver : Type 0 where
  pub header : Option FileHeader
  pub buf : Bytes
  pub h : Bytes
  pub is_done : Bool
  pub file_name : Bytes

-- NewReceiveStateMem
abbrev pub new_receiver : Receiver
new_receiver = record { header = none; buf = []; h = []; is_done = false; file_name = [] }

pub data FeedError : Type 0 where
  bad_header : FeedError
  chunk_before_header : FeedError
  chunk_too_short : FeedError
  too_many_bytes : FeedError
  done_before_header : FeedError
  integrity_failed : FeedError
  sender_error : Bytes × Bytes → FeedError
  err_cancelled : FeedError

-- What Feed returns: (false, nil), (true, nil) or (false, err).
pub data Outcome : Type 0 where
  waiting : Outcome
  completed : Outcome
  refused : FeedError → Outcome

-- The state after a call, what it returned, and the sequence numbers it passed to sendAck.
pub record Fed : Type 0 where
  pub receiver : Receiver
  pub outcome : Outcome
  pub acks : List ℕ

abbrev pub refuse : FeedError → Receiver → Fed
refuse e r = record { receiver = r; outcome = refused e; acks = [] }

module _ (w : Wire) where
  -- The case TagFileHeader, once the header is decoded.
  abbrev pub on_header : Receiver → Option FileHeader → Fed
  on_header r none = refuse bad_header r
  on_header r (some hdr) = record {
    receiver = record r {
      header = some hdr;
      file_name = sanitise_name w.strings hdr.name;
      h = [];
      buf = [];
    };
    outcome = waiting;
    acks = [];
  }

  -- The case TagChunk; `acked` is whether sendAck succeeds.
  abbrev pub on_chunk : Bool → Bytes → Receiver → Option FileHeader → Fed
  on_chunk acked data' r none = refuse chunk_before_header r
  on_chunk acked data' r (some hdr) =
      let payload = drop 8 data' in
      if ltb (length data') 8
      then refuse chunk_too_short r
      else if ltb_ℤ hdr.size (pos (length r.buf + length payload))
      then refuse too_many_bytes r
      else record {
        receiver = record r { buf = r.buf ++ payload; h = r.h ++ payload };
        outcome = if acked then waiting else refused err_cancelled;
        acks = get_uint64 data' ∷ [];
      }

  -- The case TagTransferDone
  abbrev pub on_done : Receiver → Option FileHeader → Fed
  on_done r none = refuse done_before_header r
  on_done r (some hdr) =
      if bytes_eq (w.sha256_hex r.h) hdr.sha256
      then record { receiver = record r { is_done = true }; outcome = completed; acks = [] }
      else refuse integrity_failed r

  -- Feed
  unfoldable pub feed : Bool → Bytes → Receiver → Fed
  feed acked [] r = record { receiver = r; outcome = waiting; acks = [] }
  feed acked (tag ∷ rest) r =
      if tag == tag_file_header
      then on_header r (w.decode_header rest)
      else if tag == tag_chunk
      then on_chunk acked rest r r.header
      else if tag == tag_transfer_done
      then on_done r r.header
      else if tag == tag_transfer_error
      then refuse (sender_error (w.decode_error rest)) r
      else if tag == tag_cancelled
      then refuse err_cancelled r
      else record { receiver = r; outcome = waiting; acks = [] }

  -- The receiver after some calls; its owner may go on whatever they return.
  unfoldable pub feeds : List (Bool × Bytes) → Receiver → Receiver
  feeds [] r = r
  feeds ((acked, frame) ∷ fs) r = feeds fs (feed acked frame r).receiver

  -- The calls of an owner that stops at the first result other than (false, nil).
  unfoldable pub receive : List Bytes → List ℕ → Receiver → Fed
  receive [] acks r = record { receiver = r; outcome = waiting; acks = acks }
  receive (f ∷ fs) acks r =
      let fed = feed true f r in
      let rest = receive fs (acks ++ fed.acks) fed.receiver in
      elim fed.outcome [
        | waiting ↦ rest
        | completed ↦ record {
          receiver = fed.receiver;
          outcome = completed;
          acks = acks ++ fed.acks;
        }
        | refused e ↦ record {
          receiver = fed.receiver;
          outcome = refused e;
          acks = acks ++ fed.acks;
        }
      ]

-- What sendHeader sends, with the header as JSON.
abbrev pub header_frame : Bytes → Bytes
header_frame json = tag_file_header ∷ json

-- The frames of a sender that starts at chunk 0: what it read, piece by piece, with the sequence
-- numbers counted up, and sendTag(TagTransferDone).
unfoldable pub chunk_frames : ℕ → List Bytes → List Bytes
chunk_frames seq [] = []
chunk_frames seq (p ∷ ps) = chunk_frame seq p ∷ chunk_frames (suc seq) ps

unfoldable pub sent_frames : Bytes → List Bytes → List Bytes
sent_frames json pieces =
    header_frame json ∷ (chunk_frames 0 pieces ++ (tag_transfer_done ∷ []) ∷ [])
