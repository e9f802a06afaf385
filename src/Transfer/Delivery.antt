-- ===== src/Transfer/Delivery.antt =====
-- A whole transfer of internal/transfer/transfer.go, from the frames of the sender to the bytes in the
-- in-memory receiver.
use mathlib.Core.List.{append_assoc, append-nil}
use gmmff.Prelude.{
  ℕ, zero, suc, ◌+◌, ◌<◌, ◌≤◌, ◌^◌, ◌≡◌, refl, sym, ap, ◌∙◌, Bool, true, false, List, [], ◌∷◌, ◌++◌,
  some, ltb, length, length-append, arith,
}
use gmmff.Prelude.Int.{pos, ltb_ℤ, ◌≤ℤ◌}
use gmmff.Prelude.Bytes.{Bytes, bytes_eq_refl}
use gmmff.Transfer.Names.{sanitise_name}
use gmmff.Transfer.Frames.{tag_transfer_done, put_uint64, chunk_frame}
use gmmff.Transfer.Roundtrip.{get_uint64-put_uint64}
use gmmff.Transfer.Receive.{
  FileHeader, Wire, Receiver, new_receiver, waiting, completed, feed, receive, chunk_frames,
  sent_frames, header_frame,
}

-- The sequence numbers from `seq` on.
unfoldable pub numbers_from : ℕ → ℕ → List ℕ
numbers_from seq zero = []
numbers_from seq (suc n) = seq ∷ numbers_from (suc seq) n

unfoldable pub joined : List Bytes → Bytes
joined [] = []
joined (p ∷ ps) = p ++ joined ps

-- A receiver that has a header and has taken these bytes.
abbrev pub taken : FileHeader → Bytes → Bytes → Bool → Receiver
taken hdr n b d = record { header = some hdr; buf = b; h = b; is_done = d; file_name = n }

module _ (w : Wire) (f : Bytes) (fs : List Bytes) (acks a : List ℕ) (r r' : Receiver) where
  pub receive-waiting :
      feed w true f r ≡ record { receiver = r'; outcome = waiting; acks = a }
      → receive w (f ∷ fs) acks r ≡ receive w fs (acks ++ a) r'
  unfolding receive
  receive-waiting e = rw (receive, e) (ap (λ x. receive w fs (acks ++ x.acks) x.receiver) e)

  receive-completed :
      feed w true f r ≡ record { receiver = r'; outcome = completed; acks = a }
      → receive w (f ∷ fs) acks r ≡ record { receiver = r'; outcome = completed; acks = acks ++ a }
  unfolding receive
  receive-completed e =
      rw (receive, e)
        (ap (λ x. record { receiver = x.receiver; outcome = completed; acks = acks ++ x.acks }) e)

module _ (w : Wire) (hdr : FileHeader) (n : Bytes) where
  feed-chunk_frame :
      (seq : ℕ) (p b : Bytes)
      → seq < 2 ^ 64
      → pos (length b + length p) ≤ℤ hdr.size
      → feed w true (chunk_frame seq p) (taken hdr n b false)
        ≡ record { receiver = taken hdr n (b ++ p) false; outcome = waiting; acks = seq ∷ [] }
  unfolding feed chunk_frame put_uint64
  feed-chunk_frame seq p b h fits =
      let e : ltb_ℤ hdr.size (pos (length b + length p)) ≡ false = ground arith in
      let long : ltb (length (put_uint64 seq ++ p)) 8 ≡ false = ground arith in
      rw (long, e, get_uint64-put_uint64 seq p h) refl

  feed-done :
      (b : Bytes)
      → w.sha256_hex b ≡ hdr.sha256
      → feed w true (tag_transfer_done ∷ []) (taken hdr n b false)
        ≡ record { receiver = taken hdr n b true; outcome = completed; acks = [] }
  unfolding feed
  feed-done b e = rw (e, bytes_eq_refl hdr.sha256) refl

  receive-chunk_frames :
      (ps : List Bytes) (seq : ℕ) (b : Bytes) (acks : List ℕ)
      → seq + length ps ≤ 2 ^ 64
      → pos (length b + length (joined ps)) ≤ℤ hdr.size
      → w.sha256_hex (b ++ joined ps) ≡ hdr.sha256
      → receive w (chunk_frames seq ps ++ (tag_transfer_done ∷ []) ∷ []) acks (taken hdr n b false)
        ≡ record {
          receiver = taken hdr n (b ++ joined ps) true;
          outcome = completed;
          acks = acks ++ numbers_from seq (length ps);
        }
  unfolding chunk_frames joined numbers_from
  receive-chunk_frames [] seq b acks small fits same =
      let e : w.sha256_hex b ≡ hdr.sha256 = ap w.sha256_hex (sym (append-nil b)) ∙ same in
      rw (append-nil b) (
        receive-completed w (tag_transfer_done ∷ []) [] acks [] (taken hdr n b false)
          (taken hdr n b true) (feed-done b e))
  receive-chunk_frames (p ∷ ps) seq b acks small fits same =
      let e = feed-chunk_frame seq p b (omega arith) (omega (arith, length-append p (joined ps))) in
      let rest =
        receive-chunk_frames ps (suc seq) (b ++ p) (acks ++ seq ∷ []) (omega arith)
          (omega (arith, length-append b p, length-append p (joined ps)))
          (ap w.sha256_hex (append_assoc b p (joined ps)) ∙ same) in
      receive-waiting w (chunk_frame seq p)
        (chunk_frames (suc seq) ps ++ (tag_transfer_done ∷ []) ∷ []) acks (seq ∷ [])
        (taken hdr n b false) (taken hdr n (b ++ p) false) e
      ∙ rest
      ∙ rw
          (
            append_assoc b p (joined ps),
            append_assoc acks (seq ∷ []) (numbers_from (suc seq) (length ps)),
          )
          refl

pub feed-header_frame :
    (w : Wire) (json : Bytes) (hdr : FileHeader)
    → w.decode_header json ≡ some hdr
    → feed w true (header_frame json) new_receiver ≡ record {
      receiver = taken hdr (sanitise_name w.strings hdr.name) [] false;
      outcome = waiting;
      acks = [];
    }
unfolding feed
feed-header_frame w json hdr e = rw e refl

-- Sent as a header, chunks numbered from 0 and TransferDone, a file arrives whole: if the header
-- announces at least the size of the pieces together and their SHA-256, no acknowledgement fails, and
-- there are at most 2^64 chunks, then the receiver completes with exactly the bytes of the pieces,
-- under the announced name made safe, and has acknowledged each chunk once, in order.
pub receive-sent_frames :
    (w : Wire) (json : Bytes) (hdr : FileHeader) (pieces : List Bytes)
    → w.decode_header json ≡ some hdr
    → pos (length (joined pieces)) ≤ℤ hdr.size
    → w.sha256_hex (joined pieces) ≡ hdr.sha256
    → length pieces ≤ 2 ^ 64
    → receive w (sent_frames json pieces) [] new_receiver ≡ record {
      receiver = taken hdr (sanitise_name w.strings hdr.name) (joined pieces) true;
      outcome = completed;
      acks = numbers_from 0 (length pieces);
    }
unfolding sent_frames
receive-sent_frames w json hdr pieces e fits same small =
    let n = sanitise_name w.strings hdr.name in
    receive-waiting w (header_frame json) (chunk_frames 0 pieces ++ (tag_transfer_done ∷ []) ∷ [])
      [] [] new_receiver (taken hdr n [] false) (feed-header_frame w json hdr e)
    ∙ receive-chunk_frames w hdr n pieces 0 [] [] (omega arith) (omega arith) same
