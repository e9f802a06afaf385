-- ===== src/Transfer/Tests.antt =====
-- The transfer protocol of internal/transfer/transfer.go on concrete frames and names.
use gmmff.Prelude.{
  ◌≢◌, ◌*◌, ◌≤◌, length, ℕ, ◌≡◌, refl, sym, ap, ◌+◌, arith, Bool, true, false, List, [], ◌∷◌, ◌++◌,
  none, some,
}
use gmmff.Prelude.Int.{pos}
use gmmff.Prelude.Bytes.{Bytes, codes, bytes_eq}
use gmmff.Transfer.Frames.{
  build_ack_frame, parse_ack_frame, build_resume_frame, parse_resume_frame, chunk_frame, put_uint64,
  tag_transfer_done,
}
use gmmff.Transfer.Roundtrip.{parse-build-seq}
use gmmff.Transfer.Names.{
  Strings, upper, sanitise_name, has_dots, trim_right, is_windows_reserved, safe_bytes, stem_of,
  is_device, cut_dots, without_dots,
}
use gmmff.Transfer.SafeNames.{IsSafe, sanitise_name-IsSafe}
use gmmff.Transfer.Receive.{
  chunk_frames, FileHeader, Wire, new_receiver, completed, feed, feeds, receive, sent_frames,
  header_frame,
}
use gmmff.Transfer.Integrity.{Sound, IsVerified, feeds-new_receiver-Sound, feed-IsVerified}
use gmmff.Transfer.Ending.{served, send_loop-served}
use gmmff.Transfer.Window.{
  Sending, Event, ack, reads, no_error, end_of_file, stopped, transferred, send_loop, sending_from,
  clamp_window, clamp_chunk,
}
use gmmff.Transfer.Flow.{Kept, send_loop-sending_from}
use gmmff.Transfer.Delivery.{joined, numbers_from, taken, receive-sent_frames}

abbrev pub upper_all : Bytes → Bytes
upper_all [] = []
upper_all (c ∷ s) = upper c ∷ upper_all s

pub append_nothing : (s : Bytes) → s ≡ ([] ++ s) ++ []
append_nothing [] = refl
append_nothing (c ∷ s) = ap (λ l. c ∷ l) (append_nothing s)

-- The package strings on names in ASCII without white space around them.
abbrev pub plain_strings : Strings
plain_strings = record {
  trim_space = λ s. s;
  to_upper = upper_all;
  trim_space_part = λ s. ([], [], append_nothing s);
  to_upper_nil = refl;
  to_upper_ascii = λ c s h. refl;
}

abbrev pub header : FileHeader
header = record {
  name = codes "../notes.txt";
  size = pos 5;
  chunk_size = pos 3;
  sha256 = 15 ∷ [];
  chunks = pos 2;
  message = [];
}

abbrev pub sum : Bytes → ℕ
sum [] = 0
sum (c ∷ s) = c + sum s

-- Every header decodes to `header`, and the digest is a sum of the bytes.
abbrev pub plain_wire : Wire
plain_wire = record {
  strings = plain_strings;
  decode_header = λ _. some header;
  decode_error = λ b. (b, []);
  sha256_hex = λ b. sum b ∷ [];
}

abbrev pub pieces : List Bytes
pieces = (1 ∷ 2 ∷ 3 ∷ []) ∷ (4 ∷ 5 ∷ []) ∷ []

parse-build-seq_example :
    (parse_ack_frame (build_ack_frame 65537) ≡ some 65537)
    × (parse_resume_frame (build_resume_frame 65537) ≡ some 65537)
    × (parse_ack_frame (build_resume_frame 65537) ≡ none)
    × (parse_resume_frame (build_ack_frame 65537) ≡ none)
parse-build-seq_example = parse-build-seq 65537 (omega arith)

sanitise_name-IsSafe_example : IsSafe plain_strings (sanitise_name plain_strings (codes "../con"))
sanitise_name-IsSafe_example = sanitise_name-IsSafe plain_strings (codes "../con")

pub notes_kept : sanitise_name plain_strings (codes "../notes.txt") ≡ codes "notes.txt"
unfolding sanitise_name safe_bytes without_dots has_dots cut_dots trim_right is_windows_reserved
    stem_of is_device bytes_eq
notes_kept = refl

notes-IsSafe : IsSafe plain_strings (codes "notes.txt")
notes-IsSafe = rw (sym notes_kept) (sanitise_name-IsSafe plain_strings (codes "../notes.txt"))

-- A header, a chunk of three bytes whose acknowledgement fails, and one of nine, which is too long.
abbrev hostile : List (Bool × Bytes)
hostile =
    (true, header_frame [])
    ∷ (false, chunk_frame 0 (1 ∷ 2 ∷ 3 ∷ []))
    ∷ (true, chunk_frame 1 (1 ∷ 2 ∷ 3 ∷ 4 ∷ 5 ∷ 6 ∷ 7 ∷ 8 ∷ 9 ∷ []))
    ∷ []

feeds-new_receiver-Sound_example : Sound plain_strings (feeds plain_wire hostile new_receiver)
feeds-new_receiver-Sound_example = feeds-new_receiver-Sound plain_wire hostile

abbrev honest : List (Bool × Bytes)
honest =
    (true, header_frame [])
    ∷ (true, chunk_frame 0 (1 ∷ 2 ∷ 3 ∷ []))
    ∷ (true, chunk_frame 1 (4 ∷ 5 ∷ []))
    ∷ []

honest_completed :
    (feed plain_wire true (tag_transfer_done ∷ []) (feeds plain_wire honest new_receiver)).outcome
    ≡ completed
unfolding feed feeds chunk_frame put_uint64 bytes_eq
honest_completed = refl

feed-IsVerified_example :
    IsVerified plain_wire
      (feed plain_wire true
        (tag_transfer_done ∷ [])
        (feeds plain_wire honest new_receiver)).receiver
feed-IsVerified_example =
    feed-IsVerified plain_wire honest true (tag_transfer_done ∷ []) honest_completed

receive-sent_frames_example : receive plain_wire (sent_frames [] pieces) [] new_receiver ≡ record {
  receiver = taken header (sanitise_name plain_strings header.name) (joined pieces) true;
  outcome = completed;
  acks = numbers_from 0 2;
}
unfolding joined
receive-sent_frames_example =
    receive-sent_frames plain_wire [] header pieces refl (omega arith) refl (omega arith)

-- A window of two: both pieces are sent, the first is acknowledged, the file ends, and then the second
-- is acknowledged.
abbrev exchange : List Event
exchange =
    reads (1 ∷ 2 ∷ 3 ∷ []) no_error true
    ∷ reads (4 ∷ 5 ∷ []) no_error true
    ∷ ack (some 0)
    ∷ reads [] end_of_file true
    ∷ ack (some 1)
    ∷ []

exchange_complete :
    send_loop 2 true exchange (sending_from 0)
    ≡ stopped transferred (record {
      base = 2;
      next = 2;
      file_eof = true;
      consumed = 1 ∷ 2 ∷ 3 ∷ 4 ∷ 5 ∷ [];
      sent =
          chunk_frame 0 (1 ∷ 2 ∷ 3 ∷ [])
          ∷ chunk_frame 1 (4 ∷ 5 ∷ [])
          ∷ (tag_transfer_done ∷ [])
          ∷ [];
      acks = 0 ∷ 1 ∷ [];
    })
unfolding send_loop
exchange_complete = refl

send_loop-sending_from_example :
    Kept 0 (clamp_window (pos 2)) (send_loop (clamp_window (pos 2)) true exchange (sending_from 0))
send_loop-sending_from_example = send_loop-sending_from 0 (pos 2) true exchange (omega arith)

abbrev five : Bytes
five = 1 ∷ 2 ∷ 3 ∷ 4 ∷ 5 ∷ []

five_fit : length five ≤ clamp_chunk (pos 1000000)
unfolding clamp_chunk
five_fit = omega arith

cons_not_nil : (x : ℕ) (xs : Bytes) → x ∷ xs ≢ []
cons_not_nil x xs h = cc

send_loop-served_example :
    let es =
      served (2 * 2 + 1) (clamp_window (pos 1)) ((1 ∷ []) ∷ (2 ∷ 3 ∷ []) ∷ []) (sending_from 3) in
    (t : Sending) × ((send_loop (clamp_window (pos 1)) true es (sending_from 3)
        ≡ stopped transferred t)
      × ((t.consumed ≡ joined ((1 ∷ []) ∷ (2 ∷ 3 ∷ []) ∷ []))
          × (t.sent
              ≡ chunk_frames 3 ((1 ∷ []) ∷ (2 ∷ 3 ∷ []) ∷ []) ++ (tag_transfer_done ∷ []) ∷ [])))
send_loop-served_example =
    send_loop-served 3 (pos 1) ((1 ∷ []) ∷ (2 ∷ 3 ∷ []) ∷ [])
      (cons_not_nil 1 [], (cons_not_nil 2 (3 ∷ []), tt)) (omega arith)
