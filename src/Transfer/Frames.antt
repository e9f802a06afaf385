-- ===== src/Transfer/Frames.antt =====
-- The frames of internal/transfer/transfer.go: a tag byte, then the fields.
use gmmff.Prelude.{
  ℕ, ◌+◌, ◌*◌, ◌/◌, ◌%◌, ◌^◌, not, ◌||◌, [], ◌∷◌, ◌++◌, Option, none, some, ltb, ◌==◌, length, take,
  drop, get_or, if◌then◌else◌,
}
use gmmff.Prelude.Bytes.{Bytes}

abbrev pub tag_file_header : ℕ
tag_file_header = 0x01

abbrev pub tag_chunk : ℕ
tag_chunk = 0x02

abbrev pub tag_chunk_ack : ℕ
tag_chunk_ack = 0x03

abbrev pub tag_transfer_done : ℕ
tag_transfer_done = 0x04

abbrev pub tag_transfer_error : ℕ
tag_transfer_error = 0x06

abbrev pub tag_resume_from : ℕ
tag_resume_from = 0x07

abbrev pub tag_cancelled : ℕ
tag_cancelled = 0x08

abbrev pub tag_message : ℕ
tag_message = 0x09

abbrev pub tag_chat_close : ℕ
tag_chat_close = 0x0A

abbrev pub tag_participant_leave : ℕ
tag_participant_leave = 0x0B

abbrev pub tag_transfer_announce : ℕ
tag_transfer_announce = 0x0D

abbrev pub tag_transfer_accepted : ℕ
tag_transfer_accepted = 0x0E

abbrev pub tag_peer_count : ℕ
tag_peer_count = 0x10

abbrev pub tag_relayed_message : ℕ
tag_relayed_message = 0x11

-- binary.BigEndian.PutUint64
unfoldable pub put_uint64 : ℕ → Bytes
put_uint64 n =
    (n / 2 ^ 56 % 256)
    ∷ (n / 2 ^ 48 % 256)
    ∷ (n / 2 ^ 40 % 256)
    ∷ (n / 2 ^ 32 % 256)
    ∷ (n / 2 ^ 24 % 256)
    ∷ (n / 2 ^ 16 % 256)
    ∷ (n / 2 ^ 8 % 256)
    ∷ (n % 256)
    ∷ []

-- binary.BigEndian.Uint64 of at least eight bytes
unfoldable pub get_uint64 : Bytes → ℕ
get_uint64 b =
    get_or b 0 0 * 2 ^ 56
    + get_or b 1 0 * 2 ^ 48
    + get_or b 2 0 * 2 ^ 40
    + get_or b 3 0 * 2 ^ 32
    + get_or b 4 0 * 2 ^ 24
    + get_or b 5 0 * 2 ^ 16
    + get_or b 6 0 * 2 ^ 8
    + get_or b 7 0

-- frame[0] of a frame that is known not to be empty
abbrev pub tag_of : Bytes → ℕ
tag_of frame = get_or frame 0 0

-- Sender.sendChunk
unfoldable pub chunk_frame : ℕ → Bytes → Bytes
chunk_frame seq data' = tag_chunk ∷ (put_uint64 seq ++ data')

unfoldable pub build_ack_frame : ℕ → Bytes
build_ack_frame seq = tag_chunk_ack ∷ put_uint64 seq

unfoldable pub parse_ack_frame : Bytes → Option ℕ
parse_ack_frame frame =
    if ltb (length frame) 9 || not (tag_of frame == tag_chunk_ack)
    then none
    else some (get_uint64 (drop 1 frame))

unfoldable pub build_resume_frame : ℕ → Bytes
build_resume_frame seq = tag_resume_from ∷ put_uint64 seq

unfoldable pub parse_resume_frame : Bytes → Option ℕ
parse_resume_frame frame =
    if ltb (length frame) 9 || not (tag_of frame == tag_resume_from)
    then none
    else some (get_uint64 (drop 1 frame))

unfoldable pub build_message_frame : Bytes → Bytes
build_message_frame text = tag_message ∷ text

abbrev pub build_chat_close_frame : Bytes
build_chat_close_frame = tag_chat_close ∷ []

abbrev pub build_participant_leave_frame : Bytes
build_participant_leave_frame = tag_participant_leave ∷ []

unfoldable pub parse_message_frame : Bytes → Bytes
parse_message_frame frame =
    if ltb (length frame) 2 || not (tag_of frame == tag_message) then [] else drop 1 frame

unfoldable pub build_transfer_announce_frame : Bytes → Bytes
build_transfer_announce_frame label = tag_transfer_announce ∷ label

unfoldable pub parse_transfer_announce_frame : Bytes → Bytes
parse_transfer_announce_frame frame =
    if ltb (length frame) 2 || not (tag_of frame == tag_transfer_announce) then [] else drop 1 frame

unfoldable pub build_transfer_accepted_frame : Bytes → Bytes
build_transfer_accepted_frame label = tag_transfer_accepted ∷ label

-- A sender identifier is cut to 255 bytes, so that its length fits a byte.
unfoldable pub build_relayed_message_frame : Bytes → Bytes → Bytes
build_relayed_message_frame sender text =
    let sid = if ltb 255 (length sender) then take 255 sender else sender in
    tag_relayed_message ∷ (length sid % 256) ∷ (sid ++ text)

unfoldable pub parse_relayed_message_frame : Bytes → Bytes × Bytes
parse_relayed_message_frame frame =
    let n = get_or frame 1 0 in
    if ltb (length frame) 2 || not (tag_of frame == tag_relayed_message)
    then ([], [])
    else if ltb (length frame) (2 + n)
    then ([], [])
    else (take n (drop 2 frame), drop (2 + n) frame)

unfoldable pub build_peer_count_frame : ℕ → ℕ → Bytes
build_peer_count_frame count max_peers = tag_peer_count ∷ (count % 256) ∷ (max_peers % 256) ∷ []

unfoldable pub parse_peer_count_frame : Bytes → ℕ × ℕ
parse_peer_count_frame frame =
    if ltb (length frame) 3 || not (tag_of frame == tag_peer_count)
    then (0, 0)
    else (get_or frame 1 0, get_or frame 2 0)
