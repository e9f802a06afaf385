-- ===== src/Transfer/Roundtrip.antt =====
-- Every frame of internal/transfer/transfer.go is read back as it was built.
use gmmff.Prelude.{
  ℕ, suc, ◌+◌, ◌%◌, ◌^◌, ◌≤◌, ◌<◌, ◌≡◌, refl, ap, [], ◌∷◌, ◌++◌, none, some, ltb, length,
  length-append, length-take, take, take-length-append, drop-length-append, if◌then◌else◌, arith,
  false, Bool-cases, inl, inr,
}
use gmmff.Prelude.Bytes.{Bytes}
use gmmff.Transfer.Frames.{
  tag_relayed_message, put_uint64, get_uint64, build_ack_frame, parse_ack_frame, build_resume_frame,
  parse_resume_frame, build_relayed_message_frame, parse_relayed_message_frame,
}

pub get_uint64-put_uint64 :
    (n : ℕ) (rest : Bytes) → n < 2 ^ 64 → get_uint64 (put_uint64 n ++ rest) ≡ n
unfolding get_uint64 put_uint64
get_uint64-put_uint64 n rest h = omega arith

-- A 64-bit sequence number comes back from an acknowledgement and from a resume frame, and neither
-- is read as the other.
pub parse-build-seq :
    (n : ℕ)
    → n < 2 ^ 64
    → (parse_ack_frame (build_ack_frame n) ≡ some n)
      × (parse_resume_frame (build_resume_frame n) ≡ some n)
      × (parse_ack_frame (build_resume_frame n) ≡ none)
      × (parse_resume_frame (build_ack_frame n) ≡ none)
unfolding parse_ack_frame build_ack_frame parse_resume_frame build_resume_frame put_uint64
parse-build-seq n h =
    (ap some (get_uint64-put_uint64 n [] h), ap some (get_uint64-put_uint64 n [] h), refl, refl)

-- A frame whose identifier fits a byte is read back.
parse-relayed_frame :
    (sid text : Bytes)
    → length sid ≤ 255
    → parse_relayed_message_frame (tag_relayed_message ∷ (length sid % 256) ∷ (sid ++ text))
      ≡ (sid, text)
unfolding parse_relayed_message_frame
parse-relayed_frame sid text h =
    let e : length sid % 256 ≡ length sid = omega arith in
    let fits : ltb (suc (suc (length (sid ++ text)))) (2 + length sid) ≡ false =
      rw (length-append sid text) (ground arith) in
    let two : ltb (suc (suc (length (sid ++ text)))) 2 ≡ false = ground arith in
    let big : 2 + length sid ≡ suc (suc (length sid)) = omega arith in
    rw (e, two, fits, take-length-append sid text, big)
      (ap (λ r. (sid, r)) (drop-length-append sid text))

-- A relayed message comes back with its text whole, and with the sender's identifier, of which the
-- first 255 bytes are kept.
pub parse-build-relayed_message :
    (sender text : Bytes)
    → parse_relayed_message_frame (build_relayed_message_frame sender text)
      ≡ (if ltb 255 (length sender) then take 255 sender else sender, text)
unfolding build_relayed_message_frame
parse-build-relayed_message sender text =
    parse-relayed_frame (if ltb 255 (length sender) then take 255 sender else sender) text
      (elim (Bool-cases (ltb 255 (length sender))) [
        | inl e ↦ rw (e, length-take 255 sender) (omega arith)
        | inr e ↦ rw e (ground arith)
      ])
