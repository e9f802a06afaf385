-- ===== src/Transfer/Integrity.antt =====
-- What the in-memory receiver of internal/transfer/transfer.go promises, whatever a peer sends: it
-- never holds more than was announced, and completes only with the announced hash.
use gmmff.Prelude.{
  ◌+◌, ◌≡◌, refl, sym, ap, ◌∙◌, ◌⊎◌, inl, inr, Bool, List, [], ◌∷◌, ◌++◌, Option, none, some, ltb,
  ◌==◌, length, length-append, drop, arith, Bool-cases, Option-cases,
}
use gmmff.Prelude.Int.{pos, ltb_ℤ, ◌≤ℤ◌}
use gmmff.Prelude.Bytes.{Bytes, bytes_eq, bytes_eq_iff}
use gmmff.Transfer.Names.{Strings}
use gmmff.Transfer.SafeNames.{IsSafe, sanitise_name-IsSafe}
use gmmff.Transfer.Frames.{
  tag_file_header, tag_chunk, tag_transfer_done, tag_transfer_error, tag_cancelled,
}
use gmmff.Transfer.Receive.{
  FileHeader, Wire, Receiver, new_receiver, completed, Fed, feed, feeds, on_header, on_chunk,
  on_done,
}

-- What holds of the buffer and of the file name, with and without a header.
unfoldable pub HeaderSound : Strings → Bytes → Bytes → Option FileHeader → Type 0
HeaderSound str b n none = b ≡ []
HeaderSound str b n (some hdr) = ((b ≡ []) ⊎ (pos (length b) ≤ℤ hdr.size)) × IsSafe str n

unfoldable pub Sound : Strings → Receiver → Type 0
Sound str r = (r.h ≡ r.buf) × HeaderSound str r.buf r.file_name r.header

module _ (w : Wire) where
  on_header-Sound :
      (r : Receiver) (o : Option FileHeader)
      → Sound w.strings r
      → Sound w.strings (on_header w r o).receiver
  unfolding Sound HeaderSound
  on_header-Sound r none s = s
  on_header-Sound r (some hdr) s = (refl, (inl refl, sanitise_name-IsSafe w.strings hdr.name))

  on_chunk-Sound :
      (acked : Bool) (d : Bytes) (r : Receiver) (o : Option FileHeader)
      → r.header ≡ o
      → r.h ≡ r.buf
      → HeaderSound w.strings r.buf r.file_name o
      → Sound w.strings (on_chunk w acked d r o).receiver
  unfolding Sound HeaderSound
  on_chunk-Sound acked d r none e s b = (s, rw e b)
  on_chunk-Sound acked d r (some hdr) e s b = elim (Bool-cases (ltb (length d) 8)) [
    | inl short ↦ rw short (s, rw e b)
    | inr long ↦ elim (Bool-cases (ltb_ℤ hdr.size (pos (length r.buf + length (drop 8 d))))) [
      | inl big ↦ rw (long, big) (s, rw e b)
      | inr fits ↦
          rw (long, fits)
            (
              ap (λ x. x ++ drop 8 d) s,
              rw e (inr (rw (length-append r.buf (drop 8 d)) (ground arith)), b.1),
            )
    ]
  ]

  on_done-Sound :
      (r : Receiver) (o : Option FileHeader)
      → Sound w.strings r
      → Sound w.strings (on_done w r o).receiver
  unfolding Sound
  on_done-Sound r none s = s
  on_done-Sound r (some hdr) s = elim (Bool-cases (bytes_eq (w.sha256_hex r.h) hdr.sha256)) [
    | inl e ↦ rw e s
    | inr e ↦ rw e s
  ]

  feed-Sound :
      (acked : Bool) (frame : Bytes) (r : Receiver)
      → Sound w.strings r
      → Sound w.strings (feed w acked frame r).receiver
  unfolding feed Sound
  feed-Sound acked [] r s = s
  feed-Sound acked (tag ∷ rest) r s = elim (Bool-cases (tag == tag_file_header)) [
    | inl a ↦ rw a (on_header-Sound r (w.decode_header rest) s)
    | inr a ↦ elim (Bool-cases (tag == tag_chunk)) [
      | inl b ↦ rw (a, b) (on_chunk-Sound acked rest r r.header refl s.0 s.1)
      | inr b ↦ elim (Bool-cases (tag == tag_transfer_done)) [
        | inl c ↦ rw (a, b, c) (on_done-Sound r r.header s)
        | inr c ↦ rw (a, b, c) (ground arith)
      ]
    ]
  ]

  new_receiver-Sound : Sound w.strings new_receiver
  unfolding Sound HeaderSound
  new_receiver-Sound = (refl, refl)

  feeds-Sound :
      (fs : List (Bool × Bytes)) (r : Receiver) → Sound w.strings r → Sound w.strings (feeds w fs r)
  unfolding feeds
  feeds-Sound [] r s = s
  feeds-Sound ((acked, frame) ∷ fs) r s =
      feeds-Sound fs (feed w acked frame r).receiver (feed-Sound acked frame r s)

-- Whatever frames a peer sends, in whatever order, and whatever becomes of the acknowledgements: the
-- hash is taken of exactly the bytes that the buffer holds; these are no more than the last header
-- announced, or none; and the file name is safe once there is a header.
pub feeds-new_receiver-Sound :
    (w : Wire) (fs : List (Bool × Bytes)) → Sound w.strings (feeds w fs new_receiver)
feeds-new_receiver-Sound w fs = feeds-Sound w fs new_receiver (new_receiver-Sound w)

-- What a call that returns (true, nil) has found.
unfoldable pub IsVerified : Wire → Receiver → Type 0
IsVerified w r = (hdr : FileHeader) × ((r.header ≡ some hdr) × (w.sha256_hex r.buf ≡ hdr.sha256))

unfoldable pub Verified : Wire → Fed → Type 0
Verified w f = f.outcome ≡ completed → IsVerified w f.receiver

module _ (w : Wire) where
  on_chunk-Verified :
      (acked : Bool) (d : Bytes) (r : Receiver) (o : Option FileHeader)
      → Verified w (on_chunk w acked d r o)
  unfolding Verified
  on_chunk-Verified acked d r none e = cc
  on_chunk-Verified acked d r (some hdr) e = elim (Bool-cases (ltb (length d) 8)) [
    | inl short ↦ cc
    | inr long ↦ elim (Bool-cases (ltb_ℤ hdr.size (pos (length r.buf + length (drop 8 d))))) [
      | inl big ↦ cc
      | inr fits ↦ elim (Bool-cases acked) [ inl k ↦ cc | inr k ↦ cc ]
    ]
  ]

  on_done-Verified :
      (r : Receiver) (o : Option FileHeader)
      → r.header ≡ o
      → r.h ≡ r.buf
      → Verified w (on_done w r o)
  unfolding Verified IsVerified
  on_done-Verified r none e s k = cc
  on_done-Verified r (some hdr) e s k = elim (Bool-cases (bytes_eq (w.sha256_hex r.h) hdr.sha256)) [
    | inl same ↦
        rw same
          (hdr, (e, ap w.sha256_hex (sym s) ∙ (bytes_eq_iff (w.sha256_hex r.h) hdr.sha256).0 same))
    | inr other ↦ cc
  ]

  feed-Verified :
      (acked : Bool) (frame : Bytes) (r : Receiver)
      → Sound w.strings r
      → Verified w (feed w acked frame r)
  unfolding feed Sound Verified
  feed-Verified acked [] r s k = cc
  feed-Verified acked (tag ∷ rest) r s k = elim (Bool-cases (tag == tag_file_header)) [
    | inl a ↦ elim (Option-cases (w.decode_header rest)) [ inl o ↦ cc | inr (x, o) ↦ cc ]
    | inr a ↦ elim (Bool-cases (tag == tag_chunk)) [
      | inl b ↦ rw (a, b) (on_chunk-Verified acked rest r r.header (rw (a, b) at k))
      | inr b ↦ elim (Bool-cases (tag == tag_transfer_done)) [
        | inl c ↦ rw (a, b, c) (on_done-Verified r r.header refl s.0 (rw (a, b, c) at k))
        | inr c ↦ elim (Bool-cases (tag == tag_transfer_error)) [
          | inl d ↦ cc
          | inr d ↦ elim (Bool-cases (tag == tag_cancelled)) [ inl e ↦ cc | inr e ↦ cc ]
        ]
      ]
    ]
  ]

-- Whatever came before, a call of Feed that returns (true, nil) leaves a buffer whose SHA-256 is the
-- one that the last header announced.
pub feed-IsVerified :
    (w : Wire) (fs : List (Bool × Bytes)) (acked : Bool) (frame : Bytes)
    → (feed w acked frame (feeds w fs new_receiver)).outcome ≡ completed
    → IsVerified w (feed w acked frame (feeds w fs new_receiver)).receiver
unfolding Verified
feed-IsVerified w fs acked frame =
    feed-Verified w acked frame (feeds w fs new_receiver) (feeds-new_receiver-Sound w fs)
