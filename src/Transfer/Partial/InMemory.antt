-- ===== src/Transfer/Partial/InMemory.antt =====
-- The two receivers of internal/transfer/transfer.go compared: in a directory in which every call
-- succeeds, the one on disk does what the one in memory does.
use mathlib.Core.List.{map-append}
use gmmff.Prelude.{
  ℕ, ◌+◌, ◌≡◌, ◌≢◌, refl, sym, ap, ◌∙◌, ◌⊎◌, inl, inr, true, false, List, [], ◌∷◌, ◌++◌, map, none,
  some, ltb, ◌==◌, length, length-append, drop, Bool-cases,
}
use gmmff.Prelude.Int.{pos, ltb_ℤ, ◌+ℤ◌}
use gmmff.Prelude.Bytes.{Bytes, bytes_eq}
use gmmff.Transfer.Names.{sanitise_name}
use gmmff.Transfer.Frames.{
  tag_file_header, tag_of, get_uint64, tag_chunk, tag_transfer_done, tag_transfer_error,
  tag_cancelled,
}
use gmmff.Transfer.Receive.{
  FileHeader, FeedError, Wire, Receiver, Outcome, waiting, completed, refused, refuse, sender_error,
  err_cancelled, Fed, on_chunk, on_done, receive, new_receiver, header_frame,
}
use gmmff.Transfer.Receive.{feed as feed_mem}
use gmmff.Transfer.Delivery.{taken, receive-waiting, feed-header_frame}
use gmmff.Transfer.Folder.{Local}
use gmmff.Transfer.Partial.{
  Saver, new_saver, Progress, more, saved, searching, broken, protocol, Reply, ack, After, halt,
  feed, handle_chunk, handle_done,
}
use gmmff.Transfer.Partial.Going.{saving, meta_name}
use gmmff.Transfer.Partial.Saved.{pos_length-append}
use gmmff.Transfer.Partial.Working.{NeverFails, Held, after, chunk_fits, done_matches}
use gmmff.Transfer.Partial.Resume.{feed-header_frame-fresh}
use gmmff.Transfer.Partial.Saving.{goes_on, save, save-more}

-- How the receiver on disk reports what the one in memory returns.
abbrev pub progress_of : Outcome → Progress
progress_of waiting = more
progress_of completed = saved
progress_of (refused e) = broken (protocol e)

-- The receiver in memory that has taken these bytes.
abbrev mem_of : Local → FileHeader → Bytes → Receiver
mem_of l hdr b = taken hdr (sanitise_name l.wire.strings hdr.name) b false

-- The same result and the same replies, and once the file is complete, the same bytes.
unfoldable pub Agrees : (l : Local) → FileHeader → After l.folder.State → Fed → Type 0
Agrees l hdr a m =
    (a.progress ≡ progress_of m.outcome)
    × (a.replies ≡ map ack m.acks)
    × (m.outcome ≡ completed
        → l.folder.holds (sanitise_name l.wire.strings hdr.name) a.disk ≡ some m.receiver.buf)

unfoldable pub NoHeaders : List Bytes → Type 0
NoHeaders [] = Unit
NoHeaders (f ∷ fs) = ((tag_of f == tag_file_header) ≡ false) × NoHeaders fs

outcome_stops : (o : Outcome) → o ≢ waiting → (o ≡ completed) ⊎ ((e : FeedError) × (o ≡ refused e))
outcome_stops waiting h = absurd (h refl)
outcome_stops completed h = inl refl
outcome_stops (refused e) h = inr (e, refl)

progress_stops : (o : Outcome) → o ≢ waiting → progress_of o ≢ more
progress_stops waiting h = λ e. h refl
progress_stops completed h = λ e. cc
progress_stops (refused x) h = λ e. cc

goes_on_stops :
    {S : Type 0} (replies : List Reply) (p : Progress) (a rest : After S)
    → p ≢ more
    → goes_on replies p a rest ≡ record a { replies = replies }
goes_on_stops replies more a rest h = absurd (h refl)
goes_on_stops replies saved a rest h = refl
goes_on_stops replies searching a rest h = refl
goes_on_stops replies (broken e) a rest h = refl

save-stops :
    (l : Local) (fuel : ℕ) (f : Bytes) (fs : List Bytes) (replies : List Reply) (r : Saver)
    (s : l.folder.State)
    → (feed l fuel true f r s).progress ≢ more
    → save l fuel (f ∷ fs) replies r s
      ≡ record (feed l fuel true f r s) { replies = replies ++ (feed l fuel true f r s).replies }
unfolding save
save-stops l fuel f fs replies r s h = goes_on_stops _ _ _ _ h

receive-stops :
    (w : Wire) (f : Bytes) (fs : List Bytes) (acks : List ℕ) (r : Receiver)
    → (feed_mem w true f r).outcome ≢ waiting
    → receive w (f ∷ fs) acks r
      ≡ record (feed_mem w true f r) { acks = acks ++ (feed_mem w true f r).acks }
unfolding receive
receive-stops w f fs acks r h = elim (outcome_stops (feed_mem w true f r).outcome h) [
  | inl e ↦ rw (receive, e) refl
  | inr (x, e) ↦ rw (receive, e) refl
]

module _ (l : Local) (ok : NeverFails l.folder) (fuel : ℕ) (hdr : FileHeader) where
  -- Both take the same bytes and go on, or both stop.
  Steps : After l.folder.State → Fed → Type 0
  Steps a m =
      ((b : Bytes) × (t : l.folder.State) × (acks : List ℕ) × (a
          ≡ after (saving l hdr b 0) t more (map ack acks))
        × (m ≡ record {
          receiver = taken hdr (sanitise_name l.wire.strings hdr.name) b false;
          outcome = waiting;
          acks = acks;
        })
        × Held l hdr b t)
      ⊎ ((m.outcome ≢ waiting) × Agrees l hdr a m)

  module _ (b : Bytes) (s : l.folder.State) (held : Held l hdr b s) where
    chunk-Steps :
        (d : Bytes)
        → Steps
            (handle_chunk l true d (saving l hdr b 0) s (some hdr))
            (on_chunk l.wire true d (mem_of l hdr b) (some hdr))
    unfolding Steps Agrees handle_chunk
    chunk-Steps d =
        let x = drop 8 d in
        let plus : pos (length b) +ℤ pos (length x) ≡ pos (length b + length x) =
          pos_length-append b x ∙ ap pos (length-append b x) in
        elim (Bool-cases (ltb (length d) 8)) [
          | inl short ↦ inr (rw short (λ e. cc), rw short (refl, refl, λ e. cc))
          | inr long ↦ elim (Bool-cases (ltb_ℤ hdr.size (pos (length b + length (drop 8 d))))) [
            | inl big ↦ inr (rw (long, big) (λ e. cc), rw (long, plus, big) (refl, refl, λ e. cc))
            | inr fits ↦
                let fits' : ltb_ℤ hdr.size (pos (length (b ++ x))) ≡ false =
                  rw (length-append b x) fits in
                let (t, e, held', counted) = chunk_fits l ok hdr d b 0 s long fits' held in
                inl (b ++ x, t, get_uint64 d ∷ [], e, rw (long, fits) refl, held')
          ]
        ]

    done-Steps :
        Steps
          (handle_done l fuel (saving l hdr b 0) s (some hdr))
          (on_done l.wire (mem_of l hdr b) (some hdr))
    unfolding Steps Agrees handle_done
    done-Steps = elim (Bool-cases (bytes_eq (l.wire.sha256_hex b) hdr.sha256)) [
      | inl same ↦
          let (t, e, file) = done_matches l ok hdr fuel b 0 s same held in
          inr (rw same (λ e. cc), rw e (rw same (refl, refl, λ e. file)))
      | inr other ↦ inr (rw other (λ e. cc), rw other (refl, refl, λ e. cc))
    ]

    waiting-Steps :
        Steps
          (halt more (saving l hdr b 0) s)
          (record { receiver = (mem_of l hdr b); outcome = waiting; acks = [] })
    unfolding Steps
    waiting-Steps = inl (b, s, [], refl, refl, held)

    refused-Steps :
        (e : FeedError)
        → Steps (halt (broken (protocol e)) (saving l hdr b 0) s) (refuse e (mem_of l hdr b))
    unfolding Steps Agrees
    refused-Steps e = inr (λ k. cc, (refl, refl, λ k. cc))

    feed-Steps :
        (f : Bytes)
        → (tag_of f == tag_file_header) ≡ false
        → Steps (feed l fuel true f (saving l hdr b 0) s) (feed_mem l.wire true f (mem_of l hdr b))
    unfolding feed feed_mem
    feed-Steps [] e = waiting-Steps
    feed-Steps (tag ∷ d) a = elim (Bool-cases (tag == tag_chunk)) [
      | inl c ↦ rw (a, c) (chunk-Steps d)
      | inr c ↦ elim (Bool-cases (tag == tag_transfer_done)) [
        | inl x ↦ rw (a, c, x) done-Steps
        | inr x ↦ elim (Bool-cases (tag == tag_transfer_error)) [
          | inl y ↦ rw (a, c, x, y) (refused-Steps (sender_error (l.wire.decode_error d)))
          | inr y ↦ elim (Bool-cases (tag == tag_cancelled)) [
            | inl z ↦ rw (a, c, x, y, z) (refused-Steps err_cancelled)
            | inr z ↦ rw (a, c, x, y, z) waiting-Steps
          ]
        ]
      ]
    ]

  stops_agree :
      (f : Bytes) (fs : List Bytes) (acks : List ℕ) (b : Bytes) (s : l.folder.State)
      → (feed_mem l.wire true f (mem_of l hdr b)).outcome ≢ waiting
      → Agrees l hdr
          (feed l fuel true f (saving l hdr b 0) s)
          (feed_mem l.wire true f (mem_of l hdr b))
      → Agrees l hdr
          (save l fuel (f ∷ fs) (map ack acks) (saving l hdr b 0) s)
          (receive l.wire (f ∷ fs) acks (mem_of l hdr b))
  unfolding Agrees
  stops_agree f fs acks b s stops (same, same', file) =
      let m = feed_mem l.wire true f (mem_of l hdr b) in
      let halts = λ (e : (feed l fuel true f (saving l hdr b 0) s).progress ≡ more).
        progress_stops m.outcome stops (sym same ∙ e) in
      rw
        (
          save-stops l fuel f fs (map ack acks) (saving l hdr b 0) s halts,
          receive-stops l.wire f fs acks (mem_of l hdr b) stops,
        )
        (same, ap (λ x. map ack acks ++ x) same' ∙ sym (map-append ack acks m.acks), file)

  nothing-Agrees :
      (acks : List ℕ) (b : Bytes) (s : l.folder.State)
      → Agrees l hdr
          (save l fuel [] (map ack acks) (saving l hdr b 0) s)
          (receive l.wire [] acks (mem_of l hdr b))
  unfolding Agrees save receive
  nothing-Agrees acks b s = (refl, refl, λ e. cc)

  runs_agree :
      (fs : List Bytes) (acks : List ℕ) (b : Bytes) (s : l.folder.State)
      → NoHeaders fs
      → Held l hdr b s
      → Agrees l hdr
          (save l fuel fs (map ack acks) (saving l hdr b 0) s)
          (receive l.wire fs acks (mem_of l hdr b))
  unfolding NoHeaders Steps
  runs_agree [] acks b s none' held = nothing-Agrees acks b s
  runs_agree (f ∷ fs) acks b s (other, others) held =
      let r = saving l hdr b 0 in
      let m = mem_of l hdr b in
      elim (feed-Steps b s held f other) [
        | inl (b', t, acks', e, e', held') ↦
            rw
              (
                save-more l fuel f fs (map ack acks) r s (saving l hdr b' 0) t (map ack acks') e,
                receive-waiting l.wire f fs acks acks' m (mem_of l hdr b') e',
                sym (map-append ack acks acks'),
              )
              (runs_agree fs (acks ++ acks') b' t others held')
        | inr (stops, agree) ↦ stops_agree f fs acks b s stops agree
      ]

-- The receiver on disk does what the one in memory does: in a directory in which every call succeeds,
-- with neither a file of the name nor a sidecar file, for any frames after a header that are no
-- headers themselves, if the owner stops at the first result other than (false, nil) and every reply
-- is delivered, the two return the same result and send the same acknowledgements, and on completion
-- the file has the bytes that the other has in memory.
pub save-receive :
    (l : Local) (fuel : ℕ) (hdr : FileHeader) (json : Bytes) (fs : List Bytes) (s : l.folder.State)
    → NeverFails l.folder
    → l.wire.decode_header json ≡ some hdr
    → l.folder.holds (meta_name l hdr) s ≡ none
    → l.folder.holds (sanitise_name l.wire.strings hdr.name) s ≡ none
    → NoHeaders fs
    → Agrees l hdr
        (save l fuel (header_frame json ∷ fs) [] new_saver s)
        (receive l.wire (header_frame json ∷ fs) [] new_receiver)
save-receive l fuel hdr json fs s ok e new free others =
    let (t, h, held, counted) = feed-header_frame-fresh l ok fuel hdr json new_saver s e new free in
    rw
      (
        save-more l fuel (header_frame json) fs [] new_saver s (saving l hdr [] 0) t [] h,
        receive-waiting l.wire (header_frame json) fs [] [] new_receiver (mem_of l hdr [])
            (feed-header_frame l.wire json hdr e),
      )
      (runs_agree l ok fuel hdr fs [] [] t others held)
