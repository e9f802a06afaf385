-- ===== src/Transfer/Partial/Resume.antt =====
-- A transfer to the receiver on disk of internal/transfer/transfer.go that is interrupted and taken up
-- again by a new receiver in the same directory.
use mathlib.Core.List.{append_assoc, append-nil}
use gmmff.Prelude.{
  ℕ, suc, ◌+◌, ◌<◌, ◌≤◌, ◌^◌, ◌≡◌, refl, sym, ap, ◌∙◌, true, false, List, [], ◌∷◌, ◌++◌, map, none,
  some, ltb, length, length-append, arith,
}
use gmmff.Prelude.Int.{pos, ltb_ℤ, ◌≤ℤ◌}
use gmmff.Prelude.Bytes.{Bytes, bytes_eq_iff}
use gmmff.Transfer.Names.{sanitise_name}
use gmmff.Transfer.Frames.{tag_transfer_done, put_uint64, chunk_frame}
use gmmff.Transfer.Roundtrip.{get_uint64-put_uint64}
use gmmff.Transfer.Receive.{FileHeader, header_frame, chunk_frames}
use gmmff.Transfer.Delivery.{joined, numbers_from}
use gmmff.Transfer.Folder.{Local}
use gmmff.Transfer.Partial.{Saver, new_saver, more, saved, Reply, ack, resume, closed, feed}
use gmmff.Transfer.Partial.Going.{saving, meta_name}
use gmmff.Transfer.Partial.Working.{
  NeverFails, Held, Counted, after, handle_header-fresh, handle_header-resume, chunk_fits,
  done_matches, int64_of_small, meta_of,
}
use gmmff.Transfer.Partial.Names.{int64_of}
use gmmff.Transfer.Partial.Saving.{save, save-more, save-saved}

module _ (l : Local) (ok : NeverFails l.folder) (fuel : ℕ) (hdr : FileHeader) where
  feed-chunk :
      (seq q : ℕ) (p b : Bytes) (s : l.folder.State)
      → seq < 2 ^ 62
      → pos (length b + length p) ≤ℤ hdr.size
      → Held l hdr b s
      → (t : l.folder.State) × (feed l fuel true (chunk_frame seq p) (saving l hdr b q) s
          ≡ after (saving l hdr (b ++ p) q) t more (ack seq ∷ []))
        × Held l hdr (b ++ p) t
        × Counted l hdr (pos (length (b ++ p))) (pos (suc seq)) t
  unfolding feed chunk_frame put_uint64
  feed-chunk seq q p b s small fits held =
      let d = put_uint64 seq ++ p in
      let long : ltb (length d) 8 ≡ false = ground arith in
      let fits' : ltb_ℤ hdr.size (pos (length (b ++ p))) ≡ false =
        ground (arith, length-append b p) in
      let (t, e, held', counted) = chunk_fits l ok hdr d b q s long fits' held in
      let same = get_uint64-put_uint64 seq p (omega arith) in
      (
        t,
        e ∙ ap (λ n. after (saving l hdr (b ++ p) q) t more (ack n ∷ [])) same,
        held',
        counted
            ∙ ap (λ n. some (l.encode_meta (meta_of hdr (pos (length (b ++ p))) n)))
                (ap (λ n. int64_of (suc n)) same ∙ int64_of_small (suc seq) (omega arith)),
      )

  save-chunks :
      (ps fs : List Bytes) (seq q : ℕ) (b : Bytes) (replies : List Reply) (s : l.folder.State)
      → seq + length ps ≤ 2 ^ 62
      → pos (length b + length (joined ps)) ≤ℤ hdr.size
      → Held l hdr b s
      → Counted l hdr (pos (length b)) (pos seq) s
      → (t : l.folder.State) × (save l fuel (chunk_frames seq ps ++ fs) replies (saving l hdr b q) s
          ≡ save l fuel fs
              (replies ++ map ack (numbers_from seq (length ps)))
              (saving l hdr (b ++ joined ps) q)
              t)
        × Held l hdr (b ++ joined ps) t
        × Counted l hdr (pos (length (b ++ joined ps))) (pos (seq + length ps)) t
  unfolding chunk_frames joined numbers_from
  save-chunks [] fs seq q b replies s small fits held counted =
      let z : seq + 0 ≡ seq = omega arith in
      (
        s,
        rw (append-nil b, append-nil replies) refl,
        rw (append-nil b) held,
        rw (append-nil b, z) counted,
      )
  save-chunks (p ∷ ps) fs seq q b replies s small fits held counted =
      let (t, e, held', counted') =
        feed-chunk seq q p b s (omega arith) (omega (arith, length-append p (joined ps))) held in
      let (t', e', held'', counted'') =
        save-chunks ps fs (suc seq) q (b ++ p) (replies ++ ack seq ∷ []) t (omega arith)
          (omega (arith, length-append b p, length-append p (joined ps))) held' counted' in
      let z : seq + suc (length ps) ≡ suc seq + length ps = omega arith in
      (
        t',
        save-more l fuel (chunk_frame seq p) (chunk_frames (suc seq) ps ++ fs) replies
              (saving l hdr b q) s (saving l hdr (b ++ p) q) t (ack seq ∷ []) e
            ∙ e'
            ∙ rw
                (
                  append_assoc b p (joined ps),
                  append_assoc replies (ack seq ∷ [])
                      (map ack (numbers_from (suc seq) (length ps))),
                )
                refl,
        rw (sym (append_assoc b p (joined ps))) held'',
        rw (sym (append_assoc b p (joined ps)), z) counted'',
      )

  pub feed-header_frame-fresh :
      (json : Bytes) (r : Saver) (s : l.folder.State)
      → l.wire.decode_header json ≡ some hdr
      → l.folder.holds (meta_name l hdr) s ≡ none
      → l.folder.holds (sanitise_name l.wire.strings hdr.name) s ≡ none
      → (t : l.folder.State) × (feed l fuel true (header_frame json) r s
          ≡ after (saving l hdr [] 0) t more [])
        × Held l hdr [] t
        × Counted l hdr (pos 0) (pos 0) t
  unfolding feed
  feed-header_frame-fresh json r s e new free = rw e (handle_header-fresh l ok hdr s r new free)

  feed-header_frame-resume :
      (json b : Bytes) (c : ℕ) (r : Saver) (s : l.folder.State)
      → l.wire.decode_header json ≡ some hdr
      → 0 < c
      → c < 2 ^ 63
      → Held l hdr b s
      → Counted l hdr (pos (length b)) (pos c) s
      → feed l fuel true (header_frame json) r s ≡ after (saving l hdr b c) s more (resume c ∷ [])
  unfolding feed
  feed-header_frame-resume json b c r s e some' small held counted =
      rw e (handle_header-resume l ok hdr b c s r some' small held counted)

  feed-done_frame :
      (b : Bytes) (q : ℕ) (s : l.folder.State)
      → l.wire.sha256_hex b ≡ hdr.sha256
      → Held l hdr b s
      → (t : l.folder.State) × (feed l fuel true (tag_transfer_done ∷ []) (saving l hdr b q) s
          ≡ after (record (saving l hdr b q) { f = closed }) t saved [])
        × (l.folder.holds (sanitise_name l.wire.strings hdr.name) t ≡ some b)
  unfolding feed
  feed-done_frame b q s same held =
      done_matches l ok hdr fuel b q s ((bytes_eq_iff (l.wire.sha256_hex b) hdr.sha256).1 same) held

  -- The first session: the header and some chunks.
  save-interrupted :
      (json : Bytes) (ps : List Bytes) (s : l.folder.State)
      → l.wire.decode_header json ≡ some hdr
      → l.folder.holds (meta_name l hdr) s ≡ none
      → l.folder.holds (sanitise_name l.wire.strings hdr.name) s ≡ none
      → length ps ≤ 2 ^ 62
      → pos (length (joined ps)) ≤ℤ hdr.size
      → let a = save l fuel (header_frame json ∷ (chunk_frames 0 ps ++ [])) [] new_saver s in
        (a.progress ≡ more)
        × Held l hdr (joined ps) a.disk
        × Counted l hdr (pos (length (joined ps))) (pos (length ps)) a.disk
  unfolding save
  save-interrupted json ps s e new free small fits =
      let (t, h, held, counted) = feed-header_frame-fresh json new_saver s e new free in
      let (t', h', held', counted') =
        save-chunks ps [] 0 0 [] [] t (omega arith) (omega arith) held counted in
      let z : 0 + length ps ≡ length ps = omega arith in
      let whole =
        save-more l fuel (header_frame json) (chunk_frames 0 ps ++ []) [] new_saver s
          (saving l hdr [] 0) t [] h
        ∙ h' in
      rw whole (refl, held', rw (sym z) counted')

  -- The second session: the header, the other chunks, and TransferDone.
  save-taken_up :
      (json b : Bytes) (c : ℕ) (qs : List Bytes) (s : l.folder.State)
      → l.wire.decode_header json ≡ some hdr
      → 0 < c
      → c + length qs ≤ 2 ^ 62
      → pos (length b + length (joined qs)) ≤ℤ hdr.size
      → l.wire.sha256_hex (b ++ joined qs) ≡ hdr.sha256
      → Held l hdr b s
      → Counted l hdr (pos (length b)) (pos c) s
      → let a =
          save l fuel
            (header_frame json ∷ (chunk_frames c qs ++ (tag_transfer_done ∷ []) ∷ []))
            []
            new_saver
            s in
        (a.progress ≡ saved)
        × (a.replies ≡ resume c ∷ map ack (numbers_from c (length qs)))
        × (l.folder.holds (sanitise_name l.wire.strings hdr.name) a.disk ≡ some (b ++ joined qs))
  save-taken_up json b c qs s e some' small fits same held counted =
      let h = feed-header_frame-resume json b c new_saver s e some' (omega arith) held counted in
      let (t, h', held', counted') =
        save-chunks qs ((tag_transfer_done ∷ []) ∷ []) c c b (resume c ∷ []) s small fits held
          counted in
      let (t', h'', whole) = feed-done_frame (b ++ joined qs) c t same held' in
      let run =
        save-more l fuel (header_frame json) (chunk_frames c qs ++ (tag_transfer_done ∷ []) ∷ []) []
          new_saver s (saving l hdr b c) s (resume c ∷ []) h
        ∙ h'
        ∙ save-saved l fuel (tag_transfer_done ∷ []) []
            (resume c ∷ map ack (numbers_from c (length qs))) (saving l hdr (b ++ joined qs) c) t
            (record (saving l hdr (b ++ joined qs) c) { f = closed }) t' [] h'' in
      rw (run, append-nil (map ack (numbers_from c (length qs)))) (refl, refl, whole)

joined-append : (ps qs : List Bytes) → joined (ps ++ qs) ≡ joined ps ++ joined qs
unfolding joined
joined-append [] qs = refl
joined-append (p ∷ ps) qs = rw (joined-append ps qs, append_assoc p (joined ps) (joined qs)) refl

-- A transfer that breaks off after some chunks and is taken up by a new receiver arrives whole: in a
-- directory in which every call succeeds, which has neither a file of the name nor a sidecar file at
-- first, a receiver is fed the header and the chunks of `ps`, at least one, and dropped. A new one that
-- is fed the same header asks for the chunks from the number of `ps` on; fed those of `qs`, numbered
-- from there, and TransferDone, it completes, and the file has the bytes of all the pieces, if these
-- are no more than was announced and have the announced SHA-256, and the chunks are at most 2^62.
pub save-resumes :
    (l : Local) (fuel : ℕ) (hdr : FileHeader) (json : Bytes) (ps qs : List Bytes)
    (s : l.folder.State)
    → NeverFails l.folder
    → l.wire.decode_header json ≡ some hdr
    → l.folder.holds (meta_name l hdr) s ≡ none
    → l.folder.holds (sanitise_name l.wire.strings hdr.name) s ≡ none
    → 0 < length ps
    → length ps + length qs ≤ 2 ^ 62
    → pos (length (joined (ps ++ qs))) ≤ℤ hdr.size
    → l.wire.sha256_hex (joined (ps ++ qs)) ≡ hdr.sha256
    → let first = save l fuel (header_frame json ∷ chunk_frames 0 ps) [] new_saver s in
      let second =
        save l fuel
          (header_frame json ∷ (chunk_frames (length ps) qs ++ (tag_transfer_done ∷ []) ∷ []))
          []
          new_saver
          first.disk in
      (first.progress ≡ more)
      × (second.progress ≡ saved)
      × (second.replies ≡ resume (length ps) ∷ map ack (numbers_from (length ps) (length qs)))
      × (l.folder.holds (sanitise_name l.wire.strings hdr.name) second.disk
          ≡ some (joined (ps ++ qs)))
save-resumes l fuel hdr json ps qs s ok e new free some' small fits same =
    let whole = joined-append ps qs in
    let size = ap length whole ∙ length-append (joined ps) (joined qs) in
    let first =
      save-interrupted l ok fuel hdr json ps s e new free (omega arith) (omega (arith, size)) in
    let (going, held, counted) = rw (append-nil (chunk_frames 0 ps)) at first in
    let (done', replies, file) =
      save-taken_up l ok fuel hdr json (joined ps) (length ps) qs _ e some' small
        (omega (arith, size)) (ap l.wire.sha256_hex (sym whole) ∙ same) held counted in
    (going, done', replies, file ∙ ap some (sym whole))
