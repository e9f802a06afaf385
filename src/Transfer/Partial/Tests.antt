-- ===== src/Transfer/Partial/Tests.antt =====
-- The receiver on disk of internal/transfer/transfer.go in a concrete directory.
use gmmff.Prelude.{
  ℕ, ◌≡◌, refl, ap, inl, inr, true, false, [], ◌∷◌, ◌++◌, some, length, length-append, arith, map,
}
use gmmff.Prelude.Int.{◌+ℤ◌, pos}
use gmmff.Prelude.Bytes.{Bytes, codes, bytes_eq, bytes_eq_sym}
use gmmff.Prelude.Assoc.{lookup, insert, delete}
use gmmff.Transfer.Names.{
  trim_right, without_dots, safe_bytes, has_dots, cut_dots, is_windows_reserved, is_device, stem_of,
  sanitise_name,
}
use gmmff.Transfer.Frames.{put_uint64, get_uint64, tag_transfer_done, chunk_frame}
use gmmff.Transfer.Receive.{header_frame, chunk_frames, receive, new_receiver}
use gmmff.Transfer.Delivery.{joined, numbers_from}
use gmmff.Transfer.Tests.{plain_wire, plain_strings, pieces, header}
use gmmff.Transfer.Partial.{
  Saver, opened, closed, handle_header, check_partial, fresh_start, write_meta, handle_chunk,
  handle_done, new_saver, feed, more, saved, ack, resume,
}
use gmmff.Transfer.Partial.Names.{
  int64_of, free_variant, variant, base_of, ext_of, unique_path, partial_suffix, meta_suffix,
}
use gmmff.Transfer.Partial.Variants.{unique_path_ends, has_name}
use gmmff.Transfer.Partial.Keeps.{IsSidecar, feeds, feeds-new_saver_keeps}
use gmmff.Transfer.Partial.Saved.{Reached, fed, at_start, IsSaved, Reached-IsSaved}
use gmmff.Transfer.Partial.Resume.{save-resumes}
use gmmff.Transfer.Partial.Saving.{save}
use gmmff.Transfer.Partial.InMemory.{Agrees, NoHeaders, save-receive}
use gmmff.Transfer.Partial.Working.{after}
use gmmff.Transfer.Partial.Directory.{Files, is_none, files-NeverFails, encode_int, here}

-- A file that is there before; it has the name that the peer announces.
abbrev notes : Bytes
notes = codes "notes.txt"

abbrev before : Files
before = (notes, 7 ∷ []) ∷ []

notes-not-IsSidecar : ¬ IsSidecar notes
notes-not-IsSidecar (inl (s, e)) = omega (arith, ap length e, length-append s partial_suffix)
notes-not-IsSidecar (inr (s, e)) = omega (arith, ap length e, length-append s meta_suffix)

feeds-new_saver_keeps_example :
    lookup notes
      (feeds here 3
        ((true, header_frame []) ∷ (true, chunk_frame 0 (1 ∷ 2 ∷ 3 ∷ [])) ∷ [])
        new_saver
        before).1
    ≡ some (7 ∷ [])
unfolding lookup bytes_eq
feeds-new_saver_keeps_example =
    feeds-new_saver_keeps here 3
      ((true, header_frame []) ∷ (true, chunk_frame 0 (1 ∷ 2 ∷ 3 ∷ [])) ∷ []) before notes (7 ∷ [])
      notes-not-IsSidecar refl

all_notes : (g : Bytes) → is_none (lookup g before) ≡ false → has_name g (notes ∷ []) ≡ true
unfolding lookup
all_notes g h = ground (arith, bytes_eq_sym g notes)

unique_path_ends_example :
    (p : Bytes) × (unique_path here 2 notes before ≡ some p) × (is_none (lookup p before) ≡ true)
unique_path_ends_example =
    unique_path_ends here 2 notes before (notes ∷ []) (λ g h. all_notes g h) (omega arith)

save-resumes_example :
    let first =
      save here 1 (header_frame [] ∷ chunk_frames 0 ((1 ∷ 2 ∷ 3 ∷ []) ∷ [])) [] new_saver [] in
    let second =
      save here 1
        (header_frame [] ∷ (chunk_frames 1 ((4 ∷ 5 ∷ []) ∷ []) ++ (tag_transfer_done ∷ []) ∷ []))
        []
        new_saver
        first.disk in
    (first.progress ≡ more)
    × (second.progress ≡ saved)
    × (second.replies ≡ resume 1 ∷ map ack (numbers_from 1 1))
    × (lookup (sanitise_name plain_strings header.name) second.disk ≡ some (joined pieces))
unfolding lookup joined
save-resumes_example =
    save-resumes here 1 header [] ((1 ∷ 2 ∷ 3 ∷ []) ∷ []) ((4 ∷ 5 ∷ []) ∷ []) [] files-NeverFails
      refl refl refl (omega arith) (omega arith) (omega arith) refl

save-receive_example :
    Agrees here header
      (save here 1
        (header_frame [] ∷ chunk_frame 0 (1 ∷ []) ∷ (tag_transfer_done ∷ []) ∷ [])
        []
        new_saver
        [])
      (receive plain_wire
        (header_frame [] ∷ chunk_frame 0 (1 ∷ []) ∷ (tag_transfer_done ∷ []) ∷ [])
        []
        new_receiver)
unfolding lookup NoHeaders chunk_frame
save-receive_example =
    save-receive here 1 header [] (chunk_frame 0 (1 ∷ []) ∷ (tag_transfer_done ∷ []) ∷ []) []
      files-NeverFails refl refl refl (refl, (refl, tt))

-- A header and a chunk; the announced name is taken, so the file is saved under another one.
abbrev partial_notes : Bytes
partial_notes = codes "notes.txt.gmmff_partial"

abbrev meta_notes : Bytes
meta_notes = codes "notes.txt.gmmff_meta"

abbrev at : Bytes → Saver
at b = record {
  header = some header;
  partial_path = partial_notes;
  meta_path = meta_notes;
  final_path = notes;
  f = opened partial_notes;
  h = b;
  received = pos (length b);
  resume_seq = 0;
}

-- The directory after as many chunks, with these bytes in the partial file.
abbrev with_partial : Bytes → ℕ → Files
with_partial b n =
    (notes, 7 ∷ [])
    ∷ (partial_notes, b)
    ∷ (meta_notes, encode_int (pos 3) (encode_int (pos (length b)) (encode_int (pos n) (15 ∷ []))))
    ∷ []

headed :
    feed here 2 true (header_frame []) new_saver before ≡ after (at []) (with_partial [] 0) more []
unfolding feed handle_header check_partial fresh_start write_meta lookup insert sanitise_name
    bytes_eq trim_right without_dots safe_bytes has_dots cut_dots is_windows_reserved is_device
    stem_of
headed = refl

chunked :
    feed here 2 true (chunk_frame 0 (15 ∷ [])) (at []) (with_partial [] 0)
    ≡ after (at (15 ∷ [])) (with_partial (15 ∷ []) 1) more (ack 0 ∷ [])
unfolding feed handle_chunk write_meta lookup insert bytes_eq chunk_frame put_uint64 get_uint64
    int64_of ◌+ℤ◌
chunked = refl

finished :
    feed here 2 true (tag_transfer_done ∷ []) (at (15 ∷ [])) (with_partial (15 ∷ []) 1)
    ≡ after
        (record (at (15 ∷ [])) { f = closed; final_path = codes "notes (1).txt" })
        ((notes, 7 ∷ []) ∷ (codes "notes (1).txt", 15 ∷ []) ∷ [])
        saved
        []
unfolding feed handle_done lookup insert delete bytes_eq unique_path free_variant variant base_of
    ext_of
finished = refl

in_middle : Reached here before (at (15 ∷ [])) (with_partial (15 ∷ []) 1)
in_middle =
    let first' =
      fed 2 true (header_frame []) new_saver before at_start (ap (λ a. a.progress) headed) in
    let second' : Reached here before (at []) (with_partial [] 0) = rw headed at first' in
    let third' =
      fed 2 true (chunk_frame 0 (15 ∷ [])) (at []) (with_partial [] 0) second'
        (ap (λ a. a.progress) chunked) in
    rw chunked at third'

Reached-IsSaved_example :
    IsSaved here
      (with_partial (15 ∷ []) 1)
      (feed here 2 true (tag_transfer_done ∷ []) (at (15 ∷ [])) (with_partial (15 ∷ []) 1))
Reached-IsSaved_example =
    Reached-IsSaved here before (at (15 ∷ [])) (with_partial (15 ∷ []) 1) 2 true
      (tag_transfer_done ∷ []) in_middle (ap (λ a. a.progress) finished)
