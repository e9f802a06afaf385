-- ===== src/Transfer/Partial/Working.antt =====
-- The receiver on disk of internal/transfer/transfer.go in a directory in which every call succeeds, one
-- frame at a time.
use gmmff.Prelude.{
  ℕ, suc, ◌<◌, ◌^◌, ◌≡◌, ◌≢◌, refl, ap, ◌∙◌, inl, inr, Bool, true, false, List, [], ◌∷◌, ◌++◌, none,
  some, ltb, lt→ltb, length, length-append, take, drop, arith, Option-cases,
}
use gmmff.Prelude.Int.{ℤ, pos, eq_ℤ, ltb_ℤ}
use gmmff.Prelude.Bytes.{Bytes, bytes_eq, bytes_eq_refl}
use gmmff.Transfer.Names.{sanitise_name}
use gmmff.Transfer.Frames.{get_uint64}
use gmmff.Transfer.Receive.{FileHeader}
use gmmff.Transfer.Folder.{PartialMeta, Folder, Local}
use gmmff.Transfer.Partial.Names.{int64_of, uint64_of, unique_path}
use gmmff.Transfer.Partial.{
  Progress, Reply, closed, Saver, After, more, saved, ack, resume, check_partial, write_meta,
  with_header, handle_header, fresh_start, chunk_written, free_found, handle_chunk, handle_done,
  resumed,
}
use gmmff.Transfer.Partial.Going.{saving, partial_name, meta_name, suffixes_differ, take-all}
use gmmff.Transfer.Partial.Saved.{pos_length-append}

-- Every call succeeds where it makes sense.
pub record NeverFails (d : Folder) : Type 0 where
  pub reads : (n : Bytes) (s : d.State) (b : Bytes) → d.holds n s ≡ some b → d.read n s ≡ some b
  pub measures :
      (n : Bytes) (s : d.State) (b : Bytes) → d.holds n s ≡ some b → d.stat n s ≡ some (length b)
  pub copies :
      (k : ℕ) (n : Bytes) (s : d.State) (b : Bytes)
      → d.holds n s ≡ some b
      → d.copy_n k n s ≡ some (take k b)
  pub opens : (n : Bytes) (s : d.State) (b : Bytes) → d.holds n s ≡ some b → d.can_append n s ≡ true
  pub misses : (n : Bytes) (s : d.State) → d.holds n s ≡ none → d.is_absent n s ≡ true
  pub creates : (n : Bytes) (s : d.State) → (d.create n s).1 ≡ true
  pub writes : (n b : Bytes) (s : d.State) → (d.write n b s).1 ≡ true
  pub appends : (n b c : Bytes) (s : d.State) → d.holds n s ≡ some c → (d.append n b s).1 ≡ true
  pub renames : (n m c : Bytes) (s : d.State) → d.holds n s ≡ some c → (d.rename n m s).1 ≡ true

-- The sidecar file of a transfer with these counts of bytes and of chunks.
abbrev pub meta_of : FileHeader → ℤ → ℤ → PartialMeta
meta_of hdr n c = record {
  sha256 = hdr.sha256;
  chunk_size = hdr.chunk_size;
  bytes_done = n;
  chunks_done = c;
}

-- The state of the directory in the middle of a transfer: no file has the final name yet.
abbrev pub Held : (l : Local) → FileHeader → Bytes → l.folder.State → Type 0
Held l hdr b s =
    (l.folder.holds (partial_name l hdr) s ≡ some b)
    × (l.folder.holds (sanitise_name l.wire.strings hdr.name) s ≡ none)

abbrev pub Counted : (l : Local) → FileHeader → ℤ → ℤ → l.folder.State → Type 0
Counted l hdr n c s = l.folder.holds (meta_name l hdr) s ≡ some (l.encode_meta (meta_of hdr n c))

abbrev pub after : {S : Type 0} → Saver → S → Progress → List Reply → After S
after r s p a = record { saver = r; disk = s; progress = p; replies = a }

longer : (n : Bytes) (c : ℕ) (t : Bytes) → n ≢ n ++ c ∷ t
longer n c t e = omega (arith, ap length e, length-append n (c ∷ t))

pub int64_of_small : (c : ℕ) → c < 2 ^ 63 → int64_of c ≡ pos c
unfolding int64_of
int64_of_small c h = ground arith

uint64_of_pos : (c : ℕ) → c < 2 ^ 63 → uint64_of (pos c) ≡ c
unfolding uint64_of
uint64_of_pos c h = omega arith

succeeded : {S : Type 0} (p : S × Bool) → p.1 ≡ true → p ≡ (p.0, true)
succeeded p e = ap (λ x. (p.0, x)) e

module _ (l : Local) (ok : NeverFails l.folder) (hdr : FileHeader) where
  write_meta-Held :
      (r : Saver) (x y : ℤ) (b : Bytes) (s : l.folder.State)
      → r.meta_path ≡ meta_name l hdr
      → Held l hdr b s
      → (t : l.folder.State) × (write_meta l r hdr x y s ≡ (t, true))
        × Held l hdr b t
        × Counted l hdr x y t
  unfolding write_meta
  write_meta-Held r x y b s e held =
      let n = sanitise_name l.wire.strings hdr.name in
      rw e (
        (l.folder.write (meta_name l hdr) (l.encode_meta (meta_of hdr x y)) s).0,
        succeeded _ (ok.writes _ _ _),
        (
          l.folder.write_keeps _ _ _ _ (suffixes_differ n) ∙ held.0,
          l.folder.write_keeps _ _ _ _ (longer n _ _) ∙ held.1,
        ),
        l.folder.write_done _ _ _ (ok.writes _ _ _),
      )

  fresh_start-Held :
      (r : Saver) (s : l.folder.State)
      → l.folder.holds (sanitise_name l.wire.strings hdr.name) s ≡ none
      → (t : l.folder.State) × (fresh_start l (with_header l hdr r) hdr s
          ≡ after (saving l hdr [] 0) t more [])
        × Held l hdr [] t
        × Counted l hdr (pos 0) (pos 0) t
  unfolding fresh_start
  fresh_start-Held r s free =
      let n = sanitise_name l.wire.strings hdr.name in
      let p = partial_name l hdr in
      let done' : l.folder.create p s ≡ ((l.folder.create p s).0, true) =
        succeeded (l.folder.create p s) (ok.creates p s) in
      let held : Held l hdr [] (l.folder.create p s).0 = (
        l.folder.create_done p s (ok.creates p s),
        l.folder.create_keeps p n s (longer n _ _) ∙ free,
      ) in
      let (t, e, held', counted) =
        write_meta-Held (with_header l hdr r) (pos 0) (pos 0) [] (l.folder.create p s).0 refl
          held in
      (t, rw (done', e) refl, held', counted)

  check_partial_fresh :
      (r : Saver) (s : l.folder.State)
      → l.folder.holds r.meta_path s ≡ none
      → check_partial l r hdr s ≡ (0, pos 0)
  unfolding check_partial
  check_partial_fresh r s none' = elim (Option-cases (l.folder.read r.meta_path s)) [
    | inl e ↦ rw (check_partial, e) refl
    | inr (b, e) ↦ let h = l.folder.read_holds r.meta_path s b e in cc
  ]

  pub handle_header-fresh :
      (s : l.folder.State) (r : Saver)
      → l.folder.holds (meta_name l hdr) s ≡ none
      → l.folder.holds (sanitise_name l.wire.strings hdr.name) s ≡ none
      → (t : l.folder.State) × (handle_header l true r s (some hdr)
          ≡ after (saving l hdr [] 0) t more [])
        × Held l hdr [] t
        × Counted l hdr (pos 0) (pos 0) t
  unfolding handle_header
  handle_header-fresh s r none' free =
      let (t, e, held, counted) = fresh_start-Held r s free in
      (t, rw (check_partial_fresh (with_header l hdr r) s none') e, held, counted)

  chunk_written_counted :
      (seq q : ℕ) (b x : Bytes) (s t : l.folder.State)
      → write_meta l (saving l hdr b q) hdr (pos (length (b ++ x))) (int64_of (suc seq)) s
        ≡ (t, true)
      → chunk_written l true seq x (saving l hdr b q) hdr (s, true)
        ≡ after (saving l hdr (b ++ x) q) t more (ack seq ∷ [])
  chunk_written_counted seq q b x s t e =
      rw (pos_length-append b x)
        (ap (λ p. after (saving l hdr (b ++ x) q) p.0 more (ack seq ∷ [])) e)

  -- A chunk that fits is appended, counted and acknowledged.
  pub chunk_fits :
      (d b : Bytes) (q : ℕ) (s : l.folder.State)
      → ltb (length d) 8 ≡ false
      → ltb_ℤ hdr.size (pos (length (b ++ drop 8 d))) ≡ false
      → Held l hdr b s
      → (t : l.folder.State) × (handle_chunk l true d (saving l hdr b q) s (some hdr)
          ≡ after (saving l hdr (b ++ drop 8 d) q) t more (ack (get_uint64 d) ∷ []))
        × Held l hdr (b ++ drop 8 d) t
        × Counted l hdr (pos (length (b ++ drop 8 d))) (int64_of (suc (get_uint64 d))) t
  unfolding handle_chunk
  chunk_fits d b q s long fits held =
      let n = sanitise_name l.wire.strings hdr.name in
      let p = partial_name l hdr in
      let x = drop 8 d in
      let e : l.folder.append p x s ≡ ((l.folder.append p x s).0, true) =
        succeeded (l.folder.append p x s) (ok.appends p x b s held.0) in
      let held' : Held l hdr (b ++ x) (l.folder.append p x s).0 = (
        l.folder.append_done p x b s (ok.appends p x b s held.0) held.0,
        l.folder.append_keeps p n x s (longer n _ _) ∙ held.1,
      ) in
      let (t, e', held'', counted) =
        write_meta-Held (saving l hdr b q) (pos (length (b ++ x))) (int64_of (suc (get_uint64 d)))
          (b ++ x) (l.folder.append p x s).0 refl held' in
      (
        t,
        rw (pos_length-append b x, long, fits, e)
            (chunk_written_counted (get_uint64 d) q b x (l.folder.append p x s).0 t e'),
        held'',
        counted,
      )

  free_found-Held :
      (b : Bytes) (q : ℕ) (s : l.folder.State)
      → Held l hdr b s
      → (t : l.folder.State) × (free_found l
            (record (saving l hdr b q) { f = closed })
            s
            (some (sanitise_name l.wire.strings hdr.name))
          ≡ after (record (saving l hdr b q) { f = closed }) t saved [])
        × (l.folder.holds (sanitise_name l.wire.strings hdr.name) t ≡ some b)
  free_found-Held b q s held =
      let n = sanitise_name l.wire.strings hdr.name in
      let p = partial_name l hdr in
      let s' = (l.folder.rename p n s).0 in
      let e : l.folder.rename p n s ≡ (s', true) =
        succeeded (l.folder.rename p n s) (ok.renames p n b s held.0) in
      (
        (l.folder.remove (meta_name l hdr) s').0,
        rw e refl,
        l.folder.remove_keeps (meta_name l hdr) n s' (longer n _ _)
            ∙ l.folder.rename_done p n s (ok.renames p n b s held.0)
            ∙ held.0,
      )

  -- TransferDone with the announced hash gives the file its name.
  pub done_matches :
      (fuel : ℕ) (b : Bytes) (q : ℕ) (s : l.folder.State)
      → bytes_eq (l.wire.sha256_hex b) hdr.sha256 ≡ true
      → Held l hdr b s
      → (t : l.folder.State) × (handle_done l fuel (saving l hdr b q) s (some hdr)
          ≡ after (record (saving l hdr b q) { f = closed }) t saved [])
        × (l.folder.holds (sanitise_name l.wire.strings hdr.name) t ≡ some b)
  unfolding handle_done unique_path
  done_matches fuel b q s same held =
      let n = sanitise_name l.wire.strings hdr.name in
      rw (same, ok.misses n s held.1) (free_found-Held b q s held)

  check_partial_counted :
      (b : Bytes) (c : ℕ) (s : l.folder.State) (r : Saver)
      → 0 < c
      → c < 2 ^ 63
      → Held l hdr b s
      → Counted l hdr (pos (length b)) (pos c) s
      → check_partial l (with_header l hdr r) hdr s ≡ (c, pos (length b))
  unfolding check_partial
  check_partial_counted b c s r some' small held counted =
      let e : eq_ℤ (pos c) (pos 0) ≡ false = ground arith in
      let e' : eq_ℤ hdr.chunk_size hdr.chunk_size ≡ true = ground arith in
      let e'' : eq_ℤ (pos (length b)) (pos (length b)) ≡ true = ground arith in
      rw
        (
          check_partial,
          ok.reads (meta_name l hdr) s _ counted,
          l.decode_meta-encode_meta (meta_of hdr (pos (length b)) (pos c)),
          bytes_eq_refl hdr.sha256,
          e',
          ok.measures (partial_name l hdr) s b held.0,
          e'',
          e,
          uint64_of_pos c small,
        )
        refl

  -- A header for which there is a partial file of some chunks is answered with their number.
  pub handle_header-resume :
      (b : Bytes) (c : ℕ) (s : l.folder.State) (r : Saver)
      → 0 < c
      → c < 2 ^ 63
      → Held l hdr b s
      → Counted l hdr (pos (length b)) (pos c) s
      → handle_header l true r s (some hdr) ≡ after (saving l hdr b c) s more (resume c ∷ [])
  unfolding handle_header resumed
  handle_header-resume b c s r some' small held counted =
      let p = partial_name l hdr in
      rw
        (
          check_partial_counted b c s r some' small held counted,
          lt→ltb 0 c some',
          ok.opens p s b held.0,
          ok.copies (length b) p s b held.0,
          take-all b,
        )
        refl
