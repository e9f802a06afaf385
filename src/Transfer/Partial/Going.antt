-- ===== src/Transfer/Partial/Going.antt =====
-- The receiver on disk of internal/transfer/transfer.go once a header has come: its partial file has the
-- bytes that it hashed, also when it goes on with the file of an earlier transfer.
use gmmff.Prelude.{
  ℕ, ◌≡◌, ◌≢◌, refl, sym, ap, ◌∙◌, inl, inr, Bool, true, false, [], ◌∷◌, ◌++◌, Option, none, some,
  ltb, length, length-append, take, arith, Bool-cases, Option-cases,
}
use gmmff.Prelude.Int.{ℤ, pos, eq_ℤ, eq_ℤ→eq}
use gmmff.Prelude.Bytes.{Bytes, bytes_eq}
use gmmff.Transfer.Names.{sanitise_name}
use gmmff.Transfer.Receive.{FileHeader}
use gmmff.Transfer.Folder.{PartialMeta, Local}
use gmmff.Transfer.Partial.Names.{partial_suffix, meta_suffix}
use gmmff.Transfer.Partial.{
  opened, Saver, more, check_size, check_meta, check_partial, write_meta, meta_created,
  file_created, fresh_start, reopened, resumed, with_header, handle_header,
}

-- A receiver that is in the middle of a transfer and has taken these bytes, with those of the chunks
-- before `q` found in a partial file.
abbrev pub saving : (l : Local) → FileHeader → Bytes → ℕ → Saver
saving l hdr b q =
    let n = sanitise_name l.wire.strings hdr.name in
    record {
      header = some hdr;
      partial_path = n ++ partial_suffix;
      meta_path = n ++ meta_suffix;
      final_path = n;
      f = opened (n ++ partial_suffix);
      h = b;
      received = pos (length b);
      resume_seq = q;
    }

abbrev pub partial_name : Local → FileHeader → Bytes
partial_name l hdr = sanitise_name l.wire.strings hdr.name ++ partial_suffix

abbrev pub meta_name : Local → FileHeader → Bytes
meta_name l hdr = sanitise_name l.wire.strings hdr.name ++ meta_suffix

-- The partial file has exactly the bytes that were hashed.
unfoldable pub Going : (l : Local) → Saver → l.folder.State → Type 0
Going l r s =
    (hdr : FileHeader) × (b : Bytes) × (q : ℕ) × (r ≡ saving l hdr b q)
    × (l.folder.holds (partial_name l hdr) s ≡ some b)

pub suffixes_differ : (n : Bytes) → n ++ partial_suffix ≢ n ++ meta_suffix
suffixes_differ n e =
    omega (arith, ap length e, length-append n partial_suffix, length-append n meta_suffix)

pub take-all : (b : Bytes) → take (length b) b ≡ b
take-all [] = refl
take-all (x ∷ b) = ap (λ y. x ∷ y) (take-all b)

module _ (l : Local) (hdr : FileHeader) where
  pub write_meta_partial :
      (r : Saver) (x y : ℤ) (s : l.folder.State)
      → r.meta_path ≡ meta_name l hdr
      → l.folder.holds (partial_name l hdr) (write_meta l r hdr x y s).0
        ≡ l.folder.holds (partial_name l hdr) s
  unfolding write_meta
  write_meta_partial r x y s e =
      l.folder.write_keeps _ _ _ _
        (λ q. suffixes_differ (sanitise_name l.wire.strings hdr.name) (q ∙ e))

  meta_created-Going :
      (r : Saver) (p : l.folder.State × Bool)
      → l.folder.holds (partial_name l hdr) p.0 ≡ some []
      → (meta_created l (with_header l hdr r) p).progress ≡ more
      → Going l
          (meta_created l (with_header l hdr r) p).saver
          (meta_created l (with_header l hdr r) p).disk
  unfolding Going
  meta_created-Going r (s, false) e k = cc
  meta_created-Going r (s, true) e k = (hdr, [], 0, refl, e)

  file_created-Going :
      (r : Saver) (p : l.folder.State × Bool)
      → (p.1 ≡ true → l.folder.holds (partial_name l hdr) p.0 ≡ some [])
      → (file_created l (with_header l hdr r) hdr p).progress ≡ more
      → Going l
          (file_created l (with_header l hdr r) hdr p).saver
          (file_created l (with_header l hdr r) hdr p).disk
  file_created-Going r (s, false) e k = cc
  file_created-Going r (s, true) e k =
      meta_created-Going r (write_meta l (with_header l hdr r) hdr (pos 0) (pos 0) s)
        (write_meta_partial (with_header l hdr r) (pos 0) (pos 0) s refl ∙ e refl) k

  fresh_start-Going :
      (r : Saver) (s : l.folder.State)
      → (fresh_start l (with_header l hdr r) hdr s).progress ≡ more
      → Going l
          (fresh_start l (with_header l hdr r) hdr s).saver
          (fresh_start l (with_header l hdr r) hdr s).disk
  unfolding fresh_start
  fresh_start-Going r s k =
      file_created-Going r (l.folder.create (partial_name l hdr) s)
        (l.folder.create_done (partial_name l hdr) s) k

  reopened-Going :
      (replied : Bool) (r : Saver) (q : ℕ) (b : Bytes) (s : l.folder.State) (o : Option Bytes)
      → l.folder.holds (partial_name l hdr) s ≡ some b
      → ((c : Bytes) → o ≡ some c → c ≡ b)
      → (reopened l replied (with_header l hdr r) hdr q (pos (length b)) s o).progress ≡ more
      → Going l
          (reopened l replied (with_header l hdr r) hdr q (pos (length b)) s o).saver
          (reopened l replied (with_header l hdr r) hdr q (pos (length b)) s o).disk
  unfolding Going
  reopened-Going replied r q b s none e same k = fresh_start-Going r s k
  reopened-Going true r q b s (some c) e same k = (hdr, b, q, rw (same c refl) refl, e)
  reopened-Going false r q b s (some c) e same k = cc

  -- A partial file that checkPartial accepts has as many bytes as it says.
  unfoldable Found : Saver → l.folder.State → ℕ × ℤ → Type 0
  Found r s p =
      ltb 0 p.0 ≡ true
      → (b : Bytes) × (l.folder.holds r.partial_path s ≡ some b) × (p.1 ≡ pos (length b))

  check_size-Found :
      (r : Saver) (s : l.folder.State) (m : PartialMeta) (o : Option ℕ)
      → l.folder.stat r.partial_path s ≡ o
      → Found r s (check_size m o)
  unfolding Found
  check_size-Found r s m none e k = cc
  check_size-Found r s m (some n) e k =
      let (b, held, size) = l.folder.stat_holds r.partial_path s n e in
      elim (Bool-cases (eq_ℤ (pos n) m.bytes_done)) [
        | inr differ ↦ let q = rw differ at k in cc
        | inl same ↦ elim (Bool-cases (eq_ℤ m.chunks_done (pos 0))) [
          | inl zero' ↦ let q = rw (same, zero') at k in cc
          | inr chunks ↦ (
            b,
            held,
            rw (same, chunks) (sym (eq_ℤ→eq (pos n) m.bytes_done same) ∙ ap pos (sym size)),
          )
        ]
      ]

  check_meta-Found :
      (r : Saver) (s : l.folder.State) (o : Option PartialMeta) → Found r s (check_meta l r hdr s o)
  unfolding Found
  check_meta-Found r s none k = cc
  check_meta-Found r s (some m) k = elim (Bool-cases (bytes_eq m.sha256 hdr.sha256)) [
    | inr differ ↦ let q = rw differ at k in cc
    | inl same ↦ elim (Bool-cases (eq_ℤ m.chunk_size hdr.chunk_size)) [
      | inr differ ↦ let q = rw (same, differ) at k in cc
      | inl same' ↦
          rw (same, same')
            (check_size-Found r s m (l.folder.stat r.partial_path s) refl (rw (same, same') at k))
    ]
  ]

  check_partial-Found : (r : Saver) (s : l.folder.State) → Found r s (check_partial l r hdr s)
  unfolding Found check_partial
  check_partial-Found r s k = elim (Option-cases (l.folder.read r.meta_path s)) [
    | inl e ↦ let q = rw (check_partial, e) at k in cc
    | inr (raw, e) ↦
        rw (check_partial, e)
          (check_meta-Found r s (l.decode_meta raw) (rw (check_partial, e) at k))
  ]

  resumed-Going :
      (replied : Bool) (r : Saver) (q : ℕ) (n : ℤ) (b : Bytes) (s : l.folder.State)
      → n ≡ pos (length b)
      → l.folder.holds (partial_name l hdr) s ≡ some b
      → (resumed l replied (with_header l hdr r) hdr q n s).progress ≡ more
      → Going l
          (resumed l replied (with_header l hdr r) hdr q n s).saver
          (resumed l replied (with_header l hdr r) hdr q n s).disk
  unfolding resumed
  resumed-Going replied r q n b s size e k =
      elim (Bool-cases (l.folder.can_append (partial_name l hdr) s)) [
        | inr e' ↦ rw e' (fresh_start-Going r s (rw e' at k))
        | inl ok ↦
            let o = l.folder.copy_n (length b) (partial_name l hdr) s in
            let all : (c : Bytes) → o ≡ some c → c ≡ b =
              λ c h. l.folder.copy_n_holds (length b) (partial_name l hdr) s b c h e ∙ take-all b in
            rw (ok, size) (reopened-Going replied r q b s o e all (rw (ok, size) at k))
      ]

  pub handle_header-Going :
      (replied : Bool) (r : Saver) (s : l.folder.State)
      → (handle_header l replied r s (some hdr)).progress ≡ more
      → Going l
          (handle_header l replied r s (some hdr)).saver
          (handle_header l replied r s (some hdr)).disk
  unfolding handle_header Found
  handle_header-Going replied r s k =
      let found = check_partial l (with_header l hdr r) hdr s in
      elim (Bool-cases (ltb 0 found.0)) [
        | inr e' ↦ rw e' (fresh_start-Going r s (rw e' at k))
        | inl yes' ↦
            let (b, held, size) = check_partial-Found (with_header l hdr r) s yes' in
            rw yes' (resumed-Going replied r found.0 found.1 b s size held (rw yes' at k))
      ]
