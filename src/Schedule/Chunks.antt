-- ===== src/Schedule/Chunks.antt =====
-- What a chunk request of internal/schedule/handler.go does with its body.
use gmmff.Prelude.{
  ◌≡◌, ◌≢◌, refl, ap, sym, ◌∙◌, ◌++◌, Bool, true, ◌⊎◌, inl, inr, ℕ, zero, suc, false, ◌||◌, [], ◌∷◌,
  Option, none, some, take, ltb, length, arith, Bool-cases,
}
use gmmff.Prelude.Int.{eq_ℤ, eq_ℤ→eq, ltb_ℤ, ◌+ℤ◌, ℤ, pos}
use gmmff.Prelude.Bytes.{Bytes, bytes_eq}
use gmmff.Schedule.Disk.{Disk, File, file, pending, meta_json, data_enc, got}
use gmmff.Schedule.Meta.{UploadMeta, Codec, nonce_size, tag_size}
use gmmff.Schedule.Store.{
  Result, ok, err, checked, after, write_pending_meta, append_read, append_chunk, read_pending_meta,
}
use gmmff.Schedule.Handler.{Reply, answer, refused}
use gmmff.Schedule.Requests.{
  limited, max_read, chunk_answer, chunk_read, chunk_of, handle_upload_chunk,
}

-- What a reader cuts off shows in the length.
take_more : (n : ℕ) (s : Bytes) → ltb n (length (take (suc n) s)) ≡ false → take (suc n) s ≡ s
take_more n [] h = refl
take_more zero (x ∷ s) h = cc
take_more (suc n) (x ∷ s) h = ap (λ l. x ∷ l) (take_more n s (ground arith))

module _ (c : Codec) (disk : Disk) where
  open disk use {State, read, append, append_done, append_keeps, write_done, write_keeps}

  -- What is read of the sidecar `m` once another chunk is counted.
  abbrev pub counted : UploadMeta → UploadMeta
  counted m = record m { chunks_written = m.chunks_written +ℤ pos 1 }

  -- The chunk `b`, the next one of the upload with the sidecar `m`, is given to the store. If the answer
  -- accepts it, then the whole of it stands after what the file held and is counted. Otherwise a call of
  -- the file system has failed. Other files stay.
  pub record Given (id : Bytes) (m : UploadMeta) (b old : Bytes) (d : State) (q : State × Reply ℤ)
      : Type 0 where
    pub outcome :
        ((q.1 ≡ answer m.chunks_written)
          × ((read (file pending id data_enc) q.0 ≡ got (old ++ b))
              × (read (file pending m.upload_id meta_json) q.0
                  ≡ got (c.encode_upload (counted m)))))
        ⊎ (q.1 ≡ refused 400)
    pub others :
        (f : File)
        → f ≢ file pending id data_enc
        → f ≢ file pending m.upload_id meta_json
        → read f q.0 ≡ read f d

  -- A refusal that changes nothing, or the whole body is given to the store as the chunk that is due.
  abbrev pub RefusedOrWhole :
      Bytes → Option ℤ → Option Bytes → Bytes → State → State × Reply ℤ → Type 0
  RefusedOrWhole id index body old d q =
      ((status : ℕ) × (q ≡ (d, refused status)))
      ⊎ ((m : UploadMeta) × ((b : Bytes) × ((read_pending_meta c disk id d ≡ ok m)
              × ((index ≡ some m.chunks_written) × ((body ≡ some b) × Given id m b old d q)))))

  module _ (id b old : Bytes) (m : UploadMeta) (d : State) where
    wrote_meta :
        (d1 : State) (w : State × Bool)
        → w ≡ write_pending_meta c disk (counted m) d1
        → read (file pending id data_enc) d1 ≡ got (old ++ b)
        → ((f : File) → f ≢ file pending id data_enc → read f d1 ≡ read f d)
        → Given id m b old d (chunk_answer c disk m.chunks_written (checked c disk tt w))
    wrote_meta d1 (e, true) h g o = record {
      outcome = inl (
        refl,
        (
          ap (λ (q : State × Bool). read (file pending id data_enc) q.0) h
              ∙ (write_keeps (file pending m.upload_id meta_json) (file pending id data_enc)
                    (c.encode_upload (counted m)) d1 (λ k. cc (k))
                  ∙ g),
          ap (λ (q : State × Bool). read (file pending m.upload_id meta_json) q.0) h
              ∙ write_done (file pending m.upload_id meta_json) (c.encode_upload (counted m)) d1
                  (sym (ap (λ (q : State × Bool). q.1) h)),
        ),
      );
      others = λ f n k.
          ap (λ (q : State × Bool). read f q.0) h
          ∙ (write_keeps (file pending m.upload_id meta_json) f (c.encode_upload (counted m)) d1 k
              ∙ o f n);
    }
    wrote_meta d1 (e, false) h g o = record {
      outcome = inr refl;
      others = λ f n k.
          ap (λ (q : State × Bool). read f q.0) h
          ∙ (write_keeps (file pending m.upload_id meta_json) f (c.encode_upload (counted m)) d1 k
              ∙ o f n);
    }

    appended :
        (w : State × Bool)
        → w ≡ append (file pending id data_enc) b d
        → read (file pending id data_enc) d ≡ got old
        → Given id m b old d (
            chunk_answer c disk m.chunks_written
              (after c disk w λ d1. checked c disk tt (write_pending_meta c disk (counted m) d1)))
    appended (e, true) h r =
        wrote_meta e (write_pending_meta c disk (counted m) e) refl
          (ap (λ (q : State × Bool). read (file pending id data_enc) q.0) h
            ∙ append_done (file pending id data_enc) b old d
                (sym (ap (λ (q : State × Bool). q.1) h)) r)
          λ f n.
            ap (λ (q : State × Bool). read f q.0) h
            ∙ append_keeps (file pending id data_enc) f b d n
    appended (e, false) h r = record {
      outcome = inr refl;
      others = λ f n k.
          ap (λ (q : State × Bool). read f q.0) h ∙ append_keeps (file pending id data_enc) f b d n;
    }

  module _ (id old : Bytes) (d : State) (holds : read (file pending id data_enc) d ≡ got old) where
    append_read-RefusedOrWhole :
        (i : ℤ) (b : Bytes) (r : Result UploadMeta)
        → read_pending_meta c disk id d ≡ r
        → RefusedOrWhole id
            (some i)
            (some b)
            old
            d
            (chunk_answer c disk i (append_read c disk id i b d r))
    append_read-RefusedOrWhole i b (err e) h = inl (400, refl)
    append_read-RefusedOrWhole i b (ok m) h = elim (Bool-cases (eq_ℤ i m.chunks_written)) [
      | inr u ↦ rw u (inl (400, refl))
      | inl u ↦
          elim (Bool-cases
            (ltb_ℤ (pos nonce_size +ℤ m.chunk_size +ℤ pos tag_size) (pos (length b)))) [
              | inl v ↦ rw (u, v) (inl (400, refl))
              | inr v ↦
                  let e = eq_ℤ→eq i m.chunks_written u in
                  rw (u, v, e)
                    (inr (
                      m,
                      (
                        b,
                        (
                          h,
                          (
                            refl,
                            (
                              refl,
                              appended id b old m d (append (file pending id data_enc) b d) refl
                                  holds,
                            ),
                          ),
                        ),
                      ),
                    ))
            ]
    ]

    chunk_read-RefusedOrWhole :
        (i : ℤ) (most : ℕ) (body : Option Bytes)
        → RefusedOrWhole id
            (some i)
            body
            old
            d
            (chunk_read c disk id i most (limited (suc most) body) d)
    unfolding append_chunk
    chunk_read-RefusedOrWhole i most none = inl (400, refl)
    chunk_read-RefusedOrWhole i most (some b) =
        elim (Bool-cases (ltb most (length (take (suc most) b)))) [
          | inl e ↦ rw e (inl (413, refl))
          | inr e ↦
              rw (e, take_more most b e)
                (append_read-RefusedOrWhole i b (read_pending_meta c disk id d) refl)
        ]

    chunk_of-RefusedOrWhole :
        (i : ℤ) (body : Option Bytes) (r : Result UploadMeta)
        → RefusedOrWhole id (some i) body old d (chunk_of c disk id i body d r)
    chunk_of-RefusedOrWhole i body (err e) = inl (400, refl)
    chunk_of-RefusedOrWhole i body (ok m) = chunk_read-RefusedOrWhole i (max_read m) body

  -- Let the file of an upload hold `old`. A chunk request for it either is refused and changes nothing,
  -- or the whole of its body, which the limit on reading has not cut short, is given to the store as the
  -- chunk that is due. If it is accepted, then the file holds the body after `old`, and the sidecar
  -- counts one chunk more; if a call of the file system fails, then the answer is the status 400, and
  -- the two files of the upload may have changed. No other file changes.
  pub handle_upload_chunk-RefusedOrWhole :
      (id chunk_index : Bytes) (index : Option ℤ) (body : Option Bytes) (old : Bytes) (d : State)
      → read (file pending id data_enc) d ≡ got old
      → RefusedOrWhole id index body old d (handle_upload_chunk c disk id chunk_index index body d)
  unfolding handle_upload_chunk
  handle_upload_chunk-RefusedOrWhole id ci none body old d h = inl (400, refl)
  handle_upload_chunk-RefusedOrWhole id ci (some i) body old d h =
      elim (Bool-cases (bytes_eq id [] || bytes_eq ci [])) [
        | inl e ↦ rw e (inl (400, refl))
        | inr e ↦ rw e (chunk_of-RefusedOrWhole id old d h i body (read_pending_meta c disk id d))
      ]
