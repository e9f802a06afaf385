-- ===== src/Schedule/Begun.antt =====
-- What InitUpload of internal/schedule/store.go leaves, whether the calls of the file system succeed or
-- not.
use gmmff.Prelude.{
  ◌≡◌, ◌≢◌, refl, sym, ap, ◌∙◌, ◌⊎◌, inl, inr, ℕ, Bool, true, false, [], Option, none, some,
}
use gmmff.Prelude.Int.{ℤ, pos}
use gmmff.Prelude.Bytes.{Bytes}
use gmmff.Schedule.Disk.{Disk, File, file, pending, data_enc, meta_json, got}
use gmmff.Schedule.Meta.{UploadMeta, Codec}
use gmmff.Schedule.Store.{init_upload, checked, after, write_pending_meta}
use gmmff.Schedule.Config.{Addresses}
use gmmff.Schedule.Handler.{Reply, answer, refused, InitResponse, init_answer}

module _ (net : Addresses) (c : Codec) (disk : Disk) where
  open disk use {State, read, make_dir, write, make_dir_keeps, write_done, write_keeps}

  module _ (id : Option Bytes) (total size : ℤ) (expires : ℕ) (downloads chunk : ℤ) (now : ℕ) where
    -- The sidecar of a new upload.
    abbrev pub new_upload : Bytes → UploadMeta
    new_upload i = record {
      upload_id = i;
      chunks_total = total;
      chunk_size = chunk;
      chunks_written = pos 0;
      total_size = size;
      expires_at = expires;
      max_downloads = downloads;
      created_at = now;
    }

    -- Either the upload is stored, with its sidecar and an empty file, and the answer names it; or the
    -- answer is the status 500. In both cases no file of another upload changes.
    pub record Begun (d : State) (q : State × Reply InitResponse) : Type 0 where
      pub outcome :
          ((i : Bytes) × ((id ≡ some i)
              × ((q.1 ≡ answer (record { upload_id = i; expires_at = expires; chunk_size = chunk }))
                  × ((read (file pending i meta_json) q.0 ≡ got (c.encode_upload (new_upload i)))
                      × (read (file pending i data_enc) q.0 ≡ got [])))))
          ⊎ (q.1 ≡ refused 500)
      pub others : (f : File) → id ≢ some f.id → read f q.0 ≡ read f d

  module _ (i : Bytes) (total size : ℤ) (expires : ℕ) (downloads chunk : ℤ) (now : ℕ) where
    abbrev sidecar : UploadMeta
    sidecar = new_upload (some i) total size expires downloads chunk now i

    not_of : (f g : File) → f.id ≡ i → some i ≢ some g.id → g ≢ f
    not_of f g e n h = n (ap (λ (x : Bytes). some x) (sym (ap (λ (k : File). k.id) h ∙ e)))

    abbrev Begins : State → State × Reply InitResponse → Type 0
    Begins d q = Begun (some i) total size expires downloads chunk now d q

    -- The last call, once the sidecar is written.
    emptied :
        (d d2 : State) (w : State × Bool)
        → w ≡ write (file pending i data_enc) [] d2
        → read (file pending i meta_json) d2 ≡ got (c.encode_upload sidecar)
        → ((f : File) → some i ≢ some f.id → read f d2 ≡ read f d)
        → Begins d (init_answer net c disk chunk (checked c disk sidecar w))
    emptied d d2 (e, true) h m o =
        let keeps : (f : File) → f ≢ file pending i data_enc → read f e ≡ read f d2 = λ f n.
          ap (λ (q : State × Bool). read f q.0) h
          ∙ write_keeps (file pending i data_enc) f [] d2 n in
        record {
          outcome = inl (
            i,
            (
              refl,
              (
                refl,
                (
                  keeps (file pending i meta_json) (λ k. cc (k)) ∙ m,
                  ap (λ (q : State × Bool). read (file pending i data_enc) q.0) h
                      ∙ write_done (file pending i data_enc) [] d2
                          (sym (ap (λ (q : State × Bool). q.1) h)),
                ),
              ),
            ),
          );
          others = λ f n. keeps f (not_of (file pending i data_enc) f refl n) ∙ o f n;
        }
    emptied d d2 (e, false) h m o = record {
      outcome = inr refl;
      others = λ f n.
          ap (λ (q : State × Bool). read f q.0) h
          ∙ (write_keeps (file pending i data_enc) f [] d2
                (not_of (file pending i data_enc) f refl n)
              ∙ o f n);
    }

    described :
        (d d1 : State) (w : State × Bool)
        → w ≡ write_pending_meta c disk sidecar d1
        → ((f : File) → read f d1 ≡ read f d)
        → Begins d (
            init_answer net c disk chunk
              (after c disk w λ d2. checked c disk sidecar (write (file pending i data_enc) [] d2)))
    described d d1 (e, true) h o =
        emptied d e (write (file pending i data_enc) [] e) refl
          (ap (λ (q : State × Bool). read (file pending i meta_json) q.0) h
            ∙ write_done (file pending i meta_json) (c.encode_upload sidecar) d1
                (sym (ap (λ (q : State × Bool). q.1) h)))
          λ f n.
            ap (λ (q : State × Bool). read f q.0) h
            ∙ (write_keeps (file pending i meta_json) f (c.encode_upload sidecar) d1
                  (not_of (file pending i meta_json) f refl n)
                ∙ o f)
    described d d1 (e, false) h o = record {
      outcome = inr refl;
      others = λ f n.
          ap (λ (q : State × Bool). read f q.0) h
          ∙ (write_keeps (file pending i meta_json) f (c.encode_upload sidecar) d1
                (not_of (file pending i meta_json) f refl n)
              ∙ o f);
    }

    made :
        (d : State) (w : State × Bool)
        → w ≡ make_dir pending i d
        → Begins d (
            init_answer net c disk chunk (
              after c disk w λ d1.
                after c disk
                  (write_pending_meta c disk sidecar d1)
                  λ d2. checked c disk sidecar (write (file pending i data_enc) [] d2)))
    made d (e, true) h =
        described d e (write_pending_meta c disk sidecar e) refl
          λ f. ap (λ (q : State × Bool). read f q.0) h ∙ make_dir_keeps pending i d f
    made d (e, false) h = record {
      outcome = inr refl;
      others = λ f n. ap (λ (q : State × Bool). read f q.0) h ∙ make_dir_keeps pending i d f;
    }

  pub init_upload-Begun :
      (id : Option Bytes) (total size : ℤ) (expires : ℕ) (downloads chunk : ℤ) (now : ℕ) (d : State)
      → Begun id total size expires downloads chunk now d (
          init_answer net c disk chunk
            (init_upload c disk id total size expires downloads chunk now d))
  unfolding init_upload
  init_upload-Begun none total size expires downloads chunk now d = record {
    outcome = inr refl;
    others = λ f n. refl;
  }
  init_upload-Begun (some i) total size expires downloads chunk now d =
      made i total size expires downloads chunk now d (make_dir pending i d) refl
