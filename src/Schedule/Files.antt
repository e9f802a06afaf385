-- ===== src/Schedule/Files.antt =====
-- How the sidecar files of internal/schedule/store.go change: a write to one of them, whether or not it
-- succeeds, and the removal of a directory.
use gmmff.Prelude.{
  sym, ◌≡◌, ◌≢◌, refl, ap, ◌⊎◌, inl, inr, ℕ, Bool, true, false, not, take, arith, Bool-cases,
  if◌then◌else◌,
}
use gmmff.Prelude.Bytes.{Bytes, bytes_eq, bytes_eq_iff}
use gmmff.Schedule.Disk.{
  pending, Leaf, data_enc, Area, pending, Leaf, data_enc, complete, meta_json, File, file, Read,
  got, Disk,
}
use gmmff.Schedule.Meta.{FileMeta, valid_id, Codec}
use gmmff.Schedule.Store.{
  missing, storage, Result, ok, err, decoded, read_file_meta, write_file_meta, checked, after,
}

-- Files in different directories, or with different names, are different.
pub complete_pending : ¬ (complete ≡ pending)
complete_pending h = cc

meta_enc : ¬ (meta_json ≡ data_enc)
meta_enc h = cc

pub meta_not_enc : (a b : Area) (i j : Bytes) → file a i meta_json ≢ file b j data_enc
meta_not_enc a b i j e = meta_enc (ap (λ (f : File). f.leaf) e)

pub enc_not_meta : (a b : Area) (i j : Bytes) → file a i data_enc ≢ file b j meta_json
enc_not_meta a b i j e = meta_enc (sym (ap (λ (f : File). f.leaf) e))

pub complete_not_pending : (i j : Bytes) (l k : Leaf) → file complete i l ≢ file pending j k
complete_not_pending i j l k e = complete_pending (ap (λ (f : File). f.area) e)

other_id : (a : Area) (i j : Bytes) (l k : _) → j ≢ i → file a j k ≢ file a i l
other_id a i j l k ne e = ne (ap (λ (f : File). f.id) e)

module _ (c : Codec) (disk : Disk) where
  open disk use {
    State, read, write, remove_all, write_done, write_part, write_keeps, remove_all_part,
  }

  pub checked_done :
      {A : Type 0} (a : A) (q : State × Bool) → q.1 ≡ true → checked c disk a q ≡ (q.0, ok a)
  checked_done a (d, true) h = refl
  checked_done a (d, false) h = cc

  pub checked_failed :
      {A : Type 0} (a : A) (q : State × Bool)
      → q.1 ≡ false
      → checked c disk a q ≡ (q.0, err storage)
  checked_failed a (d, true) h = cc
  checked_failed a (d, false) h = refl

  pub after_done :
      {A : Type 0} (q : State × Bool) (k : State → State × Result A)
      → q.1 ≡ true
      → after c disk q k ≡ k q.0
  after_done (d, true) k h = refl
  after_done (d, false) k h = cc

  pub after_failed :
      {A : Type 0} (q : State × Bool) (k : State → State × Result A)
      → q.1 ≡ false
      → after c disk q k ≡ (q.0, err storage)
  after_failed (d, true) k h = cc
  after_failed (d, false) k h = refl

  -- What the sidecar of `j` is, once its file has been read.
  abbrev meta_of : Bytes → Read Bytes → Result FileMeta
  meta_of j r = if not (valid_id j) then err missing else decoded c.decode_file r

  meta_of_encoded : (j : Bytes) (m x : FileMeta) → meta_of j (got (c.encode_file m)) ≡ ok x → x ≡ m
  meta_of_encoded j m x h = ground (arith, c.decode_file-encode m)

  meta_of_part :
      (j : Bytes) (m x : FileMeta) (n : ℕ)
      → meta_of j (got (take n (c.encode_file m))) ≡ ok x
      → x ≡ m
  meta_of_part j m x n h = elim (c.decode_file-take m n) [
    | inl e ↦ meta_of_encoded j m x (rw e at h)
    | inr e ↦ ground (arith, e)
  ]

  write_own :
      (m x : FileMeta) (d : State)
      → read_file_meta c disk m.file_id (write_file_meta c disk m d).0 ≡ ok x
      → (x ≡ m) ⊎ (read_file_meta c disk m.file_id d ≡ ok x)
  unfolding read_file_meta
  write_own m x d h =
      let f = file complete m.file_id meta_json in
      let b = c.encode_file m in
      elim (Bool-cases (write f b d).1) [
        | inl e ↦ inl (meta_of_encoded m.file_id m x (rw (write_done f b d e) at h))
        | inr e ↦ elim (write_part f b d e) [
          | inl same ↦ inr (rw same at h)
          | inr (n, part) ↦ inl (meta_of_part m.file_id m x n (rw part at h))
        ]
      ]

  -- A sidecar that is read after a write is the one written, or was there before.
  pub read_file_meta-write :
      (m x : FileMeta) (j : Bytes) (d : State)
      → read_file_meta c disk j (write_file_meta c disk m d).0 ≡ ok x
      → ((x ≡ m) × (j ≡ m.file_id)) ⊎ (read_file_meta c disk j d ≡ ok x)
  unfolding read_file_meta
  read_file_meta-write m x j d h = elim (Bool-cases (bytes_eq j m.file_id)) [
    | inl e ↦
        let same = (bytes_eq_iff j m.file_id).0 e in
        elim (write_own m x d (rw same at h)) [ inl y ↦ inl (y, same) | inr y ↦ inr (rw same y) ]
    | inr e ↦
        let ne : j ≢ m.file_id = ground (arith, bytes_eq_iff j m.file_id) in
        inr (
          rw
            (write_keeps (file complete m.file_id meta_json) (file complete j meta_json)
              (c.encode_file m) d (other_id complete m.file_id j meta_json meta_json ne))
            at h)
  ]

  -- After a write that succeeds it is the one written.
  pub read_file_meta-written :
      (m x : FileMeta) (d : State)
      → (write_file_meta c disk m d).1 ≡ true
      → read_file_meta c disk m.file_id (write_file_meta c disk m d).0 ≡ ok x
      → x ≡ m
  unfolding read_file_meta
  read_file_meta-written m x d w h =
      meta_of_encoded m.file_id m x
        (rw (write_done (file complete m.file_id meta_json) (c.encode_file m) d w) at h)

  pub read_file_meta-remove_all :
      (a : Area) (i j : Bytes) (x : FileMeta) (d : State)
      → read_file_meta c disk j (remove_all a i d) ≡ ok x
      → read_file_meta c disk j d ≡ ok x
  unfolding read_file_meta
  read_file_meta-remove_all a i j x d h = elim (remove_all_part a i (file complete j meta_json) d) [
    | inl e ↦ ground (arith, e)
    | inr e ↦ rw e at h
  ]

  -- Nothing that happens in pending/ touches a sidecar in complete/.
  pub read_file_meta_keeps :
      (j : Bytes) (d e : State)
      → read (file complete j meta_json) e ≡ read (file complete j meta_json) d
      → read_file_meta c disk j e ≡ read_file_meta c disk j d
  unfolding read_file_meta
  read_file_meta_keeps j d e h = ap (meta_of j) h
