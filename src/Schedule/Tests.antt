-- ===== src/Schedule/Tests.antt =====
-- internal/schedule/store.go on files in memory.
use gmmff.Prelude.{
  ◌++◌, ◌-◌, none, Option, some, ◌↔◌, ◌⊎◌, true, false, ◌≡◌, ◌≢◌, refl, inl, inr, false, List, [],
  ◌∷◌, Option, arith, ◌≤◌, Bool-cases,
}
use gmmff.Prelude.Int.{ℤ, pos, ◌+ℤ◌}
use gmmff.Prelude.Bytes.{Bytes, codes, bytes_eq, has_byte}
use gmmff.Schedule.Disk.{pending, complete, data_enc, file, got}
use gmmff.Schedule.Meta.{UploadMeta, FileMeta, valid_id, all_hex}
use gmmff.Schedule.Store.{
  init_upload, ok, err, missing, write_file_meta, is_over, read_file_meta, open_download,
  delete_upload, clean_expired, completed_meta,
}
use gmmff.Schedule.History.{downloads, cleans, times_given}
use gmmff.Schedule.Limit.{times_given-le}
use gmmff.Transfer.Delivery.{joined}
use gmmff.Schedule.Files.{read_file_meta-write}
use gmmff.Schedule.Uploads.{upload}
use gmmff.Schedule.Download.{one_less, open_download-upload}
use gmmff.Schedule.Ids.{IsId}
use gmmff.Schedule.Guards.{
  Untouched, Deleted, valid_id_guards, delete_upload-Deleted, clean_expired_keeps,
}
use gmmff.Schedule.Config.{Config, max_ttl, longest_ttl, client_ip, ip_allowed_to_download}
use gmmff.Schedule.Handler.{answer, InitRequest, handle_upload_init, handle_auth, authorize_upload}
use gmmff.Schedule.Requests.{public_meta, handle_upload_chunk, handle_meta}
use gmmff.Schedule.Access.{given, from, handle_auth-authorize_upload, Source, client_ip-Source}
use gmmff.Schedule.Bounds.{RefusedOrPermitted, handle_upload_init-RefusedOrPermitted}
use gmmff.Schedule.Chunks.{RefusedOrWhole, handle_upload_chunk-RefusedOrWhole}
use gmmff.Schedule.Addresses.{short_addresses}
use gmmff.Schedule.Config.{to_int64, hops}
use gmmff.Schedule.Cron.{
  parsed, panics, parse_field, parse_parts, parse_field_part, parse_range_part, parse_wildcard_part,
  parse_range, cut_at, values_from, dedup_sorted, dedup, sort_onto, sink, seen,
}
use gmmff.Schedule.Sorting.{ValuesOf, parse_field-ValuesOf}
use gmmff.Schedule.Memory.{Memory, memory, memory-Works, put, no_files}
use gmmff.Schedule.Fields.{field_codec}

abbrev an_id : Bytes
an_id = codes "0123456789abcdef0123456789abcdef"

abbrev a_file : Bytes
a_file = codes "fedcba9876543210fedcba9876543210"

abbrev asked : UploadMeta
asked = record {
  upload_id = an_id;
  chunks_total = pos 2;
  chunk_size = pos 3;
  chunks_written = pos 0;
  total_size = pos 5;
  expires_at = 100;
  max_downloads = pos 1;
  created_at = 10;
}

abbrev two_chunks : List Bytes
two_chunks = (7 ∷ 8 ∷ 9 ∷ []) ∷ (1 ∷ 2 ∷ []) ∷ []

abbrev kept : FileMeta
kept =
    completed_meta field_codec memory asked a_file (codes "abcd") (codes "n") (codes "m")
      (codes "s") 5

-- The files of an upload that is complete.
abbrev stored : Memory
stored =
    (write_file_meta field_codec memory kept
      (put (file complete a_file data_enc) (got (7 ∷ 8 ∷ 9 ∷ 1 ∷ 2 ∷ [])) no_files)).0

stored_read : read_file_meta field_codec memory a_file stored ≡ ok kept
unfolding read_file_meta valid_id all_hex bytes_eq
stored_read = refl

missing_not_ok : (x : FileMeta) → err missing ≢ ok x
missing_not_ok x h = cc

no_files_read :
    (j : Bytes) (x : FileMeta)
    → ¬ (
        read_file_meta field_codec memory j
          (put (file complete a_file data_enc) (got (7 ∷ 8 ∷ 9 ∷ 1 ∷ 2 ∷ [])) no_files)
        ≡ ok x)
unfolding read_file_meta
no_files_read j x h = elim (Bool-cases (valid_id j)) [
  | inl v ↦ elim (Bool-cases (bytes_eq j a_file)) [
    | inl b ↦ missing_not_ok x (rw (v, b) at h)
    | inr b ↦ missing_not_ok x (rw (v, b) at h)
  ]
  | inr v ↦ missing_not_ok x (rw v at h)
]

stored_named :
    (j : Bytes) (x : FileMeta) → read_file_meta field_codec memory j stored ≡ ok x → x.file_id ≡ j
stored_named j x h = elim (read_file_meta-write field_codec memory kept x j _ h) [
  | inl (e, i) ↦ rw (e, i) refl
  | inr old ↦ absurd (no_files_read j x old)
]

times_given-le_example :
    times_given field_codec memory a_file
      (downloads a_file 20 ∷ downloads a_file 30 ∷ cleans 200 ∷ [])
      stored
    ≤ 1
times_given-le_example =
    times_given-le field_codec memory a_file
      (downloads a_file 20 ∷ downloads a_file 30 ∷ cleans 200 ∷ []) 1 stored kept stored_named
      stored_read refl (tt, (tt, (tt, tt)))

open_download-upload_example :
    ((upload field_codec memory asked two_chunks a_file
        (codes "abcd")
        (codes "n")
        (codes "m")
        (codes "s")
        no_files).1
      ≡ ok kept)
    × ((open_download field_codec memory a_file 20
          (upload field_codec memory asked two_chunks a_file
            (codes "abcd")
            (codes "n")
            (codes "m")
            (codes "s")
            no_files).0).1
        ≡ ok record { meta = one_less kept; content = 7 ∷ 8 ∷ 9 ∷ 1 ∷ 2 ∷ [] })
unfolding valid_id all_hex joined ◌+ℤ◌
open_download-upload_example =
    open_download-upload field_codec memory memory-Works asked two_chunks a_file (codes "abcd")
      (codes "n") (codes "m") (codes "s") 20 no_files refl refl refl (refl, (refl, tt))
      (omega arith)

valid_id_guards_example :
    (IsId (codes "../complete") × (valid_id (codes "../complete") ≡ true))
    ⊎ ((¬ IsId (codes "../complete"))
        × (valid_id (codes "../complete") ≡ false)
        × Untouched field_codec memory (codes "../complete") stored)
valid_id_guards_example = valid_id_guards field_codec memory (codes "../complete") stored

delete_upload-Deleted_example :
    Deleted field_codec memory a_file
      (codes "abcd")
      stored
      (delete_upload field_codec memory a_file (codes "abcd") stored)
delete_upload-Deleted_example =
    delete_upload-Deleted field_codec memory a_file (codes "abcd") stored

kept_live : is_over field_codec memory 50 (ok kept) ≡ false
unfolding is_over
kept_live = refl

clean_expired_keeps_example :
    memory.read (file complete a_file data_enc) (clean_expired field_codec memory 50 stored).0
    ≡ memory.read (file complete a_file data_enc) stored
clean_expired_keeps_example =
    clean_expired_keeps field_codec memory a_file 50 kept stored data_enc stored_read kept_live

abbrev config : Config short_addresses
config = record {
  max_size = pos 100;
  max_downloads = pos 2;
  upload_ips = 7 ∷ [];
  download_ips = [];
  upload_password = codes "pw";
  ttl_options = record { label = codes "1 s"; duration = pos 1000000000 } ∷ [];
  trusted_proxies = 1 ∷ [];
}

-- Five bytes in chunks of three, for longer and for more downloads than there may be.
abbrev request : InitRequest
request = record {
  chunks_total = pos 2;
  total_size = pos 5;
  ttl_seconds = pos 50;
  max_downloads = pos 9;
  chunk_size = pos 3;
}

handle_upload_init-RefusedOrPermitted_example :
    RefusedOrPermitted short_addresses field_codec memory config (some an_id) 10 no_files (
      handle_upload_init short_addresses field_codec memory config
        (some 5)
        (codes "pw")
        []
        (some request)
        (some an_id)
        10
        no_files)
unfolding max_ttl longest_ttl
handle_upload_init-RefusedOrPermitted_example =
    handle_upload_init-RefusedOrPermitted short_addresses field_codec memory config (some 5)
      (codes "pw") [] (some request) (some an_id) 10 no_files (omega arith) (omega arith)

-- An upload of two chunks before the first.
abbrev begun : Memory
begun =
    (init_upload field_codec memory (some an_id) (pos 2) (pos 5) 100 (pos 1) (pos 3) 10 no_files).0

begun_empty : memory.read (file pending an_id data_enc) begun ≡ got []
unfolding init_upload bytes_eq
begun_empty = refl

handle_upload_chunk-RefusedOrWhole_example :
    RefusedOrWhole field_codec memory an_id (some (pos 0)) (some (7 ∷ 8 ∷ 9 ∷ [])) [] begun (
      handle_upload_chunk field_codec memory an_id
        (codes "0")
        (some (pos 0))
        (some (7 ∷ 8 ∷ 9 ∷ []))
        begun)
handle_upload_chunk-RefusedOrWhole_example =
    handle_upload_chunk-RefusedOrWhole field_codec memory an_id (codes "0") (some (pos 0))
      (some (7 ∷ 8 ∷ 9 ∷ [])) [] begun begun_empty

stored_answered :
    handle_meta field_codec memory short_addresses config (some 5) a_file 20 stored
    ≡ answer (public_meta field_codec memory kept)
unfolding handle_meta ip_allowed_to_download read_file_meta valid_id all_hex bytes_eq
stored_answered = refl

stored_content : memory.read (file complete a_file data_enc) stored ≡ got (7 ∷ 8 ∷ 9 ∷ 1 ∷ 2 ∷ [])
unfolding bytes_eq
stored_content = refl

handle_auth-authorize_upload_example :
    (authorize_upload short_addresses config (some 5) (codes "pw") [] ≡ true) ↔ (
      ((handle_auth short_addresses config (some 5)).allowed ≡ true)
      ⊎ (((handle_auth short_addresses config (some 5)).needs_password ≡ true)
          × (given short_addresses (codes "pw") [] ≡ codes "pw")))
handle_auth-authorize_upload_example =
    handle_auth-authorize_upload short_addresses config (some 5) (codes "pw") []

client_ip-Source_example : Source short_addresses config (1 ∷ []) [] (6 ∷ []) (
    client_ip short_addresses config (from short_addresses (1 ∷ []) [] ((9 ∷ []) ++ b',' ∷ 6 ∷ [])))
unfolding has_byte
client_ip-Source_example =
    client_ip-Source short_addresses config (1 ∷ []) [] (9 ∷ []) (6 ∷ []) refl

-- Numbers of one digit.
abbrev one_digit : Bytes → Option ℤ
one_digit (c ∷ []) = some (pos (c - b'0'))
one_digit _ = none

field_parsed :
    parse_field one_digit (codes "7,1-3,*/4,2") (pos 0) (pos 9)
    ≡ parsed (pos 0 ∷ pos 1 ∷ pos 2 ∷ pos 3 ∷ pos 4 ∷ pos 7 ∷ pos 8 ∷ [])
unfolding parse_field parse_parts parse_field_part parse_range_part parse_range cut_at values_from
    to_int64 ◌+ℤ◌ hops dedup_sorted dedup sort_onto sink seen bytes_eq parse_wildcard_part
field_parsed = refl

-- A step over a single number has no dash to split at.
field_panics : parse_field one_digit (codes "5/2") (pos 0) (pos 9) ≡ panics
unfolding parse_field parse_parts parse_field_part parse_range cut_at hops bytes_eq
field_panics = refl

parse_field-ValuesOf_example :
    ValuesOf one_digit
      (codes "7,1-3,*/4,2")
      (pos 0)
      (pos 9)
      (pos 0 ∷ pos 1 ∷ pos 2 ∷ pos 3 ∷ pos 4 ∷ pos 7 ∷ pos 8 ∷ [])
parse_field-ValuesOf_example =
    parse_field-ValuesOf one_digit (codes "7,1-3,*/4,2") (pos 0) (pos 9)
      (pos 0 ∷ pos 1 ∷ pos 2 ∷ pos 3 ∷ pos 4 ∷ pos 7 ∷ pos 8 ∷ []) field_parsed
