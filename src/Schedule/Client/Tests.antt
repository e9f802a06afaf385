-- ===== src/Schedule/Client/Tests.antt =====
-- The client of internal/schedule/client.go with the toy cipher.
use gmmff.Prelude.{
  ℕ, ◌≤◌, ◌≡◌, ◌≢◌, refl, sym, ap, ◌∙◌, inl, inr, true, false, ◌&&◌, [], ◌∷◌, ◌++◌, none, some,
  drop, get_or, replicate, arith, Bool-cases,
}
use gmmff.Prelude.Int.{pos, ◌+ℤ◌, ◌*ℤ◌}
use gmmff.Prelude.Bytes.{Bytes, codes, bytes_eq, has_byte, has_byte-append}
use gmmff.Schedule.Client.Download.{stream, download, written}
use gmmff.Schedule.Client.Authentic.{Unforged, IsPrefix, stream-authentic}
use gmmff.Schedule.Memory.{memory, memory-Works, no_files}
use gmmff.Schedule.Fields.{field_codec}
use gmmff.Schedule.Addresses.{short_addresses}
use gmmff.Schedule.Meta.{UploadMeta, valid_id, all_hex}
use gmmff.Schedule.Config.{Config, max_ttl, longest_ttl, to_int64, ip_allowed_to_download}
use gmmff.Schedule.Handler.{PublicMeta, authorize_upload, clamp_ttl}
use gmmff.Schedule.Requests.{handle_download}
use gmmff.Schedule.Client.Upload.{UploadOptions, done, upload}
use gmmff.Schedule.Client.Served.{Session, served, kept_meta}
use gmmff.Schedule.Client.Delivered.{response_of, download-upload}
use gmmff.Schedule.Client.{get_uint32, chunk_nonce, put_uint32}
use gmmff.Schedule.Client.Toy.{
  the_prefix, the_nonce, the_chunk, tag_of, seal_toy, twice, toy, open_toy-tag, tag_of-inj,
}

-- The body that the server was given.
abbrev the_body : Bytes
the_body = the_nonce ++ seal_toy [] the_nonce the_chunk

abbrev a_name : Bytes
a_name = codes "a"

abbrev name_nonce : Bytes
name_nonce = replicate 12 9

only_one : (n p : Bytes) → has_byte (tag_of n p) the_body ≡ true → tag_of n p ≡ 1001
unfolding has_byte bytes_eq
only_one n p h = elim (Bool-cases (bytes_eq n the_nonce && bytes_eq p the_chunk)) [
  | inl e ↦ rw e refl
  | inr e ↦ let k = rw e at h in cc
]

has_byte-slice :
    (x : ℕ) (before nonce sealed behind : Bytes)
    → has_byte x sealed ≡ true
    → has_byte x (before ++ (nonce ++ sealed) ++ behind) ≡ true
has_byte-slice x before nonce sealed behind h = ground (
  arith,
  has_byte-append x (before ++ (nonce ++ sealed)) behind,
  has_byte-append x before (nonce ++ sealed),
  has_byte-append x nonce sealed,
)

the_body-Unforged : Unforged toy [] the_prefix name_nonce a_name (the_chunk ∷ []) the_body
unfolding Unforged chunk_nonce put_uint32
the_body-Unforged before nonce sealed behind plain e o =
    let within : has_byte (tag_of nonce plain) the_body ≡ true =
      ap (has_byte (tag_of nonce plain)) e
      ∙ has_byte-slice _ before nonce sealed behind (open_toy-tag [] nonce sealed plain o) in
    let (n, p) = tag_of-inj nonce plain (only_one nonce plain within) in inl (0, n, ap some (sym p))

name_apart : drop 4 name_nonce ≢ the_prefix
name_apart e =
    let h : get_or (drop 4 name_nonce) 0 0 ≡ get_or the_prefix 0 0 = ap (λ x. get_or x 0 0) e in
    omega arith

stream-authentic_example :
    IsPrefix (the_chunk ∷ []) 1 (stream toy [] 40 false (λ _. true) 1 0 [] the_body [])
unfolding get_uint32
stream-authentic_example =
    stream-authentic toy [] the_prefix name_nonce a_name (the_chunk ∷ []) 40 1 false (λ _. true)
      the_body refl (omega arith) (λ e. omega arith) name_apart the_body-Unforged

abbrev open_config : Config short_addresses
open_config = record {
  max_size = pos 100;
  max_downloads = pos 2;
  upload_ips = [];
  download_ips = [];
  upload_password = [];
  ttl_options = [];
  trusted_proxies = [];
}

abbrev session : Session
session = record {
  password = [];
  upload_id = codes "0123456789abcdef0123456789abcdef";
  file_id = codes "fedcba9876543210fedcba9876543210";
  delete_key = codes "k";
  now = 10;
}

abbrev options : UploadOptions
options = record { ttl = pos 1; max_downloads = pos 0; chunk_size = pos 2 }

abbrev five : Bytes
five = 1 ∷ 2 ∷ 3 ∷ 4 ∷ 5 ∷ []

abbrev stale_meta : PublicMeta
stale_meta = record {
  file_id = [];
  file_name_enc = [];
  file_name_nonce = [];
  total_size = pos 0;
  chunks_total = pos 0;
  chunk_size = pos 0;
  expires_at = 0;
  downloads_left = pos 0;
}

abbrev the_kept : UploadMeta
the_kept =
    kept_meta short_addresses field_codec memory open_config none (λ i. i ∷ []) session options 5 2

live : 20 ≤ the_kept.expires_at
unfolding max_ttl longest_ttl clamp_ttl to_int64 ◌*ℤ◌ ◌+ℤ◌
live = omega arith

upload_valid : valid_id session.upload_id ≡ true
unfolding valid_id all_hex
upload_valid = refl

file_valid : valid_id session.file_id ≡ true
unfolding valid_id all_hex
file_valid = refl

allowed : authorize_upload short_addresses open_config none [] [] ≡ true
unfolding authorize_upload bytes_eq
allowed = refl

download-upload_example :
    let up =
      upload toy
        (served short_addresses field_codec memory open_config none (λ i. i ∷ []) session)
        (record {
          key = some (replicate 32 1);
          name_nonce = some name_nonce;
          nonce_prefix = some the_prefix;
        })
        a_name
        (pos 5)
        options
        false
        five
        no_files in
    (up.1
      ≡ done (record {
        file_id = session.file_id;
        key_hex = twice (replicate 32 1);
        delete_key = session.delete_key;
        expires_at = the_kept.expires_at;
      }))
    × (download toy
          (twice (replicate 32 1))
          stale_meta
          (λ _. true)
          (response_of field_codec memory
            (handle_download field_codec memory short_addresses open_config none session.file_id 20
              up.0).1)
        ≡ written a_name five)
unfolding ip_allowed_to_download
download-upload_example =
    download-upload short_addresses field_codec memory memory-Works open_config none none
      (λ i. i ∷ []) session toy (replicate 32 1) name_nonce the_prefix a_name options five
      stale_meta (λ _. true) 20 no_files (λ i. omega arith) upload_valid file_valid refl refl refl
      allowed refl (omega arith) (omega arith) refl (omega arith) live (λ i. refl)
