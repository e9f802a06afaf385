-- ===== src/Codes/Tests.antt =====
-- Codes on concrete words, for internal/crypto/codegen.go and internal/signaling/code.go.
use gmmff.Prelude.{◌≡◌, refl, ◌⊎◌, ◌*◌, ◌+◌, arith, true, false, none, some}
use gmmff.Prelude.Bytes.{Bytes, codes}
use gmmff.Protocol.{version}
use gmmff.Codes.Words.{valid_words, validate_code, split, all_fit}
use gmmff.Codes.Split.{full_code, split_code, join_payload, secret_words}
use gmmff.Codes.Secret.{split_code_iff, join_payload-full_code}
use gmmff.Codes.Generate.{generate_code, generate_code-quarter}

abbrev nameplate : Bytes
nameplate = codes "amber-otter-seven"

abbrev secret : Bytes
secret = codes "velvet-canyon"

abbrev other_secret : Bytes
other_secret = codes "silent-harbor"

nameplate_valid : valid_words nameplate 3 ≡ true
unfolding valid_words split all_fit
nameplate_valid = refl

secret_valid : valid_words secret secret_words ≡ true
unfolding valid_words split all_fit
secret_valid = refl

other_secret_valid : valid_words other_secret secret_words ≡ true
unfolding valid_words split all_fit
other_secret_valid = refl

split_code_iff_example :
    ((valid_words nameplate 5 ≡ false) × (split_code nameplate ≡ none))
    ⊎ ((valid_words nameplate 5 ≡ true)
        × ((n : Bytes) × (s : Bytes) × (split_code nameplate ≡ some (n, s))
            × (full_code n s ≡ nameplate)
            × (validate_code n ≡ true)
            × (valid_words s secret_words ≡ true)))
split_code_iff_example = split_code_iff nameplate

join_payload-full_code_example :
    (join_payload (full_code nameplate secret) ≡ join_payload (full_code nameplate other_secret))
    × (join_payload (full_code nameplate secret)
        ≡ some (record { code = nameplate; protocol_version = version }))
    × (validate_code nameplate ≡ true)
join_payload-full_code_example =
    join_payload-full_code nameplate secret other_secret nameplate_valid secret_valid
      other_secret_valid

generate_code-quarter_example :
    generate_code (some (4 * 76354974 + 0)) ≡ generate_code (some (4 * 76354974 + 3))
generate_code-quarter_example = generate_code-quarter 76354974 0 3 (omega arith) (omega arith)
