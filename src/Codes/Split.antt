-- ===== src/Codes/Split.antt =====
-- Split codes of internal/crypto/codegen.go, "<nameplate>-<secret>", and the join payload of
-- internal/signaling/code.go, which carries the nameplate alone.
use gmmff.Prelude.{
  ℕ, ◌+◌, ◌≡◌, ◌≢◌, refl, ap, true, ◌&&◌, not, List, [], ◌∷◌, ◌++◌, arith, length, length-append,
  if◌then◌else◌, take, Option, none, some, get_or,
}
use gmmff.Prelude.Bytes.{Bytes}
use gmmff.Protocol.{version, SlotJoinPayload}
use gmmff.Codes.Words.{dash, extend, split, split_n, join_words, all_fit, valid_words, split-ne-nil}

abbrev pub secret_words : ℕ
secret_words = 2

unfoldable pub full_code : Bytes → Bytes → Bytes
full_code nameplate secret = nameplate ++ dash ∷ secret

-- The nameplate and the secret, or the error.
unfoldable pub split_code : Bytes → Option (Bytes × Bytes)
split_code full =
    if not (valid_words full (3 + secret_words))
    then none
    else let parts = split_n 3 full in some (join_words (take 3 parts), get_or parts 3 [])

abbrev payload_of : Option (Bytes × Bytes) → Option SlotJoinPayload
payload_of none = none
payload_of (some (nameplate, _)) = some (record { code = nameplate; protocol_version = version })

unfoldable pub join_payload : Bytes → Option SlotJoinPayload
unfolding split_code
join_payload full = payload_of (split_code full)

extend-append : (c : ℕ) (ps qs : List Bytes) → ps ≢ [] → extend c (ps ++ qs) ≡ extend c ps ++ qs
extend-append c [] qs h = absurd (h refl)
extend-append c (p ∷ ps) qs h = refl

-- Splitting distributes over a hyphen between two texts.
pub split-full_code : (n s : Bytes) → split (full_code n s) ≡ split n ++ split s
unfolding full_code split
split-full_code [] s = refl
split-full_code (c ∷ n) s =
    ground (arith, split-full_code n s, extend-append c (split n) (split s) (split-ne-nil n))

pub all_fit-append : (ps qs : List Bytes) → all_fit (ps ++ qs) ≡ (all_fit ps && all_fit qs)
unfolding all_fit
all_fit-append [] qs = refl
all_fit-append (p ∷ ps) qs = ground (arith, all_fit-append ps qs)

-- A full code is well formed exactly if it has the right number of words and both parts fit.
pub valid_words-full_code :
    (n s : Bytes) (k m : ℕ)
    → valid_words n k ≡ true
    → valid_words s m ≡ true
    → valid_words (full_code n s) (k + m) ≡ true
unfolding valid_words
valid_words-full_code n s k m h j = ground (
  arith,
  ap length (split-full_code n s),
  ap all_fit (split-full_code n s),
  length-append (split n) (split s),
  all_fit-append (split n) (split s),
)
