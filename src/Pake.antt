-- ===== src/Pake.antt =====
-- internal/pake/session.go: the keys of the two directions of a handshake, and the codes that
-- authenticate session descriptions under them.
pub mod Agreement
mod Tests
use gmmff.Prelude.{◌≡◌, ℕ, Bool, true, false, not, Option, none, some, List, [], if◌then◌else◌}
use gmmff.Prelude.Bytes.{Bytes, codes, bytes_eq}

abbrev pub hkdf_salt : Bytes
hkdf_salt = codes "gmmff-v1"

abbrev pub info_offer : Bytes
info_offer = codes "sdp-offer-mac"

abbrev pub info_answer : Bytes
info_answer = codes "sdp-answer-mac"

abbrev pub subkey_len : ℕ
subkey_len = 32

-- HMAC-SHA256, what io.ReadFull reads of HKDF-SHA256, and standard base64.
pub record Crypto : Type 0 where
  pub hmac_sha256 : (key message : Bytes) → Bytes
  pub hkdf_sha256 : (secret salt info : Bytes) → ℕ → Option Bytes
  pub encode : Bytes → Bytes
  pub decode : Bytes → Option Bytes
  pub decode-encode : (b : Bytes) → decode (encode b) ≡ some b

pub record Session : Type 0 where
  pub offer_key : Bytes
  pub answer_key : Bytes

pub data VerifyError : Type 0 where
  mac_decode mac_mismatch : VerifyError

module _ (c : Crypto) where
  abbrev pub derive_subkey : (secret info : Bytes) → Option Bytes
  derive_subkey secret info = c.hkdf_sha256 secret hkdf_salt info subkey_len

  abbrev pub with_keys : Option Bytes → Option Bytes → Option Session
  with_keys none a = none
  with_keys (some o) none = none
  with_keys (some o) (some a) = some (record { offer_key = o; answer_key = a })

  unfoldable pub new_session : Bytes → Option Session
  new_session shared_key =
      with_keys (derive_subkey shared_key info_offer) (derive_subkey shared_key info_answer)

  unfoldable pub sign : (key text : Bytes) → Bytes
  sign key text = c.encode (c.hmac_sha256 key text)

  -- Two decoded codes. The second has just been encoded; if decoding failed, nothing would be left.
  abbrev pub compared : Option Bytes → Option Bytes → Option VerifyError
  compared none want = some mac_decode
  compared (some got) none = if not (bytes_eq got []) then some mac_mismatch else none
  compared (some got) (some want) = if not (bytes_eq got want) then some mac_mismatch else none

  -- The result `none` is the error nil.
  unfoldable pub verify : (key text got_b64 : Bytes) → Option VerifyError
  unfolding sign
  verify key text got_b64 = compared (c.decode got_b64) (c.decode (sign key text))

  unfoldable pub sign_offer : Session → Bytes → Bytes
  sign_offer s sdp = sign s.offer_key sdp

  unfoldable pub verify_offer : Session → (sdp mac : Bytes) → Option VerifyError
  verify_offer s sdp mac = verify s.offer_key sdp mac

  unfoldable pub sign_answer : Session → Bytes → Bytes
  sign_answer s sdp = sign s.answer_key sdp

  unfoldable pub verify_answer : Session → (sdp mac : Bytes) → Option VerifyError
  verify_answer s sdp mac = verify s.answer_key sdp mac
