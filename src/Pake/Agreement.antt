-- ===== src/Pake/Agreement.antt =====
-- Two peers with the sessions of internal/pake/session.go.
use gmmff.Prelude.{◌≡◌, sym, ◌∙◌, ◌↔◌, Option, none, some, arith}
use gmmff.Prelude.Bytes.{Bytes, bytes_eq_iff}
use gmmff.Pake.{
  Crypto, Session, new_session, sign, compared, verify, sign_offer, verify_offer, sign_answer,
  verify_answer,
}

some-same : (x y : Bytes) → (some x ≡ some y) ↔ (x ≡ y)
some-same x y = ground arith

module _ (c : Crypto) where
  compared_iff :
      (g : Option Bytes) (want : Bytes) → (compared c g (some want) ≡ none) ↔ (g ≡ some want)
  compared_iff none want = ground arith
  compared_iff (some got) want = ground (arith, bytes_eq_iff got want)

  verify_iff :
      (key text got : Bytes)
      → (verify c key text got ≡ none) ↔ (c.decode got ≡ some (c.hmac_sha256 key text))
  unfolding verify sign
  verify_iff key text got =
      rw (c.decode-encode (c.hmac_sha256 key text))
        (compared_iff (c.decode got) (c.hmac_sha256 key text))

  -- A code made under one key passes for another text under another key just if the two are equal.
  verify-sign :
      (key key' text other : Bytes)
      → (verify c key' other (sign c key text) ≡ none)
        ↔ (c.hmac_sha256 key text ≡ c.hmac_sha256 key' other)
  unfolding sign
  verify-sign key key' text other =
      let v = verify_iff key' other (c.encode (c.hmac_sha256 key text)) in
      let d = c.decode-encode (c.hmac_sha256 key text) in
      let e = some-same (c.hmac_sha256 key text) (c.hmac_sha256 key' other) in
      (λ h. e.0 (sym d ∙ v.0 h), λ h. v.1 (d ∙ e.1 h))

  -- Two peers with the same shared key: one accepts the signature of the other for a session
  -- description just if the authentication code of what arrived, under the same key, is that of what
  -- was signed. In particular what arrives unchanged is accepted. A signature of an offer passes for an
  -- answer just if the codes under the two keys agree.
  pub verify_offer-sign_offer :
      (shared : Bytes) (s t : Session) (sdp other : Bytes)
      → new_session c shared ≡ some s
      → new_session c shared ≡ some t
      → ((verify_offer c t other (sign_offer c s sdp) ≡ none)
          ↔ (c.hmac_sha256 s.offer_key sdp ≡ c.hmac_sha256 s.offer_key other))
        × ((verify_answer c t other (sign_answer c s sdp) ≡ none)
            ↔ (c.hmac_sha256 s.answer_key sdp ≡ c.hmac_sha256 s.answer_key other))
        × ((verify_answer c t other (sign_offer c s sdp) ≡ none)
            ↔ (c.hmac_sha256 s.offer_key sdp ≡ c.hmac_sha256 s.answer_key other))
  unfolding verify_offer sign_offer verify_answer sign_answer
  verify_offer-sign_offer shared s t sdp other hs ht =
      let e : t ≡ s = cc (sym ht ∙ hs) in
      rw e (
        verify-sign s.offer_key s.offer_key sdp other,
        verify-sign s.answer_key s.answer_key sdp other,
        verify-sign s.offer_key s.answer_key sdp other,
      )
