-- ===== src/Pake/Tests.antt =====
-- internal/pake/session.go with codes that show their parts.
use gmmff.Prelude.{◌≡◌, refl, ◌↔◌, ◌++◌, ◌∷◌, [], none, some, take}
use gmmff.Pake.{
  Crypto, Session, hkdf_salt, info_offer, info_answer, new_session, sign_offer, verify_offer,
  sign_answer, verify_answer,
}
use gmmff.Pake.Agreement.{verify_offer-sign_offer}

abbrev open_crypto : Crypto
open_crypto = record {
  hmac_sha256 = λ k m. k ++ m;
  hkdf_sha256 = λ s salt info n. some (take n (s ++ salt ++ info));
  encode = λ b. b;
  decode = λ b. some b;
  decode-encode = λ b. refl;
}

abbrev agreed : Session
agreed = record {
  offer_key = take 32 (7 ∷ 8 ∷ [] ++ hkdf_salt ++ info_offer);
  answer_key = take 32 (7 ∷ 8 ∷ [] ++ hkdf_salt ++ info_answer);
}

agreed_made : new_session open_crypto (7 ∷ 8 ∷ []) ≡ some agreed
unfolding new_session
agreed_made = refl

verify_offer-sign_offer_example :
    ((verify_offer open_crypto agreed (1 ∷ []) (sign_offer open_crypto agreed (1 ∷ [])) ≡ none) ↔ (
      open_crypto.hmac_sha256 agreed.offer_key (1 ∷ [])
      ≡ open_crypto.hmac_sha256 agreed.offer_key (1 ∷ [])))
    × ((verify_answer open_crypto agreed (1 ∷ []) (sign_answer open_crypto agreed (1 ∷ [])) ≡ none)
        ↔ (open_crypto.hmac_sha256 agreed.answer_key (1 ∷ [])
            ≡ open_crypto.hmac_sha256 agreed.answer_key (1 ∷ [])))
    × ((verify_answer open_crypto agreed (1 ∷ []) (sign_offer open_crypto agreed (1 ∷ [])) ≡ none)
        ↔ (open_crypto.hmac_sha256 agreed.offer_key (1 ∷ [])
            ≡ open_crypto.hmac_sha256 agreed.answer_key (1 ∷ [])))
verify_offer-sign_offer_example =
    verify_offer-sign_offer open_crypto (7 ∷ 8 ∷ []) agreed agreed (1 ∷ []) (1 ∷ []) agreed_made
      agreed_made
