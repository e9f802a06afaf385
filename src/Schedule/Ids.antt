-- ===== src/Schedule/Ids.antt =====
-- The identifiers that validID of internal/schedule/store.go accepts.
use gmmff.Prelude.{
  ◌≡◌, refl, ◌⊎◌, inl, inr, ◌↔◌, ◌≤◌, ℕ, true, [], ◌∷◌, ◌==◌, length, arith, Bool-cases,
}
use gmmff.Prelude.Bytes.{Bytes, has_byte}
use gmmff.Schedule.Meta.{all_hex, valid_id}

-- A digit of lower-case hexadecimal.
abbrev pub HexDigit : ℕ → Type 0
HexDigit x = ((b'0' ≤ x) × (x ≤ b'9')) ⊎ ((b'a' ≤ x) × (x ≤ b'f'))

-- The form of the identifiers: 32 digits of lower-case hexadecimal.
pub record IsId (id : Bytes) : Type 0 where
  pub digits : (x : ℕ) → has_byte x id ≡ true → HexDigit x
  pub as_long : length id ≡ 32

all_hex-digits : (s : Bytes) → all_hex s ≡ true → (x : ℕ) → has_byte x s ≡ true → HexDigit x
unfolding all_hex has_byte
all_hex-digits [] h x m = cc
all_hex-digits (c ∷ s) h x m =
    let rest : all_hex s ≡ true = ground arith in
    elim (Bool-cases (c == x)) [
      | inl e ↦ ground arith
      | inr e ↦ all_hex-digits s rest x (ground arith)
    ]

digits-all_hex : (s : Bytes) → ((x : ℕ) → has_byte x s ≡ true → HexDigit x) → all_hex s ≡ true
unfolding all_hex has_byte
digits-all_hex [] h = refl
digits-all_hex (c ∷ s) h =
    let first = h c (ground arith) in
    let rest = digits-all_hex s (λ x m. h x (ground arith)) in ground arith

pub valid_id-IsId : (id : Bytes) → (valid_id id ≡ true) ↔ IsId id
unfolding valid_id
valid_id-IsId id = (
  λ h. record { digits = all_hex-digits id (ground arith); as_long = ground arith },
  λ v. let a = digits-all_hex id v.digits in let n = v.as_long in ground arith,
)
