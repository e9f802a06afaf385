-- ===== src/Schedule/Addresses.antt =====
-- Addresses of one byte, with which the tests of the requests run.
use gmmff.Prelude.{ℕ, Bool, false, [], ◌∷◌, Option, none, some, ◌==◌}
use gmmff.Prelude.Bytes.{Bytes}
use gmmff.Schedule.Config.{Addresses}

abbrev one_byte : Bytes → Option ℕ
one_byte (x ∷ []) = some x
one_byte _ = none

abbrev holds_byte : ℕ → Option ℕ → Bool
holds_byte n none = false
holds_byte n (some ip) = n == ip

abbrev pub short_addresses : Addresses
short_addresses = record {
  Ip = ℕ;
  Cidr = ℕ;
  holds = holds_byte;
  parse_ip = one_byte;
  host_of = λ s. some s;
  trim_space = λ s. s;
}
