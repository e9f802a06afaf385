-- ===== src/Turn/Tests.antt =====
-- internal/turn/turn.go on a configuration of two servers.
use gmmff.Prelude.{◌≡◌, refl, ◌≤◌, List, [], ◌∷◌, ◌++◌, some, length, if◌then◌else◌}
use gmmff.Prelude.Int.{pos}
use gmmff.Prelude.Bytes.{Bytes, codes, bytes_eq, has_prefix}
use gmmff.Turn.{
  max_servers, Library, Server, parsed, cut_query, params_of, parse_turn_url, ephemeral_credentials,
  resolve_turn_credentials, parse_with_ttl, parse_each, parse_all_with_ttl,
}
use gmmff.Turn.Accepted.{AllAccepted, parse_all_with_ttl-AllAccepted}

-- The one query that the tests use, and any other.
abbrev get_long_term : Bytes → Bytes
unfolding bytes_eq
get_long_term k =
    if bytes_eq k (codes "user")
    then codes "alice"
    else if bytes_eq k (codes "pass")
    then codes "xyz"
    else []

abbrev get_secret : Bytes → Bytes
unfolding bytes_eq
get_secret k = if bytes_eq k (codes "secret") then codes "abc" else []

abbrev plain : Library
plain = record {
  to_lower = λ s. s;
  trim_space = λ s. s;
  parse_query =
      λ s. if bytes_eq s (codes "user=alice&pass=xyz") then some get_long_term else some get_secret;
  format_int = λ z. codes "1";
  hmac_sha1 = λ s u. s ++ u;
}

abbrev two_servers : List Bytes
two_servers = codes "turns:a?user=alice&pass=xyz" ∷ codes "turn:b?secret=abc" ∷ []

abbrev two_parsed : List Server
two_parsed =
    record { url = codes "turns:a"; username = codes "alice"; password = codes "xyz" }
    ∷ record { url = codes "turn:b"; username = codes "1:gmmff"; password = codes "abc1:gmmff" }
    ∷ []

two_accepted : parse_all_with_ttl plain two_servers (pos 5) 7 ≡ parsed two_parsed
unfolding parse_all_with_ttl parse_each parse_with_ttl parse_turn_url resolve_turn_credentials
    ephemeral_credentials cut_query params_of bytes_eq has_prefix
two_accepted = refl

parse_all_with_ttl-AllAccepted_example :
    (length two_servers ≤ max_servers) × AllAccepted plain two_servers (pos 5) 7 two_parsed
parse_all_with_ttl-AllAccepted_example =
    parse_all_with_ttl-AllAccepted plain two_servers (pos 5) 7 two_parsed two_accepted
