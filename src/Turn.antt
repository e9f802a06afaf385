-- ===== src/Turn.antt =====
-- internal/turn/turn.go: the TURN servers of the configuration with their credentials. Durations and
-- times are numbers of nanoseconds.
pub mod Accepted
mod Tests
use gmmff.Prelude.{
  ◌≡◌, ℕ, suc, ◌+◌, ◌*◌, ◌/◌, Bool, true, false, not, ◌&&◌, ◌||◌, List, [], ◌∷◌, ◌++◌, Option, none,
  some, ltb, ◌==◌, if◌then◌else◌, length,
}
use gmmff.Prelude.Int.{ℤ, pos, negsuc, ◌+ℤ◌}
use gmmff.Prelude.Bytes.{Bytes, codes, bytes_eq, has_prefix}

abbrev pub max_servers : ℕ
max_servers = 3

-- 24 hours
abbrev pub ephemeral_ttl : ℤ
ephemeral_ttl = pos (24 * 60 * 60 * 1000000000)

-- What is used of the packages strings, net/url, strconv, and crypto/hmac with encoding/base64.
-- `parse_query` gives url.Values.Get of what url.ParseQuery returns.
pub record Library : Type 0 where
  pub to_lower : Bytes → Bytes
  pub trim_space : Bytes → Bytes
  pub parse_query : Bytes → Option (Bytes → Bytes)
  pub format_int : ℤ → Bytes
  pub hmac_sha1 : (secret username : Bytes) → Bytes

pub record Server : Type 0 where
  pub url : Bytes
  pub username : Bytes
  pub password : Bytes

pub data TurnError : Type 0 where
  too_many_servers empty_server bad_scheme bad_params bad_transport turns_over_udp : TurnError
  no_credentials both_credentials half_credentials : TurnError

pub data Parsed (A : Type 0) : Type 0 where
  parsed : A → Parsed A
  failed : TurnError → Parsed A

-- The parts of a TURN URL.
pub record Parts : Type 0 where
  pub base_url : Bytes
  pub transport : Bytes
  pub user : Bytes
  pub pass : Bytes
  pub secret : Bytes

-- strings.Cut(s, "?")
unfoldable pub cut_query : Bytes → Bytes × Bytes
cut_query [] = ([], [])
cut_query (c ∷ s) = let rest = cut_query s in if c == b'?' then ([], s) else (c ∷ rest.0, rest.1)

abbrev pub is_empty : Bytes → Bool
is_empty s = bytes_eq s []

-- The whole seconds since 1970.
abbrev pub unix : ℤ → ℤ
unix (pos n) = pos (n / 1000000000)
unix (negsuc n) = negsuc (n / 1000000000)

module _ (lib : Library) where
  unfoldable pub params_of : Bytes → Option (Bytes → Bytes)
  params_of [] = some λ k. []
  params_of (c ∷ s) = lib.parse_query (c ∷ s)

  abbrev pub checked_parts : Bytes → Option (Bytes → Bytes) → Parsed Parts
  checked_parts base none = failed bad_params
  checked_parts base (some get) =
      let transport = lib.to_lower (get (codes "transport")) in
      if not (is_empty transport)
        && not (bytes_eq transport (codes "udp"))
        && not (bytes_eq transport (codes "tcp"))
      then failed bad_transport
      else if has_prefix (codes "turns:") base && bytes_eq transport (codes "udp")
      then failed turns_over_udp
      else parsed record {
        base_url = base;
        transport = transport;
        user = get (codes "user");
        pass = get (codes "pass");
        secret = get (codes "secret");
      }

  -- parseTURNURL
  unfoldable pub parse_turn_url : Bytes → Parsed Parts
  unfolding cut_query params_of
  parse_turn_url raw =
      let (before, query) = cut_query raw in
      let base = lib.to_lower (lib.trim_space before) in
      if not (has_prefix (codes "turn:") base) && not (has_prefix (codes "turns:") base)
      then failed bad_scheme
      else checked_parts base (params_of query)

  -- ephemeralCredentials, at the time `now`.
  unfoldable pub ephemeral_credentials : (secret user : Bytes) (ttl : ℤ) (now : ℕ) → Bytes × Bytes
  ephemeral_credentials secret user ttl now =
      let username = lib.format_int (unix (pos now +ℤ ttl)) ++ b':' ∷ user in
      (username, lib.hmac_sha1 secret username)

  -- resolveTURNCredentials
  unfoldable pub resolve_turn_credentials :
      (user pass secret : Bytes) (ttl : ℤ) (now : ℕ) → Parsed (Bytes × Bytes)
  unfolding ephemeral_credentials
  resolve_turn_credentials user pass secret ttl now =
      let has_long_term = not (is_empty user) || not (is_empty pass) in
      let has_ephemeral = not (is_empty secret) in
      if not has_long_term && not has_ephemeral
      then failed no_credentials
      else if has_long_term && has_ephemeral
      then failed both_credentials
      else if has_long_term && (is_empty user || is_empty pass)
      then failed half_credentials
      else if has_ephemeral
      then parsed (ephemeral_credentials secret (codes "gmmff") ttl now)
      else parsed (user, pass)

  abbrev pub final_url : Parts → Bytes
  final_url p =
      if not (is_empty p.transport)
      then p.base_url ++ codes "?transport=" ++ p.transport
      else p.base_url

  abbrev pub with_credentials : Parts → Parsed (Bytes × Bytes) → Parsed Server
  with_credentials p (failed e) = failed e
  with_credentials p (parsed (u, w)) =
      parsed (record { url = final_url p; username = u; password = w })

  abbrev pub with_parts : ℤ → ℕ → Parsed Parts → Parsed Server
  with_parts ttl now (failed e) = failed e
  with_parts ttl now (parsed p) =
      with_credentials p (resolve_turn_credentials p.user p.pass p.secret ttl now)

  -- parseWithTTL
  unfoldable pub parse_with_ttl : Bytes → (ttl : ℤ) (now : ℕ) → Parsed Server
  unfolding parse_turn_url resolve_turn_credentials
  parse_with_ttl raw ttl now =
      let raw' = lib.trim_space raw in
      if is_empty raw' then failed empty_server else with_parts ttl now (parse_turn_url raw')

  abbrev pub one_more : Parsed Server → Parsed (List Server) → Parsed (List Server)
  one_more (failed e) rest = failed e
  one_more (parsed s) (failed e) = failed e
  one_more (parsed s) (parsed ss) = parsed (s ∷ ss)

  -- The loop of ParseAll; the first entry that fails decides.
  unfoldable pub parse_each : List Bytes → (ttl : ℤ) (now : ℕ) → Parsed (List Server)
  unfolding parse_with_ttl
  parse_each [] ttl now = parsed []
  parse_each (r ∷ rs) ttl now = one_more (parse_with_ttl r ttl now) (parse_each rs ttl now)

  -- ParseAllWithTTL
  unfoldable pub parse_all_with_ttl : List Bytes → (ttl : ℤ) (now : ℕ) → Parsed (List Server)
  unfolding parse_each
  parse_all_with_ttl raw ttl now =
      if ltb max_servers (length raw) then failed too_many_servers else parse_each raw ttl now

  -- ParseAll
  unfoldable pub parse_all : List Bytes → (now : ℕ) → Parsed (List Server)
  unfolding parse_all_with_ttl
  parse_all raw now = parse_all_with_ttl raw ephemeral_ttl now
