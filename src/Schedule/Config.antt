-- ===== src/Schedule/Config.antt =====
-- The limits of internal/schedule/config.go, and the address that a request counts as coming from.
-- Durations are nanoseconds in int64.
use gmmff.Prelude.{
  ℕ, ◌-◌, ◌%◌, ◌^◌, Bool, true, false, not, ◌||◌, List, [], ◌∷◌, Option, none, some, ltb, ◌==◌,
  if◌then◌else◌,
}
use gmmff.Prelude.Int.{ℤ, pos, negsuc, pos_part}
use gmmff.Prelude.Bytes.{Bytes}

-- What is used of the package net, and strings.TrimSpace. `Cidr` is net.IPNet, and `none` stands for
-- the address nil. `host_of` is the host of net.SplitHostPort.
pub record Addresses : Type 1 where
  pub Ip : Type 0
  pub Cidr : Type 0
  pub holds : Cidr → Option Ip → Bool
  pub parse_ip : Bytes → Option Ip
  pub host_of : Bytes → Option Bytes
  pub trim_space : Bytes → Bytes

-- int64(x)
unfoldable pub to_int64 : ℤ → ℤ
to_int64 (pos n) = let r = n % 2 ^ 64 in if ltb r (2 ^ 63) then pos r else negsuc (2 ^ 64 - r - 1)
to_int64 (negsuc n) =
    let r = n % 2 ^ 64 in if ltb r (2 ^ 63) then negsuc r else pos (2 ^ 64 - r - 1)

-- The entries of strings.Split(s, ",").
abbrev onto_first : ℕ → List Bytes → List Bytes
onto_first c [] = (c ∷ []) ∷ []
onto_first c (s ∷ ss) = (c ∷ s) ∷ ss

unfoldable pub hops : Bytes → List Bytes
hops [] = [] ∷ []
hops (c ∷ s) = if c == b',' then [] ∷ hops s else onto_first c (hops s)

abbrev pub last_hop : List Bytes → Bytes
last_hop [] = []
last_hop (s ∷ []) = s
last_hop (s ∷ t ∷ ts) = last_hop (t ∷ ts)

pub record TtlOption : Type 0 where
  pub label : Bytes
  pub duration : ℤ

module _ (net : Addresses) where
  open net use {Ip, Cidr, holds, parse_ip, host_of, trim_space}

  pub record Config : Type 0 where
    pub max_size : ℤ
    pub max_downloads : ℤ
    pub upload_ips : List Cidr
    pub download_ips : List Cidr
    pub upload_password : Bytes
    pub ttl_options : List TtlOption
    pub trusted_proxies : List Cidr

  -- The parts of a request that tell where it comes from.
  pub record Origin : Type 0 where
    pub remote_addr : Bytes
    pub real_ip : Bytes
    pub forwarded_for : Bytes

  unfoldable pub contains_ip : List Cidr → Option Ip → Bool
  contains_ip [] ip = false
  contains_ip (n ∷ ns) ip = holds n ip || contains_ip ns ip

  abbrev pub is_empty : {A : Type 0} → List A → Bool
  is_empty [] = true
  is_empty (x ∷ xs) = false

  unfoldable pub ip_allowed_to_upload : Config → Option Ip → Bool
  unfolding contains_ip
  ip_allowed_to_upload cfg ip = is_empty cfg.upload_ips || contains_ip cfg.upload_ips ip

  unfoldable pub ip_allowed_to_download : Config → Option Ip → Bool
  unfolding contains_ip
  ip_allowed_to_download cfg ip = is_empty cfg.download_ips || contains_ip cfg.download_ips ip

  unfoldable pub peer_of : Origin → Option Ip
  peer_of r = elim (host_of r.remote_addr) [
    | none ↦ parse_ip r.remote_addr
    | some host ↦ parse_ip host
  ]

  -- The last hop of X-Forwarded-For, if it is set.
  unfoldable pub forwarded_hop : Origin → Option Ip
  unfolding hops
  forwarded_hop r = elim r.forwarded_for [
    | [] ↦ none
    | c ∷ s ↦ parse_ip (trim_space (last_hop (hops (c ∷ s))))
  ]

  abbrev or_else : Option Ip → Option Ip → Option Ip
  or_else none b = b
  or_else (some a) b = some a

  abbrev pub is_trusted : Config → Option Ip → Bool
  is_trusted cfg none = false
  is_trusted cfg (some ip) = contains_ip cfg.trusted_proxies (some ip)

  unfoldable pub client_ip : Config → Origin → Option Ip
  unfolding contains_ip forwarded_hop peer_of
  client_ip cfg r =
      if not (is_trusted cfg (peer_of r))
      then peer_of r
      else or_else (parse_ip (trim_space r.real_ip)) (or_else (forwarded_hop r) (peer_of r))

-- The loop of MaxTTL, with the longest so far.
unfoldable pub longest_ttl : List TtlOption → ℕ → ℕ
longest_ttl [] longest = longest
longest_ttl (o ∷ os) longest =
    longest_ttl os (if ltb longest (pos_part o.duration) then pos_part o.duration else longest)

-- MaxTTL
unfoldable pub max_ttl : List TtlOption → ℕ
unfolding longest_ttl
max_ttl os = longest_ttl os 0
