-- ===== src/Turn/Accepted.antt =====
-- Which TURN servers internal/turn/turn.go accepts.
use gmmff.Prelude.{
  ◌≡◌, ◌≢◌, refl, sym, ◌⊎◌, inl, inr, ◌≤◌, ℕ, true, not, ◌&&◌, List, [], ◌∷◌, Option, none, some,
  ltb, length, arith, Bool-cases,
}
use gmmff.Prelude.Int.{ℤ}
use gmmff.Prelude.Bytes.{Bytes, codes, bytes_eq, bytes_eq_iff, has_prefix}
use gmmff.Turn.{
  max_servers, Library, Server, TurnError, Parsed, parsed, failed, Parts, is_empty, params_of,
  cut_query, checked_parts, parse_turn_url, ephemeral_credentials, resolve_turn_credentials,
  final_url, with_credentials, with_parts, parse_with_ttl, one_more, parse_each, parse_all_with_ttl,
}

parsed-same : {A : Type 0} (x y : A) → parsed x ≡ parsed y → x ≡ y
parsed-same x y h = cc

failed-not_parsed : {A : Type 0} (e : TurnError) (x : A) → ¬ (failed e ≡ parsed x)
failed-not_parsed e x h = cc

module _ (lib : Library) where
  -- The parts of a URL that may be used.
  abbrev pub Usable : Parts → Type 0
  Usable p =
      ((has_prefix (codes "turn:") p.base_url ≡ true)
        ⊎ (has_prefix (codes "turns:") p.base_url ≡ true))
      × ((p.transport ≡ []) ⊎ ((p.transport ≡ codes "udp") ⊎ (p.transport ≡ codes "tcp")))
      × ¬ ((has_prefix (codes "turns:") p.base_url ≡ true) × (p.transport ≡ codes "udp"))

  -- One kind of credentials: a user with a password, or what the secret gives.
  abbrev pub Credentials : Parts → ℤ → ℕ → Bytes × Bytes → Type 0
  Credentials p ttl now q =
      ((p.secret ≡ []) × (p.user ≢ []) × (p.pass ≢ []) × (q ≡ (p.user, p.pass)))
      ⊎ ((p.secret ≢ [])
          × (p.user ≡ [])
          × (p.pass ≡ [])
          × (q ≡ ephemeral_credentials lib p.secret (codes "gmmff") ttl now))

  Usable-along : {x p : Parts} → x ≡ p → Usable x → Usable p
  Usable-along e u = rw (sym e) u

  checked_parts-Usable :
      (base : Bytes) (g : Option (Bytes → Bytes)) (p : Parts)
      → (has_prefix (codes "turn:") base ≡ true) ⊎ (has_prefix (codes "turns:") base ≡ true)
      → checked_parts lib base g ≡ parsed p
      → Usable p
  checked_parts-Usable base none p b h = absurd (failed-not_parsed _ p h)
  checked_parts-Usable base (some get) p b h =
      let t = lib.to_lower (get (codes "transport")) in
      let e0 = bytes_eq_iff t [] in
      let e1 = bytes_eq_iff t (codes "udp") in
      let e2 = bytes_eq_iff t (codes "tcp") in
      elim (Bool-cases
        (not (is_empty t) && not (bytes_eq t (codes "udp")) && not (bytes_eq t (codes "tcp")))) [
          | inl x ↦ absurd (failed-not_parsed _ p (rw x at h))
          | inr x ↦
              elim (Bool-cases (has_prefix (codes "turns:") base && bytes_eq t (codes "udp"))) [
                | inl y ↦ absurd (failed-not_parsed _ p (rw (x, y) at h))
                | inr y ↦
                    Usable-along (parsed-same _ p (rw (x, y) at h))
                      (b, ground (arith, e0, e1, e2), ground (arith, e1))
              ]
        ]

  resolve-Credentials :
      (p : Parts) (ttl : ℤ) (now : ℕ) (q : Bytes × Bytes)
      → resolve_turn_credentials lib p.user p.pass p.secret ttl now ≡ parsed q
      → Credentials p ttl now q
  unfolding resolve_turn_credentials
  resolve-Credentials p ttl now q h =
      ground (arith, bytes_eq_iff p.user [], bytes_eq_iff p.pass [], bytes_eq_iff p.secret [])

  parse_turn_url-Usable : (raw : Bytes) (p : Parts) → parse_turn_url lib raw ≡ parsed p → Usable p
  unfolding parse_turn_url
  parse_turn_url-Usable raw p h =
      let (before, query) = cut_query raw in
      let base = lib.to_lower (lib.trim_space before) in
      elim (Bool-cases (has_prefix (codes "turn:") base)) [
        | inl a ↦ checked_parts-Usable base (params_of lib query) p (inl a) (rw a at h)
        | inr a ↦ elim (Bool-cases (has_prefix (codes "turns:") base)) [
          | inl b ↦ checked_parts-Usable base (params_of lib query) p (inr b) (rw (a, b) at h)
          | inr b ↦ absurd (failed-not_parsed _ p (rw (a, b) at h))
        ]
      ]

  -- A server that is accepted, with the parts that it was made of.
  abbrev pub Accepted : Bytes → ℤ → ℕ → Server → Type 0
  Accepted raw ttl now s =
      (p : Parts) × ((parse_turn_url lib (lib.trim_space raw) ≡ parsed p)
        × (Usable p × (Credentials p ttl now (s.username, s.password) × (s.url ≡ final_url lib p))))

  with_credentials-same :
      (p : Parts) (r : Parsed (Bytes × Bytes)) (s : Server)
      → with_credentials lib p r ≡ parsed s
      → (r ≡ parsed (s.username, s.password)) × (s.url ≡ final_url lib p)
  with_credentials-same p (failed e) s h = absurd (failed-not_parsed e s h)
  with_credentials-same p (parsed (u, w)) s h = let e = sym (parsed-same _ s h) in rw e (refl, refl)

  with_parts-Accepted :
      (raw : Bytes) (ttl : ℤ) (now : ℕ) (s : Server) (r : Parsed Parts)
      → parse_turn_url lib (lib.trim_space raw) ≡ r
      → with_parts lib ttl now r ≡ parsed s
      → Accepted raw ttl now s
  with_parts-Accepted raw ttl now s (failed e) hr h = absurd (failed-not_parsed e s h)
  with_parts-Accepted raw ttl now s (parsed p) hr h =
      let (e, u) =
        with_credentials-same p (resolve_turn_credentials lib p.user p.pass p.secret ttl now) s h in
      (
        p,
        (
          hr,
          (
            parse_turn_url-Usable (lib.trim_space raw) p hr,
            (resolve-Credentials p ttl now (s.username, s.password) e, u),
          ),
        ),
      )

  parse_with_ttl-Accepted :
      (raw : Bytes) (ttl : ℤ) (now : ℕ) (s : Server)
      → parse_with_ttl lib raw ttl now ≡ parsed s
      → Accepted raw ttl now s
  unfolding parse_with_ttl
  parse_with_ttl-Accepted raw ttl now s h = elim (Bool-cases (is_empty (lib.trim_space raw))) [
    | inl a ↦ absurd (failed-not_parsed _ s (rw a at h))
    | inr a ↦
        with_parts-Accepted raw ttl now s (parse_turn_url lib (lib.trim_space raw)) refl (rw a at h)
  ]

  -- One server for each entry, in order.
  abbrev pub AllAccepted : List Bytes → ℤ → ℕ → List Server → Type 0
  AllAccepted [] ttl now [] = Unit {0}
  AllAccepted [] ttl now (s ∷ ss) = ¬ (Unit {0})
  AllAccepted (r ∷ rs) ttl now [] = ¬ (Unit {0})
  AllAccepted (r ∷ rs) ttl now (s ∷ ss) = Accepted r ttl now s × AllAccepted rs ttl now ss

  one_more-AllAccepted :
      (r : Bytes) (rs : List Bytes) (ttl : ℤ) (now : ℕ) (x : Parsed Server)
      (y : Parsed (List Server)) (ss : List Server)
      → ((s : Server) → x ≡ parsed s → Accepted r ttl now s)
      → ((ts : List Server) → y ≡ parsed ts → AllAccepted rs ttl now ts)
      → one_more lib x y ≡ parsed ss
      → AllAccepted (r ∷ rs) ttl now ss
  one_more-AllAccepted r rs ttl now (failed e) y ss f g h = absurd (failed-not_parsed e ss h)
  one_more-AllAccepted r rs ttl now (parsed s) (failed e) ss f g h =
      absurd (failed-not_parsed e ss h)
  one_more-AllAccepted r rs ttl now (parsed s) (parsed ts) ss f g h =
      rw (sym (parsed-same (s ∷ ts) ss h)) (f s refl, g ts refl)

  parse_each-AllAccepted :
      (raw : List Bytes) (ttl : ℤ) (now : ℕ) (ss : List Server)
      → parse_each lib raw ttl now ≡ parsed ss
      → AllAccepted raw ttl now ss
  unfolding parse_each
  parse_each-AllAccepted [] ttl now ss h = rw (sym (parsed-same [] ss h)) tt
  parse_each-AllAccepted (r ∷ rs) ttl now ss h =
      one_more-AllAccepted r rs ttl now (parse_with_ttl lib r ttl now) (parse_each lib rs ttl now)
        ss (parse_with_ttl-Accepted r ttl now) (parse_each-AllAccepted rs ttl now) h

  -- If a configuration is accepted, then it has at most three entries, and there is one server for
  -- each, in order: with a URL of the scheme turn or turns, with the transport of the entry if it names
  -- one, which is udp or tcp and never udp for turns; and with credentials of exactly one kind, the
  -- user and the password of the entry, neither of them empty, or those derived from its secret.
  pub parse_all_with_ttl-AllAccepted :
      (raw : List Bytes) (ttl : ℤ) (now : ℕ) (ss : List Server)
      → parse_all_with_ttl lib raw ttl now ≡ parsed ss
      → (length raw ≤ max_servers) × AllAccepted raw ttl now ss
  unfolding parse_all_with_ttl
  parse_all_with_ttl-AllAccepted raw ttl now ss h =
      elim (Bool-cases (ltb max_servers (length raw))) [
        | inl a ↦ absurd (failed-not_parsed _ ss (rw a at h))
        | inr a ↦ (ground arith, parse_each-AllAccepted raw ttl now ss (rw a at h))
      ]
