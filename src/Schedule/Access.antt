-- ===== src/Schedule/Access.antt =====
-- Who may upload, by internal/schedule/handler.go and config.go.
use gmmff.Prelude.{
  some, none, ap, ◌∙◌, Option-cases, ◌≡◌, refl, ◌⊎◌, inl, inr, ◌↔◌, true, false, List, [], ◌∷◌,
  ◌++◌, Option, ◌==◌, if◌then◌else◌, arith, Bool-cases,
}
use gmmff.Prelude.Bytes.{Bytes, bytes_eq, bytes_eq_iff, has_byte}
use gmmff.Schedule.Config.{
  Addresses, Config, Origin, hops, last_hop, peer_of, forwarded_hop, is_trusted, client_ip,
}
use gmmff.Schedule.Handler.{handle_auth, authorize_upload}

hops-cases : (s : Bytes) → (t : Bytes) × ((ts : List Bytes) × (hops s ≡ t ∷ ts))
unfolding hops
hops-cases [] = ([], ([], refl))
hops-cases (c ∷ s) = elim (Bool-cases (c == b',')) [
  | inl e ↦ ([], (hops s, rw e refl))
  | inr e ↦ let (t, (ts, h)) = hops-cases s in (c ∷ t, (ts, rw (e, h) refl))
]

hops-append : (a b : Bytes) → hops (a ++ b',' ∷ b) ≡ hops a ++ hops b
unfolding hops
hops-append [] b = refl
hops-append (c ∷ a) b = elim (Bool-cases (c == b',')) [
  | inl e ↦ rw (e, hops-append a b) refl
  | inr e ↦ let (t, (ts, h)) = hops-cases a in rw (e, hops-append a b, h) refl
]

last_hop-append :
    (xs : List Bytes) (y : Bytes) (ys : List Bytes) → last_hop (xs ++ y ∷ ys) ≡ last_hop (y ∷ ys)
last_hop-append [] y ys = refl
last_hop-append (x ∷ []) y ys = refl
last_hop-append (x ∷ x' ∷ xs) y ys = last_hop-append (x' ∷ xs) y ys

-- The last hop is the one that was appended last.
last_hop-hops : (a b : Bytes) → last_hop (hops (a ++ b',' ∷ b)) ≡ last_hop (hops b)
last_hop-hops a b =
    let (t, (ts, h)) = hops-cases b in rw (hops-append a b, h) (last_hop-append (hops a) t ts)

hops_single : (s : Bytes) → has_byte b',' s ≡ false → hops s ≡ s ∷ []
unfolding hops has_byte
hops_single [] h = refl
hops_single (c ∷ s) h =
    let e : (c == b',') ≡ false = ground arith in rw (e, hops_single s (ground arith)) refl

module _ (net : Addresses) where
  open net use {Ip, parse_ip, trim_space}

  -- The password that a request gives: that of the header, or else that of the form.
  abbrev pub given : (header form : Bytes) → Bytes
  given header form = if bytes_eq header [] then form else header

  -- What handleAuth tells a page is what authorizeUpload does: if it says that the caller is allowed
  -- then every request passes, if it asks for a password then exactly the requests with the right one
  -- pass, and otherwise no request passes.
  pub handle_auth-authorize_upload :
      (cfg : Config net) (ip : Option Ip) (header form : Bytes)
      → let a = handle_auth net cfg ip in
        (authorize_upload net cfg ip header form ≡ true) ↔ (
          (a.allowed ≡ true)
          ⊎ ((a.needs_password ≡ true) × (given header form ≡ cfg.upload_password)))
  unfolding handle_auth authorize_upload
  handle_auth-authorize_upload cfg ip header form =
      let eq = bytes_eq_iff (given header form) cfg.upload_password in ground (arith, eq)

  -- The headers of a request whose connection comes from `addr`.
  abbrev pub from : (addr real fwd : Bytes) → Origin net
  from addr real fwd = record { remote_addr = addr; real_ip = real; forwarded_for = fwd }

  -- What is read from X-Forwarded-For is what was appended after the last comma.
  last_hop-appended :
      (written hop : Bytes)
      → has_byte b',' hop ≡ false
      → last_hop (hops (written ++ b',' ∷ hop)) ≡ hop
  last_hop-appended written hop n = last_hop-hops written hop ∙ ap last_hop (hops_single hop n)

  forwarded_hop-appended :
      (addr real written hop : Bytes)
      → has_byte b',' hop ≡ false
      → forwarded_hop net (from addr real (written ++ b',' ∷ hop)) ≡ parse_ip (trim_space hop)
  unfolding forwarded_hop
  forwarded_hop-appended addr real [] hop n =
      ap (λ t. parse_ip (trim_space t)) (last_hop-appended [] hop n)
  forwarded_hop-appended addr real (c ∷ s) hop n =
      ap (λ t. parse_ip (trim_space t)) (last_hop-appended (c ∷ s) hop n)

  -- Where the address of a request comes from, whose connection is from `addr`, which has `real` as its
  -- X-Real-IP, and to whose X-Forwarded-For the hop `hop` was appended last.
  pub data Source (cfg : Config net) (addr real hop : Bytes) (ip : Option Ip) : Type 0 where
    no_proxy :
        is_trusted net cfg (peer_of net (from addr [] [])) ≡ false
        → ip ≡ peer_of net (from addr [] [])
        → Source cfg addr real hop ip
    by_real_ip :
        is_trusted net cfg (peer_of net (from addr [] [])) ≡ true
        → (a : Ip) → parse_ip (trim_space real) ≡ some a
        → ip ≡ some a
        → Source cfg addr real hop ip
    by_last_hop :
        is_trusted net cfg (peer_of net (from addr [] [])) ≡ true
        → parse_ip (trim_space real) ≡ none
        → (a : Ip) → parse_ip (trim_space hop) ≡ some a
        → ip ≡ some a
        → Source cfg addr real hop ip
    by_proxy :
        is_trusted net cfg (peer_of net (from addr [] [])) ≡ true
        → parse_ip (trim_space real) ≡ none
        → parse_ip (trim_space hop) ≡ none
        → ip ≡ peer_of net (from addr [] [])
        → Source cfg addr real hop ip

  -- The address of a request to whose X-Forwarded-For a proxy has appended a hop, after whatever was
  -- written there. If the connection is not from a trusted proxy, it is the address of the connection,
  -- whatever the headers say. If it is, then X-Real-IP decides if it is an address; otherwise the
  -- appended hop does if it is one, and else the connection: what was written before the hop has no
  -- part in it. (Who connects from a trusted address may thus choose what counts as its address.)
  pub client_ip-Source :
      (cfg : Config net) (addr real written hop : Bytes)
      → has_byte b',' hop ≡ false
      → Source cfg addr real hop (client_ip net cfg (from addr real (written ++ b',' ∷ hop)))
  unfolding client_ip peer_of
  client_ip-Source cfg addr real written hop n =
      elim (Bool-cases (is_trusted net cfg (peer_of net (from addr [] [])))) [
        | inr u ↦ no_proxy u (rw u refl)
        | inl u ↦ elim (Option-cases (parse_ip (trim_space real))) [
          | inr r ↦ by_real_ip u r.0 r.1 (rw (u, r.1) refl)
          | inl r ↦ elim (Option-cases (parse_ip (trim_space hop))) [
            | inr p ↦
                by_last_hop u r p.0 p.1
                  (rw (u, r, forwarded_hop-appended addr real written hop n, p.1) refl)
            | inl p ↦
                by_proxy u r p (rw (u, r, forwarded_hop-appended addr real written hop n, p) refl)
          ]
        ]
      ]
