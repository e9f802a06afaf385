-- ===== src/Broker/Join/Guesses.antt =====
-- Joins with an unknown or malformed code are counted (recordFailedJoin of
-- internal/broker/broker.go).
use gmmff.Prelude.{
  ℕ, suc, ◌≡◌, ◌≢◌, refl, ◌⊎◌, inl, inr, ◌∙◌, ap, Bool, true, false, none, some, arith,
  if◌then◌else◌, leb,
}
use gmmff.Prelude.Bytes.{Bytes, bytes_eq, bytes_eq_iff, bytes_eq_refl}
use gmmff.Store.{SlotStore, slot_not_found, missed}
use gmmff.Protocol.{Envelope, SlotJoinPayload, Decoder, version}
use gmmff.Broker.Hub.{max_failed_joins, Conn, Hub, set_conn, ◌>>=◌, push, send_envelope}
use gmmff.Broker.Posts.{
  Returns, Returns-if, bind-Returns, IsOpen, send_envelope_open, set_conn_self, push-send_closed,
}
use gmmff.Broker.Frames.{SameConn}
use gmmff.Broker.Join.{
  too_many_attempts, invalid_code, unknown_code, expire_read, record_failed_join, rejected,
  check_fetched, validate_join_request, join_validated, join_decoded, handle_slot_join,
}

module _ {S : Type 0} where
  -- One more failure is counted, the fifth and any later one expires the read deadline, and nothing
  -- else but the queue of the connection changes.
  pub record Counted (c : Bytes) (h h' : Hub S) : Type 0 where
    pub count : (h'.conn_of c).failed_joins ≡ suc (h.conn_of c).failed_joins
    pub expiry : (h'.conn_of c).read_expired ≡ (
        if leb max_failed_joins (suc (h.conn_of c).failed_joins)
        then true
        else (h.conn_of c).read_expired)
    pub slot : (h'.conn_of c).slot_id ≡ (h.conn_of c).slot_id
    pub others : (x : Bytes) → x ≢ c → SameConn x h h'
    pub store : h'.store ≡ h.store
    pub registrations : h'.registered ≡ h.registered

  counted :
      (c : Bytes) (h h' : Hub S) → IsOpen h c → record_failed_join c h ≡ some h' → Counted c h h'
  unfolding record_failed_join send_envelope push
  counted c h h' o e = record {
    count = ground (arith, bytes_eq_refl c);
    expiry = ground (arith, bytes_eq_refl c);
    slot = ground (arith, bytes_eq_refl c);
    others = λ x ne. ground (arith, bytes_eq_iff c x, bytes_eq_refl c);
    store = ground (arith, bytes_eq_refl c);
    registrations = ground (arith, bytes_eq_refl c);
  }

  Counted-some :
      (c : Bytes) (h : Hub S) → IsOpen h c → Returns (Counted c h) (record_failed_join c h)
  unfolding record_failed_join
  Counted-some c h o =
      let k' = record (h.conn_of c) { failed_joins = suc (h.conn_of c).failed_joins } in
      let h' = set_conn c k' h in
      let e : IsOpen h' c = rw (set_conn_self c k' h) o in
      Returns-if (Counted c h) (leb max_failed_joins (suc (h.conn_of c).failed_joins))
        (send_envelope c too_many_attempts h' >>= λ h''. some (expire_read c h'')) (some h')
        (λ b. rw (send_envelope_open c too_many_attempts h' e) (
          counted c h _ o (
            unfold record_failed_join in
            rw b (rw (send_envelope_open c too_many_attempts h' e) refl))))
        λ b. counted c h h' o (unfold record_failed_join in rw b refl)

  -- The reply to the bad code goes first.
  after_reply :
      (c : Bytes) (env : Envelope) (h h' : Hub S)
      → Counted c (set_conn c (push env (h.conn_of c)) h) h'
      → Counted c h h'
  unfolding push
  after_reply c env h h' p = record {
    count = ground (arith, p.count, bytes_eq_refl c);
    expiry = ground (arith, p.expiry, bytes_eq_refl c);
    slot = ground (arith, p.slot, bytes_eq_refl c);
    others = λ x ne. ground (arith, p.others x ne, bytes_eq_iff c x);
    store = p.store;
    registrations = p.registrations;
  }

  fail_with :
      (c : Bytes) (env : Envelope) (h : Hub S)
      → IsOpen h c
      → Returns
          (λ v. Counted c h v.hub × (v.slot ≡ none))
          (send_envelope c env h >>= record_failed_join c >>= rejected)
  fail_with c env h o =
      let h1 = set_conn c (push env (h.conn_of c)) h in
      rw (send_envelope_open c env h o) (
        bind-Returns (Counted c h1) (λ v. Counted c h v.hub × (v.slot ≡ none))
          (record_failed_join c h1) rejected
          (Counted-some c h1 (
            ap (λ (k : Conn). k.send_closed) (set_conn_self c (push env (h.conn_of c)) h)
            ∙ push-send_closed env (h.conn_of c)
            ∙ o))
          λ a p. (after_reply c env h a p, refl))

module _ (st : SlotStore) where
  open st use {State, get_by_code}

  -- What a join finds in the store: the state after the lookup, if the code is valid.
  abbrev pub looked_up : (Bytes → Bool) → SlotJoinPayload → Hub State → Hub State
  looked_up valid p h =
      if valid p.code then record h { store = (get_by_code p.code h.store).0 } else h

  -- A join with the right version whose code is malformed, or that the store does not know, is
  -- counted: one more failure, and with the fifth the read deadline is expired. The connection is in
  -- no other slot than before, and no other connection and no registration changes.
  pub handle_slot_join_counts :
      (valid : Bytes → Bool) (d : Decoder) (c : Bytes) (now : ℕ) (b : Bytes) (p : SlotJoinPayload)
      (h : Hub State)
      → IsOpen h c
      → d.slot_join_payload b ≡ some p
      → bytes_eq p.protocol_version version ≡ true
      → (valid p.code ≡ false)
        ⊎ ((valid p.code ≡ true) × ((get_by_code p.code h.store).1 ≡ missed slot_not_found))
      → Returns (Counted c (looked_up valid p h)) (handle_slot_join st valid d c now b h)
  unfolding handle_slot_join join_decoded join_validated validate_join_request check_fetched
  handle_slot_join_counts valid d c now b p h o dec v (inl w) =
      rw (dec, v, w)
        (bind-Returns _ (Counted c h)
          (send_envelope c invalid_code h >>= record_failed_join c >>= rejected)
          (join_validated st c) (fail_with c invalid_code h o) λ a q. rw (q.1, join_validated) q.0)
  handle_slot_join_counts valid d c now b p h o dec v (inr (w, f)) =
      let h1 : Hub State = record h { store = (get_by_code p.code h.store).0 } in
      rw (dec, v, w, f)
        (bind-Returns _ (Counted c h1)
          (send_envelope c unknown_code h1 >>= record_failed_join c >>= rejected)
          (join_validated st c) (fail_with c unknown_code h1 o) λ a q. rw (q.1, join_validated) q.0)
