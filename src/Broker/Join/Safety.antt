-- ===== src/Broker/Join/Safety.antt =====
-- slot.join (internal/broker/broker.go) does not panic on an open connection and keeps the hub good.
use gmmff.Prelude.{
  ◌∙◌, ap, ℕ, suc, ◌≡◌, refl, ◌⊎◌, inl, inr, Bool, true, not, List, Option, none, some, arith,
  Option-cases, ◌==◌, leb, length,
}
use gmmff.Prelude.Bytes.{Bytes, bytes_eq}
use gmmff.Slot.{Slot, SlotError, slot_full, slot_closed, join, other_members, is_expired}
use gmmff.Slot.Invariant.{Inv, join-Inv}
use gmmff.Store.{SlotStore, StoreError, slot_not_found, Fetched, found, missed}
use gmmff.Protocol.{Envelope, version, Decoder, SlotJoinPayload}
use gmmff.Broker.Hub.{Conn, max_failed_joins, push, Hub, set_conn, ◌>>=◌, send_envelope}
use gmmff.Broker.Posts.{
  Returns, bind-Returns, map-Returns, Returns-if, IsOpen, Post, weaken-Post, also_open,
  set_conn-Post, set_conn_self, set_conn_twice, send_envelope_open, push-send_closed,
  set_store-Post, send_envelope-Post, send_to_members-Post,
}
use gmmff.Broker.Join.{
  too_many_attempts, expire_read, record_failed_join, Validated, rejected, invalid_code,
  unknown_code, notify_joined_peers, check_fetched, validate_join_request, welcome, admitted,
  try_join, join_validated, join_decoded, handle_slot_join,
}

module _ (st : SlotStore) (O : Bytes → Type 0) (c : Bytes) (o : O c) where
  open st use {State, stored, update, delete, get_by_code}

  expired-Post :
      (h : Hub State) (j k : Conn)
      → j.send_closed ≡ (h.conn_of c).send_closed
      → Post st O h
      → Post st O (expire_read c (set_conn c j (set_conn c k h)))
  expired-Post h j k e p =
      let h' = set_conn c j (set_conn c k h) in
      let j' = record (h'.conn_of c) { read_expired = true } in
      rw (set_conn_twice c j j' (set_conn c k h), set_conn_twice c k j' h)
        (set_conn-Post st O c j' h
          (ap (λ (x : Conn). x.send_closed) (set_conn_self c j (set_conn c k h)) ∙ e) (λ _ _. refl)
          p)

  -- The fifth failure leaves the read deadline expired.
  record_failed_join-Post :
      (h : Hub State) → Post st O h → Returns (Post st O) (record_failed_join c h)
  unfolding record_failed_join
  record_failed_join-Post h p =
      let k = h.conn_of c in
      let k' = record k { failed_joins = suc k.failed_joins } in
      let h' = set_conn c k' h in
      let e' : IsOpen h' c = rw (set_conn_self c k' h) (p.opened c o) in
      Returns-if (Post st O) (leb max_failed_joins (suc k.failed_joins))
        (send_envelope c too_many_attempts h' >>= λ h''. some (expire_read c h'')) (some h')
        (λ _. rw (send_envelope_open c too_many_attempts h' e') (
          expired-Post h (push too_many_attempts (h'.conn_of c)) k'
            (push-send_closed too_many_attempts (h'.conn_of c)
              ∙ ap (λ (x : Conn). x.send_closed) (set_conn_self c k' h))
            p))
        λ e. set_conn-Post st O c k' h refl (λ _ b. ground arith) p

  -- What validateJoinRequest leaves: a good hub, and a well-formed slot if any.
  record Valid (v : Validated State) : Type 0 where
    hub_post : Post st O v.hub
    slot_inv : (s : Slot) → v.slot ≡ some s → Inv s

  rejected-Valid : (h : Hub State) → Post st O h → Returns Valid (rejected h)
  rejected-Valid h p = record { hub_post = p; slot_inv = λ s e. absurd (cc) }

  reject_with :
      (env : Envelope) (h : Hub State)
      → Post st O h
      → Returns Valid (send_envelope c env h >>= rejected)
  reject_with env h p =
      bind-Returns (Post st O) Valid (send_envelope c env h) rejected
        (send_envelope-Post st O c env h o p) rejected-Valid

  reject_and_count :
      (env : Envelope) (h : Hub State)
      → Post st O h
      → Returns Valid (send_envelope c env h >>= record_failed_join c >>= rejected)
  reject_and_count env h p =
      bind-Returns (Post st O) Valid (send_envelope c env h >>= record_failed_join c) rejected
        (bind-Returns (Post st O) (Post st O) (send_envelope c env h) (record_failed_join c)
          (send_envelope-Post st O c env h o p) record_failed_join-Post)
        rejected-Valid

  check_fetched-Valid :
      (now : ℕ) (r : Fetched) (h : Hub State)
      → ((s : Slot) → r ≡ found s → Inv s)
      → Post st O h
      → Returns Valid (check_fetched st c now r h)
  unfolding check_fetched
  check_fetched-Valid now (missed slot_not_found) h v p = reject_and_count unknown_code h p
  check_fetched-Valid now (missed _) h v p = reject_with _ h p
  check_fetched-Valid now (found s) h v p =
      Returns-if Valid (is_expired s now) _ _
        (λ _.
          reject_with _ (record h { store = (delete s.id h.store).0 })
            (set_store-Post st O (delete s.id h.store).0 h
              (λ i x k. p.good.slots i x (st.delete_origin s.id h.store i x k)) p))
        λ _. record { hub_post = p; slot_inv = λ s' e. v s' (ground arith) }

  validate_join_request-Valid :
      (valid : Bytes → Bool) (now : ℕ) (r : SlotJoinPayload) (h : Hub State)
      → Post st O h
      → Returns Valid (validate_join_request st valid c now r h)
  unfolding validate_join_request
  validate_join_request-Valid valid now r h p =
      let (store', f) = get_by_code r.code h.store in
      Returns-if Valid (not (bytes_eq r.protocol_version version)) _ _ (λ _. reject_with _ h p)
        λ _.
          Returns-if Valid (not (valid r.code)) _ _ (λ _. reject_and_count invalid_code h p)
            λ _.
              check_fetched-Valid now f (record h { store = store' })
                (λ s e. let (i, k) = st.get_by_code_found r.code h.store s e in p.good.slots i s k)
                (set_store-Post st O store' h
                  (λ i x k. p.good.slots i x (st.get_by_code_origin r.code h.store i x k)) p)

  -- The initiator was looked up, so it is open, and stays so over the sends before its own.
  notify_joined_peers-Post :
      (s : Slot) (existing : List Bytes) (h : Hub State)
      → IsOpen h s.initiator_id
      → Post st O h
      → Returns (Post st O) (notify_joined_peers c s existing h)
  unfolding notify_joined_peers
  notify_joined_peers-Post s existing h e p =
      let i = s.initiator_id in
      let Q : Bytes → Type 0 = λ x. (x ≡ i) ⊎ O x in
      map-Returns (Post st Q) (Post st O) _ (λ a q. weaken-Post st Q O a (λ x k. inr k) q)
        (bind-Returns (Post st Q) (Post st Q) _ _
          (bind-Returns (Post st Q) (Post st Q) _ _
            (bind-Returns (Post st Q) (Post st Q) _ _
              (send_envelope-Post st Q c _ h (inr o) (also_open st O i h e p))
              λ a q. send_envelope-Post st Q i _ a (inl refl) q)
            λ a q. send_to_members-Post st Q _ _ a q)
          λ a q.
            Returns-if (Post st Q) (length s.peer_ids == 1) _ (some a)
              (λ _. send_envelope-Post st Q i _ a (inl refl) q) λ _. q)

  welcome-Post :
      (s : Slot) (existing : List Bytes) (h : Hub State)
      → Post st O h
      → Returns (Post st O) (welcome st c s existing h)
  unfolding welcome
  welcome-Post s existing h p =
      let h' = set_conn c (record (h.conn_of c) { slot_id = s.id }) h in
      let p' = set_conn-Post st O c (record (h.conn_of c) { slot_id = s.id }) h refl (λ g. g) p in
      Returns-if (Post st O) (h'.registered s.initiator_id) _ _
        (λ e. notify_joined_peers-Post s existing h' (p'.good.open_registered s.initiator_id e) p')
        λ _.
          bind-Returns (Post st O) (Post st O) _ (λ a. some _) (send_envelope-Post st O c _ h' o p')
            λ a q.
              set_store-Post st O (delete s.id a.store).0 a
                (λ i x k. q.good.slots i x (st.delete_origin s.id a.store i x k)) q

  admitted-Post :
      (s : Slot) (existing : List Bytes) (e : Option StoreError) (h : Hub State)
      → Post st O h
      → Returns (Post st O) (admitted st c s existing e h)
  unfolding admitted
  admitted-Post s existing none h p = welcome-Post s existing h p
  admitted-Post s existing (some e) h p = send_envelope-Post st O c _ h o p

  try_join-Post :
      (s : Slot) (r : Slot × Option SlotError) (h : Hub State)
      → Inv r.0
      → Post st O h
      → Returns (Post st O) (try_join st c s r h)
  unfolding try_join
  try_join-Post s (s', some slot_full) h v p = send_envelope-Post st O c _ h o p
  try_join-Post s (s', some slot_closed) h v p = send_envelope-Post st O c _ h o p
  try_join-Post s (s', none) h v p =
      let (store', e) = update s' h.store in
      admitted-Post s' (other_members c s) e (record h { store = store' })
        (set_store-Post st O store' h
          (λ i x k. elim (st.update_origin s' h.store i x k) [
            | inl old ↦ p.good.slots i x old
            | inr (same, _) ↦ rw same v
          ])
          p)

  join_validated-Post :
      (v : Validated State) → Valid v → Returns (Post st O) (join_validated st c v)
  unfolding join_validated
  join_validated-Post v p = elim (Option-cases v.slot) [
    | inl e ↦ rw (e, join_validated) p.hub_post
    | inr (s, e) ↦
        rw (e, join_validated)
          (try_join-Post s (join c s) v.hub (join-Inv c (p.slot_inv s e)) p.hub_post)
  ]

  join_decoded-Post :
      (valid : Bytes → Bool) (now : ℕ) (r : Option SlotJoinPayload) (h : Hub State)
      → Post st O h
      → Returns (Post st O) (join_decoded st valid c now r h)
  unfolding join_decoded
  join_decoded-Post valid now none h p = send_envelope-Post st O c _ h o p
  join_decoded-Post valid now (some r) h p =
      bind-Returns Valid (Post st O) (validate_join_request st valid c now r h)
        (join_validated st c) (validate_join_request-Valid valid now r h p) join_validated-Post

  pub handle_slot_join-Post :
      (valid : Bytes → Bool) (d : Decoder) (now : ℕ) (b : Bytes) (h : Hub State)
      → Post st O h
      → Returns (Post st O) (handle_slot_join st valid d c now b h)
  unfolding handle_slot_join
  handle_slot_join-Post valid d now b h p = join_decoded-Post valid now (d.slot_join_payload b) h p
