-- ===== src/Broker/Join/Admission.antt =====
-- What a join that is admitted does (handleSlotJoin of internal/broker/broker.go).
use gmmff.Prelude.{
  ℕ, ◌≡◌, ◌≢◌, refl, ◌∙◌, ap, Bool, true, false, Option, none, some, arith, ◌==◌, length,
}
use gmmff.Prelude.Bytes.{Bytes, bytes_eq, bytes_eq_iff}
use gmmff.Slot.{SlotError, Slot, is_member, is_initiator, contains, join, other_members, is_expired}
use gmmff.Slot.Membership.{HasJoined, join-HasJoined, other_members-is_member, contains-without}
use gmmff.Store.{SlotStore, found}
use gmmff.Protocol.{SlotJoinPayload, Decoder, version}
use gmmff.Broker.Hub.{Conn, Hub, set_conn}
use gmmff.Broker.Posts.{set_conn_self, Returns, Good, Post, IsOpen}
use gmmff.Broker.Frames.{
  both-Returns, Ensures, Ensures-if, map-Ensures, SameConn, set_conn-SameConn, Calm, Calm-refl,
  bind-Calm, send_envelope-Calm, send_to_members-Calm,
}
use gmmff.Broker.Join.Safety.{handle_slot_join-Post}
use gmmff.Broker.Join.{
  check_fetched, validate_join_request, others_than, notify_joined_peers, welcome, admitted,
  try_join, join_validated, join_decoded, handle_slot_join,
}

join-keeps :
    (c : Bytes) (s : Slot) → ((join c s).0.id ≡ s.id) × ((join c s).0.initiator_id ≡ s.initiator_id)
unfolding join
join-keeps c s = ground arith

initiator_member : (x : Bytes) (s : Slot) → is_member x s ≡ false → x ≢ s.initiator_id
unfolding is_member is_initiator
initiator_member x s m = ground (arith, bytes_eq_iff x s.initiator_id)

-- The connections that a join of `c` to `s` leaves alone.
abbrev Away : Bytes → Slot → Bytes → Type 0
Away c s x = (x ≢ c) × (is_member x s ≡ false)

others_than-away :
    (c x : Bytes) (s : Slot)
    → is_member x s ≡ false
    → contains x (others_than s.initiator_id (other_members c s)) ≡ false
unfolding others_than
others_than-away c x s m =
    ground
      (arith, contains-without x s.initiator_id (other_members c s), other_members-is_member c x s)

-- The news of a join reaches the joiner and members of the slot only.
notify_joined_peers-Calm :
    {S : Type 0} (c : Bytes) (s : Slot) (h : Hub S)
    → Ensures (Calm (Away c s) h) (notify_joined_peers c (join c s).0 (other_members c s) h)
unfolding notify_joined_peers
notify_joined_peers-Calm {S} c s h =
    let N = Away c s in
    let i = (join c s).0.initiator_id in
    let not_i : (x : Bytes) → Away c s x → x ≢ i =
      λ x n e. initiator_member x s n.1 (e ∙ (join-keeps c s).1) in
    bind-Calm N h _ _
      (bind-Calm N h _ _
        (bind-Calm N h _ _ (send_envelope-Calm N c _ h (λ x n. n.0))
          λ a. send_envelope-Calm N i _ a not_i)
        λ a.
          send_to_members-Calm N _ _ a λ x n. rw ((join-keeps c s).1) (others_than-away c x s n.1))
      λ a.
        Ensures-if (Calm N a) (length (join c s).0.peer_ids == 1) _ (some a)
          (λ _. send_envelope-Calm N i _ a not_i) λ _. Calm-refl N a

module _ (st : SlotStore) where
  open st use {State, update, get_by_code}

  -- What an admitted join does: the slot is stored with the joiner as its last peer, the connection
  -- of the joiner carries its identifier, and the registrations and the connections outside the slot
  -- are as they were.
  abbrev pub Joined : Bytes → Slot → Hub State → Hub State → Type 0
  Joined c s h h' =
      (h'.store ≡ (update (join c s).0 h.store).0)
      × ((h'.conn_of c).slot_id ≡ s.id)
      × (h'.registered ≡ h.registered)
      × ((x : Bytes) → x ≢ c → is_member x s ≡ false → SameConn x h h')
      × HasJoined c s (join c s).0

  welcome-Joined :
      (c : Bytes) (s : Slot) (h : Hub State) (store' : State)
      → store' ≡ (update (join c s).0 h.store).0
      → h.registered s.initiator_id ≡ true
      → (join c s).1 ≡ none
      → Ensures
          (Joined c s h)
          (welcome st c (join c s).0 (other_members c s) (record h { store = store' }))
  unfolding welcome
  welcome-Joined c s h store' e r j =
      let s' = (join c s).0 in
      let h1 : Hub State = record h { store = store' } in
      let h2 = set_conn c (record (h1.conn_of c) { slot_id = s'.id }) h1 in
      Ensures-if (Joined c s h) (h2.registered s'.initiator_id) _ _
        (λ _.
          map-Ensures (Calm (Away c s) h2) (Joined c s h)
            (notify_joined_peers c s' (other_members c s) h2)
            (λ a p. (
              p.same_store.0 ∙ e,
              p.same_slot c
                  ∙ (ap (λ (k : Conn). k.slot_id)
                        (set_conn_self c (record (h1.conn_of c) { slot_id = s'.id }) h1)
                      ∙ (join-keeps c s).0),
              p.same_store.1,
              λ x ne m. p.same_conn x (ne, m) ∙ set_conn-SameConn c x _ h1 ne,
              join-HasJoined c s j,
            ))
            (notify_joined_peers-Calm c s h2))
        λ n. absurd (cc (ap h.registered (join-keeps c s).1))

  try_join-welcome :
      (c : Bytes) (s : Slot) (r : Slot × Option SlotError) (h : Hub State)
      → r.1 ≡ none
      → (update r.0 h.store).1 ≡ none
      → try_join st c s r h
        ≡ welcome st c r.0 (other_members c s) (record h { store = (update r.0 h.store).0 })
  unfolding try_join admitted
  try_join-welcome c s r h e u = rw (e, try_join) (rw (u, admitted) refl)

  validate_passes :
      (valid : Bytes → Bool) (c : Bytes) (now : ℕ) (p : SlotJoinPayload) (s : Slot) (h : Hub State)
      → bytes_eq p.protocol_version version ≡ true
      → valid p.code ≡ true
      → (get_by_code p.code h.store).1 ≡ found s
      → is_expired s now ≡ false
      → validate_join_request st valid c now p h
        ≡ some (record { hub = record h { store = (get_by_code p.code h.store).0 }; slot = some s })
  unfolding validate_join_request check_fetched
  validate_passes valid c now p s h v w f x = rw (v, w, f) (rw x refl)

  -- A join with the right version and a valid code of a stored slot that has not expired, that
  -- admits it and whose initiator is registered. Nothing panics and, if the store takes the update,
  -- what is stored is the slot with the joiner as its last peer, in which the joiner is a member and
  -- all others are members as before; the connection of the joiner carries its identifier, and the
  -- registrations and the connections outside the slot stay. How often the connection has failed before does not matter.
  pub handle_slot_join_admits :
      (valid : Bytes → Bool) (d : Decoder) (c : Bytes) (now : ℕ) (b : Bytes) (p : SlotJoinPayload)
      (s : Slot) (h : Hub State)
      → Good st h
      → IsOpen h c
      → d.slot_join_payload b ≡ some p
      → bytes_eq p.protocol_version version ≡ true
      → valid p.code ≡ true
      → (get_by_code p.code h.store).1 ≡ found s
      → is_expired s now ≡ false
      → (join c s).1 ≡ none
      → (update (join c s).0 (get_by_code p.code h.store).0).1 ≡ none
      → h.registered s.initiator_id ≡ true
      → Returns
          (Joined c s (record h { store = (get_by_code p.code h.store).0 }))
          (handle_slot_join st valid d c now b h)
  handle_slot_join_admits valid d c now b p s h g open_c dec v w f x j u r =
      let h1 : Hub State = record h { store = (get_by_code p.code h.store).0 } in
      both-Returns (Post st (λ y. y ≡ c)) (Joined c s h1) (handle_slot_join st valid d c now b h)
        (handle_slot_join-Post st (λ y. y ≡ c) c refl valid d now b h
          (record { good = g; opened = λ y e. rw e open_c }))
        (unfold handle_slot_join join_decoded join_validated in
          rw dec (
            rw (validate_passes valid c now p s h v w f x)
              (rw (try_join-welcome c s (join c s) h1 j u) (welcome-Joined c s h1 _ refl r j))))
