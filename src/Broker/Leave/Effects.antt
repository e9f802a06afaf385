-- ===== src/Broker/Leave/Effects.antt =====
-- What a departure does to the slot and to the other connections (internal/broker/broker.go).
use gmmff.Prelude.{
  ◌≡◌, ◌≢◌, refl, ◌∙◌, ap, not, Bool, true, false, List, [], some, arith, if◌then◌else◌,
}
use gmmff.Prelude.Bytes.{Bytes, bytes_eq, bytes_eq_iff, bytes_eq_refl}
use gmmff.Slot.{Slot, is_member, is_initiator, contains, remove_peer, other_members}
use gmmff.Slot.Membership.{
  HasLeft, remove_peer-HasLeft, other_members-is_member, remove_peer-has_peer,
}
use gmmff.Store.{SlotStore, found}
use gmmff.Protocol.{Envelope, envelope, bye, null}
use gmmff.Broker.Hub.{Hub, ◌>>=◌, send_to_members}
use gmmff.Broker.Posts.{Returns, Good}
use gmmff.Broker.Leave.Safety.{handle_disconnect-Good, handle_bye-Good}
use gmmff.Broker.Frames.{
  both-Returns, Ensures, Ensures-if, bind-Ensures, map-Ensures, SameConn, send_to_members-Same,
}
use gmmff.Broker.Leave.{
  unregister, close_or_update, left_envelope, announce_left, handle_disconnect, say_bye, handle_bye,
}

module _ (st : SlotStore) where
  open st use {State, stored, update, delete, get_by_id}

  -- The participants that remain are counted with the initiator, so only its departure closes.
  close_or_update-store :
      (c id : Bytes) (s : Slot) (h : Hub State)
      → (close_or_update st c id s h).store
        ≡ (if is_initiator c s then (delete id h.store).0 else (update s h.store).0)
  unfolding close_or_update
  close_or_update-store c id s h = ground arith

  close_or_update-conn_of :
      (c id : Bytes) (s : Slot) (h : Hub State) → (close_or_update st c id s h).conn_of ≡ h.conn_of
  unfolding close_or_update
  close_or_update-conn_of c id s h = ground arith

  close_or_update-registered :
      (c id : Bytes) (s : Slot) (h : Hub State)
      → (close_or_update st c id s h).registered ≡ h.registered
  unfolding close_or_update
  close_or_update-registered c id s h = ground arith

  remove_peer-initiator_id :
      (c : Bytes) (s : Slot) → (remove_peer c s).initiator_id ≡ s.initiator_id
  remove_peer-initiator_id c s = (remove_peer-has_peer c [] s).2

  -- The slot after the departure of `c`: deleted if `c` is the initiator, and else stored without the
  -- peer `c` and with the other ones.
  abbrev pub Departed : Bytes → Bytes → Slot → State → State → Type 0
  Departed c id s before after =
      HasLeft c s (remove_peer c s)
      × (after ≡ (
          if is_initiator c s then (delete id before).0 else (update (remove_peer c s) before).0))

  is_initiator-remove_peer :
      (c : Bytes) (s : Slot) → is_initiator c (remove_peer c s) ≡ is_initiator c s
  unfolding is_initiator
  is_initiator-remove_peer c s = rw (remove_peer-initiator_id c s) refl

  others_after :
      (c x : Bytes) (s : Slot)
      → is_member x s ≡ false
      → contains x (other_members c (remove_peer c s)) ≡ false
  unfolding is_member is_initiator
  others_after c x s m = ground (
    arith,
    other_members-is_member c x (remove_peer c s),
    remove_peer-has_peer c x s,
    ap (bytes_eq x) (remove_peer-initiator_id c s),
  )

  others_before :
      (c x : Bytes) (s : Slot) → is_member x s ≡ false → contains x (other_members c s) ≡ false
  others_before c x s m = ground (arith, other_members-is_member c x s)

  -- The news went to members of the slot only, and the slot was closed or kept as it should be.
  abbrev pub Left : Bytes → Bytes → Slot → Hub State → Hub State → Type 0
  Left c id s h h' =
      Departed c id s h.store h'.store
      × (h'.registered ≡ h.registered)
      × ((x : Bytes) → is_member x s ≡ false → SameConn x h h')

  finish :
      (c id : Bytes) (s : Slot) (ms : List Bytes) (env : Envelope) (h : Hub State)
      → ((x : Bytes) → is_member x s ≡ false → contains x ms ≡ false)
      → Ensures
          (Left c id s h)
          (send_to_members ms env h >>= λ h'. some (close_or_update st c id (remove_peer c s) h'))
  finish c id s ms env h away =
      let s' = remove_peer c s in
      bind-Ensures _ (Left c id s h) (send_to_members ms env h)
        (λ h'. some (close_or_update st c id s' h')) (send_to_members-Same ms env h)
        λ a p. (
          (
            remove_peer-HasLeft c s,
            rw (close_or_update-store c id s' a, is_initiator-remove_peer c s, p.0.0) refl,
          ),
          close_or_update-registered c id s' a ∙ p.0.1,
          λ x m. rw (close_or_update-conn_of c id s' a) (p.1 x (away x m)),
        )

  announce_left-Left :
      (c id : Bytes) (s : Slot) (h : Hub State)
      → Ensures (Left c id s h) (announce_left st c id (found s) h)
  unfolding announce_left
  announce_left-Left c id s h =
      finish c id s (other_members c (remove_peer c s)) (left_envelope st c (remove_peer c s)) h
        λ x m. others_after c x s m

  say_bye-Left :
      (c id : Bytes) (s : Slot) (h : Hub State)
      → Ensures (Left c id s h) (say_bye st c id (found s) h)
  unfolding say_bye
  say_bye-Left c id s h =
      finish c id s (other_members c s) (envelope bye null) h λ x m. others_before c x s m

  unregistered :
      (c : Bytes) (h : Hub State)
      → ((unregister c h).registered c ≡ false)
        × (((unregister c h).conn_of c).send_closed ≡ true)
        × ((x : Bytes)
            → x ≢ c
            → SameConn x h (unregister c h) × ((unregister c h).registered x ≡ h.registered x))
  unfolding unregister
  unregistered c h = (
    ground (arith, bytes_eq_refl c),
    ground (arith, bytes_eq_refl c),
    λ x ne. (ground (arith, bytes_eq_iff c x), ground (arith, bytes_eq_iff c x)),
  )

  unregister-store : (c : Bytes) (h : Hub State) → (unregister c h).store ≡ h.store
  unfolding unregister
  unregister-store c h = refl

  -- A registered connection that is in a stored slot disconnects. Nothing panics; it is no longer
  -- registered, and the other registrations stay; the slot is deleted if the connection was the
  -- initiator, and else stored without it and with all its other peers; connections outside the
  -- slot are left as they were.
  pub handle_disconnect_leaves :
      (c : Bytes) (s : Slot) (h : Hub State)
      → Good st h
      → h.registered c ≡ true
      → bytes_eq (h.conn_of c).slot_id [] ≡ false
      → (get_by_id (h.conn_of c).slot_id h.store).1 ≡ found s
      → Returns
          (λ h'.
            Departed c (h.conn_of c).slot_id s (get_by_id (h.conn_of c).slot_id h.store).0 h'.store
            × (h'.registered c ≡ false)
            × ((x : Bytes)
                → x ≢ c
                → (h'.registered x ≡ h.registered x) × (is_member x s ≡ false → SameConn x h h')))
          (handle_disconnect st c h)
  unfolding handle_disconnect
  handle_disconnect_leaves c s h g r i e =
      let id = (h.conn_of c).slot_id in
      let (store', f) = get_by_id id h.store in
      let h0 = record (unregister c h) { store = store' } in
      let gone = unregistered c h in
      both-Returns (Good st) _ (handle_disconnect st c h) (handle_disconnect-Good st c h g) (
        Ensures-if _ (not (h.registered c)) (some h) _ (λ n. absurd (cc))
          λ _.
            Ensures-if _ (bytes_eq id []) (some (unregister c h)) _ (λ n. absurd (cc))
              λ _. rw e (
                map-Ensures (Left c id s h0) _ (announce_left st c id (found s) h0)
                  (λ a p. (
                    p.0,
                    ap (λ (q : Bytes → Bool). q c) p.1 ∙ gone.0,
                    λ x ne. (
                      ap (λ (q : Bytes → Bool). q x) p.1 ∙ (gone.2 x ne).1,
                      λ m. p.2 x m ∙ (gone.2 x ne).0,
                    ),
                  ))
                  (announce_left-Left c id s h0)))

  -- A connection that is in a stored slot says bye. Nothing panics, and the registrations stay; the
  -- slot is deleted if the connection was the initiator, and else stored without it and with all
  -- its other peers; connections outside the slot are left as they were.
  pub handle_bye_leaves :
      (c : Bytes) (s : Slot) (h : Hub State)
      → Good st h
      → bytes_eq (h.conn_of c).slot_id [] ≡ false
      → (get_by_id (h.conn_of c).slot_id h.store).1 ≡ found s
      → Returns
          (λ h'.
            Departed c (h.conn_of c).slot_id s (get_by_id (h.conn_of c).slot_id h.store).0 h'.store
            × (h'.registered ≡ h.registered)
            × ((x : Bytes) → is_member x s ≡ false → SameConn x h h'))
          (handle_bye st c h)
  unfolding handle_bye
  handle_bye_leaves c s h g i e =
      let id = (h.conn_of c).slot_id in
      let (store', f) = get_by_id id h.store in
      both-Returns (Good st) _ (handle_bye st c h) (handle_bye-Good st c h g) (
        Ensures-if _ (bytes_eq id []) (some h) _ (λ n. absurd (cc))
          λ _. rw e (say_bye-Left c id s (record h { store = store' })))
