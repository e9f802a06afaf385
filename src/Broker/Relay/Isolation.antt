-- ===== src/Broker/Relay/Isolation.antt =====
-- Whom a relayed message reaches (relay of internal/broker/broker.go).
use gmmff.Prelude.{
  ◌≡◌, ◌≢◌, refl, ◌⊎◌, inl, inr, true, false, List, [], ◌∷◌, Option, none, some, arith, Bool-cases,
}
use gmmff.Prelude.Bytes.{Bytes, bytes_eq, bytes_eq_iff, bytes_eq_refl}
use gmmff.Slot.{Slot, is_member, is_initiator, has_peer, contains}
use gmmff.Store.{SlotStore, Fetched, found, missed}
use gmmff.Protocol.{MsgType, targeted, raw, Envelope, envelope, TargetedPayload, Decoder}
use gmmff.Broker.Hub.{Hub, set_conn, push, send_envelope, send_if_registered}
use gmmff.Broker.Frames.{
  Ensures, Ensures-if, Ensures-some, map-Ensures, SameConn, send_envelope-Same,
}
use gmmff.Broker.Relay.{
  first_peer, fallback_target, relay_targeted, relay_star, relay_in_slot, relay,
}

first_peer-contains :
    (ps : List Bytes) → bytes_eq (first_peer ps) [] ≡ false → contains (first_peer ps) ps ≡ true
unfolding contains bytes_eq
first_peer-contains [] h = cc
first_peer-contains (p ∷ ps) h = ground (arith, bytes_eq_refl p)

fallback_target-is_member :
    (c : Bytes) (s : Slot)
    → bytes_eq (fallback_target c s) [] ≡ false
    → is_member (fallback_target c s) s ≡ true
unfolding fallback_target is_member is_initiator has_peer contains
fallback_target-is_member c s h =
    ground (arith, first_peer-contains s.peer_ids, bytes_eq_refl s.initiator_id)

module _ {S : Type 0} where
  -- What becomes of another connection than the sender's: it gets the message, or nothing.
  abbrev pub Reaches : Slot → Envelope → Bytes → Hub S → Hub S → Type 0
  Reaches s env x h h' =
      SameConn x h h' ⊎ ((is_member x s ≡ true) × (h'.conn_of x ≡ push env (h.conn_of x)))

  pushed :
      (s : Slot) (t x : Bytes) (env : Envelope) (h : Hub S)
      → is_member t s ≡ true
      → (bytes_eq t x ≡ true) ⊎ (bytes_eq t x ≡ false)
      → Reaches s env x h (set_conn t (push env (h.conn_of t)) h)
  pushed s t x env h m (inl e) =
      let same : t ≡ x = (bytes_eq_iff t x).0 e in inr (rw (← same) m, rw (e, same) refl)
  pushed s t x env h m (inr e) = inl (rw e refl)

  send_to_member :
      (s : Slot) (t x : Bytes) (env : Envelope) (h : Hub S)
      → is_member t s ≡ true
      → Ensures (Reaches s env x h) (send_envelope t env h)
  unfolding send_envelope
  send_to_member s t x env h m =
      Ensures-if (Reaches s env x h) (h.conn_of t).send_closed none _ (λ _. tt)
        λ _. pushed s t x env h m (Bool-cases (bytes_eq t x))

  answer_sender :
      (s : Slot) (c x : Bytes) (env reply : Envelope) (h : Hub S)
      → x ≢ c
      → Ensures (Reaches s env x h) (send_envelope c reply h)
  answer_sender s c x env reply h ne =
      map-Ensures _ _ (send_envelope c reply h) (λ a p. inl (p.1 x ne))
        (send_envelope-Same c reply h)

  relay_targeted-Reaches :
      (s : Slot) (c x : Bytes) (t : Option TargetedPayload) (env : Envelope) (h : Hub S)
      → x ≢ c
      → Ensures (Reaches s env x h) (relay_targeted c s t env h)
  unfolding relay_targeted send_if_registered
  relay_targeted-Reaches s c x none env h ne = answer_sender s c x env _ h ne
  relay_targeted-Reaches s c x (some t) env h ne =
      Ensures-if (Reaches s env x h) (is_member t.target_peer_id s) _ (some h)
        (λ m.
          Ensures-if (Reaches s env x h) (h.registered t.target_peer_id) _ (some h)
            (λ _. send_to_member s t.target_peer_id x env h m) λ _. inl refl)
        λ _. inl refl

  relay_star-Reaches :
      (s : Slot) (c x : Bytes) (env : Envelope) (h : Hub S)
      → x ≢ c
      → Ensures (Reaches s env x h) (relay_star c s env h)
  unfolding relay_star
  relay_star-Reaches s c x env h ne =
      let t = fallback_target c s in
      Ensures-if (Reaches s env x h) (bytes_eq t []) _ _ (λ _. answer_sender s c x env _ h ne)
        λ e.
          Ensures-if (Reaches s env x h) (h.registered t) _ _
            (λ _. send_to_member s t x env h (fallback_target-is_member c s e))
            λ _. answer_sender s c x env _ h ne

  relay_in_slot-Reaches :
      (d : Decoder) (s : Slot) (c x : Bytes) (t : MsgType) (b : Bytes) (h : Hub S)
      → x ≢ c
      → Ensures (Reaches s (envelope t (raw b)) x h) (relay_in_slot d c (found s) t b h)
  unfolding relay_in_slot
  relay_in_slot-Reaches d s c x targeted b h ne =
      relay_targeted-Reaches s c x (d.targeted_payload b) (envelope targeted (raw b)) h ne
  relay_in_slot-Reaches d s c x _ b h ne = relay_star-Reaches s c x _ h ne

module _ (st : SlotStore) where
  open st use {State, get_by_id}

  abbrev Outcome :
      Decoder → (c x : Bytes) → MsgType → Bytes → Hub State → Fetched → Hub State → Type 0
  Outcome d c x t b h r a =
      SameConn x h a
      ⊎ ((s : Slot) × (r ≡ found s)
          × (is_member x s ≡ true)
          × (a.conn_of x ≡ push (envelope t (raw b)) (h.conn_of x)))

  in_slot-Outcome :
      (d : Decoder) (c x : Bytes) (t : MsgType) (b : Bytes) (h : Hub State) (r : Fetched)
      → x ≢ c
      → Ensures (Outcome d c x t b h r) (relay_in_slot d c r t b h)
  unfolding relay_in_slot
  in_slot-Outcome d c x t b h (missed e) ne =
      map-Ensures _ _ (send_envelope c _ h) (λ a p. inl (p.1 x ne)) (send_envelope-Same c _ h)
  in_slot-Outcome d c x t b h (found s) ne =
      map-Ensures (Reaches s (envelope t (raw b)) x h) _ (relay_in_slot d c (found s) t b h)
        (λ a p. elim p [ inl same ↦ inl same | inr (m, q) ↦ inr (s, refl, m, q) ])
        (relay_in_slot-Reaches d s c x t b h ne)

  relay-Outcome :
      (d : Decoder) (c x : Bytes) (t : MsgType) (b : Bytes) (h : Hub State)
      → x ≢ c
      → Ensures
          (Outcome d c x t b h (get_by_id (h.conn_of c).slot_id h.store).1)
          (relay st d c t b h)
  unfolding relay
  relay-Outcome d c x t b h ne =
      let id = (h.conn_of c).slot_id in
      let (store', r) = get_by_id id h.store in
      Ensures-if _ (bytes_eq id []) _ _
        (λ _.
          map-Ensures _ _ (send_envelope c _ h) (λ a p. inl (p.1 x ne)) (send_envelope-Same c _ h))
        λ _. in_slot-Outcome d c x t b (record h { store = store' }) r ne

  -- A relayed message is put, as it came, on the queue of members of the sender's slot at most: any
  -- connection other than the sender's is left as it was, or is a member of the slot that the store
  -- has for the sender's slot and is queued exactly the sender's type and bytes. Where the store has
  -- no such slot, every other connection is left as it was.
  pub relay_isolated :
      (d : Decoder) (c x : Bytes) (t : MsgType) (b : Bytes) (h h' : Hub State)
      → relay st d c t b h ≡ some h'
      → x ≢ c
      → SameConn x h h'
        ⊎ ((s : Slot) × ((get_by_id (h.conn_of c).slot_id h.store).1 ≡ found s)
            × (is_member x s ≡ true)
            × (h'.conn_of x ≡ push (envelope t (raw b)) (h.conn_of x)))
  relay_isolated d c x t b h h' e ne =
      Ensures-some (Outcome d c x t b h (get_by_id (h.conn_of c).slot_id h.store).1)
        (relay st d c t b h) h' e (relay-Outcome d c x t b h ne)
