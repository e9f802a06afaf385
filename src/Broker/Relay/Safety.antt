-- ===== src/Broker/Relay/Safety.antt =====
-- relay (internal/broker/broker.go) does not panic on an open connection and keeps the hub good.
use gmmff.Prelude.{◌≡◌, refl, ◌⊎◌, inl, inr, [], Option, none, some}
use gmmff.Prelude.Bytes.{Bytes, bytes_eq}
use gmmff.Slot.{Slot, is_member}
use gmmff.Store.{SlotStore, Fetched, found, missed}
use gmmff.Protocol.{MsgType, targeted, Envelope, Decoder, TargetedPayload}
use gmmff.Broker.Hub.{Hub}
use gmmff.Broker.Posts.{
  Returns, map-Returns, Returns-if, Post, weaken-Post, also_open, set_store-Post,
  send_envelope-Post, send_if_registered-Post,
}
use gmmff.Broker.Leave.Safety.{get_by_id-AllInv}
use gmmff.Broker.Relay.{fallback_target, relay_targeted, relay_star, relay_in_slot, relay}

module _ (st : SlotStore) where
  open st use {State, stored, get_by_id}

  relay_targeted-Post :
      (O : Bytes → Type 0) (c : Bytes) (s : Slot) (t : Option TargetedPayload) (env : Envelope)
      (h : Hub State)
      → O c
      → Post st O h
      → Returns (Post st O) (relay_targeted c s t env h)
  unfolding relay_targeted
  relay_targeted-Post O c s none env h o p = send_envelope-Post st O c _ h o p
  relay_targeted-Post O c s (some t) env h o p =
      Returns-if (Post st O) (is_member t.target_peer_id s) _ (some h)
        (λ _. send_if_registered-Post st O t.target_peer_id env h p) λ _. p

  -- The target of the star is looked up first, so it is open.
  relay_star-Post :
      (O : Bytes → Type 0) (c : Bytes) (s : Slot) (env : Envelope) (h : Hub State)
      → O c
      → Post st O h
      → Returns (Post st O) (relay_star c s env h)
  unfolding relay_star
  relay_star-Post O c s env h o p =
      let target = fallback_target c s in
      Returns-if (Post st O) (bytes_eq target []) _ _ (λ _. send_envelope-Post st O c _ h o p)
        λ _.
          Returns-if (Post st O) (h.registered target) _ _
            (λ e.
              map-Returns (Post st (λ x. (x ≡ target) ⊎ O x)) (Post st O) _
                (λ a q. weaken-Post st (λ x. (x ≡ target) ⊎ O x) O a (λ x k. inr k) q)
                (send_envelope-Post st (λ x. (x ≡ target) ⊎ O x) target env h (inl refl)
                  (also_open st O target h (p.good.open_registered target e) p)))
            λ _. send_envelope-Post st O c _ h o p

  relay_in_slot-Post :
      (O : Bytes → Type 0) (d : Decoder) (c : Bytes) (r : Fetched) (t : MsgType) (b : Bytes)
      (h : Hub State)
      → O c
      → Post st O h
      → Returns (Post st O) (relay_in_slot d c r t b h)
  unfolding relay_in_slot
  relay_in_slot-Post O d c (missed e) t b h o p = send_envelope-Post st O c _ h o p
  relay_in_slot-Post O d c (found s) targeted b h o p =
      relay_targeted-Post O c s (d.targeted_payload b) _ h o p
  relay_in_slot-Post O d c (found s) _ b h o p = relay_star-Post O c s _ h o p

  pub relay-Post :
      (O : Bytes → Type 0) (d : Decoder) (c : Bytes) (t : MsgType) (b : Bytes) (h : Hub State)
      → O c
      → Post st O h
      → Returns (Post st O) (relay st d c t b h)
  unfolding relay
  relay-Post O d c t b h o p =
      let id = (h.conn_of c).slot_id in
      let (store', r) = get_by_id id h.store in
      Returns-if (Post st O) (bytes_eq id []) _ _ (λ _. send_envelope-Post st O c _ h o p)
        λ _.
          relay_in_slot-Post O d c r t b (record h { store = store' }) o
            (set_store-Post st O store' h (get_by_id-AllInv st id h.store p.good.slots) p)
