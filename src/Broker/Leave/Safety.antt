-- ===== src/Broker/Leave/Safety.antt =====
-- handleDisconnect and handleBye (internal/broker/broker.go) do not panic and keep the hub good:
-- registered connections stay open and every stored slot stays well formed.
use gmmff.Prelude.{◌≢◌, ◌≡◌, refl, inl, inr, true, not, [], some, arith, Bool-cases, ◌||◌, ◌==◌}
use gmmff.Prelude.Bytes.{Bytes, bytes_eq, bytes_eq_iff}
use gmmff.Slot.{Slot, remove_peer, is_initiator, connected_count, other_members}
use gmmff.Slot.Invariant.{Inv, remove_peer-Inv}
use gmmff.Store.{SlotStore, Fetched, found, missed}
use gmmff.Protocol.{bye, envelope, null}
use gmmff.Broker.Hub.{Hub, send_to_members}
use gmmff.Broker.Leave.{
  unregister, close_or_update, left_envelope, announce_left, handle_disconnect, say_bye, handle_bye,
}
use gmmff.Broker.Posts.{
  Returns, bind-Returns, map-Returns, Returns-if, IsOpen, Good, Post, set_store-Post, HasGuard,
  weaken-Post, send_to_members-Post,
}

-- The registered connections other than the one that goes stay open.
unregister-IsOpen :
    {S : Type 0} (c x : Bytes) (h : Hub S)
    → (h.registered x ≡ true → IsOpen h x)
    → (unregister c h).registered x ≡ true
    → IsOpen (unregister c h) x
unfolding unregister
unregister-IsOpen c x h open_x r = ground (arith, bytes_eq_iff c x)

unregister_other :
    {S : Type 0} (c x : Bytes) (h : Hub S) → x ≢ c → IsOpen h x → IsOpen (unregister c h) x
unfolding unregister
unregister_other c x h ne e = ground (arith, bytes_eq_iff c x)

unregister_guard :
    {S : Type 0} (c x : Bytes) (h : Hub S)
    → HasGuard (h.conn_of c)
    → HasGuard (h.conn_of x)
    → HasGuard ((unregister c h).conn_of x)
unfolding unregister
unregister_guard c x h g k b = ground (arith, g, k)

module _ (st : SlotStore) where
  open st use {State, stored, update, delete, get_by_id}

  -- Reading a slot: what is stored afterwards was stored, and so was the slot that was found.
  abbrev pub AllInv : State → Type 0
  AllInv s = (i : Bytes) (x : Slot) → stored i s ≡ some x → Inv x

  pub get_by_id-AllInv : (k : Bytes) (s : State) → AllInv s → AllInv (get_by_id k s).0
  get_by_id-AllInv k s v i x h = v i x (st.get_by_id_origin k s i x h)

  pub close_or_update-Post :
      (O : Bytes → Type 0) (c id : Bytes) (s : Slot) (h : Hub State)
      → Inv s
      → Post st O h
      → Post st O (close_or_update st c id s h)
  unfolding close_or_update
  close_or_update-Post O c id s h v p =
      elim (Bool-cases (is_initiator c s || connected_count s == 0)) [
        | inl e ↦ rw e (
            set_store-Post st O (delete id h.store).0 h
              (λ i x k. p.good.slots i x (st.delete_origin id h.store i x k)) p)
        | inr e ↦ rw e (
            set_store-Post st O (update s h.store).0 h
              (λ i x k. elim (st.update_origin s h.store i x k) [
                | inl old ↦ p.good.slots i x old
                | inr (same, _) ↦ rw same v
              ])
              p)
      ]

  announce_left-Post :
      (O : Bytes → Type 0) (c id : Bytes) (r : Fetched) (h : Hub State)
      → ((s : Slot) → r ≡ found s → Inv s)
      → Post st O h
      → Returns (Post st O) (announce_left st c id r h)
  unfolding announce_left
  announce_left-Post O c id (missed e) h v p = p
  announce_left-Post O c id (found s) h v p =
      let s' = remove_peer c s in
      bind-Returns (Post st O) (Post st O)
        (send_to_members (other_members c s') (left_envelope st c s') h)
        (λ h'. some (close_or_update st c id s' h'))
        (send_to_members-Post st O (other_members c s') (left_envelope st c s') h p)
        λ h' q. close_or_update-Post O c id s' h' (remove_peer-Inv c (v s refl)) q

  say_bye-Post :
      (O : Bytes → Type 0) (c id : Bytes) (r : Fetched) (h : Hub State)
      → ((s : Slot) → r ≡ found s → Inv s)
      → Post st O h
      → Returns (Post st O) (say_bye st c id r h)
  unfolding say_bye
  say_bye-Post O c id (missed e) h v p = p
  say_bye-Post O c id (found s) h v p =
      bind-Returns (Post st O) (Post st O)
        (send_to_members (other_members c s) (envelope bye null) h)
        (λ h'. some (close_or_update st c id (remove_peer c s) h'))
        (send_to_members-Post st O (other_members c s) (envelope bye null) h p)
        λ h' q. close_or_update-Post O c id (remove_peer c s) h' (remove_peer-Inv c (v s refl)) q

  pub handle_bye-Post :
      (O : Bytes → Type 0) (c : Bytes) (h : Hub State)
      → Post st O h
      → Returns (Post st O) (handle_bye st c h)
  unfolding handle_bye
  handle_bye-Post O c h p =
      let id = (h.conn_of c).slot_id in
      let (store', r) = get_by_id id h.store in
      Returns-if (Post st O) (bytes_eq id []) (some h)
        (say_bye st c id r (record h { store = store' })) (λ _. p)
        λ _.
          say_bye-Post O c id r (record h { store = store' })
            (λ s e. p.good.slots id s (st.get_by_id_found id h.store s e))
            (set_store-Post st O store' h (get_by_id-AllInv id h.store p.good.slots) p)

  unregister-Post :
      (O : Bytes → Type 0) (c : Bytes) (h : Hub State)
      → Post st O h
      → Post st (λ x. O x × (x ≢ c)) (unregister c h)
  unregister-Post O c h p = record {
    good = record {
      open_registered = λ x r. unregister-IsOpen c x h (p.good.open_registered x) r;
      slots = unfold unregister in p.good.slots;
      guesses = λ x. unregister_guard c x h (p.good.guesses c) (p.good.guesses x);
    };
    opened = λ x o. unregister_other c x h o.1 (p.opened x o.0);
  }

  -- A disconnect needs no open connection, and closes none but that of the peer that went.
  pub handle_disconnect-Post :
      (O : Bytes → Type 0) (c : Bytes) (h : Hub State)
      → Post st O h
      → Returns (Post st (λ x. O x × (x ≢ c))) (handle_disconnect st c h)
  unfolding handle_disconnect
  handle_disconnect-Post O c h p =
      let id = (h.conn_of c).slot_id in
      let (store', r) = get_by_id id h.store in
      let Q : Bytes → Type 0 = λ x. O x × (x ≢ c) in
      let gone = unregister-Post O c h p in
      Returns-if (Post st Q) (not (h.registered c)) (some h) _
        (λ _. weaken-Post st O Q h (λ x q. q.0) p)
        λ _.
          Returns-if (Post st Q) (bytes_eq id []) (some (unregister c h)) _ (λ _. gone)
            λ _.
              announce_left-Post Q c id r (record (unregister c h) { store = store' })
                (λ s e. p.good.slots id s (st.get_by_id_found id h.store s e))
                (set_store-Post st Q store' (unregister c h)
                  (get_by_id-AllInv id h.store p.good.slots) gone)

  pub handle_disconnect-Good :
      (c : Bytes) (h : Hub State) → Good st h → Returns (Good st) (handle_disconnect st c h)
  handle_disconnect-Good c h g =
      map-Returns (Post st (λ x. ⊥ × (x ≢ c))) (Good st) (handle_disconnect st c h) (λ a p. p.good)
        (handle_disconnect-Post (λ _. ⊥) c h (record { good = g; opened = λ x o. absurd o }))

  pub handle_bye-Good :
      (c : Bytes) (h : Hub State) → Good st h → Returns (Good st) (handle_bye st c h)
  handle_bye-Good c h g =
      map-Returns (Post st (λ _. ⊥)) (Good st) (handle_bye st c h) (λ a p. p.good)
        (handle_bye-Post (λ _. ⊥) c h (record { good = g; opened = λ x o. absurd o }))
