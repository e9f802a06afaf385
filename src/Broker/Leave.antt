-- ===== src/Broker/Leave.antt =====
-- A peer goes: handleDisconnect and handleBye of internal/broker/broker.go.
pub mod Safety
pub mod Effects
use gmmff.Prelude.{
  ℕ, Bool, true, false, ◌||◌, not, List, [], Option, none, some, ◌==◌, if◌then◌else◌,
}
use gmmff.Prelude.Bytes.{Bytes, bytes_eq}
use gmmff.Slot.{Slot, connected_count, remove_peer, is_initiator, other_members}
use gmmff.Store.{SlotStore, Fetched, found, missed}
use gmmff.Protocol.{Envelope, envelope, peer_left, bye, peer, null}
use gmmff.Broker.Hub.{Conn, Hub, put, set_conn, ◌>>=◌, send_to_members}

-- delete(b.conns, c.id), then c.close()
unfoldable pub unregister : {S : Type 0} → Bytes → Hub S → Hub S
unregister c h = record h {
  registered = put c false h.registered;
  conn_of = put c (record (h.conn_of c) { send_closed = true }) h.conn_of;
}

module _ (st : SlotStore) where
  open st use {State, update, delete, get_by_id}

  -- The end of both handlers. (`sl.Close()` changes a record that is then deleted.)
  unfoldable pub close_or_update : Bytes → Bytes → Slot → Hub State → Hub State
  close_or_update c id s h =
      if is_initiator c s || connected_count s == 0
      then record h { store = (delete id h.store).0 }
      else record h { store = (update s h.store).0 }

  unfoldable pub left_envelope : Bytes → Slot → Envelope
  left_envelope c s =
      envelope peer_left
        (peer (record { peer_id = c; peer_count = connected_count s; max_peers = s.max_peers }))

  unfoldable pub announce_left : Bytes → Bytes → Fetched → Hub State → Option (Hub State)
  unfolding close_or_update left_envelope
  announce_left c id (missed e) h = some h
  announce_left c id (found s) h =
      let s' = remove_peer c s in
      send_to_members (other_members c s') (left_envelope c s') h >>= λ h'.
      some (close_or_update c id s' h')

  unfoldable pub handle_disconnect : Bytes → Hub State → Option (Hub State)
  unfolding unregister announce_left
  handle_disconnect c h =
      let h' = unregister c h in
      let id = (h.conn_of c).slot_id in
      let (store', r) = get_by_id id h.store in
      if not (h.registered c)
      then some h
      else if bytes_eq id []
      then some h'
      else announce_left c id r (record h' { store = store' })

  unfoldable pub say_bye : Bytes → Bytes → Fetched → Hub State → Option (Hub State)
  unfolding close_or_update
  say_bye c id (missed e) h = some h
  say_bye c id (found s) h = send_to_members (other_members c s) (envelope bye null) h >>= λ h'.
      some (close_or_update c id (remove_peer c s) h')

  unfoldable pub handle_bye : Bytes → Hub State → Option (Hub State)
  unfolding say_bye
  handle_bye c h =
      let id = (h.conn_of c).slot_id in
      let (store', r) = get_by_id id h.store in
      if bytes_eq id [] then some h else say_bye c id r (record h { store = store' })
