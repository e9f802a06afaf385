-- ===== src/Broker/Run/Races.antt =====
-- The three channels of the hub (internal/broker/broker.go) are read in no fixed order: what happens
-- when a connection's disconnect is read before a message that it had sent.
use gmmff.Prelude.{
  ℕ, ◌≡◌, ◌≢◌, refl, ◌∙◌, ap, Bool, true, false, List, [], ◌∷◌, Option, none, some, arith,
  if◌then◌else◌,
}
use gmmff.Prelude.Int.{pos}
use gmmff.Prelude.Bytes.{Bytes, bytes_eq, bytes_eq_refl}
use gmmff.Store.{SlotStore}
use gmmff.Slot.{clamp_peers}
use gmmff.Protocol.{
  MsgType, slot_create, slot_join, pake_a, pake_b, sdp_offer, sdp_answer, ice_candidate, targeted,
  bye, pong, Envelope, SlotCreatePayload, version, Decoder,
}
use gmmff.Broker.Hub.{Conn, Hub, set_conn, send_envelope}
use gmmff.Broker.Create.{
  Draw, Created, made, refused, create_slot, max_code_attempts, answer_create, create_decoded,
  handle_slot_create,
}
use gmmff.Broker.Leave.{handle_disconnect, unregister}
use gmmff.Broker.Relay.{relay}
use gmmff.Broker.Run.{
  Outside, Message, Event, unregisters, inbound, unknown_type, dispatch, handle_message, step, run,
}

-- The channel of a connection is closed.
abbrev pub IsShut : {S : Type 0} → Hub S → Bytes → Type 0
IsShut h x = (h.conn_of x).send_closed ≡ true

module _ {S : Type 0} where
  send_envelope_shut :
      (c : Bytes) (env : Envelope) (h : Hub S) → IsShut h c → send_envelope c env h ≡ none
  unfolding send_envelope
  send_envelope_shut c env h e = ground arith

  set_conn-IsShut :
      (c : Bytes) (k : Conn) (h : Hub S) → k.send_closed ≡ true → IsShut (set_conn c k h) c
  set_conn-IsShut c k h e = ground (arith, bytes_eq_refl c)

  if_none : (b : Bool) (m n : Option (Hub S)) → m ≡ none → n ≡ none → (if b then m else n) ≡ none
  if_none true m n h k = h
  if_none false m n h k = k

  if_true : (b : Bool) (m n : Option (Hub S)) → b ≡ true → m ≡ none → (if b then m else n) ≡ none
  if_true true m n e h = h
  if_true false m n e h = cc

  unregister-IsShut :
      (c : Bytes) (h : Hub S)
      → IsShut (unregister c h) c × (((unregister c h).conn_of c).slot_id ≡ (h.conn_of c).slot_id)
  unfolding unregister
  unregister-IsShut c h = ground (arith, bytes_eq_refl c)

module _ (st : SlotStore) (o : Outside) where
  open st use {State}

  answer_create_shut :
      (c kind : Bytes) (r : Created) (h : Hub State)
      → IsShut h c
      → answer_create st c kind r h ≡ none
  unfolding answer_create
  answer_create_shut c kind (refused x) h e = send_envelope_shut c _ h e
  answer_create_shut c kind (made sl) h e =
      send_envelope_shut c _ (set_conn c (record (h.conn_of c) { slot_id = sl.id }) h)
        (set_conn-IsShut c _ h e)

  create_decoded_shut :
      (c : Bytes) (draws : ℕ → Draw) (now : ℕ) (r : Option SlotCreatePayload) (h : Hub State)
      → IsShut h c
      → create_decoded st c draws now r h ≡ none
  unfolding create_decoded
  create_decoded_shut c draws now none h e = send_envelope_shut c _ h e
  create_decoded_shut c draws now (some r) h e =
      let (s', r') =
        create_slot st max_code_attempts draws c r.session_type (pos (clamp_peers r.max_peers)) now
          h.store in
      if_none (bytes_eq r.protocol_version version) _ _
        (answer_create_shut c r.session_type r' (record h { store = s' }) e)
        (send_envelope_shut c _ h e)

  relay_shut :
      (d : Decoder) (c : Bytes) (t : MsgType) (b : Bytes) (h : Hub State)
      → IsShut h c
      → (h.conn_of c).slot_id ≡ []
      → relay st d c t b h ≡ none
  unfolding relay bytes_eq
  relay_shut d c t b h e i =
      if_true (bytes_eq (h.conn_of c).slot_id []) _ _ (ap (λ x. bytes_eq x []) i)
        (send_envelope_shut c _ h e)

  -- The types whose handler answers the sender, or hands the message on.
  dispatch_shut :
      (t : MsgType) (c : Bytes) (m : Message) (h : Hub State)
      → t ≢ pong
      → t ≢ bye
      → t ≢ slot_join
      → IsShut h c
      → (h.conn_of c).slot_id ≡ []
      → dispatch st o t c m h ≡ none
  unfolding dispatch unknown_type handle_slot_create
  dispatch_shut slot_create c m h p b j e i =
      create_decoded_shut c m.draws m.now (o.decoder.slot_create_payload m.body) h e
  dispatch_shut slot_join c m h p b j e i = absurd (j refl)
  dispatch_shut pake_a c m h p b j e i = relay_shut o.decoder c pake_a m.body h e i
  dispatch_shut pake_b c m h p b j e i = relay_shut o.decoder c pake_b m.body h e i
  dispatch_shut sdp_offer c m h p b j e i = relay_shut o.decoder c sdp_offer m.body h e i
  dispatch_shut sdp_answer c m h p b j e i = relay_shut o.decoder c sdp_answer m.body h e i
  dispatch_shut ice_candidate c m h p b j e i = relay_shut o.decoder c ice_candidate m.body h e i
  dispatch_shut targeted c m h p b j e i = relay_shut o.decoder c targeted m.body h e i
  dispatch_shut bye c m h p b j e i = absurd (b refl)
  dispatch_shut pong c m h p b j e i = absurd (p refl)
  dispatch_shut _ c m h p b j e i = send_envelope_shut c _ h e

  disconnect_slotless :
      (c : Bytes) (h : Hub State)
      → h.registered c ≡ true
      → (h.conn_of c).slot_id ≡ []
      → handle_disconnect st c h ≡ some (unregister c h)
  unfolding handle_disconnect unregister bytes_eq
  disconnect_slotless c h r i =
      let e : bytes_eq (h.conn_of c).slot_id [] ≡ true = ap (λ x. bytes_eq x []) i in ground arith

  -- A connection that is in no slot disconnects; a message of it, of any type but pong, bye and
  -- slot.join, is read afterwards. The answer is a send on a closed channel, and the process panics.
  pub run_after_disconnect :
      (c : Bytes) (m : Message) (h : Hub State) (es : List Event)
      → h.registered c ≡ true
      → (h.conn_of c).slot_id ≡ []
      → m.msg_type ≢ pong
      → m.msg_type ≢ bye
      → m.msg_type ≢ slot_join
      → run st o (unregisters c ∷ inbound c m ∷ es) h ≡ none
  unfolding run step handle_message
  run_after_disconnect c m h es r i p b j =
      let (shut, same) = unregister-IsShut c h in
      rw (disconnect_slotless c h r i)
        (rw (dispatch_shut m.msg_type c m (unregister c h) p b j shut (same ∙ i)) refl)
