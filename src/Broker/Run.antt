-- ===== src/Broker/Run.antt =====
-- The event loop of internal/broker/broker.go: handleMessage, and the three channels of Run.
pub mod Safety
pub mod Races
use gmmff.Prelude.{ℕ, Bool, true, false, List, [], ◌∷◌, Option, none, some}
use gmmff.Prelude.Bytes.{Bytes}
use gmmff.Store.{SlotStore}
use gmmff.Protocol.{
  MsgType, slot_create, slot_join, pake_a, pake_b, sdp_offer, sdp_answer, ice_candidate, targeted,
  bye, pong, error_envelope, says, Decoder,
}
use gmmff.Broker.Hub.{Conn, fresh_conn, Hub, put, ◌>>=◌, send_envelope}
use gmmff.Broker.Leave.{handle_disconnect, handle_bye}
use gmmff.Broker.Create.{Draw, handle_slot_create}
use gmmff.Broker.Join.{handle_slot_join}
use gmmff.Broker.Relay.{relay}

-- What the handlers take from outside: ValidateCode, the JSON decoder, and at each message the time
-- and the draws of createSlot.
pub record Outside : Type 0 where
  pub valid : Bytes → Bool
  pub decoder : Decoder

pub record Message : Type 0 where
  pub msg_type : MsgType
  pub body : Bytes
  pub now : ℕ
  pub draws : ℕ → Draw

pub data Event : Type 0 where
  registers unregisters : Bytes → Event
  inbound : Bytes → Message → Event

unfoldable pub unknown_type : {S : Type 0} → Bytes → Hub S → Option (Hub S)
unknown_type c =
    send_envelope c (error_envelope "ERR_UNKNOWN_MSG_TYPE" (says "unrecognised message type"))

-- New
unfoldable pub start : {S : Type 0} → S → Hub S
start s = record { store = s; conn_of = λ _. fresh_conn; registered = λ _. false }

module _ (st : SlotStore) (o : Outside) where
  open st use {State}

  unfoldable pub dispatch : MsgType → Bytes → Message → Hub State → Option (Hub State)
  unfolding unknown_type
  dispatch slot_create c m = handle_slot_create st o.decoder c m.draws m.now m.body
  dispatch slot_join c m = handle_slot_join st o.valid o.decoder c m.now m.body
  dispatch pake_a c m = relay st o.decoder c pake_a m.body
  dispatch pake_b c m = relay st o.decoder c pake_b m.body
  dispatch sdp_offer c m = relay st o.decoder c sdp_offer m.body
  dispatch sdp_answer c m = relay st o.decoder c sdp_answer m.body
  dispatch ice_candidate c m = relay st o.decoder c ice_candidate m.body
  dispatch targeted c m = relay st o.decoder c targeted m.body
  dispatch bye c m = handle_bye st c
  dispatch pong c m = some
  dispatch _ c m = unknown_type c

  unfoldable pub handle_message : Bytes → Message → Hub State → Option (Hub State)
  unfolding dispatch
  handle_message c m h = dispatch m.msg_type c m h

  -- One round of the select. A connection is made with its channel open (ServeHTTP), and may have
  -- been used before its registration is read.
  unfoldable pub step : Event → Hub State → Option (Hub State)
  unfolding handle_message
  step (registers c) h = some (record h { registered = put c true h.registered })
  step (unregisters c) h = handle_disconnect st c h
  step (inbound c m) h = handle_message c m h

  unfoldable pub run : List Event → Hub State → Option (Hub State)
  run [] h = some h
  run (e ∷ es) h = step e h >>= run es
