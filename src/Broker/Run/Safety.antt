-- ===== src/Broker/Run/Safety.antt =====
-- The event loop (internal/broker/broker.go) over whole histories.
use gmmff.Prelude.{◌≡◌, ◌≢◌, refl, true, List, [], ◌∷◌, none, arith}
use gmmff.Prelude.Bytes.{Bytes, bytes_eq_iff}
use gmmff.Store.{SlotStore}
use gmmff.Protocol.{
  MsgType, slot_create, slot_join, pake_a, pake_b, sdp_offer, sdp_answer, ice_candidate, targeted,
  bye, pong,
}
use gmmff.Broker.Hub.{Hub, put}
use gmmff.Broker.Posts.{Returns, bind-Returns, map-Returns, IsOpen, Good, Post, send_envelope-Post}
use gmmff.Broker.Leave.{handle_disconnect}
use gmmff.Broker.Leave.Safety.{handle_bye-Post, handle_disconnect-Post}
use gmmff.Broker.Create.Safety.{handle_slot_create-Post}
use gmmff.Broker.Join.Safety.{handle_slot_join-Post}
use gmmff.Broker.Relay.Safety.{relay-Post}
use gmmff.Broker.Run.{
  Outside, Message, Event, registers, unregisters, inbound, dispatch, handle_message, step, run,
  start,
}

module _ (st : SlotStore) (o : Outside) where
  open st use {State, stored}

  dispatch-Post :
      (O : Bytes → Type 0) (t : MsgType) (c : Bytes) (m : Message) (h : Hub State)
      → O c
      → Post st O h
      → Returns (Post st O) (dispatch st o t c m h)
  unfolding dispatch
  dispatch-Post O slot_create c m h k p =
      handle_slot_create-Post st O o.decoder c m.draws m.now m.body h k p
  dispatch-Post O slot_join c m h k p =
      handle_slot_join-Post st O c k o.valid o.decoder m.now m.body h p
  dispatch-Post O pake_a c m h k p = relay-Post st O o.decoder c pake_a m.body h k p
  dispatch-Post O pake_b c m h k p = relay-Post st O o.decoder c pake_b m.body h k p
  dispatch-Post O sdp_offer c m h k p = relay-Post st O o.decoder c sdp_offer m.body h k p
  dispatch-Post O sdp_answer c m h k p = relay-Post st O o.decoder c sdp_answer m.body h k p
  dispatch-Post O ice_candidate c m h k p = relay-Post st O o.decoder c ice_candidate m.body h k p
  dispatch-Post O targeted c m h k p = relay-Post st O o.decoder c targeted m.body h k p
  dispatch-Post O bye c m h k p = handle_bye-Post st O c h p
  dispatch-Post O pong c m h k p = p
  dispatch-Post O _ c m h k p = send_envelope-Post st O c _ h k p

  -- A message of a connection whose channel is open never panics, whatever it is and whatever the
  -- store answers; afterwards the registered connections and the sender are open, and every stored
  -- slot is well formed.
  pub handle_message-Good :
      (c : Bytes) (m : Message) (h : Hub State)
      → Good st h
      → IsOpen h c
      → Returns (λ h'. Good st h' × IsOpen h' c) (handle_message st o c m h)
  unfolding handle_message
  handle_message-Good c m h g e =
      map-Returns (Post st (λ x. x ≡ c)) (λ h'. Good st h' × IsOpen h' c) _
        (λ a p. (p.good, p.opened c refl))
        (dispatch-Post (λ x. x ≡ c) m.msg_type c m h refl
          (record { good = g; opened = λ x k. rw k e }))

  -- What the pumps of the connections may bring about, if the hub reads each connection's events in
  -- the order in which they were sent: nothing comes of a connection that has left. `O` are the
  -- connections that have not.
  abbrev pub Orderly : (Bytes → Type 0) → List Event → Type 0
  Orderly O [] = Unit {0}
  Orderly O (registers c ∷ es) = O c × Orderly O es
  Orderly O (unregisters c ∷ es) = Orderly (λ x. O x × (x ≢ c)) es
  Orderly O (inbound c m ∷ es) = O c × Orderly O es

  register-Post :
      (O : Bytes → Type 0) (c : Bytes) (h : Hub State)
      → O c
      → Post st O h
      → Post st O (record h { registered = put c true h.registered })
  register-Post O c h k p = record {
    good = record {
      open_registered =
          λ x r. ground (arith, bytes_eq_iff c x, p.opened c k, p.good.open_registered x);
      slots = p.good.slots;
      guesses = p.good.guesses;
    };
    opened = p.opened;
  }

  run-Post :
      (O : Bytes → Type 0) (es : List Event) (h : Hub State)
      → Orderly O es
      → Post st O h
      → Returns (Good st) (run st o es h)
  unfolding run step handle_message
  run-Post O [] h k p = p.good
  run-Post O (registers c ∷ es) h k p =
      run-Post O es (record h { registered = put c true h.registered }) k.1
        (register-Post O c h k.0 p)
  run-Post O (unregisters c ∷ es) h k p =
      bind-Returns (Post st (λ x. O x × (x ≢ c))) (Good st) (handle_disconnect st c h) (run st o es)
        (handle_disconnect-Post st O c h p) λ a q. run-Post (λ x. O x × (x ≢ c)) es a k q
  run-Post O (inbound c m ∷ es) h k p =
      bind-Returns (Post st O) (Good st) (dispatch st o m.msg_type c m h) (run st o es)
        (dispatch-Post O m.msg_type c m h k.0 p) λ a q. run-Post O es a k.1 q

  -- From a broker with no connections and no stored slots, every orderly history runs without a
  -- panic, and leaves the registered connections open and every stored slot well formed.
  pub run-start-Good :
      (es : List Event) (s : State)
      → ((i : Bytes) → stored i s ≡ none)
      → Orderly (λ _. Unit {0}) es
      → Returns (Good st) (run st o es (start s))
  unfolding start
  run-start-Good es s e k =
      run-Post (λ _. Unit {0}) es (start s) k
        (record {
          good = record {
            open_registered = λ x r. refl;
            slots = λ i x h. absurd (cc (e i));
            guesses = λ x b. absurd (omega arith);
          };
          opened = λ x _. refl;
        })
