-- ===== src/Broker/Create/Safety.antt =====
-- slot.create (internal/broker/broker.go) does not panic on an open connection and keeps the hub good.
use gmmff.Prelude.{ℕ, zero, suc, refl, inl, inr, Option, none, some}
use gmmff.Prelude.Int.{ℤ, pos}
use gmmff.Prelude.Bytes.{Bytes, bytes_eq}
use gmmff.Slot.{Slot, new, clamp_peers}
use gmmff.Slot.Invariant.{Inv, new-Inv}
use gmmff.Store.{SlotStore, StoreError, code_taken}
use gmmff.Protocol.{version, Decoder, SlotCreatePayload}
use gmmff.Broker.Hub.{Hub, set_conn}
use gmmff.Broker.Posts.{
  Returns, Returns-if, Post, set_conn-Post, set_store-Post, send_envelope-Post,
}
use gmmff.Broker.Leave.Safety.{AllInv}
use gmmff.Broker.Create.{
  max_code_attempts, Draw, Created, made, refused, create_slot, after_create, attempt,
  answer_create, create_decoded, handle_slot_create,
}

module _ (st : SlotStore) where
  open st use {State, stored, create}

  create-AllInv : (sl : Slot) (s : State) → Inv sl → AllInv st s → AllInv st (create sl s).0
  create-AllInv sl s v all i x h = elim (st.create_origin sl s i x h) [
    | inl old ↦ all i x old
    | inr (same, _) ↦ rw same v
  ]

  after_create-AllInv :
      (sl : Slot) (r : State × Option StoreError) (retry : State → State × Created)
      → AllInv st r.0
      → ((s : State) → AllInv st s → AllInv st (retry s).0)
      → AllInv st (after_create st sl r retry).0
  unfolding after_create
  after_create-AllInv sl (s, none) retry v k = v
  after_create-AllInv sl (s, some code_taken) retry v k = k s v
  after_create-AllInv sl (s, some _) retry v k = v

  attempt-AllInv :
      (o : Option Bytes) (id c kind : Bytes) (m : ℤ) (now : ℕ) (s : State)
      (retry : State → State × Created)
      → AllInv st s
      → ((s : State) → AllInv st s → AllInv st (retry s).0)
      → AllInv st (attempt st o id c kind m now s retry).0
  unfolding attempt
  attempt-AllInv none id c kind m now s retry v k = v
  attempt-AllInv (some code) id c kind m now s retry v k =
      let sl = new id code c kind m now in
      after_create-AllInv sl (create sl s) retry
        (create-AllInv sl s (new-Inv id code c kind m now) v) k

  -- If every stored slot is well formed, the loop of createSlot keeps it so, whatever is drawn,
  -- however often the code collides and whatever the store answers.
  pub create_slot-AllInv :
      (left : ℕ) (draws : ℕ → Draw) (c kind : Bytes) (m : ℤ) (now : ℕ) (s : State)
      → AllInv st s
      → AllInv st (create_slot st left draws c kind m now s).0
  unfolding create_slot
  create_slot-AllInv zero draws c kind m now s v = v
  create_slot-AllInv (suc left) draws c kind m now s v =
      attempt-AllInv (draws left).code (draws left).id c kind m now s
        (λ s'. create_slot st left draws c kind m now s') v
        λ s' v'. create_slot-AllInv left draws c kind m now s' v'

  answer_create-Post :
      (O : Bytes → Type 0) (c kind : Bytes) (r : Created) (h : Hub State)
      → O c
      → Post st O h
      → Returns (Post st O) (answer_create st c kind r h)
  unfolding answer_create
  answer_create-Post O c kind (refused e) h o p = send_envelope-Post st O c _ h o p
  answer_create-Post O c kind (made sl) h o p =
      let h' = set_conn c (record (h.conn_of c) { slot_id = sl.id }) h in
      send_envelope-Post st O c _ h' o (set_conn-Post st O c _ h refl (λ g. g) p)

  create_decoded-Post :
      (O : Bytes → Type 0) (c : Bytes) (draws : ℕ → Draw) (now : ℕ) (r : Option SlotCreatePayload)
      (h : Hub State)
      → O c
      → Post st O h
      → Returns (Post st O) (create_decoded st c draws now r h)
  unfolding create_decoded
  create_decoded-Post O c draws now none h o p = send_envelope-Post st O c _ h o p
  create_decoded-Post O c draws now (some r) h o p =
      let m = pos (clamp_peers r.max_peers) in
      let (s', made') = create_slot st max_code_attempts draws c r.session_type m now h.store in
      Returns-if (Post st O) (bytes_eq r.protocol_version version) _ _
        (λ _.
          answer_create-Post O c r.session_type made' (record h { store = s' }) o
            (set_store-Post st O s' h
              (create_slot-AllInv max_code_attempts draws c r.session_type m now h.store
                p.good.slots)
              p))
        λ _. send_envelope-Post st O c _ h o p

  pub handle_slot_create-Post :
      (O : Bytes → Type 0) (d : Decoder) (c : Bytes) (draws : ℕ → Draw) (now : ℕ) (b : Bytes)
      (h : Hub State)
      → O c
      → Post st O h
      → Returns (Post st O) (handle_slot_create st d c draws now b h)
  unfolding handle_slot_create
  handle_slot_create-Post O d c draws now b h o p =
      create_decoded-Post O c draws now (d.slot_create_payload b) h o p
