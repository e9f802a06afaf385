-- ===== src/Store/Redis/Laws.antt =====
-- The Redis-backed Store of internal/store/store.go keeps the promises of SlotStore.
use gmmff.Prelude.{
  ◌≡◌, ◌≢◌, refl, ap, ◌⊎◌, inl, inr, Bool, true, false, List, [], ◌∷◌, Option, none, some, arith,
  Option-cases, Bool-cases, get_or,
}
use gmmff.Prelude.Bytes.{Bytes}
use gmmff.Slot.{Slot}
use gmmff.Store.{slot_not_found, Fetched, found, missed, SlotStore}
use gmmff.Store.Redis.{
  Reply, bulk, nil, broken, Redis, SlotJson, slot_key, code_key, on_reply, get_by_id, resolve,
  get_by_code, persist, claimed, create, update, delete_fetched, delete, stored,
}

slot_key_injective : (i j : Bytes) → slot_key i ≡ slot_key j → i ≡ j
unfolding slot_key
slot_key_injective i j h = cc

slot_key-ne-code_key : (i c : Bytes) → slot_key i ≢ code_key c
unfolding slot_key code_key
slot_key-ne-code_key i c h = omega (arith, ap (λ b. get_or b 0 0) h)

module _ (r : Redis) (json : SlotJson) where
  open r use {World, value, get, set, setnx, del}
  open json use {marshal, unmarshal}

  -- A slot that was stored keeps its bytes: the step from the bytes to the slot, once.
  stored_from :
      (P : Bytes → Type 0) (i : Bytes) (w : World) (x : Slot)
      → ((v : Bytes) → value (slot_key i) w ≡ some v → unmarshal v ≡ some x → P v)
      → stored r json i w ≡ some x
      → (v : Bytes) × P v
  stored_from P i w x k h = elim (Option-cases (value (slot_key i) w)) [
    | inl e ↦ absurd (ground arith)
    | inr (v, e) ↦ (v, k v e (ground arith))
  ]

  stored_to :
      (i v : Bytes) (w : World) (x : Slot)
      → value (slot_key i) w ≡ some v
      → unmarshal v ≡ some x
      → stored r json i w ≡ some x
  stored_to i v w x h e = ground arith

  -- A command that loses values at most stores no new slot.
  keeps_stored :
      (w w' : World)
      → ((j v : Bytes) → value j w' ≡ some v → value j w ≡ some v)
      → (i : Bytes) (x : Slot) → stored r json i w' ≡ some x
      → stored r json i w ≡ some x
  keeps_stored w w' keep i x h =
      (stored_from (λ v. stored r json i w ≡ some x) i w' x
        (λ v e d. stored_to i v w x (keep (slot_key i) v e) d) h).1

  set_stored :
      (s : Slot) (w : World) (i : Bytes) (x : Slot)
      → stored r json i (set (slot_key s.id) (marshal s) w).0 ≡ some x
      → (stored r json i w ≡ some x) ⊎ ((x ≡ s) × (i ≡ s.id))
  set_stored s w i x h =
      (stored_from (λ v. (stored r json i w ≡ some x) ⊎ ((x ≡ s) × (i ≡ s.id))) i
        (set (slot_key s.id) (marshal s) w).0 x
        (λ v e d. elim (r.set_writes (slot_key s.id) (marshal s) w (slot_key i) v e) [
          | inl old ↦ inl (stored_to i v w x old d)
          | inr (k, b) ↦ inr (cc (json.unmarshal-marshal s), slot_key_injective i s.id k)
        ])
        h).1

  setnx_stored :
      (c b : Bytes) (w : World) (i : Bytes) (x : Slot)
      → stored r json i (setnx (code_key c) b w).0 ≡ some x
      → stored r json i w ≡ some x
  setnx_stored c b w i x h =
      (stored_from (λ v. stored r json i w ≡ some x) i (setnx (code_key c) b w).0 x
        (λ v e d. elim (r.setnx_writes (code_key c) b w (slot_key i) v e) [
          | inl old ↦ stored_to i v w x old d
          | inr (k, _) ↦ absurd (slot_key-ne-code_key i c k)
        ])
        h).1

  del_stored :
      (ks : List Bytes) (w : World) (i : Bytes) (x : Slot)
      → stored r json i (del ks w).0 ≡ some x
      → stored r json i w ≡ some x
  del_stored ks w i x h = keeps_stored w (del ks w).0 (r.del_keeps ks w) i x h

  get_stored :
      (k : Bytes) (w : World) (i : Bytes) (x : Slot)
      → stored r json i (get k w).0 ≡ some x
      → stored r json i w ≡ some x
  get_stored k w i x h = keeps_stored w (get k w).0 (r.get_keeps k w) i x h

  after_set : Slot → World → World
  after_set s w = (set (slot_key s.id) (marshal s) w).0

  persist_origin :
      (s : Slot) (w : World) (i : Bytes) (x : Slot)
      → stored r json i (persist r json s w).0 ≡ some x
      → (stored r json i w ≡ some x) ⊎ ((x ≡ s) × (i ≡ s.id))
  unfolding persist after_set
  persist_origin s w i x h = elim (Bool-cases (set (slot_key s.id) (marshal s) w).1) [
    | inl e ↦ set_stored s w i x (rw (e, persist) at h)
    | inr e ↦
        set_stored s w i x
          (del_stored (code_key s.code ∷ []) (after_set s w) i x (rw (e, persist) at h))
  ]

  claimed_origin :
      (s : Slot) (o : Option Bool) (w : World) (i : Bytes) (x : Slot)
      → stored r json i (claimed r json s o w).0 ≡ some x
      → (stored r json i w ≡ some x) ⊎ ((x ≡ s) × (i ≡ s.id))
  unfolding claimed
  claimed_origin s none w i x h = inl h
  claimed_origin s (some false) w i x h = inl h
  claimed_origin s (some true) w i x h = persist_origin s w i x h

  pub create_origin :
      (s : Slot) (w : World) (i : Bytes) (x : Slot)
      → stored r json i (create r json s w).0 ≡ some x
      → (stored r json i w ≡ some x) ⊎ ((x ≡ s) × (i ≡ s.id))
  unfolding create
  create_origin s w i x h =
      let (w', reply) = setnx (code_key s.code) s.id w in
      elim (claimed_origin s reply w' i x h) [
        | inl old ↦ inl (setnx_stored s.code s.id w i x old)
        | inr made ↦ inr made
      ]

  pub update_origin :
      (s : Slot) (w : World) (i : Bytes) (x : Slot)
      → stored r json i (update r json s w).0 ≡ some x
      → (stored r json i w ≡ some x) ⊎ ((x ≡ s) × (i ≡ s.id))
  unfolding update
  update_origin s w i x h = set_stored s w i x h

  pub get_by_id_origin :
      (k : Bytes) (w : World) (i : Bytes) (x : Slot)
      → stored r json i (get_by_id r json k w).0 ≡ some x
      → stored r json i w ≡ some x
  unfolding get_by_id
  get_by_id_origin k w i x h = get_stored (slot_key k) w i x h

  on_reply_found :
      (o : Reply) (x : Slot)
      → on_reply r json o ≡ found x
      → (v : Bytes) × (o ≡ bulk v) × (unmarshal v ≡ some x)
  on_reply_found (bulk v) x h = (v, refl, ground arith)
  on_reply_found nil x h = absurd (ground arith)
  on_reply_found broken x h = absurd (ground arith)

  pub get_by_id_found :
      (k : Bytes) (w : World) (x : Slot)
      → (get_by_id r json k w).1 ≡ found x
      → stored r json k w ≡ some x
  unfolding get_by_id
  get_by_id_found k w x h =
      let (v, e, d) = on_reply_found (get (slot_key k) w).1 x h in
      stored_to k v w x (r.get_reply (slot_key k) w v e) d

  resolve_origin :
      (o : Reply) (w : World) (i : Bytes) (x : Slot)
      → stored r json i (resolve r json o w).0 ≡ some x
      → stored r json i w ≡ some x
  unfolding resolve
  resolve_origin (bulk k) w i x h = get_by_id_origin k w i x h
  resolve_origin nil w i x h = h
  resolve_origin broken w i x h = h

  pub get_by_code_origin :
      (c : Bytes) (w : World) (i : Bytes) (x : Slot)
      → stored r json i (get_by_code r json c w).0 ≡ some x
      → stored r json i w ≡ some x
  unfolding get_by_code
  get_by_code_origin c w i x h =
      let (w', reply) = get (code_key c) w in
      get_stored (code_key c) w i x (resolve_origin reply w' i x h)

  resolve_found :
      (o : Reply) (w : World) (x : Slot)
      → (resolve r json o w).1 ≡ found x
      → (i : Bytes) × (stored r json i w ≡ some x)
  unfolding resolve
  resolve_found (bulk k) w x h = (k, get_by_id_found k w x h)
  resolve_found nil w x h = absurd (ground arith)
  resolve_found broken w x h = absurd (ground arith)

  pub get_by_code_found :
      (c : Bytes) (w : World) (x : Slot)
      → (get_by_code r json c w).1 ≡ found x
      → (i : Bytes) × (stored r json i w ≡ some x)
  unfolding get_by_code
  get_by_code_found c w x h =
      let (w', reply) = get (code_key c) w in
      let (i, e) = resolve_found reply w' x h in (i, get_stored (code_key c) w i x e)

  delete_fetched_origin :
      (k : Bytes) (f : Fetched) (w : World) (i : Bytes) (x : Slot)
      → stored r json i (delete_fetched r json k f w).0 ≡ some x
      → stored r json i w ≡ some x
  unfolding delete_fetched
  delete_fetched_origin k (missed slot_not_found) w i x h = h
  delete_fetched_origin k (missed _) w i x h = h
  delete_fetched_origin k (found s) w i x h = del_stored (slot_key k ∷ code_key s.code ∷ []) w i x h

  pub delete_origin :
      (k : Bytes) (w : World) (i : Bytes) (x : Slot)
      → stored r json i (delete r json k w).0 ≡ some x
      → stored r json i w ≡ some x
  unfolding delete
  delete_origin k w i x h =
      let (w', f) = get_by_id r json k w in
      get_by_id_origin k w i x (delete_fetched_origin k f w' i x h)

  on_reply_nil : (o : Reply) → on_reply r json o ≡ missed slot_not_found → o ≡ nil
  on_reply_nil (bulk v) h = absurd (ground arith)
  on_reply_nil nil h = refl
  on_reply_nil broken h = cc

  get_by_id_nil :
      (k : Bytes) (w : World)
      → (get_by_id r json k w).1 ≡ missed slot_not_found
      → stored r json k (get_by_id r json k w).0 ≡ none
  unfolding get_by_id
  get_by_id_nil k w h = rw (r.get_nil (slot_key k) w (on_reply_nil (get (slot_key k) w).1 h)) refl

  delete_fetched_gone :
      (k : Bytes) (f : Fetched) (w : World)
      → (f ≡ missed slot_not_found → stored r json k w ≡ none)
      → (delete_fetched r json k f w).1 ≡ none
      → stored r json k (delete_fetched r json k f w).0 ≡ none
  unfolding delete_fetched
  delete_fetched_gone k (missed slot_not_found) w gone h = gone refl
  delete_fetched_gone k (missed _) w gone h = cc
  delete_fetched_gone k (found s) w gone h =
      rw (r.del_first (slot_key k) (code_key s.code ∷ []) w (ground arith)) refl

  pub delete_gone :
      (k : Bytes) (w : World)
      → (delete r json k w).1 ≡ none
      → stored r json k (delete r json k w).0 ≡ none
  unfolding delete
  delete_gone k w h =
      let (w', f) = get_by_id r json k w in delete_fetched_gone k f w' (get_by_id_nil k w) h

  -- The Redis-backed Store keeps the promises of the interface, whatever fails or expires.
  abbrev pub redis_store : SlotStore
  redis_store = record {
    State = World;
    stored = stored r json;
    create = create r json;
    update = update r json;
    delete = delete r json;
    get_by_id = get_by_id r json;
    get_by_code = get_by_code r json;
    create_origin = create_origin;
    update_origin = update_origin;
    delete_origin = delete_origin;
    delete_gone = delete_gone;
    get_by_id_origin = get_by_id_origin;
    get_by_id_found = get_by_id_found;
    get_by_code_origin = get_by_code_origin;
    get_by_code_found = get_by_code_found;
  }
