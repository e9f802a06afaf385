-- ===== src/Store/Redis.antt =====
-- The Redis-backed Store of internal/store/store.go. The server, its clock and the JSON codec are not
-- in the repository: they are a section's parameter, with what Redis documents of its commands.
pub mod Laws
use gmmff.Prelude.{◌≡◌, ◌⊎◌, Bool, true, false, List, [], ◌∷◌, ◌++◌, Option, none, some}
use gmmff.Prelude.Bytes.{Bytes, codes}
use gmmff.Slot.{Slot}
use gmmff.Store.{StoreError, slot_not_found, code_taken, failed, Fetched, found, missed}

-- The reply to GET: a value, redis.Nil, or another error.
pub data Reply : Type 0 where
  bulk : Bytes → Reply
  nil : Reply
  broken : Reply

-- A database. `value k w` is the value that a key holds at `w`; a key may expire during any command,
-- so a command may lose values, and adds none but the one it writes. A command that reports an error
-- may have been carried out.
pub record Redis : Type 1 where
  pub World : Type 0
  pub value : Bytes → World → Option Bytes
  pub get : Bytes → World → World × Reply
  pub set : Bytes → Bytes → World → World × Bool
  pub setnx : Bytes → Bytes → World → World × Option Bool
  pub del : List Bytes → World → World × Bool
  pub get_keeps :
      (k : Bytes) (w : World) (j v : Bytes) → value j (get k w).0 ≡ some v → value j w ≡ some v
  pub get_reply : (k : Bytes) (w : World) (v : Bytes) → (get k w).1 ≡ bulk v → value k w ≡ some v
  pub get_nil : (k : Bytes) (w : World) → (get k w).1 ≡ nil → value k (get k w).0 ≡ none
  pub set_writes :
      (k x : Bytes) (w : World) (j v : Bytes)
      → value j (set k x w).0 ≡ some v
      → (value j w ≡ some v) ⊎ ((j ≡ k) × (v ≡ x))
  pub setnx_writes :
      (k x : Bytes) (w : World) (j v : Bytes)
      → value j (setnx k x w).0 ≡ some v
      → (value j w ≡ some v) ⊎ ((j ≡ k) × (v ≡ x))
  pub del_keeps :
      (ks : List Bytes) (w : World) (j v : Bytes)
      → value j (del ks w).0 ≡ some v
      → value j w ≡ some v
  pub del_first :
      (k : Bytes) (ks : List Bytes) (w : World)
      → (del (k ∷ ks) w).1 ≡ true
      → value k (del (k ∷ ks) w).0 ≡ none

-- encoding/json on slot.Slot.
pub record SlotJson : Type 0 where
  pub marshal : Slot → Bytes
  pub unmarshal : Bytes → Option Slot
  pub unmarshal-marshal : (s : Slot) → unmarshal (marshal s) ≡ some s

unfoldable pub slot_key : Bytes → Bytes
slot_key id = codes "slot:" ++ id

unfoldable pub code_key : Bytes → Bytes
code_key code = codes "code:" ++ code

module _ (r : Redis) (json : SlotJson) where
  open r use {World, value, get, set, setnx, del}
  open json use {marshal, unmarshal}

  abbrev decoded : Option Slot → Fetched
  decoded none = missed failed
  decoded (some s) = found s

  abbrev on_reply : Reply → Fetched
  on_reply (bulk data') = decoded (unmarshal data')
  on_reply nil = missed slot_not_found
  on_reply broken = missed failed

  -- (s *Store) get
  unfoldable pub get_slot : Bytes → World → World × Fetched
  get_slot key w = let (w', reply) = get key w in (w', on_reply reply)

  unfoldable pub get_by_id : Bytes → World → World × Fetched
  unfolding get_slot slot_key
  get_by_id id w = get_slot (slot_key id) w

  resolve : Reply → World → World × Fetched
  resolve (bulk id) w = get_by_id id w
  resolve nil w = (w, missed slot_not_found)
  resolve broken w = (w, missed failed)

  unfoldable pub get_by_code : Bytes → World → World × Fetched
  unfolding resolve code_key
  get_by_code code w = let (w', reply) = get (code_key code) w in resolve reply w'

  abbrev or_failed : Bool → Option StoreError
  or_failed true = none
  or_failed false = some failed

  -- Set after SETNX has claimed the code; where Set fails, the claim is given up.
  persist : Slot → World → World × Option StoreError
  persist s w =
      let (w', done) = set (slot_key s.id) (marshal s) w in
      elim done [ true ↦ (w', none) | false ↦ ((del (code_key s.code ∷ []) w').0, some failed) ]

  claimed : Slot → Option Bool → World → World × Option StoreError
  unfolding persist
  claimed s none w = (w, some failed)
  claimed s (some false) w = (w, some code_taken)
  claimed s (some true) w = persist s w

  unfoldable pub create : Slot → World → World × Option StoreError
  unfolding claimed
  create s w = let (w', reply) = setnx (code_key s.code) s.id w in claimed s reply w'

  unfoldable pub update : Slot → World → World × Option StoreError
  update s w = let (w', done) = set (slot_key s.id) (marshal s) w in (w', or_failed done)

  delete_fetched : Bytes → Fetched → World → World × Option StoreError
  delete_fetched id (missed slot_not_found) w = (w, none)
  delete_fetched id (missed e) w = (w, some e)
  delete_fetched id (found s) w =
      let (w', done) = del (slot_key id ∷ code_key s.code ∷ []) w in (w', or_failed done)

  unfoldable pub delete : Bytes → World → World × Option StoreError
  unfolding delete_fetched
  delete id w = let (w', r') = get_by_id id w in delete_fetched id r' w'

  abbrev bind_slot : Option Bytes → Option Slot
  bind_slot none = none
  bind_slot (some data') = unmarshal data'

  abbrev pub stored : Bytes → World → Option Slot
  stored id w = bind_slot (value (slot_key id) w)
