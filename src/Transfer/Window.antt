-- ===== src/Transfer/Window.antt =====
-- The sliding window of runFromReader in internal/transfer/transfer.go, from the sequence number at
-- which the receiver asked to start.
use gmmff.Prelude.{
  ℕ, suc, ◌+◌, ◌-◌, ◌%◌, ◌^◌, Bool, true, false, not, ◌&&◌, ◌||◌, List, [], ◌∷◌, ◌++◌, Option, none,
  some, ltb, leb, ◌==◌, if◌then◌else◌,
}
use gmmff.Prelude.Int.{ℤ, pos, pos_part, ltb_ℤ}
use gmmff.Prelude.Bytes.{Bytes}
use gmmff.Transfer.Frames.{chunk_frame, tag_cancelled, tag_transfer_done}

abbrev pub default_chunk_size : ℕ
default_chunk_size = 65526

abbrev pub max_chunk_size : ℕ
max_chunk_size = 65526

-- The tests of NewSender.
unfoldable pub clamp_window : ℤ → ℕ
clamp_window w = if ltb_ℤ w (pos 1) then 1 else pos_part w

unfoldable pub clamp_chunk : ℤ → ℕ
clamp_chunk c =
    let c' = if ltb_ℤ c (pos 1) then pos default_chunk_size else c in
    pos_part (if ltb_ℤ (pos max_chunk_size) c' then pos max_chunk_size else c')

-- The variables of the loop, with what it has read from `r`, what it has sent, and the acknowledgements
-- that it has taken from their channel.
pub record Sending : Type 0 where
  pub base : ℕ
  pub next : ℕ
  pub file_eof : Bool
  pub consumed : Bytes
  pub sent : List Bytes
  pub acks : List ℕ

pub data ReadError : Type 0 where
  no_error end_of_file broken : ReadError

-- What the loop meets when it looks: a cancellation, an acknowledgement (`none` once its channel is
-- closed), or what Read returns, with whether the data channel takes the chunk.
pub data Event : Type 0 where
  ctx_done remote_cancel : Event
  ack : Option ℕ → Event
  reads : Bytes → ReadError → Bool → Event

pub data Stop : Type 0 where
  transferred cancelled cancelled_by_peer send_failed read_failed : Stop
  out_of_order : (got want : ℕ) → Stop

pub data Progress : Type 0 where
  going : Sending → Progress
  stopped : Stop → Sending → Progress

-- The numbers are uint64.
abbrev pub in_flight : Sending → ℕ
in_flight s = (s.next + 2 ^ 64 - s.base) % 2 ^ 64

abbrev after_cancel : Sending → Progress
after_cancel s = stopped cancelled (record s { sent = s.sent ++ (tag_cancelled ∷ []) ∷ [] })

-- The first case of the switch. A Read does not happen here.
unfoldable pub on_wait : Event → Sending → Progress
on_wait ctx_done s = after_cancel s
on_wait remote_cancel s = stopped cancelled_by_peer s
on_wait (ack none) s = stopped cancelled_by_peer s
on_wait (ack (some seq)) s =
    let t = record s { acks = s.acks ++ seq ∷ [] } in
    if seq == s.base
    then going (record t { base = suc s.base % 2 ^ 64 })
    else stopped (out_of_order seq s.base) t
on_wait (reads b e sent_ok) s = going s

abbrev after_read : ReadError → Sending → Progress
after_read no_error s = going s
after_read end_of_file s = going (record s { file_eof = true })
after_read broken s = stopped read_failed s

-- The second case. An acknowledgement stays in its channel.
unfoldable pub on_read : Event → Sending → Progress
on_read ctx_done s = after_cancel s
on_read remote_cancel s = stopped cancelled_by_peer s
on_read (ack a) s = going s
on_read (reads [] e sent_ok) s = after_read e s
on_read (reads (b ∷ bs) e sent_ok) s =
    let t = record s { consumed = s.consumed ++ b ∷ bs } in
    if sent_ok
    then after_read e
        (record t { next = suc s.next % 2 ^ 64; sent = s.sent ++ chunk_frame s.next (b ∷ bs) ∷ [] })
    else stopped send_failed t

-- The condition of the loop.
abbrev pub goes_on : Sending → Bool
goes_on s = not s.file_eof || ltb s.base s.next

unfoldable pub turn : ℕ → Event → Sending → Progress
unfolding on_wait on_read
turn window e s =
    if leb window (in_flight s) || (s.file_eof && ltb s.base s.next)
    then on_wait e s
    else if not s.file_eof && ltb (in_flight s) window
    then on_read e s
    else going s

-- The end of the loop; `sent_ok` is whether the data channel takes the tag.
unfoldable pub finish : Bool → Sending → Progress
finish sent_ok s =
    if sent_ok
    then stopped transferred (record s { sent = s.sent ++ (tag_transfer_done ∷ []) ∷ [] })
    else stopped send_failed s

abbrev pub after_turn : Progress → (Sending → Progress) → Progress
after_turn (going t) k = k t
after_turn (stopped stop t) k = stopped stop t

unfoldable pub send_loop : ℕ → Bool → List Event → Sending → Progress
unfolding turn finish
send_loop window tag_ok [] s = if goes_on s then going s else finish tag_ok s
send_loop window tag_ok (e ∷ es) s =
    if goes_on s then after_turn (turn window e s) (send_loop window tag_ok es) else finish tag_ok s

abbrev pub sending_from : ℕ → Sending
sending_from start = record {
  base = start;
  next = start;
  file_eof = false;
  consumed = [];
  sent = [];
  acks = [];
}
