-- ===== src/Chat.antt =====
-- internal/chat/session.go: a chat over a data channel, from the side of one participant.
pub mod Exchange
mod Tests
use gmmff.Prelude.{
  ℕ, ◌+◌, ◌||◌, Bool, true, false, not, List, [], ◌∷◌, ◌++◌, Option, none, some, ◌==◌,
  if◌then◌else◌,
}
use gmmff.Prelude.Bytes.{Bytes, codes, bytes_eq}
use gmmff.Transfer.Frames.{
  tag_message, tag_cancelled, build_message_frame, parse_message_frame, tag_chat_close,
  tag_participant_leave, build_chat_close_frame, build_participant_leave_frame,
}

abbrev pub quit_command : Bytes
quit_command = codes "\\q"

-- Why a session is over; the text that the code makes of it is left out.
pub data Reason : Type 0 where
  ended_by : Bytes → Reason
  ended no_activity : Reason

-- What the callbacks were called with, and the line that is printed on leaving.
pub data Shown : Type 0 where
  message : (from text : Bytes) → Shown
  session_closed : Reason → Shown
  participant_left : (who : Bytes) → Shown
  left_session : Shown

-- The frames that were handed to the data channel, what was shown, whether the channel `done` is closed, and how often the
-- timer was set again.
pub record Chat : Type 0 where
  pub sent : List Bytes
  pub shown : List Shown
  pub is_done : Bool
  pub resets : ℕ

pub record Session : Type 0 where
  pub remote_label : Bytes
  pub is_initiator : Bool

abbrev pub new_chat : Chat
new_chat = record { sent = []; shown = []; is_done = false; resets = 0 }

abbrev pub sends : Bytes → Chat → Chat
sends frame s = record s { sent = s.sent ++ frame ∷ [] }

abbrev pub shows : Shown → Chat → Chat
shows x s = record s { shown = s.shown ++ x ∷ [] }

abbrev pub reset_idle : Chat → Chat
reset_idle s = record s { resets = s.resets + 1 }

unfoldable pub handle_chat_frame : Session → Bytes → Chat → Chat
unfolding parse_message_frame
handle_chat_frame t [] s = s
handle_chat_frame t (c ∷ frame) s =
    if c == tag_message
    then shows (message t.remote_label (parse_message_frame (c ∷ frame))) (reset_idle s)
    else if c == tag_chat_close || c == tag_cancelled
    then record (shows (session_closed (ended_by t.remote_label)) s) { is_done = true }
    else if c == tag_participant_leave
    then shows (participant_left t.remote_label) s
    else s

-- The Boolean is whether the result is nil; an error of Send counts only for a message.
unfoldable pub send_chat_line : Session → (line : Bytes) → (send_ok : Bool) → Chat → Chat × Bool
unfolding build_message_frame
send_chat_line t line send_ok s =
    if bytes_eq line []
    then (s, true)
    else if bytes_eq line quit_command
    then (
      if t.is_initiator
          then shows (session_closed ended) (sends build_chat_close_frame s)
          else shows left_session (sends build_participant_leave_frame s),
      true,
    )
    else if not send_ok
    then (sends (build_message_frame line) s, false)
    else (reset_idle (sends (build_message_frame line) s), true)

-- What the loop of RunCLI selects, and the frames that arrive in between. `typed none` is the end of
-- the input.
pub data Event : Type 0 where
  ctx_done idle_fires sees_done : Event
  typed : Option Bytes → (send_ok : Bool) → Event
  arrives : Bytes → Event

pub data Stop : Type 0 where
  left timed_out closed send_failed : Stop

pub data Outcome : Type 0 where
  goes_on : Chat → Outcome
  returned : Stop → Chat → Outcome

abbrev pub leaves : Chat → Outcome
leaves s = returned left (shows left_session (sends build_participant_leave_frame s))

abbrev pub after_line : Chat × Bool → Outcome
after_line (s, true) = goes_on s
after_line (s, false) = returned send_failed s

module _ (trim_space : Bytes → Bytes) where
  -- A select that cannot read from `done` waits on.
  unfoldable pub turn : Session → Event → Chat → Outcome
  unfolding handle_chat_frame send_chat_line
  turn t ctx_done s = leaves s
  turn t idle_fires s =
      returned timed_out (shows (session_closed no_activity) (sends build_chat_close_frame s))
  turn t sees_done s = if s.is_done then returned closed s else goes_on s
  turn t (typed none send_ok) s = leaves s
  turn t (typed (some line) send_ok) s = after_line (send_chat_line t (trim_space line) send_ok s)
  turn t (arrives frame) s = goes_on (handle_chat_frame t frame s)

  abbrev pub then_on : Outcome → (Chat → Outcome) → Outcome
  then_on (goes_on s) k = k s
  then_on (returned stop s) k = returned stop s

  unfoldable pub run_cli : Session → List Event → Chat → Outcome
  unfolding turn
  run_cli t [] s = goes_on s
  run_cli t (e ∷ es) s = then_on (turn t e s) (run_cli t es)
