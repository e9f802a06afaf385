-- ===== src/Chat/Exchange.antt =====
-- What the two sides of a chat of internal/chat/session.go see of each other.
use mathlib.Core.List.{append_assoc, append-nil}
use gmmff.Prelude.{
  ◌≡◌, refl, sym, ◌∙◌, ◌+◌, true, false, List, [], ◌∷◌, ◌++◌, some, arith, Bool-cases, inl, inr,
  if◌then◌else◌,
}
use gmmff.Prelude.Bytes.{Bytes, bytes_eq}
use gmmff.Transfer.Frames.{
  tag_message, build_message_frame, parse_message_frame, build_chat_close_frame,
  build_participant_leave_frame,
}
use gmmff.Chat.{
  quit_command, Shown, message, session_closed, ended, left_session, Chat, Session, new_chat, Event,
  typed, arrives, goes_on, handle_chat_frame, send_chat_line, turn, run_cli,
}

parse-build_message_frame :
    (text : Bytes)
    → bytes_eq text [] ≡ false
    → parse_message_frame (build_message_frame text) ≡ text
unfolding parse_message_frame build_message_frame bytes_eq
parse-build_message_frame [] h = cc
parse-build_message_frame (x ∷ text) h = ground arith

received :
    (t : Session) (text : Bytes) (s : Chat)
    → bytes_eq text [] ≡ false
    → handle_chat_frame t (build_message_frame text) s
      ≡ record s { shown = s.shown ++ message t.remote_label text ∷ []; resets = s.resets + 1 }
unfolding handle_chat_frame build_message_frame
received t text s h =
    let p : parse_message_frame (tag_message ∷ text) ≡ text = parse-build_message_frame text h in
    rw p refl

module _ (trim_space : Bytes → Bytes) where
  -- Lines that are messages: neither blank nor the command to quit.
  abbrev pub AreMessages : List Bytes → Type 0
  AreMessages [] = Unit {0}
  AreMessages (l ∷ ls) =
      (bytes_eq (trim_space l) [] ≡ false)
      × (bytes_eq (trim_space l) quit_command ≡ false)
      × AreMessages ls

  abbrev pub typing : List Bytes → List Event
  typing [] = []
  typing (l ∷ ls) = typed (some l) true ∷ typing ls

  abbrev pub arriving : List Bytes → List Event
  arriving [] = []
  arriving (f ∷ fs) = arrives f ∷ arriving fs

  abbrev pub frames_of : List Bytes → List Bytes
  frames_of [] = []
  frames_of (l ∷ ls) = build_message_frame (trim_space l) ∷ frames_of ls

  abbrev pub messages_of : Session → List Bytes → List Shown
  messages_of t [] = []
  messages_of t (l ∷ ls) = message t.remote_label (trim_space l) ∷ messages_of t ls

  typed-sent :
      (t : Session) (ls : List Bytes) (s : Chat)
      → AreMessages ls
      → (e : Chat) × ((run_cli trim_space t (typing ls) s ≡ goes_on e)
          × (e.sent ≡ s.sent ++ frames_of ls))
  unfolding run_cli turn send_chat_line
  typed-sent t [] s h = (s, (refl, sym (append-nil s.sent)))
  typed-sent t (l ∷ ls) s (a, b, h) =
      let f = build_message_frame (trim_space l) in
      let s' = record s { sent = s.sent ++ f ∷ []; resets = s.resets + 1 } in
      let (e, (r, q)) = typed-sent t ls s' h in
      (e, (rw (a, b) r, q ∙ append_assoc s.sent (f ∷ []) (frames_of ls)))

  arrived-shown :
      (t : Session) (ls : List Bytes) (s : Chat)
      → AreMessages ls
      → (e : Chat) × ((run_cli trim_space t (arriving (frames_of ls)) s ≡ goes_on e)
          × (e.shown ≡ s.shown ++ messages_of t ls))
  unfolding run_cli turn
  arrived-shown t [] s h = (s, (refl, sym (append-nil s.shown)))
  arrived-shown t (l ∷ ls) s (a, b, h) =
      let m = message t.remote_label (trim_space l) in
      let s' = record s { shown = s.shown ++ m ∷ []; resets = s.resets + 1 } in
      let (e, (r, q)) = arrived-shown t ls s' h in
      (
        e,
        (
          rw (received t (trim_space l) s a) r,
          q ∙ append_assoc s.shown (m ∷ []) (messages_of t ls),
        ),
      )

  -- One participant types lines, none of them blank or the command to quit, and no Send fails; the
  -- other one gets the frames in order. Then both sessions go on, and the other one is shown exactly
  -- these lines, trimmed, in this order and with the label of the peer.
  pub run_cli-typing :
      (alice bob : Session) (ls : List Bytes)
      → AreMessages ls
      → (a b : Chat) × ((run_cli trim_space alice (typing ls) new_chat ≡ goes_on a)
          × ((run_cli trim_space bob (arriving a.sent) new_chat ≡ goes_on b)
              × (b.shown ≡ messages_of bob ls)))
  run_cli-typing alice bob ls h =
      let (a, (ra, sa)) = typed-sent alice ls new_chat h in
      let (b, (rb, sb)) = arrived-shown bob ls new_chat h in (a, b, (ra, (rw sa rb, sb)))

  -- After the command to quit the loop of RunCLI goes on, for an initiator too: with a message typed
  -- next, that message is sent after the frame that ends the session.
  pub run_cli_quit :
      (t : Session) (quit l : Bytes)
      → trim_space quit ≡ quit_command
      → AreMessages (l ∷ [])
      → (e : Chat) × ((run_cli trim_space t (typing (quit ∷ l ∷ [])) new_chat ≡ goes_on e)
          × (e.sent
              ≡ (if t.is_initiator then build_chat_close_frame else build_participant_leave_frame)
                ∷ build_message_frame (trim_space l)
                ∷ []))
  unfolding run_cli turn send_chat_line bytes_eq
  run_cli_quit t quit l q (a, b, _) =
      let f = build_message_frame (trim_space l) in
      let e : Bytes → Shown → Chat =
        λ g x. record { sent = g ∷ f ∷ []; shown = x ∷ []; is_done = false; resets = 1 } in
      elim (Bool-cases t.is_initiator) [
        | inl i ↦ rw (q, i, a, b) (e build_chat_close_frame (session_closed ended), (refl, refl))
        | inr i ↦ rw (q, i, a, b) (e build_participant_leave_frame left_session, (refl, refl))
      ]
