-- ===== src/Chat/Tests.antt =====
-- internal/chat/session.go on a few lines.
use gmmff.Prelude.{◌≡◌, refl, true, false, [], ◌∷◌}
use gmmff.Prelude.Bytes.{Bytes, codes, bytes_eq}
use gmmff.Chat.{Chat, Session, new_chat, goes_on, run_cli}
use gmmff.Chat.Exchange.{typing, arriving, messages_of, run_cli-typing}

abbrev alice : Session
alice = record { remote_label = codes "bob"; is_initiator = true }

abbrev bob : Session
bob = record { remote_label = codes "alice"; is_initiator = false }

-- Lines without white space around them.
abbrev as_is : Bytes → Bytes
as_is l = l

hello_not_blank : bytes_eq (codes "hello") [] ≡ false
unfolding bytes_eq
hello_not_blank = refl

hello_not_quit : bytes_eq (codes "hello") (codes "\\q") ≡ false
unfolding bytes_eq
hello_not_quit = refl

run_cli-typing_example :
    (a b : Chat) × ((run_cli as_is alice
          (typing as_is (codes "hello" ∷ codes "hello" ∷ []))
          new_chat
        ≡ goes_on a)
      × ((run_cli as_is bob (arriving as_is a.sent) new_chat ≡ goes_on b)
          × (b.shown ≡ messages_of as_is bob (codes "hello" ∷ codes "hello" ∷ []))))
run_cli-typing_example =
    run_cli-typing as_is alice bob (codes "hello" ∷ codes "hello" ∷ [])
      (hello_not_blank, hello_not_quit, (hello_not_blank, hello_not_quit, tt))
