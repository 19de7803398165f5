-- ===== src/Witnesses/Servers.antt =====
-- The theorems on the chat server and the notification programs at concrete inputs.
use liboizys.Common.{◌≡◌, refl, true, false, some, [], ◌∷◌, ok, none, Option}
use liboizys.Session.{Bytes, asio_session, World}
use liboizys.Example.SessionMap.{Server}
use liboizys.Session.Events.{read_completes, read_failed}
use liboizys.Session.Receive.{deliveries}
use liboizys.Example.Notification.{main}
use liboizys.Example.Notification.Listening.{main_lem}
use liboizys.Common.{◌++◌}
use liboizys.Example.Program.{message_line, exits}
use liboizys.Example.Options.{Application}
use liboizys.Witnesses.{hi, hi_message, hi_framed}

-- A session that is open and one that is not.
abbrev here : World (Unit {0})
here = record { session = asio_session true; client = tt }

abbrev gone : World (Unit {0})
gone = record { session = asio_session false; client = tt }

abbrev two : Server (World (Unit {0}))
two = record { sessions = (1, here) ∷ (2, gone) ∷ []; id = 2 }

-- The first byte is the user, the others are the content.
abbrev pub parse_chat : Bytes → Option (Bytes × Bytes)
parse_chat [] = none
parse_chat (b ∷ content) = some (b ∷ [], content)

abbrev pub plain_application : Application
plain_application = record { exit_code = 0; show_help = false; endpoint = "/tmp/oizys" }

main_lem_example :
    main plain_application (ok tt) (
      deliveries (hi_message ∷ hi_message ∷ [])
      ++ read_completes (read_failed 2 (0 ∷ [])) ∷ read_completes (read_failed 2 []) ∷ [])
    ≡ exits (message_line hi ∷ message_line hi ∷ []) 0
main_lem_example =
    main_lem plain_application (hi_message ∷ hi_message ∷ []) 2 (0 ∷ [])
      (read_completes (read_failed 2 []) ∷ []) refl (hi_framed, (hi_framed, tt))
