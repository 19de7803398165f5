-- ===== src/Example/Chat/Relay.antt =====
-- example/chat/chat_server.cpp: what becomes of a message of a client.
use liboizys.Common.{ℕ, ◌≡◌, some, Option, ok, Result, ap}
use liboizys.ComMessage.{ComMessage}
use liboizys.Session.{Bytes, World}
use liboizys.Session.Valid.{IsFramed}
use liboizys.Example.Program.{Output, print, chat_line}
use liboizys.Example.SessionMap.{Server, defined}
use liboizys.Example.SessionMap.Keys.{each}
use liboizys.Example.SessionMap.Sessions.{asio_sessions, queued, send_all-queued}
use liboizys.Example.Chat.{on_message}

-- A message of a size that can be sent, which the chat server can parse, is printed, and put into the
-- queue of every session, that of its sender included.
pub on_message_relays :
    (parse : Bytes → Option (Bytes × Bytes)) (id : ℕ) (m : ComMessage) (user content : Bytes)
    (s : Server (World (Unit {0}))) (out : Output)
    → IsFramed m
    → parse m.payload ≡ some (user, content)
    → on_message parse asio_sessions id m.payload (s, out)
      ≡ defined (
        (record s { sessions = each (queued m) s.sessions }, print (chat_line user content) out),
        ok tt,
      )
unfolding on_message
on_message_relays parse id m user content s out framed parsed =
    rw (parsed, on_message)
      (ap
        (λ (e : Server (World (Unit {0})) × Result (Unit {0})).
          defined ((e.0, print (chat_line user content) out), e.1))
        (send_all-queued m s framed))
