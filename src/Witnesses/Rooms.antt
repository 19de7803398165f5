-- ===== src/Witnesses/Rooms.antt =====
-- The theorems on the servers in the store of their sessions, and on the clients, at concrete inputs.
use mathlib.Core.List.{Perm}
use mathlib.Core.List.Perm
use liboizys.Example.Hub.Orders.{close-Perm}
use liboizys.Common.{none}
use liboizys.Common.{◌≡◌, ◌++◌, refl, true, false, some, [], ◌∷◌, ok, arith}
use liboizys.Session.{asio_session, payload_read}
use liboizys.Session.Events.{received, read_failed, written}
use liboizys.Example.Program.{exits, chat_line, shutdown_line, unlink_call, connection_closed}
use liboizys.Example.ServerMain.{accepts, reads, writes, happens, timer, signal, listening}
use liboizys.Example.ServerMain.Exits.{after}
use liboizys.Example.SessionMap
use liboizys.Example.SessionMap.{find, Server, defined}
use liboizys.Example.Hub.{Hub, Peer, hub_step, hub_steps, close, with_sessions}
use liboizys.Example.Hub.Safety.{IsSound, Extends}
use liboizys.Example.Hub.Shutdown.{closed_peer, closing_lines, shutdown_closes}
use liboizys.Example.Chat.Room.{chat_handlers, onmessage}
use liboizys.Example.Chat.Room.Broadcast.{broadcast}
use liboizys.Example.Chat.Room.Runs.{chat_steps-IsSound}
use liboizys.Example.Notification.Room.{
  notification_api, notification_main, notification_main_exits,
}
use liboizys.Common.{Option, length}
use liboizys.Session.{Bytes, create_session, header_read}
use liboizys.Example.Program.{invalid_line}
use liboizys.Example.Chat.Room.Frames.{frame_broadcasts}
use liboizys.Example.Chat.Room.Invalid.{passed_over, frame_invalid}
use liboizys.Witnesses.{hi, hi_message, hi_framed}
use liboizys.Witnesses.Servers.{plain_application, parse_chat}

-- An open session that waits for a payload of two bytes, and one that is closed.
abbrev reader : Peer
reader = record (asio_session true) {
  message_to_read = record { header = 0 ∷ 0 ∷ 0 ∷ 2 ∷ []; payload = 0 ∷ 0 ∷ [] };
  reads = payload_read 2 ∷ [];
}

abbrev gone : Peer
gone = asio_session false

abbrev pub two : Hub
two = record {
  server = record { sessions = (1, reader) ∷ (2, gone) ∷ []; id = 2 };
  output = [];
  status = liboizys.Example.ServerMain.running;
}

two-IsSound : IsSound two
two-IsSound = record {
  runs = refl;
  next_small = omega arith;
  distinct = (((omega arith, tt)), (tt, tt));
  in_range = ((omega arith, omega arith), ((omega arith, omega arith), tt));
}

chat_steps-IsSound_example :
    let es =
      accepts false ∷ reads 1 (received hi) ∷ writes 1 written ∷ reads 2 (read_failed 2 []) ∷ [] in
    IsSound (hub_steps (chat_handlers parse_chat) es two)
    × Extends two (hub_steps (chat_handlers parse_chat) es two) 4
chat_steps-IsSound_example =
    chat_steps-IsSound parse_chat
      (accepts false ∷ reads 1 (received hi) ∷ writes 1 written ∷ reads 2 (read_failed 2 []) ∷ [])
      two two-IsSound (omega arith)

found : find 1 two.server.sessions ≡ some reader
unfolding find
found = refl

shutdown_closes_example :
    close (chat_handlers parse_chat) two
    ≡ with_sessions
        ((1, closed_peer reader) ∷ (2, closed_peer gone) ∷ [])
        (record two { output = connection_closed ∷ [] })
shutdown_closes_example = shutdown_closes (onmessage parse_chat) two ((omega arith, tt), (tt, tt))

abbrev two_swapped : Hub
two_swapped = record two { server = record two.server { sessions = (2, gone) ∷ (1, reader) ∷ [] } }

close-Perm_example :
    Perm
      (close (chat_handlers parse_chat) two).server.sessions
      (close (chat_handlers parse_chat) two_swapped).server.sessions
    × ((close (chat_handlers parse_chat) two).output
        ≡ (close (chat_handlers parse_chat) two_swapped).output)
close-Perm_example =
    close-Perm (onmessage parse_chat) two two_swapped ((omega arith, tt), (tt, tt))
      ((omega arith, tt), (tt, tt)) (Perm.swap (2, gone) (1, reader) []) refl

notification_main_exits_example :
    let es = happens (accepts false) ∷ timer ∷ happens (reads 1 (read_failed 2 [])) ∷ timer ∷ [] in
    let h = after notification_api es (listening notification_api plain_application) in
    notification_main plain_application (ok tt) (es ++ signal ∷ timer ∷ [])
    ≡ exits
        ((h.output ++ closing_lines h.server.sessions)
          ++ shutdown_line ∷ unlink_call "/tmp/oizys" ∷ [])
        0
notification_main_exits_example =
    notification_main_exits plain_application
      (happens (accepts false) ∷ timer ∷ happens (reads 1 (read_failed 2 [])) ∷ timer ∷ [])
      (timer ∷ []) refl (tt, (tt, (tt, (tt, tt)))) (omega arith)

-- Two sessions of a chat server.
abbrev pub speaker : Peer
speaker = record (create_session true) { reads = header_read ∷ [] }

abbrev pub listener : Peer
listener = record (asio_session true) { reads = header_read ∷ [] }

abbrev pub room : Hub
room = record two { server = record two.server { sessions = (1, speaker) ∷ (2, listener) ∷ [] } }

pub speaker_found : find 1 room.server.sessions ≡ some speaker
unfolding find
speaker_found = refl

pub speaker_open : (speaker.is_open ≡ true) × (length speaker.message_to_read.header ≡ 4)
unfolding create_session
speaker_open = (refl, refl)

frame_broadcasts_example :
    hub_step
      (chat_handlers parse_chat)
      (reads 1 (received hi))
      (hub_step (chat_handlers parse_chat) (reads 1 (received (0 ∷ 0 ∷ 0 ∷ 2 ∷ []))) room)
    ≡ record room {
      server = record room.server {
        sessions =
            broadcast 1 hi_message
              (record speaker { message_to_read = hi_message })
              room.server.sessions;
      };
      output = chat_line (b'H' ∷ []) (b'i' ∷ []) ∷ [];
    }
frame_broadcasts_example =
    frame_broadcasts parse_chat 1 speaker hi_message (b'H' ∷ []) (b'i' ∷ []) room hi_framed refl
      ((omega arith, tt), (tt, tt)) speaker_found speaker_open.0 refl speaker_open.1

-- Nothing can be parsed.
abbrev parse_nothing : Bytes → Option (Bytes × Bytes)
parse_nothing message = none

frame_invalid_example :
    hub_step
      (chat_handlers parse_nothing)
      (reads 1 (received hi))
      (hub_step (chat_handlers parse_nothing) (reads 1 (received (0 ∷ 0 ∷ 0 ∷ 2 ∷ []))) room)
    ≡ record room {
      server = record room.server {
        sessions = SessionMap.update 1 (passed_over hi_message speaker) room.server.sessions;
      };
      output = invalid_line ∷ [];
    }
frame_invalid_example =
    frame_invalid parse_nothing 1 speaker hi_message room hi_framed refl speaker_found
      speaker_open.0 refl speaker_open.1
