-- ===== src/Witnesses/Talks.antt =====
-- The theorems on the clients, and on clients with their servers, at concrete inputs.
use liboizys.Common.{
  ◌≡◌, ◌++◌, refl, true, false, some, none, [], ◌∷◌, List, ok, throws, arith, All, ◌+◌, length,
  invalid_message_size,
}
use liboizys.ComMessage.{com_message}
use liboizys.Session.{
  Bytes, Script, done, asio_session, create_session, World, header_read, payload_read, AsioSession,
}
use liboizys.Session.Methods.{on_session, enqueue}
use liboizys.Session.Events.{
  received, read_failed, written, read_completes, write_completes, client_runs, steps,
}
use liboizys.Session.Handled.{IsHandled, steps-IsHandled}
use liboizys.Example.Program.{exits, waits, message_line, chat_line, error_line}
use liboizys.Example.ServerMain.{reads}
use liboizys.Example.SessionMap.{find}
use liboizys.Example.Hub.{Hub, Peer, hub_step}
use liboizys.Example.Chat.Room.{chat_handlers}
use liboizys.Example.Chat.{State}
use liboizys.Example.Chat.Client.{
  Client, client_step, client_loop, console_reads, console_reader, start_console,
}
use liboizys.Example.Chat.Client.{client_main, console_fails, signal, ClientEvent}
use liboizys.Example.Chat.Client.Ends.{HasExited, client_main_ends}
use liboizys.Example.Chat.Client.Lines.{second_line_lost, refused_line_ends}
use liboizys.Example.EchoClient.{main}
use liboizys.Example.EchoClient.Abandoned.{waits_for_ever}
use liboizys.Session.Wire.Trace.{wire}
use liboizys.Session.Receive.{deliveries}
use liboizys.Session.Transmit.{completions, arriving}
use liboizys.Example.Program.{Output}
use liboizys.Example.Chat.{client_onmessage}
use liboizys.Example.Chat.Delivery.{line_arrives}
use liboizys.Example.EchoServer.{accepted}
use liboizys.Example.EchoClient.{State as EchoState}
use liboizys.Example.EchoClient.Replies.{begun}
use liboizys.Example.Echo.{settled, echo_exchange}
use liboizys.Witnesses.Rooms.{room, speaker, listener, speaker_found, speaker_open}
use liboizys.Witnesses.{hi, hi_message, hi_framed}
use liboizys.Witnesses.Servers.{parse_chat, plain_application}

-- A chat client that has connected.
abbrev chatting : World State
chatting = record {
  session = asio_session true;
  client = record { shutdown_requested = false; output = [] };
}

-- Only the content, in place of the serialized message.
abbrev content_of : Bytes → Bytes → Bytes
content_of user content = content

second_line_lost_example :
    client_step parse_chat content_of
      (console_reads (b'H' ∷ b'i' ∷ b'\n' ∷ b'y' ∷ b'o' ∷ b'\n' ∷ []))
      (record { world = chatting; console = start_console (b'u' ∷ []) console_reader })
    ≡ (
      record {
        world = on_session (λ s. (enqueue hi_message s).0) chatting;
        console = start_console (b'u' ∷ []) console_reader;
      },
      ok tt,
    )
second_line_lost_example =
    second_line_lost parse_chat content_of (b'u' ∷ []) b'H' (b'i' ∷ []) (b'y' ∷ b'o' ∷ [])
      hi_message chatting (omega arith, (omega arith, tt)) (omega arith) hi_framed

empty_refused : com_message [] ≡ throws invalid_message_size
unfolding com_message
empty_refused = refl

refused_line_ends_example :
    client_loop parse_chat
      (λ user content. [])
      (console_reads (b'H' ∷ b'i' ∷ b'\n' ∷ []) ∷ console_reads [] ∷ [])
      0
      (record { world = chatting; console = start_console (b'u' ∷ []) console_reader })
    ≡ exits (error_line invalid_message_size ∷ []) 0
refused_line_ends_example =
    refused_line_ends parse_chat (λ user content. []) b'H' (b'i' ∷ []) [] (b'H' ∷ b'i' ∷ b'\n' ∷ [])
      invalid_message_size (console_reads [] ∷ []) 0
      (record { world = chatting; console = start_console (b'u' ∷ []) console_reader })
      (omega arith, (omega arith, tt)) refl refl refl empty_refused

-- A session with both handlers.
abbrev handled : World State
handled = record chatting {
  session = record chatting.session {
    onclose = some (λ err. done);
    onmessage = some (λ message. done);
    reads = header_read ∷ [];
  };
}

steps-IsHandled_example :
    IsHandled
      (λ err. done)
      (λ message. done)
      (steps
        (read_completes (read_failed 2 [])
          ∷ client_runs (liboizys.Session.sets_onclose (λ err. done) (λ r. done))
          ∷ [])
        handled).session
steps-IsHandled_example =
    steps-IsHandled (λ err. done) (λ message. done)
      (read_completes (read_failed 2 [])
        ∷ client_runs (liboizys.Session.sets_onclose (λ err. done) (λ r. done))
        ∷ [])
      handled (liboizys.Common.inl (refl, refl, refl))

listener_found : find 2 room.server.sessions ≡ some listener
unfolding find
listener_found = refl

abbrev at_home : World State
at_home = record chatting {
  session = record chatting.session {
    onmessage = some (client_onmessage parse_chat);
    reads = header_read ∷ [];
  };
}

abbrev typing : Client
typing = record { world = chatting; console = start_console (b'H' ∷ []) console_reader }

line_arrives_example :
    let c' =
      (client_step parse_chat
        (λ user content. user ++ content)
        (console_reads (b'i' ∷ b'\n' ∷ []))
        typing).0 in
    let h' =
      hub_step
        (chat_handlers parse_chat)
        (reads 1 (received hi))
        (hub_step (chat_handlers parse_chat) (reads 1 (received (0 ∷ 0 ∷ 0 ∷ 2 ∷ []))) room) in
    (wire (completions (hi_message ∷ [])) c'.world
      ≡ arriving {W = Hub} (deliveries (hi_message ∷ [])))
    × (h'.output ≡ chat_line (b'H' ∷ []) (b'i' ∷ []) ∷ [])
    × (q' : Peer) × (find 2 h'.server.sessions ≡ some q')
    × (wire (completions (hi_message ∷ [])) (record { session = q'; client = tt })
        ≡ arriving {W = State} (deliveries (hi_message ∷ [])))
    × ((steps (deliveries (hi_message ∷ [])) at_home).client
        ≡ record { shutdown_requested = false; output = chat_line (b'H' ∷ []) (b'i' ∷ []) ∷ [] })
line_arrives_example =
    line_arrives parse_chat (λ user content. user ++ content) (b'H' ∷ []) b'i' [] hi_message typing
      room 1 2 speaker listener at_home (omega arith, tt) hi_framed refl refl (refl, refl)
      ((omega arith, tt), (tt, tt)) speaker_found speaker_open.0 refl speaker_open.1 (omega arith)
      listener_found (refl, refl) (refl, refl, refl)

echo_exchange_example :
    let server = steps (deliveries (hi_message ∷ [])) (accepted []) in
    (wire (completions (hi_message ∷ [])) (begun hi_message)
      ≡ arriving {W = Output} (deliveries (hi_message ∷ [])))
    × (wire (completions (hi_message ∷ [])) server
        ≡ arriving {W = EchoState} (deliveries (hi_message ∷ [])))
    × (steps (completions (hi_message ∷ [])) server ≡ settled hi_message [])
    × (main plain_application (ok tt) hi (
          completions (hi_message ∷ [])
          ++ deliveries (hi_message ∷ [])
          ++ read_completes (read_failed 2 []) ∷ [])
        ≡ exits (message_line hi ∷ []) 0)
echo_exchange_example =
    echo_exchange plain_application hi_message [] (read_completes (read_failed 2 []) ∷ []) refl
      hi_framed

-- The message is written, the header of the reply arrives, and then the connection is lost.
waits_for_ever_example :
    (w : World EchoState) × (main plain_application (ok tt) hi (
        write_completes written
        ∷ write_completes written
        ∷ read_completes (received (0 ∷ 0 ∷ 0 ∷ 2 ∷ []))
        ∷ read_completes (read_failed 2 [])
        ∷ read_completes (received hi)
        ∷ [])
      ≡ waits w)
    × (w.client ≡ record { finished_waiting = false; output = [] })
waits_for_ever_example =
    waits_for_ever plain_application hi_message
      (write_completes written
        ∷ write_completes written
        ∷ read_completes (received (0 ∷ 0 ∷ 0 ∷ 2 ∷ []))
        ∷ [])
      (read_completes (received hi) ∷ []) 2 [] refl hi_framed tt (tt, tt)

client_main_ends_example : HasExited 0 (
    client_main parse_chat content_of
      (b'u' ∷ [])
      (record { base = plain_application; text = "u" })
      (ok tt)
      (console_fails
        ∷ ClientEvent.reads (received (0 ∷ 0 ∷ 0 ∷ 2 ∷ []))
        ∷ signal
        ∷ console_fails
        ∷ []))
client_main_ends_example =
    client_main_ends parse_chat content_of (b'u' ∷ [])
      (record { base = plain_application; text = "u" }) (ok tt)
      (console_fails ∷ ClientEvent.reads (received (0 ∷ 0 ∷ 0 ∷ 2 ∷ [])) ∷ []) (console_fails ∷ [])
