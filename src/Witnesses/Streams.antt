-- ===== src/Witnesses/Streams.antt =====
-- The theorems on streams, on interleaved connections and on what is refused, at concrete inputs.
use mathlib.Core.List.{Perm}
use mathlib.Core.List.Perm
use liboizys.Common.{
  ◌≡◌, ◌++◌, ◌+◌, refl, sym, subst, true, false, some, none, [], ◌∷◌, List, ok, arith, All, inr,
  length, get_elem?,
}
use liboizys.ComMessage.{com_message, header_byte, ComMessage}
use liboizys.Session.{
  Bytes, ErrorCode, bad_message, io_error, AsioSession, sends, done, create_session, asio_session,
  World, header_read,
}
use liboizys.Session.Events.{
  Event, received, read_failed, written, write_failed, read_completes, write_completes, client_runs,
  steps, handle,
}
use liboizys.Session.Methods.{run, exec, exec_with, send, enqueue}
use liboizys.Session.Receive.{collect}
use liboizys.Session.Wire.{frames}
use liboizys.Session.Wire.Trace.{wire, all_entered}
use liboizys.Session.Stream.{decode, feed}
use liboizys.Session.Stream.Reads.{report, told, HasEnded}
use liboizys.Session.Stream.Decodes.{feed-decode}
use liboizys.Session.Stream.Frames.{whole, contents}
use liboizys.Session.Stream.Delivery.{IsText, delivers}
use liboizys.Example.Options.{server_application}
use liboizys.Example.Program.{Output, new_connection}
use liboizys.Example.ServerMain.{HubEvent, server_main, accepts, reads, writes, happens, signal}
use liboizys.Example.EchoServer.{Host, accepted, do_accept, host_step, echo_api}
use liboizys.Example.EchoServer.Echoes.{unsent_of, lines}
use liboizys.Example.EchoServer.Talk.{Talk, stop, header, payload, wrote, Talk-frames}
use liboizys.Example.EchoServer.Independent.{own, hosts, host_wire, echo_each}
use liboizys.Session.Wire.{IsSending}
use liboizys.Example.ServerMain.{ServerEvent, timer, running}
use liboizys.Example.ServerMain.Exits.{after}
use liboizys.Example.SessionMap.{find}
use liboizys.Example.Hub.{Hub, Peer}
use liboizys.Example.Hub.Registry.{connected}
use liboizys.Example.Notification.Broadcast.{notification_message}
use liboizys.Example.Notification.Room.{notification_api}
use liboizys.Example.Notification.Rounds.{hub_wire, each_round}
use liboizys.Example.Refused.{IsRefusal, server_refuses}
use liboizys.Example.SessionMap.{Server, send_all}
use liboizys.Example.SessionMap.Sessions.{asio_sessions}
use liboizys.Example.SessionMap.Orders.{send_all-Perm}
use liboizys.Witnesses.{hi, hi_message, hi_framed, Log, note}

-- A client that notes the end of the connection by an empty message.
abbrev note_end : ErrorCode → Log → Log
note_end err log = log ++ [] ∷ []

abbrev reader : World Log
reader = record {
  session = record (asio_session true) {
    onmessage = some (collect note);
    onclose = some (report note note_end);
    reads = header_read ∷ [];
  };
  client = [];
}

-- A message, and a header that is not allowed.
abbrev bad_stream : Bytes
bad_stream = 0 ∷ 0 ∷ 0 ∷ 2 ∷ b'H' ∷ b'i' ∷ 1 ∷ 0 ∷ 0 ∷ 2 ∷ b'H' ∷ []

-- What the protocol says of it.
bad_stream_decodes : decode 2 (length bad_stream) bad_stream ≡ (hi ∷ [], bad_message)
unfolding decode
bad_stream_decodes = refl

feed-decode_example :
    let (contents, err) = decode 2 (length bad_stream) bad_stream in
    let v = feed 2 (length bad_stream + 1) bad_stream reader in
    (v.client ≡ told note note_end contents err [])
    × (v.session.is_open ≡ false)
    × (v.session.reads ≡ [])
feed-decode_example =
    feed-decode note note_end 2 bad_stream reader
      (
        omega arith,
        (
          omega arith,
          (
            omega arith,
            (
              omega arith,
              (
                omega arith,
                (
                  omega arith,
                  (omega arith, (omega arith, (omega arith, (omega arith, (omega arith, tt))))),
                ),
              ),
            ),
          ),
        ),
      )
      (refl, refl, (refl, refl, refl))

-- A client sends two messages; the first is written, and of the second the header.
abbrev half_sent : List (Event Log)
half_sent =
    client_runs (sends hi (λ _. sends hi (λ _. done)))
    ∷ write_completes written
    ∷ write_completes written
    ∷ write_completes written
    ∷ []

two_entered :
    all_entered half_sent (record { session = create_session true; client = [] })
    ≡ hi_message ∷ hi_message ∷ []
unfolding handle run exec exec_with send enqueue com_message header_byte create_session
two_entered = refl

texts : All IsText (all_entered half_sent (record { session = create_session true; client = [] }))
texts =
    subst (All IsText) (sym two_entered)
      ((omega arith, (omega arith, tt)), ((omega arith, (omega arith, tt)), tt))

delivers_example :
    let sender : World Log = record { session = create_session true; client = [] } in
    let bytes = wire half_sent sender in
    let sent = all_entered half_sent sender in
    let front = whole (length bytes) sent in
    ((rest : List ComMessage) × (sent ≡ front ++ rest))
    × HasEnded note note_end
        (told note note_end (contents front) (io_error 2) [])
        (feed 2 (length bytes + 1) bytes reader)
delivers_example =
    delivers note note_end 2 true [] half_sent reader tt texts (refl, refl, (refl, refl, refl))

-- A connection that writes what it got before it has got the rest.
abbrev talk_events : List (Event Output)
talk_events =
    read_completes (received (0 ∷ 0 ∷ 0 ∷ 2 ∷ []))
    ∷ read_completes (received hi)
    ∷ write_completes written
    ∷ read_completes (received (0 ∷ 0 ∷ 0 ∷ 2 ∷ []))
    ∷ write_completes written
    ∷ read_completes (received hi)
    ∷ []

talked : Talk none (hi_message ∷ hi_message ∷ []) talk_events
talked =
    header hi_message hi_framed
      (payload (wrote (header hi_message hi_framed (wrote (payload stop)))))

Talk-frames_example :
    let w = accepted [] in
    (wire talk_events w ++ unsent_of (steps talk_events w).session
      ≡ frames (hi_message ∷ hi_message ∷ []))
    × ((steps talk_events w).client ≡ lines (hi_message ∷ hi_message ∷ []) (new_connection ∷ []))
Talk-frames_example = Talk-frames [] talked

-- Another connection is lost meanwhile, and a third one is accepted.
abbrev host_events : List HubEvent
host_events =
    reads 1 (received (0 ∷ 0 ∷ 0 ∷ 2 ∷ []))
    ∷ reads 0 (read_failed 2 [])
    ∷ reads 1 (received hi)
    ∷ accepts false
    ∷ writes 1 written
    ∷ reads 1 (received (0 ∷ 0 ∷ 0 ∷ 2 ∷ []))
    ∷ reads 2 (received (1 ∷ 0 ∷ 0 ∷ 2 ∷ []))
    ∷ writes 1 written
    ∷ reads 1 (received hi)
    ∷ []

abbrev empty_host : Host
empty_host = record { sessions = []; output = [] }

talked_there :
    Talk none
      (hi_message ∷ hi_message ∷ [])
      (own (length (hosts (accepts false ∷ []) empty_host).sessions) host_events)
unfolding host_step
talked_there = talked

echo_each_example :
    let now = hosts (accepts false ∷ []) empty_host in
    let place = length now.sessions in
    let opened = do_accept false now in
    (s : AsioSession Output) × (get_elem? (hosts host_events opened).sessions place ≡ some s)
    × (host_wire place host_events opened ++ unsent_of s ≡ frames (hi_message ∷ hi_message ∷ []))
echo_each_example =
    echo_each (accepts false ∷ []) host_events (hi_message ∷ hi_message ∷ []) empty_host
      talked_there

server_refuses_example :
    IsRefusal echo_api.usage
      (λ app. server_main echo_api app (ok tt) (happens (accepts false) ∷ signal ∷ []))
      (server_application "/tmp/a" ((b'e', "/tmp/b") ∷ (b'?', "") ∷ (b'e', "/tmp/c") ∷ []))
server_refuses_example =
    server_refuses echo_api "/tmp/a" ((b'e', "/tmp/b") ∷ []) ((b'e', "/tmp/c") ∷ []) b'?' "" (ok tt)
      (happens (accepts false) ∷ signal ∷ []) (inr refl, tt) (λ e. omega arith) (λ e. omega arith)

abbrev open_session : World (Unit {0})
open_session = record { session = asio_session true; client = tt }

abbrev shut_session : World (Unit {0})
shut_session = record { session = asio_session false; client = tt }

abbrev two : Server (World (Unit {0}))
two = record { sessions = (1, open_session) ∷ (2, shut_session) ∷ []; id = 2 }

abbrev two_swapped : Server (World (Unit {0}))
two_swapped = record { sessions = (2, shut_session) ∷ (1, open_session) ∷ []; id = 2 }

send_all-Perm_example :
    let (s, sent) = send_all asio_sessions hi two in
    let (t, sent') = send_all asio_sessions hi two_swapped in
    Perm s.sessions t.sessions × (sent ≡ sent')
send_all-Perm_example =
    send_all-Perm hi two two_swapped (Perm.swap (2, shut_session) (1, open_session) [])

-- A client of the notification server that has just connected.
abbrev notified : Hub
notified = record {
  server = record { sessions = (1, connected) ∷ []; id = 1 };
  output = [];
  status = running;
}

-- Two rounds, in which the first frame is written; then the connection is lost.
abbrev rounds : List ServerEvent
rounds =
    timer
    ∷ happens (accepts false)
    ∷ happens (writes 1 written)
    ∷ happens (writes 2 (write_failed 32))
    ∷ timer
    ∷ happens (writes 1 written)
    ∷ happens (reads 1 (read_failed 2 []))
    ∷ []

notified_found : find 1 notified.server.sessions ≡ some connected
unfolding find
notified_found = refl

each_round_example :
    (q : Peer) × (find 1 (after notification_api rounds notified).server.sessions ≡ some q)
    × IsSending q
    × (hub_wire 1 rounds notified ++ unsent_of q
        ≡ frames (notification_message ∷ notification_message ∷ []))
unfolding create_session
each_round_example =
    each_round rounds 1 connected notified (tt, (tt, (tt, (tt, (tt, (tt, (tt, tt)))))))
      (tt, (tt, (tt, ((λ e. omega arith), (tt, (tt, (tt, tt))))))) notified_found ((tt, tt), tt)
