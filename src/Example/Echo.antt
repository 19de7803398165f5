-- ===== src/Example/Echo.antt =====
-- The echo client against a connection of the echo server: example/echo/echo_client.cpp and
-- example/echo/echo_server.cpp.
use liboizys.Common.{◌≡◌, refl, sym, ap, ◌∙◌, some, true, false, ok, List, [], ◌∷◌, ◌++◌}
use liboizys.ComMessage.{ComMessage}
use liboizys.Session.{World, create_session, header_read}
use liboizys.Session.Methods.{
  run, exec, exec_with, enqueue, read_header, write_header, set_onclose, set_onmessage,
}
use liboizys.Session.Events.{Event, steps}
use liboizys.Session.Valid.{IsFramed}
use liboizys.Session.Wire.Trace.{wire}
use liboizys.Session.Receive.{deliveries}
use liboizys.Session.Transmit.{
  pending, completions, drain_wire, drain_steps, arriving, arriving-deliveries,
}
use liboizys.Example.Options.{Application}
use liboizys.Example.Program.{exits, Output, print, new_connection, message_line}
use liboizys.Example.EchoServer.{accepted, onclose, onmessage}
use liboizys.Example.EchoServer.Echoes.{echo_frame, accepted-IsEchoing}
use liboizys.Example.EchoClient.{State, main}
use liboizys.Example.EchoClient.Replies.{begun, opened, main_reply}

-- The connection of the server when it has handled a message and waits for the next.
abbrev pub settled : ComMessage → Output → World Output
settled m out = record {
  session = record (create_session true) {
    message_to_read = m;
    onclose = some onclose;
    onmessage = some onmessage;
    reads = header_read ∷ [];
  };
  client = print (message_line m.payload) (print new_connection out);
}

-- A connection that has been accepted, and then reads a message.
pub echoing-pending :
    (m : ComMessage) (out : Output)
    → IsFramed m
    → steps (deliveries (m ∷ [])) (accepted out) ≡ pending (m ∷ []) (settled m out)
unfolding accepted run exec exec_with create_session set_onclose set_onmessage enqueue write_header
    read_header
echoing-pending m out framed = echo_frame m (accepted out) framed (accepted-IsEchoing out).0.1

begun-pending : (m : ComMessage) → begun m ≡ pending (m ∷ []) opened
begun-pending m = refl

-- The echo client and a connection of the echo server that was just accepted, over one wire, for a
-- message that can be sent, where the client was not asked for help. The bytes that the client writes are those that the server reads; the
-- bytes that the server then writes are those that the client reads; the server has printed the
-- message and waits for another with nothing left to write; the client prints its own message
-- and ends with the exit code of its command line.
pub echo_exchange :
    (app : Application) (m : ComMessage) (out : Output) (es : List (Event State))
    → app.show_help ≡ false
    → IsFramed m
    → let server = steps (deliveries (m ∷ [])) (accepted out) in
      (wire (completions (m ∷ [])) (begun m) ≡ arriving {W = Output} (deliveries (m ∷ [])))
      × (wire (completions (m ∷ [])) server ≡ arriving {W = State} (deliveries (m ∷ [])))
      × (steps (completions (m ∷ [])) server ≡ settled m out)
      × (main app (ok tt) m.payload (completions (m ∷ []) ++ deliveries (m ∷ []) ++ es)
          ≡ exits (message_line m.payload ∷ []) app.exit_code)
unfolding create_session
echo_exchange app m out es no_help framed =
    let ms = m ∷ [] in
    let echoing = echoing-pending m out framed in
    (
      ap (λ (w : World State). wire (completions ms) w) (begun-pending m)
          ∙ drain_wire ms opened
          ∙ sym (arriving-deliveries Output ms),
      ap (λ (w : World Output). wire (completions ms) w) echoing
          ∙ drain_wire ms (settled m out)
          ∙ sym (arriving-deliveries State ms),
      ap (λ (w : World Output). steps (completions ms) w) echoing ∙ drain_steps ms (settled m out),
      main_reply app m m es no_help framed framed,
    )
