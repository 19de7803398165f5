-- ===== src/Example/Notification/Listening.antt =====
-- example/notification/notification_client.cpp: what the client prints until its session is closed.
use liboizys.Common.{
  ℕ, ◌≡◌, refl, ap, ◌∙◌, true, false, some, ◌++◌, List, [], ◌∷◌, All, ok, false, if◌then◌else◌,
}
use liboizys.ComMessage.{ComMessage}
use liboizys.ComMessage.RoundTrip.{com_message-fields}
use liboizys.Session.{Bytes, create_session, World, header_read}
use liboizys.Session.Methods.{
  run, exec, exec_with, close_intern, set_onclose, set_onmessage, read_header,
}
use liboizys.Session.Events.{Event, read_completes, received, read_failed, handle, step}
use liboizys.Session.Valid.{IsFramed}
use liboizys.Session.Receive.{IsWaiting, deliveries, header_received, collect, collect_frame}
use liboizys.Example.Options.{Application}
use liboizys.Example.Program.{exits, waits, Output, print, message_line}
use liboizys.Example.Notification.{State, onclose, onmessage, start, run_loop, left, listened, main}

-- What the client prints for messages.
abbrev pub lines : List ComMessage → Output → Output
lines [] out = out
lines (m ∷ ms) out = lines ms (print (message_line m.payload) out)

abbrev note_message : Bytes → State → State
note_message message s = record s { output = print (message_line message) s.output }

-- The client while it listens.
abbrev listening : ComMessage → Output → World State
listening buffer out = record {
  session = record (create_session true) {
    message_to_read = buffer;
    onmessage = some (collect note_message);
    onclose = some onclose;
    reads = header_read ∷ [];
  };
  client = record { shutdown_requested = false; output = out };
}

run_loop_waits :
    (event : Event State) (es : List (Event State)) (w : World State)
    → w.client.shutdown_requested ≡ false
    → run_loop (event ∷ es) w ≡ run_loop es (step event w)
unfolding run_loop
run_loop_waits event es w e = rw e refl

run_loop_finished :
    (es : List (Event State)) (w : World State)
    → w.client.shutdown_requested ≡ true
    → run_loop es w ≡ w
unfolding run_loop
run_loop_finished [] w e = refl
run_loop_finished (event ∷ es) w e = rw e refl

frame_printed :
    (buffer m : ComMessage) (out : Output) (es : List (Event State))
    → IsFramed m
    → IsWaiting (collect note_message) (listening buffer out).session
    → run_loop (deliveries (m ∷ []) ++ es) (listening buffer out)
      ≡ run_loop es (listening m (print (message_line m.payload) out))
frame_printed buffer m out es framed waiting =
    let w = listening buffer out in
    let after = step (read_completes (received m.header)) w in
    let unfinished : after.client.shutdown_requested ≡ false =
      ap (λ (v : World State). v.client.shutdown_requested)
        (header_received m.payload m w framed waiting.1 waiting.2) in
    run_loop_waits (read_completes (received m.header)) (read_completes (received m.payload) ∷ es) w
      refl
    ∙ run_loop_waits (read_completes (received m.payload)) es after unfinished
    ∙ ap (λ (v : World State). run_loop es v) (collect_frame note_message m w framed waiting)

listens :
    (ms : List ComMessage) (buffer : ComMessage) (out : Output) (es : List (Event State))
    → All IsFramed ms
    → IsWaiting (collect note_message) (listening buffer out).session
    → (last : ComMessage) × (run_loop (deliveries ms ++ es) (listening buffer out)
        ≡ run_loop es (listening last (lines ms out)))
listens [] buffer out es framed waiting = (buffer, refl)
listens (m ∷ ms) buffer out es (e, framed) waiting =
    let (last, rest) =
      listens ms m (print (message_line m.payload) out) es framed
        (refl, refl, (com_message-fields m.payload m e).2) in
    (last, frame_printed buffer m out (deliveries ms ++ es) e waiting ∙ rest)

started :
    (app : Application) (es : List (Event State))
    → app.show_help ≡ false
    → main app (ok tt) es
      ≡ left app.exit_code
          (run_loop es (listening (create_session {W = State} true).message_to_read []))
unfolding main listened start onmessage run exec exec_with set_onclose set_onmessage create_session
    read_header
started app es no_help = rw no_help refl

closed :
    (err : ℕ) (bytes : Bytes) (buffer : ComMessage) (out : Output)
    → (step (read_completes (read_failed err bytes)) (listening buffer out)).client
      ≡ record { shutdown_requested = true; output = out }
unfolding handle create_session run exec exec_with onclose close_intern
closed err bytes buffer out = refl

-- The notification client, if it was not asked for help and has connected, prints the messages whose
-- whole frames it reads, in their order, and ends with the exit code of its command line when the read of
-- the next header fails, since its close handler asks for that: later events are not waited for.
pub main_lem :
    (app : Application) (ms : List ComMessage) (err : ℕ) (bytes : Bytes) (es : List (Event State))
    → app.show_help ≡ false
    → All IsFramed ms
    → main app (ok tt) (deliveries ms ++ read_completes (read_failed err bytes) ∷ es)
      ≡ exits (lines ms []) app.exit_code
unfolding create_session left
main_lem app ms err bytes es no_help framed =
    let failure = read_completes (read_failed err bytes) in
    let (last, rest) =
      listens ms (create_session {W = State} true).message_to_read [] (failure ∷ es) framed
        (refl, refl, refl) in
    let v = step failure (listening last (lines ms [])) in
    let ended = closed err bytes last (lines ms []) in
    started app (deliveries ms ++ failure ∷ es) no_help
    ∙ ap (λ (x : World State). left app.exit_code x)
        (rest
          ∙ run_loop_waits failure es (listening last (lines ms [])) refl
          ∙ run_loop_finished es v (ap (λ (s : State). s.shutdown_requested) ended))
    ∙ ap (λ (s : State). if s.shutdown_requested then exits s.output app.exit_code else waits v)
        ended
