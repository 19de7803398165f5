-- ===== src/Example/EchoClient/Replies.antt =====
-- example/echo/echo_client.cpp: what the client prints.
use liboizys.Common.{
  ℕ, ◌≡◌, refl, ap, ◌∙◌, true, false, some, ◌++◌, List, [], ◌∷◌, ok, throws, Exception,
}
use liboizys.ComMessage.{ComMessage, com_message}
use liboizys.Session.{
  done, Bytes, create_session, World, Effect, finished, header_read, header_write,
}
use liboizys.Session.Methods.{
  enqueue, write_header, run, exec, exec_with, set_onmessage, read_header, send, resume,
}
use liboizys.Session.Branches.{send_accepted, send_refused}
use liboizys.Session.Events.{Event, read_completes, received, handle, step}
use liboizys.Session.Valid.{IsFramed}
use liboizys.Session.Receive.{IsWaiting, deliveries, header_received, receive_frame}
use liboizys.Session.Transmit.{completions}
use liboizys.Example.Options.{Application}
use liboizys.Example.Program.{exits, proceed, message_line, error_line}
use liboizys.Example.EchoClient.{State, onmessage, start, run_loop, left, caught, idle, main}

-- The loop ends with the reply.
run_loop_finished :
    (es : List (Event State)) (w : World State)
    → w.client.finished_waiting ≡ true
    → run_loop es w ≡ w
unfolding run_loop
run_loop_finished [] w e = refl
run_loop_finished (event ∷ es) w e = rw e refl

pub run_loop_waits :
    (event : Event State) (es : List (Event State)) (w : World State)
    → w.client.finished_waiting ≡ false
    → run_loop (event ∷ es) w ≡ run_loop es (step event w)
unfolding run_loop
run_loop_waits event es w e = rw e refl

-- The client after it has sent a message.
abbrev pub begun : ComMessage → World State
begun m = record {
  session = record (create_session true) {
    write_queue = m ∷ [];
    onmessage = some onmessage;
    reads = header_read ∷ [];
    writes = header_write m.header ∷ [];
  };
  client = record { finished_waiting = false; output = [] };
}

-- The client after it has set its handler.
abbrev pub opened : World State
opened = record {
  session = record (create_session true) { onmessage = some onmessage; reads = header_read ∷ [] };
  client = record { finished_waiting = false; output = [] };
}

start-send :
    (message : Bytes)
    → run (start message) idle ≡ resume (send message opened) (λ r w. run (proceed done r) w)
unfolding run exec exec_with start set_onmessage create_session read_header
start-send message = refl

pub main-connected :
    (app : Application) (message : Bytes) (es : List (Event State))
    → app.show_help ≡ false
    → main app (ok tt) message es ≡ caught app.exit_code es (run (start message) idle)
unfolding main
main-connected app message es no_help = rw (no_help, main) refl

pub start_accepted :
    (m : ComMessage) → IsFramed m → run (start m.payload) idle ≡ (begun m, finished (ok tt))
unfolding run exec exec_with enqueue write_header create_session
start_accepted m e =
    start-send m.payload
    ∙ ap (λ (x : Effect State ℕ). resume x (λ r w. run (proceed done r) w))
        (send_accepted m.payload m opened e)

-- A message that cannot be sent makes the echo client, if it was not asked for help and has connected,
-- print the exception and end, without a loop and with the exit code of its command line, whatever
-- happens to the session.
pub main_refused :
    (app : Application) (message : Bytes) (x : Exception) (es : List (Event State))
    → app.show_help ≡ false
    → com_message message ≡ throws x
    → main app (ok tt) message es ≡ exits (error_line x ∷ []) app.exit_code
unfolding run exec exec_with caught
main_refused app message x es no_help e =
    main-connected app message es no_help
    ∙ ap (caught app.exit_code es) (
        start-send message
        ∙ ap (λ (v : Effect State ℕ). resume v (λ r w. run (proceed done r) w))
            (send_refused message x opened e))

-- The message has been written, and the client waits for the reply.
abbrev pub replied : ComMessage → World State
replied r = record {
  session = record opened.session { message_to_read = r };
  client = record { finished_waiting = true; output = message_line r.payload ∷ [] };
}

pub writes_end :
    (m : ComMessage) (es : List (Event State))
    → run_loop (completions (m ∷ []) ++ es) (begun m) ≡ run_loop es opened
unfolding run_loop handle create_session write_header
writes_end m es = refl

pub opened-IsWaiting : IsWaiting onmessage opened.session
unfolding create_session
opened-IsWaiting = (refl, refl, refl)

reply_ends :
    (r : ComMessage) (es : List (Event State))
    → IsFramed r
    → run_loop (deliveries (r ∷ []) ++ es) opened ≡ replied r
unfolding onmessage run exec exec_with read_header
reply_ends r es framed =
    let waiting = opened-IsWaiting in
    let after = step (read_completes (received r.header)) opened in
    let unfinished : after.client.finished_waiting ≡ false =
      ap (λ (v : World State). v.client.finished_waiting)
        (header_received r.payload r opened framed waiting.1 waiting.2) in
    run_loop_waits (read_completes (received r.header)) (read_completes (received r.payload) ∷ es)
      opened refl
    ∙ run_loop_waits (read_completes (received r.payload)) es after unfinished
    ∙ ap (λ (v : World State). run_loop es v)
        (receive_frame r.payload r onmessage opened framed waiting)
    ∙ run_loop_finished es (replied r) refl

-- When the message of the echo client, which was not asked for help and has connected, has been
-- written and a reply has been read, the client has printed the reply and ends with the exit code of
-- its command line: later events are not waited for.
pub main_reply :
    (app : Application) (m r : ComMessage) (es : List (Event State))
    → app.show_help ≡ false
    → IsFramed m
    → IsFramed r
    → main app (ok tt) m.payload (completions (m ∷ []) ++ deliveries (r ∷ []) ++ es)
      ≡ exits (message_line r.payload ∷ []) app.exit_code
unfolding caught left
main_reply app m r es no_help framed framed' =
    main-connected app m.payload (completions (m ∷ []) ++ deliveries (r ∷ []) ++ es) no_help
    ∙ ap (caught app.exit_code (completions (m ∷ []) ++ deliveries (r ∷ []) ++ es))
        (start_accepted m framed)
    ∙ ap (left app.exit_code) (writes_end m (deliveries (r ∷ []) ++ es) ∙ reply_ends r es framed')
