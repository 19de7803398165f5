-- ===== src/Example/EchoClient.antt =====
-- example/echo/echo_client.cpp: its handler, its event loop and its `main`.
pub mod Replies
pub mod Lost
pub mod Abandoned
use liboizys.Common.{Bool, true, false, ℕ, List, [], ◌∷◌, Result, ok, throws, if◌then◌else◌}
use liboizys.Session.{
  Bytes, Script, done, update, sends, sets_onmessage, MessageHandler, create_session, World,
  finished, stuck, Effect,
}
use liboizys.Session.Methods.{run}
use liboizys.Session.Events.{Event, step}
use liboizys.Example.Options.{Application}
use liboizys.Example.Usage.{echo_client_usage}
use liboizys.Example.Program.{
  Progress, waits, exits, goes_wrong, message_line, error_line, Output, print, proceed,
}

pub record State : Type 0 where
  pub finished_waiting : Bool
  pub output : Output

unfoldable pub onmessage : MessageHandler State
onmessage message =
    update (λ s. record { finished_waiting = true; output = print (message_line message) s.output })
      done

unfoldable pub start : Bytes → Script State
unfolding onmessage
start message = sets_onmessage onmessage (proceed (sends message (proceed done)))

-- The session for the socket, before `set_onmessage`.
abbrev pub idle : World State
idle = record {
  session = create_session true;
  client = record { finished_waiting = false; output = [] };
}

-- `while (!done) { context.run_one(); }`, over the events that there are.
unfoldable pub run_loop : List (Event State) → World State → World State
run_loop [] w = w
run_loop (e ∷ es) w = if w.client.finished_waiting then w else run_loop es (step e w)

-- What follows the loop.
unfoldable pub left : ℕ → World State → Progress (World State)
left code w = if w.client.finished_waiting then exits w.client.output code else waits w

-- The `try` block of `main` after the start, and its handlers.
unfoldable pub caught : ℕ → List (Event State) → Effect State (Unit {0}) → Progress (World State)
unfolding run_loop left
caught code es (w, finished (ok r)) = left code (run_loop es w)
caught code es (w, finished (throws e)) = exits (print (error_line e) w.client.output) code
caught code es (w, stuck) = goes_wrong

-- `connected` is what `sock.connect` returns or throws, and `message` the bytes of `app.message`.
unfoldable pub main :
    Application → Result (Unit {0}) → Bytes → List (Event State) → Progress (World State)
unfolding start caught
main app connected message es =
    if app.show_help then exits echo_client_usage app.exit_code else elim connected [
      | throws e ↦ exits (error_line e ∷ []) app.exit_code
      | ok opened ↦ caught app.exit_code es (run (start message) idle)
    ]
