-- ===== src/Example/Notification.antt =====
-- example/notification: the timer of the server (notification_server.cpp) and the handlers of the
-- client (notification_client.cpp). The server's sessions are those of SessionMap.antt.
pub mod Broadcast
pub mod Listening
pub mod Room
pub mod Sessions
pub mod Rounds
use liboizys.Common.{Bool, true, false, List, [], ◌∷◌, ℕ, Result, ok, throws, if◌then◌else◌}
use liboizys.Session.{
  Bytes, Script, done, update, sets_onclose, sets_onmessage, CloseHandler, MessageHandler,
}
use liboizys.Session.Events.{Event, client_runs, step}
use liboizys.Session.Methods.{run}
use liboizys.Session.{World, create_session, Effect, finished, stuck}
use liboizys.Example.Options.{Application}
use liboizys.Example.Usage.{notification_client_usage}
use liboizys.Example.Program.{
  Progress, waits, exits, goes_wrong, error_line, notify_line, message_line, Output, print, proceed,
}
use liboizys.Example.SessionMap.{SessionApi, Server, send_all}

abbrev pub notification : Bytes
notification = b'n' ∷ b'o' ∷ b't' ∷ b'i' ∷ b'f' ∷ b'y' ∷ []

-- The handler of the timer. It starts the timer again if no exception leaves it.
unfoldable pub notify :
    {S : Type 0} → SessionApi S → Server S × Output → (Server S × Output) × Result (Unit {0})
unfolding send_all
notify api (s, out) =
    let (s', sent) = send_all api notification s in ((s', print notify_line out), sent)

pub record State : Type 0 where
  pub shutdown_requested : Bool
  pub output : Output

unfoldable pub onclose : CloseHandler State
onclose err = update (λ s. record s { shutdown_requested = true }) done

unfoldable pub onmessage : MessageHandler State
onmessage message = update (λ s. record s { output = print (message_line message) s.output }) done

unfoldable pub start : Script State
unfolding onclose onmessage
start = sets_onclose onclose (proceed (sets_onmessage onmessage (proceed done)))

-- `while (!shutdown_requested) { context.run_one(); }`, over the events that there are.
unfoldable pub run_loop : List (Event State) → World State → World State
run_loop [] w = w
run_loop (e ∷ es) w = if w.client.shutdown_requested then w else run_loop es (step e w)

-- The handler of SIGINT and SIGTERM.
abbrev pub signalled : Event State
signalled = client_runs (update (λ s. record s { shutdown_requested = true }) done)

-- What follows the loop.
unfoldable pub left : ℕ → World State → Progress (World State)
left code w = if w.client.shutdown_requested then exits w.client.output code else waits w

-- The `try` block of `main` after the start, and its handlers.
unfoldable pub listened : ℕ → List (Event State) → Effect State (Unit {0}) → Progress (World State)
unfolding run_loop left
listened code es (w, finished (ok r)) = left code (run_loop es w)
listened code es (w, finished (throws e)) = exits (print (error_line e) w.client.output) code
listened code es (w, stuck) = goes_wrong

-- `connected` is what `sock.connect` returns or throws.
unfoldable pub main : Application → Result (Unit {0}) → List (Event State) → Progress (World State)
unfolding start listened
main app connected es =
    if app.show_help then exits notification_client_usage app.exit_code else elim connected [
      | throws e ↦ exits (error_line e ∷ []) app.exit_code
      | ok opened ↦ listened app.exit_code es (
          run start (record {
            session = create_session true;
            client = record { shutdown_requested = false; output = [] };
          }))
    ]
