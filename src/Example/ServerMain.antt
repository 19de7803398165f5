-- ===== src/Example/ServerMain.antt =====
-- `main` of the echo, the chat and the notification server: example/echo/echo_server.cpp,
-- example/chat/chat_server.cpp and example/notification/notification_server.cpp, which differ in the
-- server, in the timer and in `server.close()`.
pub mod Exits
use Prim.Native.String.{String}
use liboizys.Common.{ℕ, Bool, List, [], ◌∷◌, ◌++◌, if◌then◌else◌, Result, ok, throws, Exception}
use liboizys.Session.Events.{ReadResult, WriteResult}
use liboizys.Example.Options.{Application}
use liboizys.Example.Program.{
  Output, error_line, shutdown_line, listening_line, unlink_call, Progress, waits, exits,
  goes_wrong,
}

-- What happens to a server: a connection or an error of the acceptor; a read or a write of the session
-- at an id, or at a place, has been completed.
pub data HubEvent : Type 0 where
  accepts : Bool → HubEvent
  reads : ℕ → ReadResult → HubEvent
  writes : ℕ → WriteResult → HubEvent

-- What happens to the process: to its server, to its timer, or SIGINT or SIGTERM.
pub data ServerEvent : Type 0 where
  happens : HubEvent → ServerEvent
  timer signal : ServerEvent

-- The program runs; or it searches for an id for ever; or its behaviour is undefined.
pub data Status : Type 0 where
  running searching broken : Status

-- What `main` has of a server.
pub record ServerApi (S : Type 0) : Type 0 where
  pub usage : Output
  pub start : Output → S
  pub handle : HubEvent → S → S
  pub on_timer : S → S × Result (Unit {0})
  pub close : S → S
  pub output : S → Output
  pub status : S → Status

-- How the loop of `main` goes: it waits for more, it has been stopped by a signal, or an exception has
-- left it.
pub data Served (S : Type 0) : Type 0 where
  waiting : S → Served S
  stopped : S → Served S
  raised : Exception → S → Served S
  wrong : Served S

module _ {S : Type 0} (api : ServerApi S) where
  -- The server when its loop begins.
  unfoldable pub listening : Application → S
  listening app = api.start (unlink_call app.endpoint ∷ listening_line app.endpoint ∷ [])

  -- `while (!shutdown_requested) { context.run(); }`.
  unfoldable pub serve : List ServerEvent → S → Served S
  serve [] s = waiting s
  serve (e ∷ es) s =
      let next : Served S = elim e [
        | signal ↦ stopped s
        | happens event ↦ serve es (api.handle event s)
        | timer ↦ elim (api.on_timer s).1 [
          | ok sent ↦ serve es (api.on_timer s).0
          | throws x ↦ raised x (api.on_timer s).0
        ]
      ] in
      elim (api.status s) [ running ↦ next | searching ↦ waiting s | broken ↦ wrong ]

  -- What follows `server.close()`.
  unfoldable pub closed : Application → Status → S → Progress S
  closed app running s =
      exits (api.output s ++ shutdown_line ∷ unlink_call app.endpoint ∷ []) app.exit_code
  closed app searching s = waits s
  closed app broken s = goes_wrong

  -- What follows the loop. An exception that leaves it destroys the server before its open sessions,
  -- whose close handlers then use it.
  unfoldable pub served : Application → Served S → Progress S
  unfolding closed
  served app (waiting s) = waits s
  served app (stopped s) = closed app (api.status (api.close s)) (api.close s)
  served app (raised x s) = goes_wrong
  served app wrong = goes_wrong

  -- `bound` is what the constructor of the acceptor returns or throws.
  unfoldable pub server_main : Application → Result (Unit {0}) → List ServerEvent → Progress S
  unfolding serve served listening
  server_main app bound es = if app.show_help then exits api.usage app.exit_code else elim bound [
    | throws x ↦
        exits (unlink_call app.endpoint ∷ error_line x ∷ unlink_call app.endpoint ∷ [])
          app.exit_code
    | ok opened ↦ served app (serve es (listening app))
  ]
