-- ===== src/Example/Chat/Room/Runs.antt =====
-- example/chat/chat_server.cpp: its `main`, and any run of the server.
use liboizys.Common.{
  ◌+◌, ◌≡◌, ◌<◌, ◌^◌, refl, false, Option, List, [], ◌∷◌, ◌++◌, Result, ok, All, length,
}
use liboizys.Session.{Bytes}
use liboizys.Example.Options.{Application}
use liboizys.Example.Program.{Progress, exits, shutdown_line, unlink_call}
use liboizys.Example.Usage.{chat_server_usage}
use liboizys.Example.ServerMain.{HubEvent}
use liboizys.Example.Hub.{Hub, hub_steps}
use liboizys.Example.Hub.Safety.{IsSound, Extends, hub_steps-IsSound}
use liboizys.Example.Hub.Shutdown.{closing_lines}
use liboizys.Example.Hub.Main.{KeepTimer, hub_api, hub_main_exits}
use liboizys.Example.Usage.{chat_server_usage}
use liboizys.Example.ServerMain.{ServerEvent, signal, ServerApi, listening, server_main}
use liboizys.Example.Usage.{chat_server_usage}
use liboizys.Example.ServerMain.Exits.{IsCalm, after}
use liboizys.Example.Chat.Room.{onmessage, chat_handlers}
use liboizys.Example.Chat.Room.Registry.{chat-KeepRegistry}

-- The chat server has no timer.
abbrev pub no_timer : Hub → Hub × Result (Unit {0})
no_timer h = (h, ok tt)

no_timer-KeepTimer : KeepTimer no_timer
no_timer-KeepTimer h runs = (refl, (runs, refl, refl))

module _ (parse : Bytes → Option (Bytes × Bytes)) where
  abbrev pub chat_api : ServerApi Hub
  chat_api = hub_api chat_server_usage (onmessage parse) no_timer

  unfoldable pub chat_main : Application → Result (Unit {0}) → List ServerEvent → Progress Hub
  unfolding server_main
  chat_main = server_main chat_api

  -- The chat server, from a state such as that of its start and over any connections, reads and writes
  -- with any results, with fewer than 2 ^ 32 - 1 sessions and events, runs on: no search for an id is
  -- without end, and the undefined behaviour of `remove` is not reached. The ids of its sessions stay
  -- distinct, other than 0 and below 2 ^ 32; no session is ever taken out of the map, closed or not,
  -- and an event adds one at most.
  pub chat_steps-IsSound :
      (es : List HubEvent) (h : Hub)
      → IsSound h
      → length h.server.sessions + length es + 1 < 2 ^ 32
      → IsSound (hub_steps (chat_handlers parse) es h)
        × Extends h (hub_steps (chat_handlers parse) es h) (length es)
  chat_steps-IsSound es h sound few =
      hub_steps-IsSound (chat_handlers parse) (chat-KeepRegistry parse) es h sound few

  -- The chat server, if it was not asked for help and its endpoint can be bound, ends at its first
  -- signal, after fewer than 2 ^ 32 - 1 connections, reads and writes: each has been handled, none of
  -- them ends the program; every session is closed, which prints a line for each that was open; it
  -- prints that it shuts down, removes its endpoint and returns the exit code of its command line.
  pub chat_main_exits :
      (app : Application) (es more : List ServerEvent)
      → app.show_help ≡ false
      → All IsCalm es
      → length es + 1 < 2 ^ 32
      → let h = after chat_api es (listening chat_api app) in
        chat_main app (ok tt) (es ++ signal ∷ more)
        ≡ exits
            ((h.output ++ closing_lines h.server.sessions)
              ++ shutdown_line ∷ unlink_call app.endpoint ∷ [])
            app.exit_code
  unfolding chat_main
  chat_main_exits app es more no_help calm few =
      hub_main_exits chat_server_usage (onmessage parse) no_timer (chat-KeepRegistry parse)
        no_timer-KeepTimer app es more no_help calm few
