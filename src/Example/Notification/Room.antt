-- ===== src/Example/Notification/Room.antt =====
-- example/notification/notification_server.cpp: the server in the store of its sessions.
use liboizys.Common.{
  ℕ, ◌+◌, ◌≡◌, ◌<◌, ◌^◌, refl, ap, false, List, [], ◌∷◌, ◌++◌, Result, ok, All, length,
}
use liboizys.Session.{done, MessageHandler}
use liboizys.Session.Clients.{done-Keeps}
use liboizys.Session.Methods.{enqueue}
use liboizys.Example.Options.{Application}
use liboizys.Example.Program.{Progress, exits, print, notify_line, shutdown_line, unlink_call}
use liboizys.Example.SessionMap
use liboizys.Example.SessionMap.Ids.{ids}
use liboizys.Example.SessionMap.Keys.{each}
use liboizys.Example.SessionMap.Sessions.{send_all_accepted}
use liboizys.Example.Hub.{Hub, Peer, peers, onclose, Handlers}
use liboizys.Example.Hub.Peers.{queued, send-queued}
use liboizys.Example.Hub.Registry.{Registered, KeepRegistry, onclose-Keeps}
use liboizys.Example.Hub.Shutdown.{closing_lines}
use liboizys.Example.Hub.Main.{KeepTimer, hub_api, hub_main_exits}
use liboizys.Example.Usage.{notification_server_usage}
use liboizys.Example.ServerMain.{ServerEvent, signal, ServerApi, listening, server_main}
use liboizys.Example.Usage.{notification_server_usage}
use liboizys.Example.ServerMain.Exits.{IsCalm, after}
use liboizys.Example.Notification.{notification, notify}
use liboizys.Example.Notification.Broadcast.{notification_message, notification-IsFramed}

-- `[](auto){}`.
abbrev pub ignores : ℕ → MessageHandler Hub
ignores id message = done

abbrev pub notification_handlers : Handlers
notification_handlers = record { onclose = onclose; onmessage = ignores }

-- The handler of the timer, `server.send_all("notify")` in the store.
unfoldable pub on_timer : Hub → Hub × Result (Unit {0})
unfolding notify
on_timer h =
    let ((s, out), sent) = notify peers (h.server, h.output) in
    (record h { server = s; output = out }, sent)

abbrev pub notification_api : ServerApi Hub
notification_api = hub_api notification_server_usage ignores on_timer

unfoldable pub notification_main : Application → Result (Unit {0}) → List ServerEvent → Progress Hub
unfolding server_main on_timer
notification_main = server_main notification_api

pub notification-KeepRegistry : KeepRegistry notification_handlers
notification-KeepRegistry keys n id known =
    (λ err. onclose-Keeps keys n id err known, λ message. done-Keeps (Registered keys n))

pub on_timer_lem :
    (h : Hub)
    → on_timer h ≡ (
      record h {
        server = record h.server {
          sessions = each (queued notification_message) h.server.sessions;
        };
        output = print notify_line h.output;
      },
      ok tt,
    )
unfolding on_timer notify
on_timer_lem h =
    ap
      (λ (e : SessionMap.Server Peer × Result (Unit {0})).
        (record h { server = e.0; output = print notify_line h.output }, e.1))
      (send_all_accepted peers notification (queued notification_message)
        (λ p. (enqueue notification_message p).1)
        (λ p. send-queued notification_message p notification-IsFramed) h.server)

ids-each : (f : Peer → Peer) (xs : List (ℕ × Peer)) → ids (each f xs) ≡ ids xs
ids-each f [] = refl
ids-each f ((id, p) ∷ rest) = ap (◌∷◌ id) (ids-each f rest)

notification-KeepTimer : KeepTimer on_timer
notification-KeepTimer h runs =
    rw (on_timer_lem h)
      (refl, (runs, ids-each (queued notification_message) h.server.sessions, refl))

-- The notification server, if it was not asked for help and its endpoint can be bound, ends at its
-- first signal, after any connections, reads, writes and rounds of its timer, fewer than 2 ^ 32 - 1 of
-- them: each has been handled, none of them ends the program; every session is closed, which prints a
-- line for each that was open; it prints that it shuts down, removes its endpoint and returns the exit
-- code of its command line.
pub notification_main_exits :
    (app : Application) (es more : List ServerEvent)
    → app.show_help ≡ false
    → All IsCalm es
    → length es + 1 < 2 ^ 32
    → let h = after notification_api es (listening notification_api app) in
      notification_main app (ok tt) (es ++ signal ∷ more)
      ≡ exits
          ((h.output ++ closing_lines h.server.sessions)
            ++ shutdown_line ∷ unlink_call app.endpoint ∷ [])
          app.exit_code
unfolding notification_main
notification_main_exits app es more no_help calm few =
    hub_main_exits notification_server_usage ignores on_timer notification-KeepRegistry
      notification-KeepTimer app es more no_help calm few
