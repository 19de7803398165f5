-- ===== src/Example/Hub/Main.antt =====
-- The chat and the notification server under `main`, and how they end: example/chat/chat_server.cpp and
-- example/notification/notification_server.cpp.
use liboizys.Common.{
  ℕ, suc, ◌+◌, ◌≡◌, ◌<◌, ◌^◌, refl, sym, ap, ◌∙◌, false, List, [], ◌∷◌, ◌++◌, Result, ok, length,
  arith, All,
}
use liboizys.Session.{MessageHandler}
use liboizys.Example.Options.{Application}
use liboizys.Example.Program.{Output, shutdown_line, unlink_call, exits}
use liboizys.Example.ServerMain.{ServerEvent, signal, running, ServerApi, listening, server_main}
use liboizys.Example.ServerMain.Exits.{IsCalm, ServerLaws, after, after-Good, server_main_exits}
use liboizys.Example.SessionMap.{server}
use liboizys.Example.SessionMap.Ids.{ids, length-ids}
use liboizys.Example.SessionMap.Places.{IsMap}
use liboizys.Example.Hub.{Hub, Peer, Handlers, hub_step, onclose, close, start}
use liboizys.Example.Hub.Registry.{Registered, KeepRegistry}
use liboizys.Example.Hub.Safety.{
  IsSound, Distinct, hub_step-IsSound, hub_step-few, Registered-IsSound,
}
use liboizys.Example.Hub.Shutdown.{closing_lines, shutdown_closes}

-- The timer throws nothing and leaves the ids of the sessions alone.
abbrev pub KeepTimer : (Hub → Hub × Result (Unit {0})) → Type 0
KeepTimer on_timer =
    (h : Hub)
    → h.status ≡ running
    → ((on_timer h).1 ≡ ok tt) × Registered (ids h.server.sessions) h.server.id (on_timer h).0

Distinct-IsMap : (xs : List (ℕ × Peer)) → Distinct (ids xs) → IsMap xs
Distinct-IsMap [] distinct = tt
Distinct-IsMap ((id, p) ∷ rest) (new, distinct) = (new, Distinct-IsMap rest distinct)

-- The server runs, and may get so many sessions more.
abbrev pub HasRoom : Hub → ℕ → Type 0
HasRoom h n = IsSound h × (length h.server.sessions + n + 1 < 2 ^ 32)

module _ (usage : Output) (onmessage : ℕ → MessageHandler Hub)
    (on_timer : Hub → Hub × Result (Unit {0})) where
  abbrev handlers : Handlers
  handlers = record { onclose = onclose; onmessage = onmessage }

  abbrev pub hub_api : ServerApi Hub
  hub_api = record {
    usage = usage;
    start = start;
    handle = hub_step handlers;
    on_timer = on_timer;
    close = close handlers;
    output = λ h. h.output;
    status = λ h. h.status;
  }

  pub listening-HasRoom :
      (app : Application) (n : ℕ) → n + 1 < 2 ^ 32 → HasRoom (listening hub_api app) n
  unfolding listening server
  listening-HasRoom app n few =
      (record { runs = refl; next_small = omega arith; distinct = tt; in_range = tt }, omega arith)

  module _ (keep : KeepRegistry handlers) (keep_timer : KeepTimer on_timer) where
    timer-HasRoom :
        (h : Hub) (n : ℕ) → HasRoom h (suc n) → ((on_timer h).1 ≡ ok tt) × HasRoom (on_timer h).0 n
    timer-HasRoom h n (sound, few) =
        let h' = (on_timer h).0 in
        let keys = ids h.server.sessions in
        let (sent, r) = keep_timer h sound.runs in
        let same : length h'.server.sessions ≡ length h.server.sessions =
          sym (length-ids h'.server.sessions)
          ∙ ap (λ (xs : List ℕ). length xs) r.1
          ∙ length-ids h.server.sessions in
        (
          sent,
          (
            Registered-IsSound keys h.server.id h' sound.next_small sound.distinct sound.in_range r,
            omega (arith, same),
          ),
        )

    hub_laws : ServerLaws hub_api HasRoom
    hub_laws = record {
      runs = λ h n (sound, few). sound.runs;
      handles = λ e h n (sound, few).
          let (sound', extends) = hub_step-IsSound handlers keep e h sound (omega arith) in
          let more = hub_step-few handlers keep e h extends in (sound', omega (arith, more));
      times = timer-HasRoom;
    }

    -- A server that was not asked for help and whose endpoint can be bound ends at its first signal, if
    -- its handlers and its timer leave the map of sessions alone and fewer than 2 ^ 32 - 1 events came
    -- before it: those have all been handled; every session is closed, which prints a line for each
    -- that was open; it prints that it shuts down, removes its endpoint and returns the exit code of
    -- its command line.
    pub hub_main_exits :
        (app : Application) (es more : List ServerEvent)
        → app.show_help ≡ false
        → All IsCalm es
        → length es + 1 < 2 ^ 32
        → let h = after hub_api es (listening hub_api app) in
          server_main hub_api app (ok tt) (es ++ signal ∷ more)
          ≡ exits
              ((h.output ++ closing_lines h.server.sessions)
                ++ shutdown_line ∷ unlink_call app.endpoint ∷ [])
              app.exit_code
    hub_main_exits app es more no_help calm few =
        let h = after hub_api es (listening hub_api app) in
        let room = listening-HasRoom app (length es) few in
        let (sound, last) =
          after-Good hub_api HasRoom hub_laws es (listening hub_api app) calm room in
        server_main_exits hub_api HasRoom hub_laws app es more _ no_help calm room
          (shutdown_closes onmessage h (Distinct-IsMap h.server.sessions sound.distinct)) sound.runs
