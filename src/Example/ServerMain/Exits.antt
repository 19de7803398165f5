-- ===== src/Example/ServerMain/Exits.antt =====
-- How the servers end: example/echo/echo_server.cpp, example/chat/chat_server.cpp and
-- example/notification/notification_server.cpp.
use liboizys.Common.{ℕ, suc, ◌≡◌, refl, ◌∙◌, false, List, [], ◌∷◌, ◌++◌, ok, length, All}
use liboizys.Example.Options.{Application}
use liboizys.Example.Program.{shutdown_line, unlink_call, exits}
use liboizys.Example.ServerMain.{
  HubEvent, ServerEvent, happens, timer, signal, running, ServerApi, stopped, listening, serve,
  closed, served, server_main,
}

abbrev pub IsCalm : ServerEvent → Type 0
IsCalm (happens e) = Unit {0}
IsCalm timer = Unit {0}
IsCalm signal = ⊥

-- What keeps a server running: a property of it and of the number of events that may still come.
pub record ServerLaws {S : Type 0} (api : ServerApi S) (Good : S → ℕ → Type 0) : Type 0 where
  pub runs : (s : S) (n : ℕ) → Good s n → api.status s ≡ running
  pub handles : (e : HubEvent) (s : S) (n : ℕ) → Good s (suc n) → Good (api.handle e s) n
  pub times :
      (s : S) (n : ℕ) → Good s (suc n) → ((api.on_timer s).1 ≡ ok tt) × Good (api.on_timer s).0 n

module _ {S : Type 0} (api : ServerApi S) where
  -- The server after events, none of them a signal, of which each is handled.
  unfoldable pub after : List ServerEvent → S → S
  after [] s = s
  after (happens e ∷ es) s = after es (api.handle e s)
  after (timer ∷ es) s = after es (api.on_timer s).0
  after (signal ∷ es) s = after es s

  serve_happens :
      (e : HubEvent) (es : List ServerEvent) (s : S)
      → api.status s ≡ running
      → serve api (happens e ∷ es) s ≡ serve api es (api.handle e s)
  unfolding serve
  serve_happens e es s runs = simp (serve, runs)

  serve_timer :
      (es : List ServerEvent) (s : S)
      → api.status s ≡ running
      → (api.on_timer s).1 ≡ ok tt
      → serve api (timer ∷ es) s ≡ serve api es (api.on_timer s).0
  unfolding serve
  serve_timer es s runs sent = simp (serve, runs, sent)

  serve_signal :
      (es : List ServerEvent) (s : S)
      → api.status s ≡ running
      → serve api (signal ∷ es) s ≡ stopped s
  unfolding serve
  serve_signal es s runs = simp (serve, runs)

  module _ (Good : S → ℕ → Type 0) (laws : ServerLaws api Good) where
    serve-after :
        (es more : List ServerEvent) (s : S)
        → All IsCalm es
        → Good s (length es)
        → (serve api (es ++ signal ∷ more) s ≡ stopped (after es s)) × Good (after es s) 0
    unfolding after
    serve-after [] more s calm good = (serve_signal more s (laws.runs s 0 good), good)
    serve-after (happens e ∷ es) more s (_, calm) good =
        let (ends, last) =
          serve-after es more (api.handle e s) calm (laws.handles e s (length es) good) in
        (serve_happens e (es ++ signal ∷ more) s (laws.runs s (suc (length es)) good) ∙ ends, last)
    serve-after (timer ∷ es) more s (_, calm) good =
        let (sent, good') = laws.times s (length es) good in
        let (ends, last) = serve-after es more (api.on_timer s).0 calm good' in
        (serve_timer (es ++ signal ∷ more) s (laws.runs s (suc (length es)) good) sent ∙ ends, last)
    serve-after (signal ∷ es) more s (never, calm) good = absurd never

    -- A server that keeps running ends at its first signal, if its `close` leaves it running: it has
    -- handled all events before it, has closed, prints that it shuts down, and removes its endpoint.
    pub server_main_exits :
        (app : Application) (es more : List ServerEvent) (final : S)
        → app.show_help ≡ false
        → All IsCalm es
        → Good (listening api app) (length es)
        → api.close (after es (listening api app)) ≡ final
        → api.status final ≡ running
        → server_main api app (ok tt) (es ++ signal ∷ more)
          ≡ exits (api.output final ++ shutdown_line ∷ unlink_call app.endpoint ∷ []) app.exit_code
    unfolding server_main served closed
    server_main_exits app es more final no_help calm good closing runs =
        let (ends, last) = serve-after es more (listening api app) calm good in
        rw (no_help, ends, closing, runs) refl

    pub after-Good :
        (es : List ServerEvent) (s : S) → All IsCalm es → Good s (length es) → Good (after es s) 0
    after-Good es s calm good = (serve-after es [] s calm good).1
