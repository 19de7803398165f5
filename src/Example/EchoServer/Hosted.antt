-- ===== src/Example/EchoServer/Hosted.antt =====
-- example/echo/echo_server.cpp: the end of the program.
use liboizys.Common.{◌≡◌, refl, false, List, [], ◌∷◌, ◌++◌, ok, All}
use liboizys.Example.Options.{Application}
use liboizys.Example.Program.{exits, shutdown_line, unlink_call}
use liboizys.Example.ServerMain.{ServerEvent, signal, listening}
use liboizys.Example.ServerMain.Exits.{IsCalm, ServerLaws, after, server_main_exits}
use liboizys.Example.EchoServer.{echo_api, echo_main}

echo_laws : ServerLaws echo_api (λ host n. Unit {0})
echo_laws = record {
  runs = λ host n good. refl;
  handles = λ e host n good. tt;
  times = λ host n good. (refl, tt);
}

-- The echo server, if it was not asked for help and its endpoint can be bound, ends at its first
-- signal, after any connections, reads and writes: each has been handled; it prints that it shuts down,
-- removes its endpoint and returns the exit code of its command line. No session is closed.
pub echo_main_exits :
    (app : Application) (es more : List ServerEvent)
    → app.show_help ≡ false
    → All IsCalm es
    → echo_main app (ok tt) (es ++ signal ∷ more)
      ≡ exits
          ((after echo_api es (listening echo_api app)).output
            ++ shutdown_line ∷ unlink_call app.endpoint ∷ [])
          app.exit_code
unfolding echo_main
echo_main_exits app es more no_help calm =
    server_main_exits echo_api (λ host n. Unit {0}) echo_laws app es more _ no_help calm tt refl
      refl
