-- ===== src/Example/EchoServer.antt =====
-- example/echo/echo_server.cpp: what the server does with a connection.
pub mod Echoes
pub mod Hosted
pub mod Talk
pub mod Independent
use Prim.Native.String.{String}
use liboizys.Common.{
  ℕ, Bool, true, false, List, [], ◌∷◌, ◌++◌, Result, ok, throws, Option, none, some, get_elem?,
  set_elem, Exception, if◌then◌else◌,
}
use liboizys.Session.{
  Bytes, Script, done, raise, update, sends, sets_onclose, sets_onmessage, CloseHandler,
  MessageHandler, AsioSession, create_session, World, Outcome, finished, stuck, Effect,
}
use liboizys.Session.Methods.{run, resume}
use liboizys.Session.Events.{Event, step}
use liboizys.Example.Options.{Application, ClientApplication}
use liboizys.Session.Events.{read_completes, write_completes}
use liboizys.Example.ServerMain.{
  HubEvent, accepts, reads, writes, running, ServerEvent, ServerApi, server_main,
}
use liboizys.Example.Usage.{echo_server_usage}
use liboizys.Example.Program.{
  Progress, Line, connection_closed, new_connection, message_line, error_line, Output, print,
  proceed,
}

-- `[](auto){ std::cout << "info: connection closed" << std::endl; }`.
unfoldable pub onclose : CloseHandler Output
onclose err = update (print connection_closed) done

-- `[session](auto const & message){ std::cout << message << std::endl; session->send(message); }`.
unfoldable pub onmessage : MessageHandler Output
onmessage message = update (print (message_line message)) (sends message (proceed done))

-- What `do_accept` does with the session of a new connection.
unfoldable pub setup : Script Output
unfolding onclose onmessage
setup = sets_onclose onclose (proceed (sets_onmessage onmessage (proceed done)))

-- The session of a new connection, behind `if (!err)`, with what the server has printed.
unfoldable pub accepted : Output → World Output
unfolding setup
accepted out =
    (run setup (record { session = create_session true; client = print new_connection out })).0

-- The sessions that live, which only their own handlers and operations know, and the output.
pub record Host : Type 0 where
  pub sessions : List (AsioSession Output)
  pub output : Output

-- The handler of `async_accept`: a socket, or an error.
unfoldable pub do_accept : Bool → Host → Host
unfolding accepted
do_accept err host =
    if err
    then host
    else (let w = accepted host.output in
        record { sessions = host.sessions ++ w.session ∷ []; output = w.client })

-- An event of the session at a place.
unfoldable pub at_place : ℕ → Event Output → Host → Host
at_place place e host = elim (get_elem? host.sessions place) [
  | none ↦ host
  | some s ↦
      let w = step e (record { session = s; client = host.output }) in
      record { sessions = set_elem place w.session host.sessions; output = w.client }
]

unfoldable pub host_step : HubEvent → Host → Host
unfolding do_accept at_place
host_step (accepts err) host = do_accept err host
host_step (reads place result) host = at_place place (read_completes result) host
host_step (writes place result) host = at_place place (write_completes result) host

-- The echo server has no timer, and leaves its sessions open at its end.
abbrev pub echo_api : ServerApi Host
echo_api = record {
  usage = echo_server_usage;
  start = λ out. record { sessions = []; output = out };
  handle = host_step;
  on_timer = λ host. (host, ok tt);
  close = λ host. host;
  output = λ host. host.output;
  status = λ host. running;
}

unfoldable pub echo_main : Application → Result (Unit {0}) → List ServerEvent → Progress Host
unfolding server_main
echo_main = server_main echo_api
