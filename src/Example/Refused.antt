-- ===== src/Example/Refused.antt =====
-- The programs in example/ on a command line with an option that they do not know.
use Prim.Native.String.{String}
use liboizys.Common.{ℕ, ◌≡◌, ◌≢◌, refl, List, [], ◌∷◌, ◌++◌, All, true, Option, Result, arith}
use liboizys.Session.{Bytes}
use liboizys.Session.Events.{Event}
use liboizys.Example.Options.{
  Application, Arguments, exit_failure, invalid_option_line, server_application,
  echo_client_application, chat_client_application, notification_client_application,
}
use liboizys.Example.Options.Parsed.{IsServerOption, server_application_invalid}
use liboizys.Example.Options.ParsedClients.{IsClientOption, client_application_invalid}
use liboizys.Example.Program.{Output, Progress, exits}
use liboizys.Example.Usage.{echo_client_usage, chat_client_usage, notification_client_usage}
use liboizys.Example.ServerMain.{ServerEvent, ServerApi, server_main}
use liboizys.Example.EchoClient.{State as EchoState, main}
use liboizys.Example.Notification.{State as NotificationState, main as notification_client_main}
use liboizys.Example.Chat.Client.{ClientEvent, client_main}

-- What the constructor of `application` printed is an error, and `main` only shows the help, and fails.
abbrev pub IsRefusal : {A S : Type 0} → Output → (A → Progress S) → A × Output → Type 0
IsRefusal usage main (app, out) =
    (out ≡ invalid_option_line ∷ []) × (main app ≡ exits usage exit_failure)

server_help :
    {S : Type 0} (api : ServerApi S) (app : Application) (bound : Result (Unit {0}))
    (es : List ServerEvent)
    → app.show_help ≡ true
    → server_main api app bound es ≡ exits api.usage app.exit_code
unfolding server_main
server_help api app bound es help = rw (help, server_main) refl

-- Each of the servers, on a command line with an option that it does not know, prints an error and its
-- usage and returns the code for a failure, whatever the acceptor would do and whatever happens: it does
-- not touch its endpoint, and what follows the option is not read.
pub server_refuses :
    {S : Type 0} (api : ServerApi S) (endpoint : String) (args more : Arguments) (code : ℕ)
    (optarg : String) (bound : Result (Unit {0})) (es : List ServerEvent)
    → All IsServerOption args
    → code ≢ b'h'
    → code ≢ b'e'
    → IsRefusal api.usage
        (λ app. server_main api app bound es)
        (server_application endpoint (args ++ (code, optarg) ∷ more))
server_refuses api endpoint args more code optarg bound es known h e =
    rw (server_application_invalid endpoint args more code optarg known h e)
      (refl, server_help api _ bound es refl)

-- The echo client, on a command line with an option that it does not know, prints an error and its usage
-- and returns the code for a failure, whatever the connection would do and whatever happens; what follows
-- the option is not read.
pub echo_client_refuses :
    (args more : Arguments) (code : ℕ) (optarg : String) (connected : Result (Unit {0}))
    (message : Bytes) (es : List (Event EchoState))
    → All (IsClientOption b'm') args
    → code ≢ b'm'
    → code ≢ b'h'
    → code ≢ b'e'
    → IsRefusal echo_client_usage
        (λ app. main app.base connected message es)
        (echo_client_application (args ++ (code, optarg) ∷ more))
unfolding echo_client_application main
echo_client_refuses args more code optarg connected message es known own h e =
    rw
      (client_application_invalid b'm' "/tmp/com_example_echo.sock" "Hi" args more code optarg
        (λ x. omega arith) (λ x. omega arith) known own h e)
      (refl, refl)

-- The chat client, likewise.
pub chat_client_refuses :
    (parse : Bytes → Option (Bytes × Bytes)) (serialize : Bytes → Bytes → Bytes) (user : Bytes)
    (args more : Arguments) (code : ℕ) (optarg : String) (connected : Result (Unit {0}))
    (es : List ClientEvent)
    → All (IsClientOption b'u') args
    → code ≢ b'u'
    → code ≢ b'h'
    → code ≢ b'e'
    → IsRefusal chat_client_usage
        (λ app. client_main parse serialize user app connected es)
        (chat_client_application (args ++ (code, optarg) ∷ more))
unfolding chat_client_application client_main
chat_client_refuses parse serialize user args more code optarg connected es known own h e =
    rw
      (client_application_invalid b'u' "/tmp/com_example_chat.sock" "Bob" args more code optarg
        (λ x. omega arith) (λ x. omega arith) known own h e)
      (refl, refl)

-- The notification client, on a command line with an option other than 'h' and 'e', prints an error and its
-- usage and returns the code for a failure, whatever the connection would do and whatever happens; what
-- follows the option is not read.
pub notification_client_refuses :
    (args more : Arguments) (code : ℕ) (optarg : String) (connected : Result (Unit {0}))
    (es : List (Event NotificationState))
    → All IsServerOption args
    → code ≢ b'h'
    → code ≢ b'e'
    → IsRefusal notification_client_usage
        (λ app. notification_client_main app.base connected es)
        (notification_client_application (args ++ (code, optarg) ∷ more))
unfolding notification_client_application notification_client_main
notification_client_refuses args more code optarg connected es known h e =
    rw (server_application_invalid "/tmp/oizys_example_notify.sock" args more code optarg known h e)
      (refl, refl)
