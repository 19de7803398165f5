-- ===== src/Example/Options/Parsed.antt =====
-- What the command lines of the servers in example/ come to.
use Prim.Native.String.{String}
use liboizys.Common.{
  ℕ, Bool, true, false, [], ◌∷◌, ◌++◌, ◌||◌, ◌==◌, ◌≡◌, ◌≢◌, ◌⊎◌, inl, inr, refl, arith,
  if◌then◌else◌, All,
}
use liboizys.Example.Options.{
  Application, Arguments, exit_success, exit_failure, defaults, invalid_option, invalid_option_line,
  server_option, parse_arguments, server_application,
}

-- The options before the first one that is not known: the last endpoint given, and whether help is
-- asked for.
abbrev pub last_of : ℕ → Arguments → String → String
last_of letter [] text = text
last_of letter ((code, optarg) ∷ rest) text =
    last_of letter rest (if code == letter then optarg else text)

abbrev pub asks_help : Arguments → Bool → Bool
asks_help [] help = help
asks_help ((code, optarg) ∷ rest) help = asks_help rest (code == b'h' || help)

abbrev pub IsServerOption : ℕ × String → Type 0
IsServerOption (code, optarg) = (code ≡ b'h') ⊎ (code ≡ b'e')

-- From any state of the loop.
server_loop :
    (args : Arguments) (app : Application)
    → All IsServerOption args
    → parse_arguments server_option invalid_option args app ≡ (
      record app {
        show_help = asks_help args app.show_help;
        endpoint = last_of b'e' args app.endpoint;
      },
      [],
    )
unfolding parse_arguments server_option
server_loop [] app known = refl
server_loop ((code, optarg) ∷ rest) app (inl help, known) =
    ground (arith, server_loop rest (record app { show_help = true }) known)
server_loop ((code, optarg) ∷ rest) app (inr endpoint, known) =
    ground (arith, server_loop rest (record app { endpoint = optarg }) known)

server_loop_stops :
    (args more : Arguments) (code : ℕ) (optarg : String) (app : Application)
    → All IsServerOption args
    → code ≢ b'h'
    → code ≢ b'e'
    → parse_arguments server_option invalid_option (args ++ (code, optarg) ∷ more) app ≡ (
      record app {
        exit_code = exit_failure;
        show_help = true;
        endpoint = last_of b'e' args app.endpoint;
      },
      invalid_option_line ∷ [],
    )
unfolding parse_arguments server_option
server_loop_stops [] more code optarg app known h e = ground arith
server_loop_stops ((c, o) ∷ rest) more code optarg app (inl help, known) h e =
    ground
      (arith, server_loop_stops rest more code optarg (record app { show_help = true }) known h e)
server_loop_stops ((c, o) ∷ rest) more code optarg app (inr endpoint, known) h e =
    ground (arith, server_loop_stops rest more code optarg (record app { endpoint = o }) known h e)

-- A server, on a command line of options that it knows: it succeeds, shows its help exactly when an option
-- asks for it, takes the last endpoint given, or its own, and prints nothing.
pub server_application_known :
    (endpoint : String) (args : Arguments)
    → All IsServerOption args
    → server_application endpoint args ≡ (
      record {
        exit_code = exit_success;
        show_help = asks_help args false;
        endpoint = last_of b'e' args endpoint;
      },
      [],
    )
unfolding server_application
server_application_known endpoint args known = server_loop args (defaults endpoint) known

-- The first option that a server does not know makes it print an error, show its help and fail, with the
-- last endpoint before that option; what follows the option is not read.
pub server_application_invalid :
    (endpoint : String) (args more : Arguments) (code : ℕ) (optarg : String)
    → All IsServerOption args
    → code ≢ b'h'
    → code ≢ b'e'
    → server_application endpoint (args ++ (code, optarg) ∷ more) ≡ (
      record { exit_code = exit_failure; show_help = true; endpoint = last_of b'e' args endpoint },
      invalid_option_line ∷ [],
    )
unfolding server_application
server_application_invalid endpoint args more code optarg known h e =
    server_loop_stops args more code optarg (defaults endpoint) known h e
