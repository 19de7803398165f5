-- ===== src/Example/Options.antt =====
-- The constructors `application(argc, argv)` of the programs in example/. What `getopt_long` returns
-- until it returns -1 is given: the codes, each with its `optarg`.
pub mod Parsed
pub mod ParsedClients
use Prim.Native.String.{String}
use mathlib.Core.Option
use liboizys.Example.Program.{Line, Output, text_line}
use liboizys.Common.{ℕ, Bool, true, false, Option, none, some, List, [], ◌∷◌, ◌==◌, if◌then◌else◌}

abbrev pub exit_success : ℕ
exit_success = 0

abbrev pub exit_failure : ℕ
exit_failure = 1

pub record Application : Type 0 where
  pub exit_code : ℕ
  pub show_help : Bool
  pub endpoint : String

-- A client's `application` has another string: the message or the user.
pub record ClientApplication : Type 0 where
  pub base : Application
  pub open base use *
  pub text : String

abbrev pub Arguments : Type 0
Arguments = List (ℕ × String)

abbrev pub defaults : String → Application
defaults endpoint = record { exit_code = exit_success; show_help = false; endpoint = endpoint }

-- What the `default` case of the switch prints, and what it sets; it ends the loop.
abbrev pub invalid_option_line : Line
invalid_option_line = text_line "error: invalid option"

abbrev pub invalid_option : Application → Application
invalid_option app = record app { exit_code = exit_failure; show_help = true }

-- The cases 'h' and 'e' of the switch; `none` is the `default` case.
unfoldable pub server_option : ℕ → String → Application → Option Application
server_option code optarg app =
    if code == b'h'
    then some (record app { show_help = true })
    else if code == b'e'
    then some (record app { endpoint = optarg })
    else none

-- The same with the case of the client's own option.
unfoldable pub client_option : ℕ → ℕ → String → ClientApplication → Option ClientApplication
unfolding server_option
client_option letter code optarg app =
    if code == letter
    then some (record app { text = optarg })
    else Option.map (λ (base : Application). record app { base = base })
        (server_option code optarg app.base)

-- `while (!done) { … }`, with what it prints.
module _ {A : Type 0} where
  unfoldable pub parse_arguments :
      (ℕ → String → A → Option A) → (A → A) → Arguments → A → A × Output
  parse_arguments case invalid [] app = (app, [])
  parse_arguments case invalid ((code, optarg) ∷ rest) app = elim (case code optarg app) [
    | some next ↦ parse_arguments case invalid rest next
    | none ↦ (invalid app, invalid_option_line ∷ [])
  ]

unfoldable pub server_application : String → Arguments → Application × Output
unfolding parse_arguments server_option
server_application endpoint args =
    parse_arguments server_option invalid_option args (defaults endpoint)

unfoldable pub client_application : ℕ → String → String → Arguments → ClientApplication × Output
unfolding parse_arguments client_option
client_application letter endpoint text args =
    parse_arguments (client_option letter) (λ app. record app { base = invalid_option app.base })
      args (record { base = defaults endpoint; text = text })

unfoldable pub echo_server_application : Arguments → Application × Output
unfolding server_application
echo_server_application = server_application "/tmp/com_example_echo.sock"

unfoldable pub chat_server_application : Arguments → Application × Output
unfolding server_application
chat_server_application = server_application "/tmp/com_example_chat.sock"

unfoldable pub notification_server_application : Arguments → Application × Output
unfolding server_application
notification_server_application = server_application "/tmp/oizys_example_notify.sock"

unfoldable pub echo_client_application : Arguments → ClientApplication × Output
unfolding client_application
echo_client_application = client_application b'm' "/tmp/com_example_echo.sock" "Hi"

unfoldable pub chat_client_application : Arguments → ClientApplication × Output
unfolding client_application
chat_client_application = client_application b'u' "/tmp/com_example_chat.sock" "Bob"

-- This client has a user, "Bob", and no option for it.
unfoldable pub notification_client_application : Arguments → ClientApplication × Output
unfolding server_application
notification_client_application args =
    let (base, out) = server_application "/tmp/oizys_example_notify.sock" args in
    (record { base = base; text = "Bob" }, out)
