-- ===== src/Example/Options/ParsedClients.antt =====
-- What the command lines of the clients in example/ come to.
use Prim.Native.String.{String}
use liboizys.Common.{ℕ, true, false, [], ◌∷◌, ◌++◌, ◌≡◌, ◌≢◌, ◌⊎◌, inl, inr, refl, arith, All}
use liboizys.Example.Options.{
  ClientApplication, Arguments, exit_success, exit_failure, defaults, invalid_option,
  invalid_option_line, client_option, parse_arguments, client_application,
}
use liboizys.Example.Options.Parsed.{last_of, asks_help}

abbrev pub IsClientOption : ℕ → ℕ × String → Type 0
IsClientOption letter (code, optarg) = (code ≡ letter) ⊎ ((code ≡ b'h') ⊎ (code ≡ b'e'))

client_loop :
    (letter : ℕ) (args : Arguments) (app : ClientApplication)
    → letter ≢ b'h'
    → letter ≢ b'e'
    → All (IsClientOption letter) args
    → parse_arguments
        (client_option letter)
        (λ a. record a { base = invalid_option a.base })
        args
        app
      ≡ (
        record {
          base = record app.base {
            show_help = asks_help args app.show_help;
            endpoint = last_of b'e' args app.endpoint;
          };
          text = last_of letter args app.text;
        },
        [],
      )
unfolding parse_arguments client_option
client_loop letter [] app h e known = refl
client_loop letter ((code, optarg) ∷ rest) app h e (inl own, known) =
    ground (arith, client_loop letter rest (record app { text = optarg }) h e known)
client_loop letter ((code, optarg) ∷ rest) app h e (inr (inl help), known) = ground (
  arith,
  client_loop letter rest (record app { base = record app.base { show_help = true } }) h e known,
)
client_loop letter ((code, optarg) ∷ rest) app h e (inr (inr endpoint), known) = ground (
  arith,
  client_loop letter rest (record app { base = record app.base { endpoint = optarg } }) h e known,
)

-- A client, on a command line of options that it knows: it succeeds, shows its help exactly when an
-- option asks for it, and takes the last endpoint and the last value of its own option that are given,
-- or its own.
pub client_application_known :
    (letter : ℕ) (endpoint text : String) (args : Arguments)
    → letter ≢ b'h'
    → letter ≢ b'e'
    → All (IsClientOption letter) args
    → client_application letter endpoint text args ≡ (
      record {
        base = record {
          exit_code = exit_success;
          show_help = asks_help args false;
          endpoint = last_of b'e' args endpoint;
        };
        text = last_of letter args text;
      },
      [],
    )
unfolding client_application
client_application_known letter endpoint text args h e known =
    client_loop letter args (record { base = defaults endpoint; text = text }) h e known

client_loop_stops :
    (letter : ℕ) (args more : Arguments) (code : ℕ) (optarg : String) (app : ClientApplication)
    → letter ≢ b'h'
    → letter ≢ b'e'
    → All (IsClientOption letter) args
    → code ≢ letter
    → code ≢ b'h'
    → code ≢ b'e'
    → parse_arguments
        (client_option letter)
        (λ a. record a { base = invalid_option a.base })
        (args ++ (code, optarg) ∷ more)
        app
      ≡ (
        record {
          base = record {
            exit_code = exit_failure;
            show_help = true;
            endpoint = last_of b'e' args app.endpoint;
          };
          text = last_of letter args app.text;
        },
        invalid_option_line ∷ [],
      )
unfolding parse_arguments client_option
client_loop_stops letter [] more code optarg app h e known nl nh ne = ground arith
client_loop_stops letter ((c, o) ∷ rest) more code optarg app h e (inl own, known) nl nh ne =
    ground (
      arith,
      client_loop_stops letter rest more code optarg (record app { text = o }) h e known nl nh ne,
    )
client_loop_stops letter ((c, o) ∷ rest) more code optarg app h e (inr (inl help), known) nl nh ne =
    ground (
      arith,
      client_loop_stops letter rest more code optarg
          (record app { base = record app.base { show_help = true } }) h e known nl nh ne,
    )
client_loop_stops letter ((c, o) ∷ rest) more code optarg app h e (inr (inr endpoint), known) nl nh
      ne =
    ground (
      arith,
      client_loop_stops letter rest more code optarg
          (record app { base = record app.base { endpoint = o } }) h e known nl nh ne,
    )

-- The first option that a client does not know makes it print an error, show its help and fail; what
-- follows the option is not read.
pub client_application_invalid :
    (letter : ℕ) (endpoint text : String) (args more : Arguments) (code : ℕ) (optarg : String)
    → letter ≢ b'h'
    → letter ≢ b'e'
    → All (IsClientOption letter) args
    → code ≢ letter
    → code ≢ b'h'
    → code ≢ b'e'
    → client_application letter endpoint text (args ++ (code, optarg) ∷ more) ≡ (
      record {
        base = record {
          exit_code = exit_failure;
          show_help = true;
          endpoint = last_of b'e' args endpoint;
        };
        text = last_of letter args text;
      },
      invalid_option_line ∷ [],
    )
unfolding client_application
client_application_invalid letter endpoint text args more code optarg h e known nl nh ne =
    client_loop_stops letter args more code optarg
      (record { base = defaults endpoint; text = text }) h e known nl nh ne
