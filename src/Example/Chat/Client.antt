-- ===== src/Example/Chat/Client.antt =====
-- example/chat/chat_client.cpp: the reader of the console, the loop and `main`. The generated code of
-- the chat message is a parameter, as in Chat.antt; the bytes of `app.user` are given to `main`.
pub mod Lines
pub mod Ends
use Prim.Native.String.{String}
use Prim.Native.Nat.{◌+◌}
use mathlib.Core.Option
use liboizys.Common.{
  ℕ, suc, Bool, true, false, Option, none, some, List, [], ◌∷◌, ◌++◌, ◌==◌, if◌then◌else◌, length,
  drop, Result, ok, throws, Exception, not,
}
use liboizys.Session.{
  Bytes, Script, done, sets_onclose, sets_onmessage, World, Outcome, finished, stuck,
  create_session,
}
use liboizys.Session.Methods.{run}
use liboizys.Session.Events.{Event, ReadResult, WriteResult, read_completes, write_completes, step}
use liboizys.Example.Options.{ClientApplication}
use liboizys.Example.Usage.{chat_client_usage}
use liboizys.Example.Program.{
  Output, print, proceed, error_line, Progress, waits, exits, goes_wrong,
}
use liboizys.Example.Chat.{State, client_onclose, client_onmessage, do_read}

-- `console_reader`: its user, what is in its buffer, and whether an `async_read_until` is under way.
pub record Console : Type 0 where
  pub user : Bytes
  pub buffer : Bytes
  pub reading : Bool

pub record Client : Type 0 where
  pub world : World State
  pub console : Console

abbrev pub console_reader : Console
console_reader = record {
  user = b'u' ∷ b'n' ∷ b'k' ∷ b'n' ∷ b'o' ∷ b'w' ∷ b'n' ∷ [];
  buffer = [];
  reading = false;
}

-- `console.start`, with its first `do_read`.
abbrev pub start_console : Bytes → Console → Console
start_console username console = record console { user = username; reading = true }

-- What happens to the client: `async_read_until` fails, or has read more, up to a line at least; a read
-- or a write of the session has been completed; a signal.
pub data ClientEvent : Type 0 where
  console_fails : ClientEvent
  console_reads : Bytes → ClientEvent
  reads : ReadResult → ClientEvent
  writes : WriteResult → ClientEvent
  signal : ClientEvent

-- `std::getline`: the line without its end, and what is left in the buffer.
unfoldable pub getline : Bytes → Option (Bytes × Bytes)
getline [] = none
getline (b ∷ bytes) =
    let others = Option.map (λ (split : Bytes × Bytes). (b ∷ split.0, split.1)) (getline bytes) in
    if b == b'\n' then some ([], bytes) else others

-- `buffer.consume(length)` after `getline`, for the length that `async_read_until` gave.
unfoldable pub consume_line : Bytes → Bytes → Bytes
consume_line line rest = drop (length line + 1) rest

-- The code of the handler from the `send`, and the next `do_read`; an exception leaves the handler.
unfoldable pub after_send : Outcome (Unit {0}) → Client → Client × Result (Unit {0})
after_send (finished (ok sent)) c =
    (record c { console = record c.console { reading = true } }, ok tt)
after_send (finished (throws e)) c = (c, throws e)
after_send stuck c = (c, ok tt)

module _ (parse : Bytes → Option (Bytes × Bytes)) (serialize : Bytes → Bytes → Bytes) where
  -- The handler of `async_read_until`. A completion without a line does not come about.
  unfoldable pub line_read : Bytes → Client → Client × Result (Unit {0})
  unfolding getline consume_line do_read after_send
  line_read bytes c = elim (getline (c.console.buffer ++ bytes)) [
    | none ↦ (c, ok tt)
    | some (line, rest) ↦
        let console : Console = record c.console {
          buffer = consume_line line rest;
          reading = false;
        } in
        let (w, outcome) = run (do_read serialize c.console.user (some line)).0 c.world in
        after_send outcome (record { world = w; console = console })
  ]

  unfoldable pub client_step : ClientEvent → Client → Client × Result (Unit {0})
  unfolding line_read
  client_step console_fails c = (record c { console = record c.console { reading = false } }, ok tt)
  client_step (console_reads bytes) c = if c.console.reading then line_read bytes c else (c, ok tt)
  client_step (reads result) c = (record c { world = step (read_completes result) c.world }, ok tt)
  client_step (writes result) c =
      (record c { world = step (write_completes result) c.world }, ok tt)
  client_step signal c = (
    record c {
      world = record c.world { client = record c.world.client { shutdown_requested = true } };
    },
    ok tt,
  )

  -- `while (!shutdown_requested) { context.run_one(); }`, and the handlers of exceptions.
  unfoldable pub client_loop : List ClientEvent → ℕ → Client → Progress Client
  unfolding client_step
  client_loop [] code c =
      if c.world.client.shutdown_requested then exits c.world.client.output code else waits c
  client_loop (e ∷ es) code c =
      let (c', raised) = client_step e c in
      let next : Progress Client = elim raised [
        | ok r ↦ client_loop es code c'
        | throws x ↦ exits (print (error_line x) c'.world.client.output) code
      ] in
      if c.world.client.shutdown_requested then exits c.world.client.output code else next

  unfoldable pub client_start : Script State
  unfolding client_onclose client_onmessage
  client_start =
      sets_onclose client_onclose (proceed (sets_onmessage (client_onmessage parse) (proceed done)))

  -- `main`; `user` has the bytes of `app.user`, `connected` is what `sock.connect` returns or throws.
  unfoldable pub client_main :
      Bytes → ClientApplication → Result (Unit {0}) → List ClientEvent → Progress Client
  unfolding client_start client_loop
  client_main user app connected es =
      if app.show_help then exits chat_client_usage app.exit_code else elim connected [
        | throws e ↦ exits (error_line e ∷ []) app.exit_code
        | ok opened ↦
            let (w, started) = run client_start (record {
              session = create_session true;
              client = record { shutdown_requested = false; output = [] };
            }) in
            elim started [
              | finished result ↦ elim result [
                | ok r ↦
                    client_loop es app.exit_code
                      (record { world = w; console = start_console user console_reader })
                | throws e ↦ exits (print (error_line e) w.client.output) app.exit_code
              ]
              | stuck ↦ goes_wrong
            ]
      ]
