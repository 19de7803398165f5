-- ===== src/Witnesses.antt =====
-- The theorems at concrete inputs, and runs of the model.
mod Closed
mod Exchange
mod Programs
mod Servers
mod Rooms
mod Talks
mod Streams
use liboizys.Common.{
  ℕ, ◌≤◌, ◌≡◌, ◌≢◌, ◌↔◌, refl, ◌++◌, inr, true, false, none, some, List, [], ◌∷◌, ok, throws,
  invalid_message_size, handler_already_set, arith, All,
}
use liboizys.ComMessage.{
  ComMessage, com_message, header_byte, parse_header, IsSendable, com_max_message_size,
}
use liboizys.ComMessage.Header.{parse_header_iff, big_endian}
use liboizys.ComMessage.RoundTrip.{
  com_message-throws, parse_header-com_message, com_message-parse_header,
}
use liboizys.Session.{
  Bytes, success, bad_message, io_error, Script, done, update, sends, closes, sets_onclose,
  sets_onmessage, sets_empty_onclose, sets_empty_onmessage, header_read, header_write, asio_session,
  create_session, World, finished, stuck,
}
use liboizys.Session.Methods.{
  returned, on_session, shut, drop_onmessage, no_close_handler, no_message_handler, enqueue, send,
  read_header, set_onmessage, close_intern, set_onclose, exec_with, exec, run,
}
use liboizys.Session.Events.{
  received, read_failed, written, write_failed, Event, client_runs, read_completes, write_completes,
  handle, step, steps,
}
use liboizys.Session.Valid.{IsValid, IsFramed}
use liboizys.Session.Invariant.{handle-IsValid, steps-set_onmessage-IsValid}
use liboizys.Session.Nesting.{exec-run}
use liboizys.Session.Closing.{
  close_intern_lem, steps-close_intern-IsRetired, close_intern-close_intern, IsRetired,
  close_intern_refuses, set_onclose-close_intern,
}
use liboizys.Session.Wire.{unsent, frames}
use liboizys.Session.Wire.Trace.{wire, all_entered, wire-frames}
use liboizys.Session.Receive.{receive_frame, receive_frames, deliveries, collect, HasCollected}
use liboizys.Session.Errors.{failure_closes, bad_header_closes}
use liboizys.Session.Stalled.{IsStalled, steps-write_failed-IsStalled, send-IsStalled}

abbrev pub hi : Bytes
hi = b'H' ∷ b'i' ∷ []

abbrev pub hi_message : ComMessage
hi_message = record { header = 0 ∷ 0 ∷ 0 ∷ 2 ∷ []; payload = hi }

-- The frame of the README.
pub hi_framed : com_message hi ≡ ok hi_message
unfolding com_message header_byte
hi_framed = refl

too_large_length : parse_header (record { header = 1 ∷ 0 ∷ 0 ∷ 2 ∷ []; payload = [] }) ≡ none
unfolding parse_header
too_large_length = refl

parse_header-com_message_example : parse_header hi_message ≡ some 2
parse_header-com_message_example = parse_header-com_message hi hi_message hi_framed

parse_header_iff_example :
    (parse_header (record { header = 0 ∷ 0x12 ∷ 0x34 ∷ 0x56 ∷ []; payload = [] }) ≡ some 0x123456)
    ↔ ((◌≡◌ {A = ℕ} 0 0)
        × (◌≡◌ {A = ℕ} 0x123456 (big_endian 0x12 0x34 0x56))
        × (1 ≤ 0x123456)
        × (0x123456 ≤ com_max_message_size))
parse_header_iff_example =
    parse_header_iff 0 0x12 0x34 0x56 0x123456 [] (omega arith) (omega arith) (omega arith)

com_message-parse_header_example : com_message hi ≡ ok hi_message
unfolding parse_header
com_message-parse_header_example =
    com_message-parse_header 0 0 0 2 hi (omega arith) (omega arith) (omega arith) refl

-- A client that keeps the messages that it is given, and notes the close by an empty one.
abbrev pub Log : Type 0
Log = List Bytes

abbrev pub note : Bytes → Log → Log
note message log = log ++ message ∷ []

abbrev pub on_close : {A : Type 0} → A → Script Log
on_close err = update (note []) done

-- An open session with both handlers, which waits for a header.
abbrev pub waiting : World Log
waiting = record {
  session = record (asio_session true) {
    onmessage = some (collect note);
    onclose = some on_close;
    reads = header_read ∷ [];
  };
  client = [];
}

-- The same with a message that is being written.
abbrev pub sending : World Log
sending = record {
  session = record waiting.session {
    write_queue = hi_message ∷ [];
    writes = header_write hi_message.header ∷ [];
  };
  client = [];
}

waiting-IsValid : IsValid waiting.session
waiting-IsValid = record { writes_valid = (tt, tt); reads_valid = (tt, refl) }

pub sending-IsValid : IsValid sending.session
sending-IsValid = record { writes_valid = ((hi_framed, tt), refl); reads_valid = (tt, refl) }

-- A client that has sent a message, and has tried to set an empty message handler, which is refused.
abbrev busy : World Log
busy =
    steps
      (client_runs (sends hi (λ _. sets_empty_onmessage (λ _. sets_empty_onclose (λ _. done))))
        ∷ write_completes written
        ∷ [])
      (set_onmessage (some (collect note))
        (record { session = create_session true; client = [] })).0

handle-IsValid_example :
    ((handle (write_completes (write_failed 32)) busy).1 ≢ stuck)
    × IsValid (handle (write_completes (write_failed 32)) busy).0.session
handle-IsValid_example = handle-IsValid (write_completes (write_failed 32)) busy (
    steps-set_onmessage-IsValid true (collect note) [] (
      client_runs (sends hi (λ _. sets_empty_onmessage (λ _. sets_empty_onclose (λ _. done))))
      ∷ write_completes written
      ∷ []))

abbrev pub start : Script Log
start = sets_onclose on_close (λ _. sets_onmessage (collect note) (λ _. sends hi (λ _. done)))

abbrev session_events : List (Event Log)
session_events =
    client_runs start
    ∷ write_completes written
    ∷ read_completes (received (0 ∷ 0 ∷ 0 ∷ 2 ∷ []))
    ∷ read_completes (received hi)
    ∷ write_completes written
    ∷ []

abbrev pub fresh : World Log
fresh = record { session = asio_session true; client = [] }

-- The session of the tests: it sends and receives "Hi".
session_runs :
    (wire session_events fresh ≡ 0 ∷ 0 ∷ 0 ∷ 2 ∷ hi)
    × ((steps session_events fresh).client ≡ hi ∷ [])
unfolding handle run exec exec_with set_onclose set_onmessage send enqueue com_message header_byte
    parse_header
session_runs = (refl, refl)

wire-frames_example :
    let w : World Log = record { session = create_session true; client = [] } in
    All IsFramed (all_entered session_events w)
    × (wire session_events w
          ++ unsent
              (steps session_events w).session.write_queue
              (steps session_events w).session.writes
        ≡ frames (all_entered session_events w))
wire-frames_example = wire-frames true [] session_events tt

exec-run_example :
    (exec 5 (closes done) waiting ≡ run (closes done) waiting)
    × ((run (closes done) waiting).1 ≢ stuck)
exec-run_example = exec-run 4 (closes done) waiting

receive_frame_example :
    steps (read_completes (received hi_message.header) ∷ read_completes (received hi) ∷ []) waiting
    ≡ on_session read_header
        (run
          (collect note hi)
          (on_session (λ s. record s { message_to_read = hi_message; reads = [] }) waiting)).0
receive_frame_example =
    receive_frame hi hi_message (collect note) waiting hi_framed (refl, refl, refl)
