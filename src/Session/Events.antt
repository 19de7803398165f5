-- ===== src/Session/Events.antt =====
-- src/asio_session.cpp: the handlers that the socket runs when it has completed an operation, and
-- the events of a session as steps. The environment chooses the events.
use liboizys.Common.{ℕ, [], ◌∷◌, some, none, List, overwrite}
use liboizys.ComMessage.{ComMessage, parse_header}
use liboizys.Session.{
  Bytes, bad_message, io_error, Script, ReadOp, WriteOp, header_read, payload_read, header_write,
  payload_write, AsioSession, World, Effect,
}
use liboizys.Session.Methods.{
  returned, resume, swallow, on_session, read_header, read_payload, write_header, write_payload,
  close_intern, run,
}

-- How a read ended: with the bytes that it read, or with an error after some bytes.
pub data ReadResult : Type 0 where
  received : Bytes → ReadResult
  read_failed : ℕ → Bytes → ReadResult

pub data WriteResult : Type 0 where
  written : WriteResult
  write_failed : ℕ → WriteResult

-- `write_queue.pop()`.
abbrev pub pop : List ComMessage → List ComMessage
pop [] = []
pop (message ∷ rest) = rest

module _ {W : Type 0} where
  -- The socket has written to the buffer of a read.
  abbrev pub fill_header : Bytes → AsioSession W → AsioSession W
  fill_header bytes s = record s {
    message_to_read = record s.message_to_read {
      header = overwrite bytes s.message_to_read.header;
    };
  }

  abbrev pub fill_payload : Bytes → AsioSession W → AsioSession W
  fill_payload bytes s = record s {
    message_to_read = record s.message_to_read {
      payload = overwrite bytes s.message_to_read.payload;
    };
  }

  -- The handler of `read_header`, after a read with no error.
  unfoldable pub accept_header : World W → Effect W (Unit {0})
  unfolding read_payload
  accept_header w = elim (parse_header w.session.message_to_read) [
    | none ↦ close_intern run bad_message w
    | some length ↦ (on_session (read_payload length) w, returned)
  ]

  unfoldable pub header_read_done : ReadResult → World W → Effect W (Unit {0})
  unfolding accept_header
  header_read_done (read_failed err bytes) w =
      close_intern run (io_error err) (on_session (fill_header bytes) w)
  header_read_done (received bytes) w = accept_header (on_session (fill_header bytes) w)

  -- `if (onmessage) { try { onmessage(message_to_read.payload); } catch (...) { } }`.
  unfoldable pub deliver : World W → Effect W (Unit {0})
  deliver w = elim w.session.onmessage [
    | none ↦ (w, returned)
    | some handler ↦ swallow (run (handler w.session.message_to_read.payload) w)
  ]

  unfoldable pub payload_read_done : ReadResult → World W → Effect W (Unit {0})
  unfolding deliver read_header
  payload_read_done (read_failed err bytes) w =
      close_intern run (io_error err) (on_session (fill_payload bytes) w)
  payload_read_done (received bytes) w =
      resume (deliver (on_session (fill_payload bytes) w))
        (λ _ w'. (on_session read_header w', returned))

  unfoldable pub header_write_done : WriteResult → World W → Effect W (Unit {0})
  unfolding write_payload
  header_write_done (write_failed err) w = close_intern run (io_error err) w
  header_write_done written w = (on_session write_payload w, returned)

  unfoldable pub payload_write_done : WriteResult → World W → Effect W (Unit {0})
  unfolding write_header
  payload_write_done (write_failed err) w = close_intern run (io_error err) w
  payload_write_done written w =
      (on_session (λ s. write_header (record s { write_queue = pop s.write_queue })) w, returned)

  -- The socket takes the oldest operation out, and runs its handler.
  unfoldable pub read_done : List ReadOp → ReadResult → World W → Effect W (Unit {0})
  unfolding header_read_done payload_read_done
  read_done [] result w = (w, returned)
  read_done (header_read ∷ rest) result w =
      header_read_done result (on_session (λ s. record s { reads = rest }) w)
  read_done (payload_read n ∷ rest) result w =
      payload_read_done result (on_session (λ s. record s { reads = rest }) w)

  unfoldable pub write_done : List WriteOp → WriteResult → World W → Effect W (Unit {0})
  unfolding header_write_done payload_write_done
  write_done [] result w = (w, returned)
  write_done (header_write bytes ∷ rest) result w =
      header_write_done result (on_session (λ s. record s { writes = rest }) w)
  write_done (payload_write bytes ∷ rest) result w =
      payload_write_done result (on_session (λ s. record s { writes = rest }) w)

-- What can happen to a session between two runs of client code: its client runs, or the oldest
-- read or write is completed.
pub data Event (W : Type 0) : Type 0 where
  client_runs : Script W → Event W
  read_completes : ReadResult → Event W
  write_completes : WriteResult → Event W

module _ {W : Type 0} where
  unfoldable pub handle : Event W → World W → Effect W (Unit {0})
  unfolding read_done write_done
  handle (client_runs script) w = run script w
  handle (read_completes result) w = read_done w.session.reads result w
  handle (write_completes result) w = write_done w.session.writes result w

  abbrev pub step : Event W → World W → World W
  step e w = (handle e w).0

  abbrev pub steps : List (Event W) → World W → World W
  steps [] w = w
  steps (e ∷ es) w = steps es (step e w)
