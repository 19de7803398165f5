-- ===== src/Session.antt =====
-- src/asio_session.hpp and inc/oizys/session_i.hpp: the state of a session, and the code of its
-- client. Handlers are client code, so the two are declared together.
pub mod Methods
pub mod Events
pub mod Branches
pub mod Stable
pub mod Valid
pub mod Blind
pub mod Invariant
pub mod Empty
pub mod Nesting
pub mod Flags
pub mod Closing
pub mod Wire
pub mod Stalled
pub mod Receive
pub mod Transmit
pub mod Handled
pub mod Clients
pub mod Errors
pub mod Stream
pub mod Oblivious
pub mod Quiet
use liboizys.Common.{ℕ, Bool, List, [], Option, none, Exception, Result}
use liboizys.ComMessage.{ComMessage, com_message_default}

abbrev pub Bytes : Type 0
Bytes = List ℕ

-- `boost::system::error_code`: no error, `EBADMSG`, or the number of an error of the socket.
pub data ErrorCode : Type 0 where
  success bad_message : ErrorCode
  io_error : ℕ → ErrorCode

-- What a piece of client code does: it touches its own state `W`, calls the session, looks at what
-- the call returned or threw, and returns or throws. A handler that it sets is a function, or an empty
-- `std::function`.
pub data Script (W : Type 0) : Type 0 where
  done : Script W
  raise : Exception → Script W
  update : (W → W) → Script W → Script W
  inspect : (W → Script W) → Script W
  sends : Bytes → (Result ℕ → Script W) → Script W
  closes : Script W → Script W
  sets_onclose : (ErrorCode → Script W) → (Result (Unit {0}) → Script W) → Script W
  sets_onmessage : (Bytes → Script W) → (Result (Unit {0}) → Script W) → Script W
  sets_empty_onclose : (Result (Unit {0}) → Script W) → Script W
  sets_empty_onmessage : (Result (Unit {0}) → Script W) → Script W

abbrev pub CloseHandler : Type 0 → Type 0
CloseHandler W = ErrorCode → Script W

abbrev pub MessageHandler : Type 0 → Type 0
MessageHandler W = Bytes → Script W

-- An `async_read` that has been started, with the number of bytes that it asks for, and the member
-- function whose handler it runs.
pub data ReadOp : Type 0 where
  header_read : ReadOp
  payload_read : ℕ → ReadOp

-- An `async_write` that has been started, with the bytes in its buffer.
pub data WriteOp : Type 0 where
  header_write : Bytes → WriteOp
  payload_write : Bytes → WriteOp

-- `is_open` is what `socket_.is_open()` returns. `reads` and `writes` are the operations that the
-- socket has not completed, the oldest first. An empty `std::function` is `none`.
pub record AsioSession (W : Type 0) : Type 0 where
  pub is_open : Bool
  pub message_to_read : ComMessage
  pub write_queue : List ComMessage
  pub onmessage : Option (MessageHandler W)
  pub onclose : Option (CloseHandler W)
  pub reads : List ReadOp
  pub writes : List WriteOp

-- `asio_session(sock)`, for a socket that is open or not.
abbrev pub asio_session : {W : Type 0} → Bool → AsioSession W
asio_session sock = record {
  is_open = sock;
  message_to_read = com_message_default;
  write_queue = [];
  onmessage = none;
  onclose = none;
  reads = [];
  writes = [];
}

-- src/session.cpp.
unfoldable pub create_session : {W : Type 0} → Bool → AsioSession W
create_session sock = asio_session sock

-- A session and the state of its client.
pub record World (W : Type 0) : Type 0 where
  pub session : AsioSession W
  pub client : W

-- A call finishes, with a value or an exception; or it is stuck, where handlers are nested deeper
-- than the depth that it was given.
pub data Outcome (A : Type 0) : Type 0 where
  finished : Result A → Outcome A
  stuck : Outcome A

abbrev pub Effect : Type 0 → Type 0 → Type 0
Effect W A = World W × Outcome A
