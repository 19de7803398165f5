-- ===== src/Lib.antt =====
-- A model of liboizys, a C++ library that sends messages over a local stream socket of
-- Boost.Asio, with the theorems that its framing, its session state machine and its error paths
-- keep.
--
-- Parts, and the files that model them:
-- + src/com_message.{hpp,cpp}: a message with its header of four bytes. ComMessage.antt has
--   `com_message` (the constructor, which throws), `com_message_default` and `parse_header`, with
--   the masks and shifts of the source; Common/Bits.antt is about what those do to bytes.
--   ComMessage/Header.antt gives both directions in plain arithmetic, ComMessage/RoundTrip.antt
--   relates them.
-- + src/asio_session.{hpp,cpp} and inc/oizys/session_i.hpp: the session. Session.antt has its
--   state: the fields of the class, and in `reads` and `writes` the operations of the socket that
--   have been started and not completed. Session/Methods.antt has the member functions that a
--   client calls (`send`, `set_onclose`, `set_onmessage`, `close`, `close_intern`, the
--   destructor) and the starts of the operations (`read_header`, `read_payload`, `write_header`,
--   `write_payload`). Session/Events.antt has the handlers that Boost.Asio runs when an operation
--   is completed, and `step`, one event of the environment: client code runs, or the oldest read
--   or write is completed.
-- + src/session.cpp: `create_session`, in Session.antt. src/version.cpp: Version.antt.
-- + example/: the programs that use the library. Example/Options.antt has the command lines of
--   the six programs, over the results of `getopt_long`, Example/Usage.antt their `print_usage`,
--   and Example/Program.antt the lines that they print; Example/Refused.antt is about their
--   `main` after an option that they do not know. Example/ServerMain.antt has the `main` of the
--   three servers, over a server (`ServerApi`): `serve` is its loop over what happens, a signal
--   and the timer included, and Example/ServerMain/Exits.antt what a server must keep
--   (`ServerLaws`) for its end to be known. Example/EchoServer.antt, Example/EchoClient.antt and
--   Example/Notification.antt have the handlers, which are client code, with the loops and `main`
--   of the echo client and of the notification client; Example/Chat.antt has handlers of the chat
--   programs, and Example/Chat/Client.antt the chat client with the buffer of its console.
-- + The class that keeps the sessions of the chat server and, word for word, of the notification
--   server is in two files. Example/SessionMap.antt is the map of sessions with `send_all`, over
--   any sessions with `send` (`SessionApi`), of which Example/SessionMap/Sessions.antt gives those
--   of the library; `close` is in the store below. `create_id_loop` counts its rounds: two more than there are sessions,
--   since 0 and each session rule out one number; Example/SessionMap/Ids.antt is about them.
--   The order of the `unordered_map` is that of the list; Example/SessionMap/Orders.antt and
--   Example/Hub/Orders.antt relate two orders of one map by the library's `Perm`.
--   Example/Hub.antt is the store (`Hub`) in which the handlers of a session reach all others:
--   `hub_step` is a connection, or a read or write of one session with the handlers that it
--   runs; `peers` are its sessions as those of the map. A `Hub` has a `Status`, for the search of
--   an id that does not end and for the undefined behaviour of `remove`. Example/Chat/Room.antt
--   and Example/Notification/Room.antt are the two servers in this store. Example/Echo.antt and
--   Example/Chat/Delivery.antt put clients and servers together.
-- + The echo server (`Host` in Example/EchoServer.antt) has its sessions in the order in which
--   they were accepted. Example/EchoServer/Talk.antt has the reads and writes of one connection as
--   a relation (`Talk`) between events and messages, and Example/EchoServer/Independent.antt picks
--   those of one connection out of all (`own`), with the bytes that it puts on the wire.
--   Example/Notification/Sessions.antt and Example/Notification/Rounds.antt do this for the
--   notification server, whose sessions close and are told of each round in one store.
--
-- Not modelled are the standard output and error apart (they are one list of lines), the
-- arguments of the programs before `getopt_long`, what Boost.Asio does with a socket that
-- is refused, and the generated code of the chat message, which is a parameter. An exception
-- that leaves the loop of a server would destroy it before its open sessions: that is
-- `goes_wrong`. Programs in other languages are not modelled.
--
-- Client code, that is the handlers and what calls the session, is any value of `Script`: it
-- touches its own state, calls the session, sees what the call returns or throws, and returns or
-- throws. So a handler may call the session that runs it. A handler that it sets may be an empty
-- `std::function` (`sets_empty_onclose`, `sets_empty_onmessage`); Session/Empty.antt is about
-- message handlers that are. The functions that run a handler take
-- the function that runs client code; `exec` runs it with handlers nested to a given depth, and
-- `run` is `exec 1`. A deeper nesting would be the outcome `stuck`. One level is enough since a
-- close handler runs only when the socket is closed, and stays set until it has ended; see
-- Session/Nesting.antt. Client code is taken to terminate, and to run on the thread of the
-- `io_context`, as the library asks.
--
-- Boost.Asio is the environment. It chooses which operation is completed when, and with which
-- bytes or error; nothing is assumed of its choice but what a theorem says. An operation that is
-- completed without an error has transferred its whole buffer, as `async_read` and `async_write`
-- document; a failed read may have written a part of its buffer. Operations of one direction are
-- completed in the order in which they were started. Closing the socket is taken not to throw. A
-- byte is a number below 256, `size_t` has 64 bits, and a `std::string` is the list of its bytes.
--
-- Session/Wire.antt, Session/Receive.antt and Session/Transmit.antt are about the bytes: what a
-- session writes, what it takes, and one session sending to another. Session/Stream.antt has the
-- protocol of README.md as a function (`decode`) from the bytes of a stream to the contents and
-- the error with which it ends, and the socket that gives such a stream to the reads of a session
-- (`feed`). Each message takes one unit of the fuel of `decode`, for which the number of bytes is
-- enough; each read takes one of that of `feed`, for which one more than the bytes is enough.
-- Session/Stream/Decodes.antt and Session/Stream/Delivery.antt relate the two. Witnesses.antt and
-- its children have the theorems at concrete inputs.
--
-- The proofs rest on three rules. Session/Stable.antt and Session/Stable/Rule.antt: what each
-- single call keeps, all client code keeps. Session/Blind.antt and Session/Flags.antt: the same
-- for read events, and for all events, and properties that do not look at what is read or
-- written. Session/Oblivious.antt is about client code that does not look at its own state, and
-- Session/Quiet.antt about handlers that do not call the session. Session/Branches.antt has the
-- branches of the functions as equations.
pub mod Version
pub mod Common
pub mod ComMessage
pub mod Session
pub mod Example
mod Witnesses
