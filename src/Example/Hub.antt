-- ===== src/Example/Hub.antt =====
-- The sessions of the chat and of the notification server in one store, with the handlers that
-- `do_accept` gives them: example/chat/chat_server.cpp and example/notification/notification_server.cpp.
-- A handler of one session reaches all others through the server, and its own by a call.
pub mod Peers
pub mod Finds
pub mod Registry
pub mod Safety
pub mod Shutdown
pub mod Orders
pub mod Main
use liboizys.Common.{
  ℕ, Bool, true, false, Option, none, some, List, [], ◌∷◌, if◌then◌else◌, Result, ok,
}
use liboizys.Session.{
  Bytes, Script, done, update, sets_onclose, sets_onmessage, CloseHandler, MessageHandler,
  AsioSession, World, create_session, success,
}
use liboizys.Session.Methods.{run, no_close_handler, no_message_handler}
use liboizys.Session.Events.{ReadResult, WriteResult, Event, read_completes, write_completes, step}
use liboizys.Example.Program.{Output, print, proceed, new_connection, connection_closed}
use liboizys.Example.ServerMain.{
  HubEvent, accepts, reads, writes, Status, running, searching, broken,
}
use liboizys.Example.SessionMap.{Server, SessionApi, server, find, add, remove, defined, undefined}
use liboizys.Example.SessionMap
use liboizys.Example.SessionMap.Ids.{ids}
use liboizys.Example.SessionMap.Sessions.{result_of}

-- A session in the map, without its handlers.
abbrev pub Peer : Type 0
Peer = AsioSession (Unit {0})

pub record Hub : Type 0 where
  pub server : Server Peer
  pub output : Output
  pub status : Status

-- What `do_accept` gives to the session at an id.
pub record Handlers : Type 0 where
  pub onclose : ℕ → CloseHandler Hub
  pub onmessage : ℕ → MessageHandler Hub

-- `session->send(message)` for a session that no handler is looked at of.
unfoldable pub peers : SessionApi Peer
peers = record {
  send = λ message p.
      let (w, sent) = liboizys.Session.Methods.send message (record { session = p; client = tt }) in
      (w.session, result_of sent);
}

abbrev pub undress : {W : Type 0} → AsioSession W → Peer
undress s = record {
  is_open = s.is_open;
  message_to_read = s.message_to_read;
  write_queue = s.write_queue;
  onmessage = none;
  onclose = none;
  reads = s.reads;
  writes = s.writes;
}

abbrev pub with_sessions : List (ℕ × Peer) → Hub → Hub
with_sessions xs h = record h { server = record h.server { sessions = xs } }

abbrev pub put : ℕ → Peer → Hub → Hub
put id p h = with_sessions (SessionMap.update id p h.server.sessions) h

-- `remove(id)`.
unfoldable pub removes : ℕ → Hub → Hub
unfolding remove
removes id h = elim (remove id h.server) [
  | defined s ↦ record h { server = s }
  | undefined ↦ record h { status = broken }
]

-- `[this, id](auto){ std::cout << "info: connection closed" << std::endl; remove(id); }`.
unfoldable pub onclose : ℕ → CloseHandler Hub
unfolding removes
onclose id err =
    update (λ h. removes id (record h { output = print connection_closed h.output })) done

-- `item.second->close()`.
abbrev pub close_session : World Hub → World Hub
close_session w = (liboizys.Session.Methods.close run w).0

module _ (handlers : Handlers) where
  -- The session with its handlers: those that it was given, until it is closed.
  abbrev pub dress : ℕ → Peer → AsioSession Hub
  dress id p = record {
    is_open = p.is_open;
    message_to_read = p.message_to_read;
    write_queue = p.write_queue;
    onmessage = some (if p.is_open then handlers.onmessage id else no_message_handler);
    onclose = some (if p.is_open then handlers.onclose id else no_close_handler);
    reads = p.reads;
    writes = p.writes;
  }

  -- Something happens to the session at an id.
  unfoldable pub at_session : ℕ → (World Hub → World Hub) → Hub → Hub
  unfolding find SessionMap.update
  at_session id f h = elim (find id h.server.sessions) [
    | none ↦ h
    | some p ↦
        let w = f (record { session = dress id p; client = h }) in
        put id (undress w.session) w.client
  ]

  unfoldable pub setup : ℕ → Script Hub
  setup id =
      sets_onclose (handlers.onclose id)
        (proceed (sets_onmessage (handlers.onmessage id) (proceed done)))

  -- The handler of `async_accept`, which is started again at its end.
  unfoldable pub accept : Bool → Hub → Hub
  unfolding add setup
  accept err h = if err then h else elim (add (create_session true) h.server) [
    | none ↦ record h { status = searching; output = print new_connection h.output }
    | some (s, id) ↦
        let h' = record h { server = s; output = print new_connection h.output } in
        let w = (run (setup id) (record { session = create_session true; client = h' })).0 in
        put id (undress w.session) w.client
  ]

  unfoldable pub hub_step : HubEvent → Hub → Hub
  unfolding accept at_session
  hub_step (accepts err) h = accept err h
  hub_step (reads id result) h = at_session id (step (read_completes result)) h
  hub_step (writes id result) h = at_session id (step (write_completes result)) h

  -- Nothing happens any more to a program that does not run.
  unfoldable pub hub_steps : List HubEvent → Hub → Hub
  unfolding hub_step
  hub_steps [] h = h
  hub_steps (e ∷ es) h = elim h.status [
    | running ↦ hub_steps es (hub_step e h)
    | searching ↦ h
    | broken ↦ h
  ]

  -- `close()`: every session of the map.
  unfoldable pub close_each : List ℕ → Hub → Hub
  unfolding at_session
  close_each [] h = h
  close_each (id ∷ rest) h = close_each rest (at_session id close_session h)

  unfoldable pub close : Hub → Hub
  unfolding close_each
  close h = close_each (ids h.server.sessions) h

abbrev pub start : Output → Hub
start out = record { server = server; output = out; status = running }
