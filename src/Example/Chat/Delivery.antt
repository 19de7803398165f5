-- ===== src/Example/Chat/Delivery.antt =====
-- A line from one chat client to another, through the chat server: example/chat/chat_client.cpp and
-- example/chat/chat_server.cpp.
use liboizys.Common.{
  ℕ, ◌≡◌, ◌≢◌, refl, sym, ap, ◌∙◌, true, ok, Result, Option, some, [], ◌∷◌, ◌++◌, length,
}
use liboizys.ComMessage.{ComMessage, com_message}
use liboizys.ComMessage.RoundTrip.{com_message-fields, com_message-payload}
use liboizys.Session.{Bytes, World, header_read}
use liboizys.Session.Methods.{run, exec, exec_with, on_session, enqueue}
use liboizys.Session.Events.{received, steps}
use liboizys.Session.Valid.{IsFramed}
use liboizys.Session.Wire.{frames}
use liboizys.Session.Wire.Trace.{wire}
use liboizys.Session.Receive.{IsWaiting, deliveries, receive_frame}
use liboizys.Session.Transmit.{
  completions, IsIdle, enqueue-pending, pending-IsIdle, drain_wire, arriving, arriving-deliveries,
}
use liboizys.Example.Program.{print, chat_line}
use liboizys.Example.ServerMain.{reads}
use liboizys.Example.SessionMap.{find}
use liboizys.Example.SessionMap.Keys.{each}
use liboizys.Example.SessionMap.Places.{IsMap}
use liboizys.Example.Hub.Finds.{find-each, find-update_other}
use liboizys.Example.Hub.{Hub, Peer, hub_step}
use liboizys.Example.Hub.Peers.{queued}
use liboizys.Example.Chat.{State, client_onmessage}
use liboizys.Example.Chat.Room.{chat_handlers}
use liboizys.Example.Chat.Room.Broadcast.{received_by}
use liboizys.Example.Chat.Room.Frames.{frame_broadcasts}
use liboizys.Example.Chat.Client.{Client, Console, client_step, console_reads}
use liboizys.Example.Chat.Client.Lines.{IsLine, typed_line}

-- A session with nothing to write gets a message.
queued_wire :
    {W : Type 0} (m : ComMessage) (w : World W)
    → IsIdle w.session
    → wire (completions (m ∷ [])) (on_session (λ s. (enqueue m s).0) w) ≡ frames (m ∷ [])
queued_wire m w idle =
    ap (λ (v : World _). wire (completions (m ∷ [])) (on_session (λ s. (enqueue m s).0) v))
      (sym (pending-IsIdle w idle))
    ∙ ap (λ (v : World _). wire (completions (m ∷ [])) v) (enqueue-pending m [] w)
    ∙ drain_wire (m ∷ []) w

module _ (parse : Bytes → Option (Bytes × Bytes)) where
  client_receives :
      (m : ComMessage) (user content : Bytes) (w : World State)
      → IsFramed m
      → parse m.payload ≡ some (user, content)
      → IsWaiting (client_onmessage parse) w.session
      → (steps (deliveries (m ∷ [])) w).client
        ≡ record w.client { output = print (chat_line user content) w.client.output }
  unfolding client_onmessage run exec exec_with
  client_receives m user content w framed parsed waiting =
      let w' : World State = on_session (λ s. record s { message_to_read = m; reads = [] }) w in
      ap (λ (v : World State). v.client)
        (receive_frame m.payload m (client_onmessage parse) w framed waiting)
      ∙ rw (parsed, client_onmessage) refl

  -- A line that is typed at one chat client, alone, goes to any other client of the server. The message
  -- of the line can be sent, and is parsed back to the user and the line. The first client then
  -- writes the bytes that the server reads from it; the session of any other client in the map of
  -- the server, with nothing else to write, then writes the bytes that this client reads; and it
  -- prints the user and the line, as the server does.
  pub line_arrives :
      (serialize : Bytes → Bytes → Bytes) (user : Bytes) (b : ℕ) (line : Bytes) (m : ComMessage)
      (c : Client) (h : Hub) (id other : ℕ) (p q : Peer) (w : World State)
      → IsLine (b ∷ line)
      → com_message (serialize user (b ∷ line)) ≡ ok m
      → parse (serialize user (b ∷ line)) ≡ some (user, b ∷ line)
      → c.console ≡ record { user = user; buffer = []; reading = true }
      → IsIdle c.world.session
      → IsMap h.server.sessions
      → find id h.server.sessions ≡ some p
      → p.is_open ≡ true
      → p.reads ≡ header_read ∷ []
      → length p.message_to_read.header ≡ 4
      → other ≢ id
      → find other h.server.sessions ≡ some q
      → IsIdle q
      → IsWaiting (client_onmessage parse) w.session
      → let c' = (client_step parse serialize (console_reads ((b ∷ line) ++ b'\n' ∷ [])) c).0 in
        let h' =
          hub_step
            (chat_handlers parse)
            (reads id (received m.payload))
            (hub_step (chat_handlers parse) (reads id (received m.header)) h) in
        (wire (completions (m ∷ [])) c'.world ≡ arriving {W = Hub} (deliveries (m ∷ [])))
        × (h'.output ≡ print (chat_line user (b ∷ line)) h.output)
        × (q' : Peer) × (find other h'.server.sessions ≡ some q')
        × (wire (completions (m ∷ [])) (record { session = q'; client = tt })
            ≡ arriving {W = State} (deliveries (m ∷ [])))
        × ((steps (deliveries (m ∷ [])) w).client
            ≡ record w.client { output = print (chat_line user (b ∷ line)) w.client.output })
  line_arrives serialize user b line m c h id other p q w plain framed parsed ready idle distinct
        found is_open waiting four differ known quiet listening =
      let bytes = (b ∷ line) ++ b'\n' ∷ [] in
      let xs = h.server.sessions in
      let framed' : IsFramed m = com_message-payload (serialize user (b ∷ line)) m framed in
      let parsed' = ap parse (com_message-fields (serialize user (b ∷ line)) m framed).1 ∙ parsed in
      let typed =
        typed_line parse serialize b line [] bytes m c plain (ap (λ (k : Console). k.reading) ready)
          (ap (λ (k : Console). k.buffer ++ bytes) ready)
          (ap (λ (k : Console). com_message (serialize k.user (b ∷ line))) ready ∙ framed) in
      let relayed =
        frame_broadcasts parse id p m user (b ∷ line) h framed' parsed' distinct found is_open
          waiting four in
      (
        ap (λ (e : Client × Result (Unit {0})). wire (completions (m ∷ [])) e.0.world) typed
            ∙ queued_wire m c.world idle
            ∙ sym (arriving-deliveries Hub (m ∷ [])),
        ap (λ (k : Hub). k.output) relayed,
        queued m q,
        ap (λ (k : Hub). find other k.server.sessions) relayed
            ∙ find-update_other id other (received_by m (record p { message_to_read = m }))
                (queued m q) (each (queued m) xs) differ (find-each (queued m) other q xs known),
        queued_wire m (record { session = q; client = tt }) quiet
            ∙ sym (arriving-deliveries State (m ∷ [])),
        client_receives m user (b ∷ line) w framed' parsed' listening,
      )
