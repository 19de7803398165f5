-- ===== src/Example/Chat/Room/Broadcast.antt =====
-- example/chat/chat_server.cpp: a message that a session receives, in the store of all sessions.
use liboizys.Common.{
  ℕ, ◌≡◌, ◌≢◌, refl, sym, ap, ◌∙◌, subst, Bool, true, Option, some, List, [], ◌∷◌, ◌==◌, is_some,
  Bool-cases, inl, inr, arith, All, length,
}
use liboizys.ComMessage.{ComMessage}
use liboizys.Session.{Bytes, AsioSession, World, Effect, payload_read}
use liboizys.Session.Methods.{
  run, exec, exec_with, returned, enqueue, read_header, on_session, write_header,
}
use liboizys.Session.Events.{received}
use liboizys.Session.Valid.{IsFramed}
use liboizys.Session.Receive.{payload_received}
use liboizys.Example.Program.{print, chat_line}
use liboizys.Example.SessionMap
use liboizys.Example.SessionMap.{find}
use liboizys.Example.SessionMap.Ids.{ids, member, member-ids}
use liboizys.Example.SessionMap.Keys.{each}
use liboizys.Example.SessionMap.Places.{IsMap, IsNew-nil}
use liboizys.Example.ServerMain.{reads}
use liboizys.Example.Hub.{Hub, Peer, put, undress, dress, at_session, hub_step, with_sessions}
use liboizys.Example.Hub.Peers.{queued}
use liboizys.Example.Chat.Room.{onmessage, chat_handlers}
use liboizys.Example.Chat.Room.Relaying.{others, world, own_queued, run-relay}

-- The session that has received a message, and has it in its own queue.
abbrev pub received_by : ComMessage → Peer → Peer
received_by m p = read_header (
    queued m (record (undress p) {
      message_to_read = record p.message_to_read { payload = m.payload };
      reads = [];
    }))

-- The store after one session has received a message.
abbrev pub broadcast : ℕ → ComMessage → Peer → List (ℕ × Peer) → List (ℕ × Peer)
broadcast id m p xs = SessionMap.update id (received_by m p) (each (queued m) xs)

others-each :
    (id : ℕ) (m : ComMessage) (xs : List (ℕ × Peer))
    → All (λ key. key ≢ id) (ids xs)
    → others id m xs ≡ each (queued m) xs
others-each id m [] new = refl
others-each id m ((key, p) ∷ xs) (other, new) = ground (arith, others-each id m xs new)

update-others :
    (id : ℕ) (m : ComMessage) (q : Peer) (xs : List (ℕ × Peer))
    → IsMap xs
    → SessionMap.update id q (others id m xs) ≡ SessionMap.update id q (each (queued m) xs)
unfolding SessionMap.update
update-others id m q [] distinct = refl
update-others id m q ((key, p) ∷ xs) (new, distinct) = elim (Bool-cases (key == id)) [
  | inl own ↦ rw own (
      ap (λ (ys : List (ℕ × Peer)). (key, q) ∷ ys)
        (others-each id m xs (subst (λ (k : ℕ). All (λ i. i ≢ k) (ids xs)) (ground arith) new)))
  | inr foreign ↦
      rw foreign
        (ap (λ (ys : List (ℕ × Peer)). (key, queued m p) ∷ ys) (update-others id m q xs distinct))
]

undress-enqueue :
    (m : ComMessage) (s : AsioSession Hub)
    → undress (read_header (enqueue m s).0) ≡ read_header (queued m (undress s))
unfolding enqueue write_header read_header
undress-enqueue m s = ground arith

module _ (parse : Bytes → Option (Bytes × Bytes)) where
  onmessage_relays :
      (id : ℕ) (m : ComMessage) (user content : Bytes) (s : AsioSession Hub) (h : Hub)
      → IsFramed m
      → parse m.payload ≡ some (user, content)
      → IsMap h.server.sessions
      → member id (ids h.server.sessions) ≡ true
      → (run (onmessage parse id m.payload) (record { session = s; client = h })).0
        ≡ world
            (enqueue m s).0
            (others id m h.server.sessions)
            (record h { output = print (chat_line user content) h.output })
  unfolding onmessage run exec exec_with
  onmessage_relays id m user content s h framed parsed distinct known =
      let h' : Hub = record h { output = print (chat_line user content) h.output } in
      let xs = h.server.sessions in
      rw (parsed, onmessage)
        (ap (λ (e : Effect Hub (Unit {0})). e.0)
          (run-relay id m [] xs s h' framed (IsNew-nil Peer (ids xs)) distinct
            ∙ ap (λ (b : Bool). (world (own_queued m b s) (others id m xs) h', returned)) known))

  -- When the last bytes of a message of a size that can be sent have been read by an open session of
  -- the chat server, and the message can be parsed, the message is printed and put into the queue of
  -- every session of the map, once, and the session that has read it waits for the next header.
  pub hub_step_broadcasts :
      (id n : ℕ) (p : Peer) (m : ComMessage) (user content : Bytes) (h : Hub)
      → IsFramed m
      → parse m.payload ≡ some (user, content)
      → IsMap h.server.sessions
      → find id h.server.sessions ≡ some p
      → p.is_open ≡ true
      → p.reads ≡ payload_read n ∷ []
      → length m.payload ≡ length p.message_to_read.payload
      → hub_step (chat_handlers parse) (reads id (received m.payload)) h ≡ record h {
        server = record h.server { sessions = broadcast id m p h.server.sessions };
        output = print (chat_line user content) h.output;
      }
  unfolding hub_step at_session
  hub_step_broadcasts id n p m user content h framed parsed distinct found is_open reading same =
      let handlers = chat_handlers parse in
      let xs = h.server.sessions in
      let w : World Hub = record { session = dress handlers id p; client = h } in
      let s : AsioSession Hub = record w.session {
        message_to_read = record p.message_to_read { payload = m.payload };
        reads = [];
      } in
      let h' : Hub = record h { output = print (chat_line user content) h.output } in
      let known : member id (ids xs) ≡ true = sym (member-ids id xs) ∙ ap is_some found in
      let stepped =
        payload_received n (onmessage parse id) m.payload w (rw is_open refl) reading same
        ∙ ap (λ (v : World Hub). on_session read_header v)
            (onmessage_relays id m user content s h framed parsed distinct known) in
      rw (found, at_session)
        (ap (λ (v : World Hub). put id (undress v.session) v.client) stepped
          ∙ ap (λ (q : Peer). put id q (with_sessions (others id m xs) h')) (undress-enqueue m s)
          ∙ ap (λ (ys : List (ℕ × Peer)). with_sessions ys h')
              (update-others id m (received_by m p) xs distinct))
